-- ===== src/Scheduler.antt =====
-- app/services/scheduler.py: the daily jobs and the alert where no mail comes in. The proofs are in
-- the module below. A tick reads its clock once: the hour and the date in the zone of the settings,
-- the date in UTC, and the time; the conversion between them is Python's.
pub mod Daily
use receipt_manager.Prelude.{
  ℕ, zero, suc, ◌+◌, ◌-◌, ◌*◌, ◌/◌, Bool, true, false, not, ◌||◌, Option, none, some, List, [], ◌∷◌,
  ◌++◌, Text, codes, text_eq, str, ltb, leb, ◌==◌, if◌then◌else◌,
}
use receipt_manager.Engine.{Engine}
use receipt_manager.Models.{Job, seconds}
use receipt_manager.Jobs.{enqueue}
use receipt_manager.MerchantRules.{empty_payload, default_attempts}

pub record Clock : Type 0 where
  pub now : ℕ
  pub local_hour : ℕ
  pub local_date : Text
  pub utc_date : Text  -- `.date().isoformat()`
  pub utc_stamp : Text  -- `.strftime("%Y%m%d")`

pub record SchedulerSettings : Type 0 where
  pub digest_hour : ℕ
  pub digest_enabled : Bool
  pub connected_to_qbo : Bool
  pub heartbeat_hours : ℕ
  pub configured_for_graph : Bool

-- the settings that the module and the poll loop write; `last_mail_at` as a time, or none where it
-- is missing or no time
pub record Runtime : Type 0 where
  pub last_digest_date : Text
  pub last_heartbeat_alert : Text
  pub last_mail_at : Option ℕ

unfoldable pub daily_kinds : SchedulerSettings → List Text
daily_kinds settings =
    (if settings.digest_enabled then codes "discord.digest" ∷ [] else [])
    ++ codes "workflow.lapse_sweep"
      ∷ (if settings.connected_to_qbo then codes "qbo.sync_accounts" ∷ [] else [])

unfoldable pub due_tasks : SchedulerSettings → Clock → Runtime → Runtime × List Text
due_tasks settings clock runtime =
    if leb settings.digest_hour clock.local_hour
    then if text_eq runtime.last_digest_date clock.local_date
      then (runtime, [])
      else (record runtime { last_digest_date = clock.local_date }, daily_kinds settings)
    else (runtime, [])

unfoldable pub enqueue_kinds : Engine → Clock → ℕ → List Text → List Job → List Job
enqueue_kinds sql clock index [] q = q
enqueue_kinds sql clock index (kind ∷ kinds) q =
    enqueue_kinds sql clock (index + 1) kinds
      (enqueue sql clock.now kind empty_payload (some (kind ++ b':' ∷ clock.utc_stamp)) (index * 20)
        default_attempts q).0

unfoldable pub heartbeat_text : ℕ → ℕ → Text
heartbeat_text quiet hours =
    codes "🔴 **Ingest may be broken.** No email has been received in "
    ++ str quiet
    ++ codes " hours (threshold "
    ++ str hours
    ++ codes "h). Check Settings → Health — charges may not be getting captured."

-- where no mail came for the hours of the settings, which are more than none
unfoldable pub is_quiet : SchedulerSettings → Clock → ℕ → Bool
is_quiet settings clock last_mail =
    leb (last_mail + seconds (settings.heartbeat_hours * 3600)) clock.now

unfoldable pub heartbeat_alert : SchedulerSettings → Clock → Runtime → Runtime × Option Text
heartbeat_alert settings clock runtime =
    if settings.heartbeat_hours == 0 || not settings.configured_for_graph
    then (runtime, none)
    else elim runtime.last_mail_at [
      | none ↦ (runtime, none)
      | some last_mail ↦
          if not (is_quiet settings clock last_mail)
            || text_eq runtime.last_heartbeat_alert clock.utc_date
          then (runtime, none)
          else (
            record runtime { last_heartbeat_alert = clock.utc_date },
            some (heartbeat_text ((clock.now - last_mail) / seconds 3600) settings.heartbeat_hours),
          )
    ]

unfoldable pub enqueue_heartbeat : Engine → Clock → Option Text → List Job → List Job
enqueue_heartbeat sql clock none q = q
enqueue_heartbeat sql clock (some message) q =
    (enqueue sql clock.now (codes "discord.alert") (record empty_payload { content = message })
      (some (codes "heartbeat:" ++ clock.utc_date)) 0 default_attempts q).0

-- one round of the loop of `run_forever`
unfoldable pub tick : Engine → SchedulerSettings → Clock → Runtime × List Job → Runtime × List Job
tick sql settings clock (runtime, q) =
    let due = due_tasks settings clock runtime in
    let q' = enqueue_kinds sql clock 0 due.1 q in
    let alert = heartbeat_alert settings clock due.0 in
    (alert.0, enqueue_heartbeat sql clock alert.1 q')
