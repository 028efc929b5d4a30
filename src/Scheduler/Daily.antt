-- ===== src/Scheduler/Daily.antt =====
-- What app/services/scheduler.py does once a day.
use receipt_manager.Prelude.{◌≡◌, true, none, some, Text, text_eq, text_eq_refl, arith}
use receipt_manager.Scheduler.{Clock, SchedulerSettings, Runtime, heartbeat_alert}

alerted :
    (settings : SchedulerSettings) (clock : Clock) (runtime : Runtime)
    → text_eq runtime.last_heartbeat_alert clock.utc_date ≡ true
    → heartbeat_alert settings clock runtime ≡ (runtime, none)
unfolding heartbeat_alert
alerted settings clock runtime h = ground (arith, h)

alerts :
    (settings : SchedulerSettings) (clock : Clock) (runtime : Runtime) (text : Text)
    → (heartbeat_alert settings clock runtime).1 ≡ some text
    → (heartbeat_alert settings clock runtime).0.last_heartbeat_alert ≡ clock.utc_date
unfolding heartbeat_alert
alerts settings clock runtime text e = ground (arith, e)

-- After an alert that no mail came in, no later tick of the same date in UTC raises another.
pub alert_once :
    (settings settings' : SchedulerSettings) (clock later : Clock) (runtime : Runtime) (text : Text)
    → (heartbeat_alert settings clock runtime).1 ≡ some text
    → later.utc_date ≡ clock.utc_date
    → let after = (heartbeat_alert settings clock runtime).0 in
      heartbeat_alert settings' later after ≡ (after, none)
alert_once settings settings' clock later runtime text e same =
    alerted settings' later (heartbeat_alert settings clock runtime).0
      (rw (same, alerts settings clock runtime text e) (text_eq_refl clock.utc_date))
