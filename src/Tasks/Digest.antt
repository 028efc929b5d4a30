-- ===== src/Tasks/Digest.antt =====
-- `_build_digest` of app/discordbot/tasks.py: the daily text on the outstanding receipts.
use receipt_manager.Prelude.{
  ℕ, ◌+◌, ◌-◌, ◌*◌, Bool, false, not, ◌&&◌, ◌||◌, Option, none, some, List, [], ◌∷◌, ◌++◌, map, any,
  keep, count_if, length, Text, codes, str, ltb, leb, ◌==◌, if◌then◌else◌,
}
use receipt_manager.Engine.{Engine}
use receipt_manager.Unicode.{Unicode}
use receipt_manager.Models.{lapsed, is_matchable, seconds, Transaction}
use receipt_manager.Formatting.{money}
use receipt_manager.Bot.{Chat, is_orphan}
use receipt_manager.Tasks.{DiscordSettings, join, joined, has_rows}

-- the lines of the digest for some charges
unfoldable pub digest_lines : Unicode → (ℕ → Text) → List Transaction → List Text
digest_lines u time_of txs =
    map
      (λ tx.
        12288 ∷ codes "`#"
        ++ tx.short_code
        ++ codes "` · "
        ++ money u tx.amount_minor tx.currency
        ++ codes " · "
        ++ tx.merchant
        ++ codes " · "
        ++ time_of tx.occurred_at)
      txs

-- `tx.notified_at <= warn_cutoff`, with the hours on the side where ℕ does not cut them off
unfoldable pub warns : ℕ → ℕ → Transaction → Bool
warns lapse_hours now tx = elim tx.notified_at [
  | none ↦ false
  | some at ↦ leb (at + seconds ((lapse_hours - 24) * 3600)) now
]

unfoldable pub lapsed_recently : ℕ → Transaction → Bool
lapsed_recently now tx = elim tx.status [
  | lapsed ↦ elim tx.lapsed_at [ none ↦ false | some at ↦ leb now (at + seconds (7 * 24 * 3600)) ]
  | _ ↦ false
]

unfoldable pub outstanding : Engine → List Transaction → List Transaction
outstanding sql txs =
    sql.order_by Transaction (λ a b. leb a.occurred_at b.occurred_at)
      (keep (λ tx. is_matchable tx.status) txs)

unfoldable pub digest_footer : ℕ → ℕ → List Text
digest_footer recently_lapsed orphans =
    let footer : List Text =
      (if ltb 0 recently_lapsed
        then (codes "Lapsed in the last 7 days: **" ++ str recently_lapsed ++ codes "**") ∷ []
        else [])
      ++ (if ltb 0 orphans
          then (codes "Unassigned receipts: **" ++ str orphans ++ codes "**") ∷ []
          else []) in
    if has_rows footer then [] ∷ join (codes " · ") footer ∷ [] else []

unfoldable pub build_digest :
    Unicode → (ℕ → Text) → Engine → DiscordSettings → ℕ → Chat → Option Text
build_digest u time_of sql settings now chat =
    let rows = outstanding sql chat.transactions in
    let recently_lapsed = count_if (lapsed_recently now) chat.transactions in
    let orphans = count_if is_orphan chat.attachments in
    let warned = warns settings.lapse_hours now in
    let lapsing = keep warned rows in
    let warning : List Text =
      if has_rows lapsing
      then (codes "⚠" ++ 65039 ∷ codes " **Lapsing soon**") ∷ digest_lines u time_of lapsing
        ++ [] ∷ []
      else [] in
    if not settings.digest_enabled || (length rows == 0 && orphans == 0 && recently_lapsed == 0)
    then none
    else some (
        joined (
          (codes "📋 **Outstanding receipts — " ++ str (length rows) ++ codes "**") ∷ [] ∷ warning
          ++ digest_lines u time_of (keep (λ tx. not (any (λ l. l.id == tx.id) lapsing)) rows)
          ++ digest_footer recently_lapsed orphans
          ++ [] ∷ codes "_Reply to any charge above with its receipt, or use_ `#code`." ∷ []))
