-- ===== src/MerchantRules.antt =====
-- `MerchantRule.matches` of app/models.py, and `apply_merchant_rules` and `silence_merchant` of
-- app/services/ingest.py. The proofs are in the module below.
pub mod Silence
use receipt_manager.Prelude.{
  ℕ, ◌+◌, Bool, true, false, not, ◌&&◌, ◌||◌, Option, none, some, List, [], ◌∷◌, ◌++◌, map, find,
  any, update_where, Text, codes, text_eq, contains, leb, ◌==◌, if◌then◌else◌, is_empty,
}
use receipt_manager.Engine.{Engine}
use receipt_manager.Unicode.{Unicode}
use receipt_manager.Models.{
  Transaction, TransactionStatus, new, notified, lapsed, needs_attention, no_receipt_required,
  MerchantRule, Attachment, Job, Payload,
}
use receipt_manager.Jobs.{enqueue, discard_for_transaction}

-- `re.search(pattern, text, re.IGNORECASE)`: whether it matches, or `none` for `re.error`
abbrev pub Search : Type 0
Search = Text → Text → Option Bool

-- the truth value of a text that may be None
abbrev pub truthy : Option Text → Bool
truthy none = false
truthy (some s) = not (is_empty s)

unfoldable pub matches : Unicode → Search → MerchantRule → Text → Bool
matches u search rule merchant =
    if not rule.enabled || is_empty rule.pattern
    then false
    else if rule.is_regex
    then elim (search rule.pattern merchant) [ none ↦ false | some found ↦ found ]
    else contains (u.lower rule.pattern) (u.lower merchant)

-- `f"{notes}\n{note}" if notes else note`
unfoldable pub append_note : Option Text → Text → Option Text
append_note none note = some note
append_note (some notes) note = if is_empty notes then some note else some (notes ++ 10 ∷ note)

unfoldable pub add_rule_note : Option Text → Option Text → Option Text
add_rule_note notes none = notes
add_rule_note notes (some note) = if is_empty note then notes else append_note notes note

unfoldable pub rule_category : MerchantRule → Option Text → Option Text
rule_category rule category =
    if truthy rule.category && not (truthy category) then rule.category else category

-- the body of the loop of `apply_merchant_rules` for the rule that matched
unfoldable pub file_by : MerchantRule → Transaction → Transaction
file_by rule tx =
    let tx' = record tx { category = rule_category rule tx.category } in
    if rule.skip_receipt
    then record tx' { status = no_receipt_required; notes = add_rule_note tx.notes rule.note }
    else tx'

abbrev pub by_id : MerchantRule → MerchantRule → Bool
by_id a b = leb a.id b.id

unfoldable pub apply_merchant_rules :
    Unicode → Search → Engine → List MerchantRule → Transaction → Transaction × Option MerchantRule
apply_merchant_rules u search sql rules tx =
    elim (find (λ rule. matches u search rule tx.merchant)
      (sql.order_by MerchantRule by_id rules)) [
        | none ↦ (tx, none)
        | some rule ↦ (file_by rule tx, some rule)
      ]

unfoldable pub has_pattern : Text → MerchantRule → Bool
has_pattern pattern rule = text_eq rule.pattern pattern

-- the assignments to the rule in `silence_merchant`
unfoldable pub silence_rule : Option Text → Option Text → MerchantRule → MerchantRule
silence_rule category note rule = record rule {
  enabled = true;
  skip_receipt = true;
  category = if truthy category then category else rule.category;
  note = if truthy note then note else rule.note;
}

unfoldable pub rule_ids : List MerchantRule → List ℕ
rule_ids = map (λ rule. rule.id)

-- the rule of the pattern, found or added, and the table with it
unfoldable pub silenced_rule :
    Engine
    → Text
    → Option Text
    → Option Text
    → Bool
    → List MerchantRule
    → MerchantRule × List MerchantRule
silenced_rule sql pattern category note is_regex rules = elim (find (has_pattern pattern) rules) [
  | some rule ↦ (
    silence_rule category note rule,
    update_where (λ r. r.id == rule.id) (silence_rule category note) rules,
  )
  | none ↦
      let rule = silence_rule category note (record {
        id = sql.new_id (rule_ids rules);
        pattern = pattern;
        is_regex = is_regex;
        enabled = true;
        skip_receipt = true;
        category = none;
        note = none;
      }) in
      (rule, rules ++ rule ∷ [])
]

-- `stale_statuses`
unfoldable pub is_stale : TransactionStatus → Bool
is_stale new = true
is_stale notified = true
is_stale lapsed = true
is_stale needs_attention = true
is_stale _ = false

unfoldable pub attached_to : ℕ → Attachment → Bool
attached_to id att = elim att.transaction_id [ none ↦ false | some i ↦ i == id ]

-- a row that the loop of `silence_merchant` does not pass over
unfoldable pub is_silenced : Unicode → Search → MerchantRule → List Attachment → Transaction → Bool
is_silenced u search rule attachments tx =
    is_stale tx.status
    && not (any (attached_to tx.id) attachments)
    && matches u search rule tx.merchant

unfoldable pub file_silenced : MerchantRule → Transaction → Transaction
file_silenced rule tx = record tx {
  status = no_receipt_required;
  category = rule_category rule tx.category;
  notes = add_rule_note tx.notes rule.note;
  notify_message_id = if truthy tx.notify_message_id then none else tx.notify_message_id;
}

abbrev pub empty_payload : Payload
empty_payload = record {
  transaction_id = none;
  attachment_ids = [];
  hint = [];
  user_note = [];
  message_id = [];
  content = [];
}

-- the default of `max_attempts`
abbrev pub default_attempts : ℕ
default_attempts = 8

unfoldable pub withdraw : Engine → ℕ → Option Text → List Job → List Job
withdraw sql now none q = q
withdraw sql now (some id) q =
    if is_empty id
    then q
    else (enqueue sql now (codes "discord.delete_message")
        (record empty_payload { message_id = id }) (some (codes "delmsg:" ++ id)) 0 default_attempts
        q).0

unfoldable pub silence_jobs : Engine → ℕ → Transaction → List Job → List Job
silence_jobs sql now tx q =
    withdraw sql now tx.notify_message_id (discard_for_transaction tx.id q).0

-- the loop over the charges: the new rows, the new jobs, and how many were filed
unfoldable pub silence_charges :
    Unicode
    → Search
    → Engine
    → ℕ
    → MerchantRule
    → List Attachment
    → List Transaction
    → List Job
    → List Transaction × List Job × ℕ
silence_charges u search sql now rule attachments [] q = ([], q, 0)
silence_charges u search sql now rule attachments (tx ∷ txs) q =
    let filed = is_silenced u search rule attachments tx in
    let q' = if filed then silence_jobs sql now tx q else q in
    let (rest, jobs, affected) = silence_charges u search sql now rule attachments txs q' in
    (
      (if filed then file_silenced rule tx else tx) ∷ rest,
      jobs,
      if filed then affected + 1 else affected,
    )

pub record Silenced : Type 0 where
  pub rules : List MerchantRule
  pub transactions : List Transaction
  pub jobs : List Job
  pub affected : ℕ

unfoldable pub silence_merchant :
    Unicode
    → Search
    → Engine
    → ℕ
    → Text
    → Option Text
    → Option Text
    → Bool
    → List MerchantRule
    → List Attachment
    → List Transaction
    → List Job
    → Silenced
silence_merchant u search sql now pattern category note is_regex rules attachments txs q =
    let (rule, rules') = silenced_rule sql pattern category note is_regex rules in
    let (txs', jobs, affected) = silence_charges u search sql now rule attachments txs q in
    record { rules = rules'; transactions = txs'; jobs = jobs; affected = affected }
