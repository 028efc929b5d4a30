-- ===== src/Ingest/Waived.antt =====
-- `ingest_message` of app/services/ingest.py: the charges that are announced, and those that a rule waives.
use receipt_manager.Ingest.{
  ParseOutcome, empty_payload, MailSettings, is_filed, notify_key, announce, fields_of,
}
use receipt_manager.MerchantRules.{
  by_id, matches, Search, apply_merchant_rules, file_by, default_attempts,
}
use receipt_manager.Prelude.{
  codes, ◌&&◌, ◌≤◌, find_sound, any_of_count_if_pos, ℕ, ◌≡◌, refl, Bool, true, false, Option, none,
  some, List, [], ◌∷◌, ◌++◌, find, any, subst, count_if, Text, arith, Bool-cases, Option-cases, inl,
  inr, ◌⊎◌,
}
use receipt_manager.Engine.{Engine}
use receipt_manager.Unicode.{Unicode}
use receipt_manager.Models.{TransactionStatus, Transaction, MerchantRule, Job}
use receipt_manager.Jobs.Shape.{IsWellFormed}
use receipt_manager.Jobs.Enqueue.{IsQueued, enqueue-IsQueued, find_counts}
use receipt_manager.Shortcode.{allocate, has_code, next_short_code, tx_ids}
use receipt_manager.Refunds.{link_refund}

pub linked_rest :
    (sql : Engine) (txs : List Transaction) (tx : Transaction)
    → ((link_refund sql txs tx).0.status ≡ tx.status)
      × ((link_refund sql txs tx).0.merchant ≡ tx.merchant)
unfolding link_refund
linked_rest sql txs tx = (ground arith, ground arith)

-- a merchant rule that asks for no receipt of the charge
abbrev pub waives : Unicode → Search → Text → MerchantRule → Bool
waives u search merchant rule = rule.skip_receipt && matches u search rule merchant

file_by-filed :
    (rule : MerchantRule) (tx : Transaction)
    → is_filed tx.status ≡ false
    → is_filed (file_by rule tx).status ≡ true
    → rule.skip_receipt ≡ true
unfolding file_by
file_by-filed rule tx plain filed = elim (Bool-cases rule.skip_receipt) [
  | inl e ↦ e
  | inr e ↦ ground (arith, e, plain, filed)
]

file_by-merchant :
    (rule : MerchantRule) (tx : Transaction) → (file_by rule tx).merchant ≡ tx.merchant
unfolding file_by
file_by-merchant rule tx = ground arith

-- a charge that a rule filed is one that some rule of the table waives
pub ruled_waived :
    (u : Unicode) (search : Search) (sql : Engine) (rules : List MerchantRule) (tx : Transaction)
    → is_filed tx.status ≡ false
    → let ruled = (apply_merchant_rules u search sql rules tx).0 in
      (is_filed ruled.status ≡ false) ⊎ (any (waives u search ruled.merchant) rules ≡ true)
unfolding apply_merchant_rules matches
ruled_waived u search sql rules tx plain =
    let ordered : List MerchantRule = sql.order_by MerchantRule by_id rules in
    elim (Option-cases (find (λ rule. matches u search rule tx.merchant) ordered)) [
      | inl e ↦ inl (rw (e, apply_merchant_rules) plain)
      | inr (rule, e) ↦ elim (Bool-cases (is_filed (file_by rule tx).status)) [
        | inr open_still ↦ inl (rw (e, apply_merchant_rules) open_still)
        | inl filed ↦
            let waived : waives u search tx.merchant rule ≡ true =
              rw
                (
                  file_by-filed rule tx plain filed,
                  find_sound (λ r. matches u search r tx.merchant) ordered rule e,
                )
                refl in
            let some_row : 1 ≤ count_if (waives u search tx.merchant) ordered =
              find_counts (λ r. matches u search r tx.merchant) (waives u search tx.merchant)
                ordered rule e waived in
            let in_table : any (waives u search tx.merchant) rules ≡ true =
              any_of_count_if_pos (waives u search tx.merchant) rules (
                omega (
                  arith,
                  some_row,
                  sql.order_by_rows MerchantRule by_id (waives u search tx.merchant) rules,
                )) in
            inr (rw (e, apply_merchant_rules, file_by-merchant rule tx) in_table)
      ]
    ]

-- the job that announces a charge is in the queue
abbrev pub IsAnnounced : Engine → ℕ → ℕ → List Job → List Job → Type 0
IsAnnounced sql now tx_id =
    IsQueued sql now (codes "discord.notify")
      (record {
        transaction_id = some tx_id;
        attachment_ids = [];
        hint = [];
        user_note = [];
        message_id = [];
        content = [];
      })
      (notify_key tx_id) default_attempts

pub announced :
    (sql : Engine) (now : ℕ) (tx : Transaction) (q : List Job)
    → is_filed tx.status ≡ false
    → IsWellFormed q
    → IsAnnounced sql now tx.id q (announce sql now tx q)
unfolding announce
announced sql now tx q open_still h =
    rw (open_still, announce)
      (enqueue-IsQueued sql now (codes "discord.notify")
        (record empty_payload { transaction_id = some tx.id }) (notify_key tx.id) default_attempts q
        h)

-- the returned transaction, if there is one, has the status that it was to be made with
pub HasStatus : TransactionStatus → List Transaction × Option Transaction → Type 0
HasStatus status (table, none) = Unit
HasStatus status (table, some tx) = tx.status ≡ status

pub allocate-HasStatus :
    (sql : Engine) (make : ℕ → Text → Transaction) (status : TransactionStatus)
    (rounds : List (List Transaction)) (txs : List Transaction)
    → ((id : ℕ) (code : Text) → (make id code).status ≡ status)
    → HasStatus status (allocate sql make rounds txs)
unfolding allocate HasStatus
allocate-HasStatus sql make status [] txs h = tt
allocate-HasStatus sql make status (others ∷ rounds) txs h =
    let table : List Transaction = txs ++ others in
    let row : Transaction = make (sql.new_id (tx_ids table)) (next_short_code sql txs) in
    elim (Bool-cases (any (has_code row.short_code) table)) [
      | inl taken ↦ rw taken (allocate-HasStatus sql make status rounds table h)
      | inr free ↦ rw free (h (sql.new_id (tx_ids table)) (next_short_code sql txs))
    ]

pub status_of :
    (r : List Transaction × Option Transaction) (status : TransactionStatus) (tx : Transaction)
    → r.1 ≡ some tx
    → HasStatus status r
    → tx.status ≡ status
unfolding HasStatus
status_of (table, none) status tx e h = cc
status_of (table, some t) status tx e h =
    subst (λ t. t.status ≡ status) (let f : t ≡ tx = cc in f) h

pub fields_of-open :
    (settings : MailSettings) (outcome : ParseOutcome)
    → is_filed (fields_of settings outcome).1 ≡ false
unfolding fields_of is_filed
fields_of-open settings outcome = elim (Option-cases outcome.fields) [
  | inl e ↦ rw (e, fields_of) refl
  | inr (fields, e) ↦ rw (e, fields_of) refl
]
