-- ===== src/Web/Charges.antt =====
-- The handlers of app/web/routes_ui.py on a charge: `update_transaction`, `silence_merchant_route` and
-- `resend_notification`. `repr` of a number is its decimal print.
use receipt_manager.Prelude.{
  ℕ, ◌/◌, Bool, true, false, not, ◌||◌, Option, none, some, List, [], ◌∷◌, ◌++◌, any, find,
  update_where, Text, codes, str, read_digits, text_eq, is_empty, ◌==◌, if◌then◌else◌,
}
use receipt_manager.Prelude.Int.{ℤ, eq_ℤ}
use receipt_manager.Engine.{Engine}
use receipt_manager.Unicode.{Unicode, strip}
use receipt_manager.Formatting.{magnitude, sign}
use receipt_manager.Models.{
  TransactionStatus, new, notified, receipt_attached, verified, lapsed, no_receipt_required,
  needs_attention, ignored, Transaction, AuditLog,
}
use receipt_manager.Jobs.{enqueue}
use receipt_manager.Shortcode.{has_code}
use receipt_manager.QboSync.{QboAccount}
use receipt_manager.Parsing.Amount.{amount, unreadable, parse_amount}
use receipt_manager.MerchantRules.{
  Search, empty_payload, default_attempts, silenced_rule, silence_merchant,
}
use receipt_manager.Ingest.{status_value}
use receipt_manager.Security.{User, Session}
use receipt_manager.Web.{
  Site, success, failure, redirected, Handled, respond, not_found, verify_csrf, log, has_row_id,
  page_of,
}

-- the fields of the form
pub record Form : Type 0 where
  pub merchant : Text
  pub amount : Text
  pub category : Text
  pub category_account_id : Text
  pub category_mode : Text
  pub notes : Text
  pub status : Text

-- the charge and the changes so far
abbrev pub Edited : Type 0
Edited = Transaction × List Text

abbrev pub int_text : ℤ → Text
int_text a = sign a ++ str (magnitude a)

abbrev pub or_none : Text → Option Text
or_none [] = none
or_none (c ∷ s) = some (c ∷ s)

abbrev pub or_empty : Option Text → Text
or_empty none = []
or_empty (some s) = s

-- `TransactionStatus(value)`
unfoldable pub status_of : Text → Option TransactionStatus
status_of value =
    find (λ status. text_eq (status_value status) value)
      (new ∷ notified ∷ receipt_attached ∷ verified ∷ lapsed ∷ no_receipt_required ∷ needs_attention
        ∷ ignored ∷ [])

-- `QboAccount.label`
unfoldable pub label : QboAccount → Text
label account =
    if is_empty account.fully_qualified_name then account.name else account.fully_qualified_name

unfoldable pub joined_changes : List Text → Text
joined_changes [] = []
joined_changes (s ∷ []) = s
joined_changes (s ∷ t ∷ rest) = s ++ (codes "; " ++ joined_changes (t ∷ rest))

abbrev pub same_id : Option ℕ → Option ℕ → Bool
same_id none none = true
same_id none (some j) = false
same_id (some i) none = false
same_id (some i) (some j) = i == j

module _ (u : Unicode) where
  unfoldable pub edit_merchant : Form → Edited → Edited
  edit_merchant form (tx, changes) =
      if is_empty form.merchant || text_eq form.merchant tx.merchant then (tx, changes) else (
        record tx { merchant = form.merchant },
        changes
            ++ (codes "merchant " ++ (u.repr tx.merchant ++ (codes "->" ++ u.repr form.merchant)))
              ∷ [],
      )

  -- `none` where the amount cannot be read
  unfoldable pub edit_amount : Form → Edited → Option Edited
  edit_amount form (tx, changes) =
      if is_empty form.amount
      then some (tx, changes)
      else (elim (parse_amount u form.amount tx.currency) [
        | unreadable message ↦ none
        | amount minor currency ↦
            if eq_ℤ minor tx.amount_minor
            then some (tx, changes)
            else some (
              record tx { amount_minor = minor },
              changes
                  ++ (codes "amount "
                      ++ (int_text tx.amount_minor ++ (codes "->" ++ int_text minor)))
                    ∷ [],
            )
      ])

  -- `int(value) if value.strip().isdigit() else None`, on decimal digits
  unfoldable pub chosen_account : Text → Option ℕ
  chosen_account value =
      let digits = strip u value in
      if is_empty digits || any (λ c. not (u.is_digit c)) digits
      then none
      else some (read_digits 0 digits)

  unfoldable pub account_of : Option ℕ → List QboAccount → Option QboAccount
  account_of none accounts = none
  account_of (some id) accounts = if id == 0 then none else find (λ a. a.id == id) accounts

  unfoldable pub edit_account : Form → List QboAccount → Edited → Edited
  edit_account form accounts (tx, changes) =
      let chosen = chosen_account form.category_account_id in
      if same_id chosen tx.category_account_id
      then (tx, changes)
      else (elim (account_of chosen accounts) [
        | none ↦ (
          record tx { category_account_id = none; category = none },
          changes ++ codes "category -> uncategorised" ∷ [],
        )
        | some account ↦ (
          record tx { category_account_id = some account.id; category = some (label account) },
          changes ++ (codes "category -> " ++ label account) ∷ [],
        )
      ])

  unfoldable pub edit_category : Form → List QboAccount → Edited → Edited
  edit_category form accounts (tx, changes) =
      if text_eq form.category_mode (codes "qbo")
      then edit_account form accounts (tx, changes)
      else if text_eq form.category (or_empty tx.category)
      then (tx, changes)
      else (record tx { category = or_none form.category }, changes ++ codes "category" ∷ [])

  unfoldable pub edit_notes : Form → Edited → Edited
  edit_notes form (tx, changes) =
      if text_eq form.notes (or_empty tx.notes)
      then (tx, changes)
      else (record tx { notes = or_none form.notes }, changes ++ codes "notes" ∷ [])

  -- `none` for an unknown status
  unfoldable pub edit_status : Form → Edited → Option Edited
  edit_status form (tx, changes) =
      if is_empty form.status || text_eq form.status (status_value tx.status)
      then some (tx, changes)
      else (elim (status_of form.status) [
        | none ↦ none
        | some status ↦
            some (record tx { status = status }, changes ++ (codes "status->" ++ form.status) ∷ [])
      ])

  abbrev pub save : Transaction → Site → Site
  save tx site = record site {
    transactions = update_where (has_row_id tx.id) (λ t. tx) site.transactions;
  }

  abbrev pub no_changes : List Text → Bool
  no_changes [] = true
  no_changes (c ∷ cs) = false

  -- the assignments are on the row of the session, which is committed also where an error is shown
  unfoldable pub update_row : User → Text → Form → Transaction → Site → Handled
  update_row user code form tx site =
      let first = edit_merchant form (tx, []) in
      elim (edit_amount form first) [
        | none ↦ respond (save first.0 site) (
            redirected (page_of code)
              (failure (codes "Could not parse " ++ (u.repr form.amount ++ codes "."))))
        | some (tx', changes) ↦
            let third = edit_notes form (edit_category form site.accounts (tx', changes)) in
            elim (edit_status form third) [
              | none ↦
                  respond (save third.0 site)
                    (redirected (page_of code) (failure (codes "Unknown status.")))
              | some (tx'', all) ↦
                  let entry : AuditLog =
                    log user.username (codes "transaction.updated") (codes "transaction") code
                      (some (joined_changes all)) in
                  if no_changes all
                  then respond site (redirected (page_of code) (success (codes "No changes.")))
                  else respond (record (save tx'' site) { audit = site.audit ++ entry ∷ [] })
                      (redirected (page_of code) (success (codes "Saved.")))
            ]
      ]

  unfoldable pub update_transaction : User → Session → Text → Text → Form → Site → Handled
  update_transaction user session code csrf_token form site =
      verify_csrf session csrf_token site (elim (find (has_code code) site.transactions) [
        | none ↦ not_found site (codes "No such transaction")
        | some tx ↦ update_row user code form tx site
      ])

  module _ (sql : Engine) (now : ℕ) where
    unfoldable pub silence_pattern : Search → User → Text → Text → Site → Handled
    silence_pattern search user code pattern site =
        let rule = (silenced_rule sql pattern none none false site.rules).0 in
        let silenced =
          silence_merchant u search sql now pattern none none false site.rules site.attachments
            site.transactions site.jobs in
        let entry : AuditLog =
          log user.username (codes "merchant.silenced") (codes "merchant_rule") (str rule.id) (
            some (
              u.repr pattern
              ++ (codes "; " ++ (str silenced.affected ++ codes " charge(s) filed")))) in
        respond
          (record site {
            rules = silenced.rules;
            transactions = silenced.transactions;
            jobs = silenced.jobs;
            audit = site.audit ++ entry ∷ [];
          })
          (redirected (page_of code) (
            success (
              codes "Silenced "
              ++ (u.repr pattern
                  ++ (codes ". "
                      ++ (str silenced.affected
                          ++ codes
                              " outstanding charge(s) filed; future ones will not be announced."))))))

    unfoldable pub silence_merchant_route :
        Search → User → Session → Text → Text → Text → Site → Handled
    silence_merchant_route search user session code csrf_token pattern site =
        verify_csrf session csrf_token site (elim (find (has_code code) site.transactions) [
          | none ↦ not_found site (codes "No such transaction")
          | some tx ↦
              let match = strip u (if is_empty pattern then tx.merchant else pattern) in
              if is_empty match
              then respond site
                  (redirected (page_of code) (failure (codes "No merchant to silence.")))
              else silence_pattern search user code match site
        ])

    -- `int(utcnow().timestamp())`
    abbrev pub whole_seconds : ℕ → ℕ
    whole_seconds at = at / 1000000

    unfoldable pub renotify_key : ℕ → Text
    renotify_key tx_id = codes "notify:" ++ (str tx_id ++ (b':' ∷ str (whole_seconds now)))

    unfoldable pub resend_notification : User → Session → Text → Text → Site → Handled
    resend_notification user session code csrf_token site =
        verify_csrf session csrf_token site (elim (find (has_code code) site.transactions) [
          | none ↦ not_found site (codes "No such transaction")
          | some tx ↦
              respond
                (record site {
                  transactions =
                      update_where (has_row_id tx.id) (λ t. record t { notify_message_id = none })
                        site.transactions;
                  jobs =
                      (enqueue sql now (codes "discord.notify")
                        (record empty_payload { transaction_id = some tx.id })
                        (some (renotify_key tx.id)) 0 default_attempts site.jobs).0;
                  audit =
                      site.audit
                      ++ log user.username (codes "transaction.renotified") (codes "transaction")
                          code none
                        ∷ [];
                })
                (redirected (page_of code) (success (codes "Queued for Discord.")))
        ])
