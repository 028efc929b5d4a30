-- ===== src/Web/Delete.antt =====
-- `delete_transaction` of app/web/routes_ui.py. `cents` is the float format of the log line.
use receipt_manager.Prelude.{
  ℕ, ◌-◌, Bool, true, false, not, ◌&&◌, ◌||◌, Option, none, some, List, [], ◌∷◌, ◌++◌, map, any,
  find, keep, count_if, update_where, Text, codes, str, text_eq, ◌==◌, if◌then◌else◌,
}
use receipt_manager.Prelude.Int.{ℤ}
use receipt_manager.Engine.{Engine}
use receipt_manager.Models.{Transaction, Attachment, DiscordMessage, RawEmail, AuditLog, Job}
use receipt_manager.Jobs.{enqueue, discard_for_transaction}
use receipt_manager.Shortcode.{has_code}
use receipt_manager.MerchantRules.{empty_payload, default_attempts}
use receipt_manager.Security.{User, Session}
use receipt_manager.Web.{Site, success, redirected, Handled, not_found, verify_csrf, log}
use receipt_manager.Web.Receipts.{set_charge, is_on}

abbrev pub is_about : ℕ → DiscordMessage → Bool
is_about tx_id m = elim m.transaction_id [ none ↦ false | some i ↦ i == tx_id ]

abbrev pub refunds : ℕ → Transaction → Bool
refunds tx_id tx = elim tx.refund_of_id [ none ↦ false | some i ↦ i == tx_id ]

abbrev pub comes_from : ℕ → Transaction → Bool
comes_from email_id tx = elim tx.email_id [ none ↦ false | some i ↦ i == email_id ]

-- a message that is still in the channel
unfoldable pub is_posted : DiscordMessage → Bool
is_posted m =
    (elim m.deleted_at [ none ↦ true | some _ ↦ false ])
    && (text_eq m.kind (codes "notify") || text_eq m.kind (codes "confirm"))

-- the files to delete where they are not kept
unfoldable pub removed_files : ℕ → List Attachment → List (Text × Option Text)
removed_files tx_id atts = map (λ att. (att.path, att.thumb_path)) (keep (is_on tx_id) atts)

unfoldable pub release : ℕ → Bool → List Attachment → List Attachment
release tx_id delete_receipts atts =
    if delete_receipts
    then keep (λ att. not (is_on tx_id att)) atts
    else update_where (is_on tx_id) (set_charge none) atts

-- the mail of the charge goes too, unless another charge comes from it
unfoldable pub drop_email : Option ℕ → List Transaction → List RawEmail → List RawEmail
drop_email none txs emails = emails
drop_email (some id) txs emails =
    if any (comes_from id) txs then emails else keep (λ email. not (email.id == id)) emails

module _ (sql : Engine) (now : ℕ) where
  -- the jobs that tidy the channel
  unfoldable pub tidy : List DiscordMessage → List Job → List Job
  tidy [] q = q
  tidy (m ∷ ms) q =
      tidy ms
        (enqueue sql now (codes "discord.delete_message")
          (record empty_payload { message_id = m.message_id })
          (some (codes "delmsg:" ++ m.message_id)) 0 default_attempts q).0

  module _ (cents : ℤ → Text) (user : User) where
    unfoldable pub deleted_entry : Transaction → ℕ → ℕ → AuditLog
    deleted_entry tx attached files_removed =
        log user.username (codes "transaction.deleted") (codes "transaction") tx.short_code (
          some (
            tx.merchant
            ++ (b' '
                ∷ (cents tx.amount_minor
                    ++ (codes "; "
                        ++ (str files_removed
                            ++ (codes " file(s) deleted, "
                                ++ (str (attached - files_removed)
                                    ++ codes " kept as orphans"))))))))

    -- the tables without the charge, in the order of the handler
    unfoldable pub remove_charge : Transaction → Bool → Site → Site
    remove_charge tx delete_receipts site =
        let attached = count_if (is_on tx.id) site.attachments in
        let posted = keep is_posted (keep (is_about tx.id) site.messages) in
        let txs =
          keep (λ t. not (t.id == tx.id))
            (update_where (refunds tx.id) (λ t. record t { refund_of_id = none })
              site.transactions) in
        record site {
          transactions = txs;
          attachments = release tx.id delete_receipts site.attachments;
          messages = keep (λ m. not (is_about tx.id m)) site.messages;
          emails = drop_email tx.email_id txs site.emails;
          jobs = tidy posted (discard_for_transaction tx.id site.jobs).0;
          audit =
              site.audit
              ++ deleted_entry tx attached (if delete_receipts then attached else 0) ∷ [];
        }

    unfoldable pub deleted_note : Transaction → Bool → ℕ → Text
    deleted_note tx delete_receipts attached =
        if attached == 0
        then codes "Deleted #" ++ (tx.short_code ++ codes ".")
        else if delete_receipts
        then codes "Deleted #"
          ++ (tx.short_code ++ (codes " and " ++ (str attached ++ codes " receipt file(s).")))
        else codes "Deleted #"
          ++ (tx.short_code
              ++ (codes "; " ++ (str attached ++ codes " receipt(s) moved to the orphan queue.")))

    unfoldable pub delete_transaction : Session → Text → Text → Bool → Site → Handled
    delete_transaction session code csrf_token delete_receipts site =
        verify_csrf session csrf_token site (elim (find (has_code code) site.transactions) [
          | none ↦ not_found site (codes "No such transaction")
          | some tx ↦ record {
            site = remove_charge tx delete_receipts site;
            response = redirected (codes "/transactions") (
                success
                  (deleted_note tx delete_receipts (count_if (is_on tx.id) site.attachments)));
            removed = if delete_receipts then removed_files tx.id site.attachments else [];
          }
        ])
