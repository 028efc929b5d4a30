-- ===== src/Web/Receipts.antt =====
-- The handlers of app/web/routes_ui.py on receipts: `attach_orphan`, `detach`, `delete_attachment`,
-- `assign_orphan` and `retry_dead_jobs`.
use receipt_manager.Web.{
  commit_failed, Response, Site, success, failure, warning, redirected, Handled, respond, not_found,
  verify_csrf, log, has_row_id, is_row, page_of, attach_by_hand,
}
use receipt_manager.Prelude.{
  any, ℕ, Bool, true, false, not, ◌&&◌, Option, none, some, List, [], ◌∷◌, ◌++◌, find, keep,
  count_if, update_where, Text, codes, str, ltb, ◌==◌, if◌then◌else◌,
}
use receipt_manager.Models.{
  has_photo, notified, receipt_attached, Transaction, Attachment, AuditLog,
}
use receipt_manager.Jobs.{revive_dead}
use receipt_manager.Shortcode.{has_code}
use receipt_manager.Security.{User, Session}

abbrev pub set_charge : Option ℕ → Attachment → Attachment
set_charge tx_id att = record att { transaction_id = tx_id }

abbrev pub is_on : ℕ → Attachment → Bool
is_on tx_id att = elim att.transaction_id [ none ↦ false | some i ↦ i == tx_id ]

-- another receipt of the charge has the photo of this one
unfoldable pub is_taken : Attachment → Transaction → List Attachment → Bool
is_taken att tx = any (λ a. not (a.id == att.id) && has_photo tx.id att.sha256 a)

-- the assignments that both ways of attaching by hand make, with the flush of the commit, which
-- `uq_att_tx_sha` refuses where the photo is on the charge already
unfoldable pub put_on_charge : ℕ → Attachment → Transaction → AuditLog → Site → Response → Handled
put_on_charge now att tx entry site response =
    if is_taken att tx site.attachments
    then respond site commit_failed
    else respond
        (record site {
          attachments = update_where (is_row att.id) (set_charge (some tx.id)) site.attachments;
          transactions = update_where (has_row_id tx.id) (attach_by_hand now) site.transactions;
          audit = site.audit ++ entry ∷ [];
        })
        response

-- `att.original_filename or att.path`
abbrev pub name_or : Option Text → Text → Text
name_or none path = path
name_or (some []) path = path
name_or (some (c ∷ s)) path = c ∷ s

-- the charge that a receipt came from, when its last receipt is gone
unfoldable pub unattach : Bool → Transaction → Transaction
unattach is_last tx =
    if is_last && (elim tx.status [ receipt_attached ↦ true | _ ↦ false ])
    then record tx { status = notified; matched_at = none }
    else tx

-- `db.get(Transaction, att.transaction_id) if att.transaction_id else None`
unfoldable pub charge_of : Attachment → List Transaction → Option Transaction
charge_of att txs = elim att.transaction_id [
  | none ↦ none
  | some id ↦ if id == 0 then none else find (has_row_id id) txs
]

module _ (now : ℕ) (user : User) (session : Session) where
  unfoldable pub attach_orphan : Text → ℕ → Text → Site → Handled
  attach_orphan code attachment_id csrf_token site =
      let entry = λ (code : Text).
        log user.username (codes "receipt.attached") (codes "transaction") code
          (some (codes "attachment " ++ (str attachment_id ++ codes " (manual)"))) in
      verify_csrf session csrf_token site (elim (find (has_code code) site.transactions) [
        | none ↦ not_found site (codes "Not found")
        | some tx ↦ elim (find (is_row attachment_id) site.attachments) [
          | none ↦ not_found site (codes "Not found")
          | some att ↦
              put_on_charge now att tx (entry code) site
                (redirected (page_of code) (success (codes "Receipt attached.")))
        ]
      ])

  unfoldable pub assign_orphan : ℕ → Text → Text → Site → Handled
  assign_orphan attachment_id short_code csrf_token site =
      let entry =
        log user.username (codes "receipt.attached") (codes "transaction") short_code
          (some (codes "attachment " ++ (str attachment_id ++ codes " (orphan queue)"))) in
      verify_csrf session csrf_token site (elim (find (is_row attachment_id) site.attachments) [
        | none ↦ not_found site (codes "Not found")
        | some att ↦ elim (find (has_code short_code) site.transactions) [
          | none ↦ not_found site (codes "Not found")
          | some tx ↦ elim att.transaction_id [
            | some _ ↦ respond site (
                redirected (codes "/orphans")
                  (warning (codes "That receipt was already assigned.")))
            | none ↦ put_on_charge now att tx entry site (
                redirected (codes "/orphans")
                  (success (codes "Assigned to #" ++ (short_code ++ codes "."))))
          ]
        ]
      ])

  unfoldable pub detach_row : ℕ → Attachment → Site → Site
  detach_row attachment_id att site =
      let attachments = update_where (is_row attachment_id) (set_charge none) site.attachments in
      let entry : AuditLog =
        log user.username (codes "receipt.detached") (codes "attachment") (str attachment_id)
          none in
      elim (charge_of att site.transactions) [
        | none ↦ record site { attachments = attachments; audit = site.audit ++ entry ∷ [] }
        | some tx ↦
            let remaining =
              count_if (λ a. is_on tx.id a && not (a.id == attachment_id)) attachments in
            record site {
              attachments = attachments;
              transactions =
                  update_where (has_row_id tx.id) (unattach (remaining == 0)) site.transactions;
              audit = site.audit ++ entry ∷ [];
            }
      ]

  unfoldable pub detach : ℕ → Text → Site → Handled
  detach attachment_id csrf_token site =
      verify_csrf session csrf_token site (elim (find (is_row attachment_id) site.attachments) [
        | none ↦ not_found site (codes "Not found")
        | some att ↦ respond (detach_row attachment_id att site) (
            redirected
              (elim (charge_of att site.transactions) [
                | none ↦ codes "/orphans"
                | some tx ↦ page_of tx.short_code
              ])
              (success (codes "Receipt moved to the orphan queue.")))
      ])

  unfoldable pub delete_attachment : ℕ → Text → Site → Handled
  delete_attachment attachment_id csrf_token site =
      verify_csrf session csrf_token site (elim (find (is_row attachment_id) site.attachments) [
        | none ↦ not_found site (codes "Not found")
        | some att ↦ elim att.transaction_id [
          | some _ ↦ respond site (
              redirected (codes "/orphans") (
                failure (
                  codes
                    "Detach it from its charge first — this only removes unassigned receipts.")))
          | none ↦ record {
            site = record site {
              attachments = keep (λ a. not (a.id == attachment_id)) site.attachments;
              audit =
                  site.audit
                  ++ log user.username (codes "receipt.deleted") (codes "attachment")
                      (str attachment_id) (some (name_or att.original_filename att.path))
                    ∷ [];
            };
            response = redirected (codes "/orphans") (success (codes "Receipt deleted."));
            removed = (att.path, att.thumb_path) ∷ [];
          }
        ]
      ])

  unfoldable pub retry_dead_jobs : Text → Site → Handled
  retry_dead_jobs csrf_token site =
      let revived = revive_dead now site.jobs in
      verify_csrf session csrf_token site (
        if ltb 0 revived.1
        then respond
            (record site {
              jobs = revived.0;
              audit =
                  site.audit
                  ++ record {
                    actor = user.username;
                    action = codes "jobs.revived";
                    entity = none;
                    entity_id = none;
                    detail = some (str revived.1);
                  }
                    ∷ [];
            })
            (redirected (codes "/health")
              (success (codes "Requeued " ++ (str revived.1 ++ codes " job(s)."))))
        else respond (record site { jobs = revived.0 })
            (redirected (codes "/health") (success (codes "No dead jobs to requeue."))))
