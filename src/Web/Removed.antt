-- ===== src/Web/Removed.antt =====
-- `delete_transaction` of app/web/routes_ui.py: nothing is left that refers to the charge.
use receipt_manager.Web.Settled.{spared, settled, IsSpared, IsSettled}
use receipt_manager.Prelude.{
  length-keep, suc, map, ℕ, ◌+◌, ◌≡◌, refl, ◌∙◌, ap, Bool, true, false, not, Option, none, some,
  List, [], ◌∷◌, ◌++◌, any, find, keep, count_if, update_where, length, Text, codes, ◌==◌,
  if◌then◌else◌, arith, Bool-cases, Option-cases, inl, inr, any-append, length-update_where, All,
}
use receipt_manager.Web.Delete.{
  removed_files, is_posted, is_about, refunds, release, tidy, remove_charge, delete_transaction,
}
use receipt_manager.Jobs.{
  job_ids, enqueue, insert_job, requeue, build, has_key, is_outstanding, has_id, delete_job,
  belongs_to, discard_for_transaction,
}
use receipt_manager.Prelude.Int.{ℤ}
use receipt_manager.Engine.{Engine}
use receipt_manager.Models.{Transaction, Attachment, DiscordMessage, Job, Payload}
use receipt_manager.Shortcode.{has_code}
use receipt_manager.MerchantRules.{empty_payload, default_attempts}
use receipt_manager.Security.{User, Session, check_csrf}
use receipt_manager.Web.{Site, verify_csrf, has_row_id}
use receipt_manager.Web.Receipts.{set_charge, is_on}

module _ {ℓ} {A : Type ℓ} where
  any-keep-not : (p : A → Bool) (xs : List A) → any p (keep (λ x. not (p x)) xs) ≡ false
  unfolding any keep
  any-keep-not p [] = refl
  any-keep-not p (x ∷ xs) = ground (arith, any-keep-not p xs)

  any-update_away :
      (p : A → Bool) (f : A → A) (xs : List A)
      → ((x : A) → p (f x) ≡ false)
      → any p (update_where p f xs) ≡ false
  unfolding any update_where
  any-update_away p f [] h = refl
  any-update_away p f (x ∷ xs) h = elim (Bool-cases (p x)) [
    | inl e ↦ rw (e, h x, any-update_away p f xs h) refl
    | inr e ↦ rw (e, e, any-update_away p f xs h) refl
  ]

  length-map {κ} : {B : Type κ} (f : A → B) (xs : List A) → length (map f xs) ≡ length xs
  length-map f [] = refl
  length-map f (x ∷ xs) = ap suc (length-map f xs)

  count_not :
      (p : A → Bool) (xs : List A) → count_if (λ x. not (p x)) xs + count_if p xs ≡ length xs
  unfolding count_if
  count_not p [] = refl
  count_not p (x ∷ xs) = ground (arith, count_not p xs)

  any-keep : (p q : A → Bool) (xs : List A) → any p xs ≡ false → any p (keep q xs) ≡ false
  unfolding any keep
  any-keep p q [] h = refl
  any-keep p q (x ∷ xs) h = ground (arith, any-keep p q xs)

module _ (sql : Engine) (now : ℕ) where
  insert_job-not_about :
      (tx_id : ℕ) (kind : Text) (payload : Payload) (key : Option Text) (q : List Job)
      → payload.transaction_id ≡ none
      → any (belongs_to tx_id) q ≡ false
      → any (belongs_to tx_id) (insert_job sql now kind payload key 0 default_attempts q).0 ≡ false
  unfolding insert_job build belongs_to any
  insert_job-not_about tx_id kind payload key q e h =
      rw
        (
          any-append (belongs_to tx_id) q
              (build (sql.new_id (job_ids q)) now kind payload key 0 default_attempts ∷ []),
          h,
        )
        (ground (arith, e))

  enqueue-not_about :
      (tx_id : ℕ) (kind : Text) (payload : Payload) (key : Option Text) (q : List Job)
      → payload.transaction_id ≡ none
      → any (belongs_to tx_id) q ≡ false
      → any (belongs_to tx_id) (enqueue sql now kind payload key 0 default_attempts q).0 ≡ false
  unfolding enqueue requeue
  enqueue-not_about tx_id kind payload key q e h = elim (Bool-cases (any (has_key key) q)) [
    | inr free ↦ rw (free, enqueue) (insert_job-not_about tx_id kind payload key q e h)
    | inl taken ↦ elim (Option-cases (find (has_key key) q)) [
      | inl f ↦ rw (taken, f, enqueue) h
      | inr (existing, f) ↦ elim (Bool-cases (is_outstanding existing.status)) [
        | inl g ↦ rw (taken, f, enqueue) (rw (g, requeue) h)
        | inr g ↦
            rw (taken, f, enqueue)
              (rw (g, requeue)
                (insert_job-not_about tx_id kind payload key (delete_job existing.id q) e
                  (any-keep (belongs_to tx_id) (λ job. not (has_id existing.id job)) q h)))
      ]
    ]
  ]

  tidy-not_about :
      (tx_id : ℕ) (ms : List DiscordMessage) (q : List Job)
      → any (belongs_to tx_id) q ≡ false
      → any (belongs_to tx_id) (tidy sql now ms q) ≡ false
  unfolding tidy
  tidy-not_about tx_id [] q h = h
  tidy-not_about tx_id (m ∷ ms) q h = tidy-not_about tx_id ms _ (
      enqueue-not_about tx_id (codes "discord.delete_message")
        (record empty_payload { message_id = m.message_id })
        (some (codes "delmsg:" ++ m.message_id)) q refl h)

  release-not_on :
      (tx_id : ℕ) (delete_receipts : Bool) (atts : List Attachment)
      → any (is_on tx_id) (release tx_id delete_receipts atts) ≡ false
  unfolding release
  release-not_on tx_id true atts = any-keep-not (is_on tx_id) atts
  release-not_on tx_id false atts =
      any-update_away (is_on tx_id) (set_charge none) atts (λ att. refl)

  removed_length :
      (tx_id : ℕ) (delete_receipts : Bool) (atts : List Attachment)
      → length (if delete_receipts then removed_files tx_id atts else [])
        ≡ (if delete_receipts then count_if (is_on tx_id) atts else 0)
  unfolding removed_files
  removed_length tx_id false atts = refl
  removed_length tx_id true atts =
      length-map (λ att. (att.path, att.thumb_path)) (keep (is_on tx_id) atts)
      ∙ length-keep (is_on tx_id) atts

  released :
      (tx_id : ℕ) (delete_receipts : Bool) (atts : List Attachment)
      → length (release tx_id delete_receipts atts)
          + length (if delete_receipts then removed_files tx_id atts else [])
        ≡ length atts
  unfolding release
  released tx_id false atts =
      let kept : length (update_where (is_on tx_id) (set_charge none) atts) ≡ length atts =
        length-update_where (is_on tx_id) (set_charge none) atts in
      omega arith
  released tx_id true atts =
      rw (removed_length tx_id true atts, length-keep (λ att. not (is_on tx_id att)) atts)
        (count_not (is_on tx_id) atts)

  no_refunds :
      (tx_id : ℕ) (txs : List Transaction)
      → any (refunds tx_id) (
          keep
            (λ t. not (t.id == tx_id))
            (update_where (refunds tx_id) (λ t. record t { refund_of_id = none }) txs))
        ≡ false
  no_refunds tx_id txs =
      any-keep (refunds tx_id) (λ t. not (t.id == tx_id)) _
        (any-update_away (refunds tx_id) (λ t. record t { refund_of_id = none }) txs (λ t. refl))

  module _ (cents : ℤ → Text) (user : User) (session : Session) where
    -- A charge that is deleted leaves no row behind that refers to it: no charge has its id or is a refund of
    -- it, no receipt is on it, no message of the channel and no job is about it. Each other charge is
    -- kept, its refunds without the link. Each receipt of another charge or of none is kept as it is.
    -- Where the receipts were to go too, the file and the thumbnail of each one on the charge are removed
    -- and its row goes; otherwise each is kept without a charge. The rows that are kept and the files that
    -- are removed are as many as the receipts were, and as many files are removed as receipts of the
    -- charge went. The request has its CSRF token.
    pub delete_transaction-leaves_nothing :
        (code csrf_token : Text) (delete_receipts : Bool) (site : Site) (tx : Transaction)
        → check_csrf session (some csrf_token) ≡ true
        → find (has_code code) site.transactions ≡ some tx
        → let handled =
            delete_transaction sql now cents user session code csrf_token delete_receipts site in
          (any (has_row_id tx.id) handled.site.transactions ≡ false)
          × (any (refunds tx.id) handled.site.transactions ≡ false)
          × (any (is_on tx.id) handled.site.attachments ≡ false)
          × (any (is_about tx.id) handled.site.messages ≡ false)
          × (any (belongs_to tx.id) handled.site.jobs ≡ false)
          × (length handled.site.attachments + length handled.removed ≡ length site.attachments)
          × (length handled.removed
              ≡ (if delete_receipts then count_if (is_on tx.id) site.attachments else 0))
          × All
              (λ att.
                IsSettled
                  (is_on tx.id att)
                  delete_receipts
                  att
                  handled.site.attachments
                  handled.removed)
              site.attachments
          × All
              (λ t.
                IsSpared
                  (not (t.id == tx.id))
                  (if refunds tx.id t then record t { refund_of_id = none } else t)
                  handled.site.transactions)
              site.transactions
    unfolding delete_transaction verify_csrf
    delete_transaction-leaves_nothing code csrf_token delete_receipts site tx csrf found =
        rw (csrf, found, delete_transaction)
          (unfold remove_charge in
            (
              any-keep-not (has_row_id tx.id) (
                  update_where (refunds tx.id) (λ t. record t { refund_of_id = none })
                    site.transactions),
              no_refunds tx.id site.transactions,
              release-not_on tx.id delete_receipts site.attachments,
              any-keep-not (is_about tx.id) site.messages,
              tidy-not_about tx.id (keep is_posted (keep (is_about tx.id) site.messages))
                  (discard_for_transaction tx.id site.jobs).0
                  (unfold discard_for_transaction in any-keep-not (belongs_to tx.id) site.jobs),
              released tx.id delete_receipts site.attachments,
              removed_length tx.id delete_receipts site.attachments,
              settled tx.id delete_receipts site.attachments,
              spared (λ t. not (t.id == tx.id)) (refunds tx.id)
                  (λ t. record t { refund_of_id = none }) site.transactions (λ t. refl),
            ))
