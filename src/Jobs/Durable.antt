-- ===== src/Jobs/Durable.antt =====
-- No operation of app/services/jobs.py loses work that is outstanding.
use receipt_manager.Prelude.{
  none, ℕ, ◌≡◌, refl, Bool, true, false, not, ◌&&◌, Option, some, List, keep, any, arith, Text,
  if◌then◌else◌, Bool-cases, inl, inr, find, ◌⊎◌, find-keep, find-append_some, any-eq_false_at,
  find-update_where, ◌∙◌, ◌==◌,
}
use receipt_manager.Engine.{Engine}
use receipt_manager.Models.{Job, Payload, pending}
use receipt_manager.Jobs.{
  Outcome, has_id, has_key, start, complete, claim, claimed_rows, reset_orphaned_jobs, run_one,
  outcome, discard_for_transaction, revive_dead, belongs_to, is_outstanding, is_running, is_dead,
}
use receipt_manager.Jobs.Shape.{IsWellFormed}
use receipt_manager.Jobs.Enqueue.{enqueue_lem, holds}
use receipt_manager.Jobs.Finish.{find-finish}
use receipt_manager.Jobs.Claim.{find-claim}
use receipt_manager.Jobs.Invariant.{Step, enqueued, claimed, ran, restarted, revived, discarded}

-- the same work, as far as its handler can tell, under the same id and key
pub record SameWork (a b : Job) : Type 0 where
  pub same_id : b.id ≡ a.id
  pub same_kind : b.kind ≡ a.kind
  pub same_payload : b.payload ≡ a.payload
  pub same_key : b.idempotency_key ≡ a.idempotency_key

abbrev pub Survives : Job → List Job → Type 0
Survives job r = (job' : Job) × (find (has_id job.id) r ≡ some job') × SameWork job job'

unchanged : (job : Job) → SameWork job job
unchanged job = record { same_id = refl; same_kind = refl; same_payload = refl; same_key = refl }

updated :
    (job : Job) (b : Bool) (f : Job → Job) (r : List Job)
    → SameWork job (f job)
    → find (has_id job.id) r ≡ some (if b then f job else job)
    → Survives job r
updated job true f r same h = (f job, h, same)
updated job false f r same h = (job, h, unchanged job)

complete-SameWork :
    (error : Option Text) (now : ℕ) (job : Job) → SameWork job (complete error now job)
unfolding complete
complete-SameWork error now job = ground arith

transaction_of :
    (tx_id : ℕ) (job : Job) → belongs_to tx_id job ≡ true → job.payload.transaction_id ≡ some tx_id
unfolding belongs_to
transaction_of tx_id job h = ground arith

not_both : (a b : Bool) → a && b ≡ false → b ≡ true → not a ≡ true
not_both a b h k = ground arith

module _ (sql : Engine) (handlers : Text → Option (Payload → Outcome)) where
  -- In a well-formed table no operation, a crash and a restart included, removes a job that is
  -- pending or running: the row stays, with its id, kind, payload and key, unless the step discards
  -- the jobs of the transaction that the job is about.
  pub Step-keeps_work :
      {q r : List Job} (job : Job)
      → Step sql handlers q r
      → IsWellFormed q
      → find (has_id job.id) q ≡ some job
      → is_outstanding job.status ≡ true
      → Survives job r
        ⊎ ((tx_id : ℕ) × (job.payload.transaction_id ≡ some tx_id)
            × (r ≡ (discard_for_transaction tx_id q).0))
  unfolding claim run_one reset_orphaned_jobs revive_dead discard_for_transaction
  Step-keeps_work {q} job (enqueued now kind payload key delay max_attempts) h f o = inl (
      rw (enqueue_lem sql now kind payload key delay max_attempts q h)
        (elim (Bool-cases (any (holds key) q)) [
          | inl kept ↦ rw kept (job, f, unchanged job)
          | inr fresh ↦ rw fresh (
            job,
            find-append_some (has_id job.id) (keep (λ j. not (has_key key j)) q) _ job (
                find-keep (has_id job.id) (λ j. not (has_key key j)) q job f
                  (not_both (has_key key job) (is_outstanding job.status)
                    (any-eq_false_at (has_id job.id) (holds key) q job f fresh) o)),
            unchanged job,
          )
        ]))
  Step-keeps_work {q} job (claimed limit now) h f o = inl (
      updated job (any (has_id job.id) (claimed_rows sql limit now q)) start _
        (unfold start in
          record { same_id = refl; same_kind = refl; same_payload = refl; same_key = refl })
        (find-claim sql limit now q job.id ∙ (rw f)))
  Step-keeps_work {q} job (ran id kind payload now) h f o =
      let error : Option Text = outcome handlers kind payload in
      inl (
        updated job (id == job.id) (complete error now) _ (complete-SameWork error now job)
          (find-finish id job.id now error q ∙ (rw f)))
  Step-keeps_work {q} job (restarted now) h f o =
      let reset : Job → Job = λ j. record j { status = pending; next_run_at = now } in
      inl (
        updated job (is_running job.status) reset _
          (record { same_id = refl; same_kind = refl; same_payload = refl; same_key = refl })
          (find-update_where (has_id job.id) (λ j. is_running j.status) reset q
              (λ j. unfold has_id in refl)
            ∙ (rw f)))
  Step-keeps_work {q} job (revived now) h f o =
      let revive : Job → Job =
        λ j. record j { status = pending; attempts = 0; next_run_at = now; last_error = none } in
      inl (
        updated job (is_dead job.status) revive _
          (record { same_id = refl; same_kind = refl; same_payload = refl; same_key = refl })
          (find-update_where (has_id job.id) (λ j. is_dead j.status) revive q
              (λ j. unfold has_id in refl)
            ∙ (rw f)))
  Step-keeps_work {q} job (discarded tx_id) h f o = elim (Bool-cases (belongs_to tx_id job)) [
    | inl theirs ↦ inr (tx_id, transaction_of tx_id job theirs, refl)
    | inr other ↦ inl (
      job,
      find-keep (has_id job.id) (λ j. not (belongs_to tx_id j)) q job f (rw other),
      unchanged job,
    )
  ]
