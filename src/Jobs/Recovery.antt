-- ===== src/Jobs/Recovery.antt =====
-- Recovery in app/services/jobs.py: after a crash, after a repaired configuration, and after the
-- deletion of a transaction.
use receipt_manager.Prelude.{
  ℕ, ◌+◌, ◌≡◌, refl, Bool, false, not, ◌&&◌, Option, none, some, List, [], ◌∷◌, find, keep, any,
  count_if, update_where, length, arith, if◌then◌else◌, find-update_where, length-update_where,
  count_if-update_none, count_if-keep_not, count_if-keep_all, count_if-keep_and, count_if_mono,
  Text, any_of_count_if_zero, ◌≢◌,
}
use receipt_manager.Engine.{Engine}
use receipt_manager.Models.{pending, Job, Payload}
use receipt_manager.Jobs.{
  has_id, has_key, is_due, is_pending, is_running, is_done, is_dead, belongs_to,
  reset_orphaned_jobs, revive_dead, discard_for_transaction, queue_stats, enqueue,
}
use receipt_manager.Jobs.Shape.{IsWellFormed, keep-IsWellFormed}
use receipt_manager.Jobs.Enqueue.{enqueue_lem, holds}

count_reset :
    (now : ℕ) (q : List Job)
    → count_if (is_due now) (reset_orphaned_jobs now q).0
      ≡ count_if (is_due now) q + count_if (λ job. is_running job.status) q
unfolding reset_orphaned_jobs count_if update_where is_due is_pending is_running
count_reset now [] = refl
count_reset now (job ∷ q) = ground (arith, count_reset now q)

-- After a crash no job is left running, and every job that was running is due at once: the due
-- jobs grow by the number that is returned. No row is added or lost, and a row whose job did not
-- run is as it was.
reset_recovers :
    (now i : ℕ) (q : List Job)
    → let (q', count) = reset_orphaned_jobs now q in
      (count_if (λ job. is_running job.status) q' ≡ 0)
      × (count_if (is_due now) q' ≡ count_if (is_due now) q + count)
      × (length q' ≡ length q)
      × (find (has_id i) q' ≡ (elim (find (has_id i) q) [
        | none ↦ none
        | some job ↦ some (
            if is_running job.status
            then record job { status = pending; next_run_at = now }
            else job)
      ]))
unfolding reset_orphaned_jobs
reset_recovers now i q = (
  count_if-update_none (λ job. is_running job.status) (λ job. is_running job.status) _ q
      (λ job. unfold is_running in ground arith),
  unfold reset_orphaned_jobs in count_reset now q,
  length-update_where (λ job. is_running job.status) _ q,
  find-update_where (has_id i) (λ job. is_running job.status) _ q (λ job. unfold has_id in refl),
)

count_revive :
    (now : ℕ) (q : List Job)
    → count_if (is_due now) (revive_dead now q).0
      ≡ count_if (is_due now) q + count_if (λ job. is_dead job.status) q
unfolding revive_dead count_if update_where is_due is_pending is_dead
count_revive now [] = refl
count_revive now (job ∷ q) = ground (arith, count_revive now q)

-- `revive_dead` leaves no dead job, makes each that was dead due with no attempt used, and returns
-- their number; a row whose job was not dead is as it was.
revive_recovers :
    (now i : ℕ) (q : List Job)
    → let (q', count) = revive_dead now q in
      (count_if (λ job. is_dead job.status) q' ≡ 0)
      × (count_if (is_due now) q' ≡ count_if (is_due now) q + count)
      × (find (has_id i) q' ≡ (elim (find (has_id i) q) [
        | none ↦ none
        | some job ↦ some (
            if is_dead job.status
            then record job { status = pending; attempts = 0; next_run_at = now; last_error = none }
            else job)
      ]))
unfolding revive_dead
revive_recovers now i q = (
  count_if-update_none (λ job. is_dead job.status) (λ job. is_dead job.status) _ q
      (λ job. unfold is_dead in ground arith),
  unfold revive_dead in count_revive now q,
  find-update_where (has_id i) (λ job. is_dead job.status) _ q (λ job. unfold has_id in refl),
)

-- The four counts of the health page add up to the number of jobs.
pub queue_stats-total :
    (q : List Job)
    → let s = queue_stats q in
      s.pending_count + s.running_count + s.done_count + s.dead_count ≡ length q
unfolding queue_stats count_if is_pending is_running is_done is_dead
queue_stats-total [] = refl
queue_stats-total (job ∷ q) = ground (arith, queue_stats-total q)

count_removed :
    (tx_id : ℕ) (q : List Job)
    → length (keep (λ job. not (belongs_to tx_id job)) q) + count_if (belongs_to tx_id) q ≡ length q
unfolding keep count_if
count_removed tx_id [] = refl
count_removed tx_id (job ∷ q) = ground (arith, count_removed tx_id q)

-- `discard_for_transaction` removes the jobs of that transaction, all of them and no other, and
-- returns how many they were.
pub discard_lem :
    (tx_id : ℕ) (p : Job → Bool) (q : List Job)
    → let (q', removed) = discard_for_transaction tx_id q in
      (count_if (belongs_to tx_id) q' ≡ 0)
      × (length q' + removed ≡ length q)
      × (count_if (λ job. p job && not (belongs_to tx_id job)) q'
          ≡ count_if (λ job. p job && not (belongs_to tx_id job)) q)
unfolding discard_for_transaction
discard_lem tx_id p q = (
  count_if-keep_not (belongs_to tx_id) (λ job. not (belongs_to tx_id job)) q (λ j e. ground arith),
  count_removed tx_id q,
  count_if-keep_all (λ job. p job && not (belongs_to tx_id job)) (λ job. not (belongs_to tx_id job))
      q (λ j e. ground arith),
)

not_held :
    (tx_id : ℕ) (key : Option Text) (q : List Job)
    → count_if (λ job. has_key key job && not (belongs_to tx_id job)) q ≡ 0
    → any (holds key) (keep (λ job. not (belongs_to tx_id job)) q) ≡ false
not_held tx_id key q only =
    any_of_count_if_zero (holds key) (keep (λ job. not (belongs_to tx_id job)) q) (
      omega (
        arith,
        count_if-keep_and (holds key) (λ job. not (belongs_to tx_id job)) q,
        count_if_mono (λ job. not (belongs_to tx_id job) && holds key job)
            (λ job. has_key key job && not (belongs_to tx_id job)) q (λ j e. ground arith),
      ))

-- After the jobs of a deleted transaction are discarded, a key that only they held suppresses no
-- job: `enqueue` under it makes a new one, also for a later transaction with the same id.
pub enqueue_after_discard :
    (sql : Engine) (now tx_id : ℕ) (kind : Text) (payload : Payload) (key : Option Text)
    (delay max_attempts : ℕ) (q : List Job)
    → IsWellFormed q
    → count_if (λ job. has_key key job && not (belongs_to tx_id job)) q ≡ 0
    → (enqueue sql now kind payload key delay max_attempts (discard_for_transaction tx_id q).0).1
      ≢ none
unfolding discard_for_transaction
enqueue_after_discard sql now tx_id kind payload key delay max_attempts q h only =
    let theirs : Job → Bool = λ job. not (belongs_to tx_id job) in
    rw
      (enqueue_lem sql now kind payload key delay max_attempts (keep theirs q)
        (keep-IsWellFormed theirs h))
      (rw (not_held tx_id key q only) (λ e. cc))
