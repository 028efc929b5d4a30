-- ===== src/Tests/Jobs.antt =====
-- Runs of app/services/jobs.py, and its theorems at one table.
use receipt_manager.Prelude.{
  ℕ, ◌+◌, ◌≤◌, ◌<◌, ◌≡◌, ◌≢◌, refl, ◌⊎◌, Bool, true, false, not, ◌&&◌, Option, none, some, List, [],
  ◌∷◌, ◌++◌, any, length, count_if, find, keep, Text, text_eq, codes, arith, All, str,
}
use receipt_manager.Prelude.Sort.{sorted_by}
use receipt_manager.Models.{Job, Payload, pending, dead, seconds}
use receipt_manager.Jobs.{
  Outcome, enqueue, claim, claimed_rows, has_id, has_key, complete, discard_for_transaction, is_due,
  runs_before, is_pending, insert_job, build, belongs_to, is_outstanding,
}
use receipt_manager.Jobs.Shape.{IsWellFormed}
use receipt_manager.Jobs.Enqueue.{enqueue_lem, enqueue_spec}
use receipt_manager.Jobs.Claim.{claim_in_order, claim_once}
use receipt_manager.Jobs.Finish.{failing_job_dies, fail_each, complete_error}
use receipt_manager.Jobs.Recovery.{enqueue_after_discard}
use receipt_manager.Jobs.Invariant.{here, next, enqueued, claimed, Reach-IsWellFormed}
use receipt_manager.Jobs.Durable.{Step-keeps_work, Survives}
use receipt_manager.Tests.Setup.{sqlite, notify_payload, job_row}

abbrev unhandled : Text → Option (Payload → Outcome)
unhandled kind = none

abbrev announce : ℕ → ℕ → List Job → List Job
announce now id q =
    (enqueue sqlite now (codes "discord.notify") (notify_payload id)
      (some (codes "notify:" ++ str id)) 0 3 q).0

abbrev fresh : Job
fresh = job_row 1 (some (codes "notify:1")) pending 0 5 (notify_payload 1)

-- two announcements, of which a worker has claimed the first
abbrev two_jobs : List Job
two_jobs = announce 9 2 (announce 5 1 [])

abbrev queue : List Job
queue = (claim sqlite 1 10 two_jobs).0

two_jobs-IsWellFormed : IsWellFormed two_jobs
two_jobs-IsWellFormed =
    Reach-IsWellFormed sqlite unhandled
      (next (next here (enqueued 5 _ _ _ 0 3)) (enqueued 9 _ _ _ 0 3))

Reach-IsWellFormed_example : IsWellFormed queue
Reach-IsWellFormed_example =
    Reach-IsWellFormed sqlite unhandled
      (next (next (next here (enqueued 5 _ _ _ 0 3)) (enqueued 9 _ _ _ 0 3)) (claimed 1 10))

enqueue_lem_example :
    enqueue sqlite 11
      (codes "discord.notify")
      (notify_payload 1)
      (some (codes "notify:1"))
      0
      8
      two_jobs
    ≡ enqueue_spec sqlite 11
        (codes "discord.notify")
        (notify_payload 1)
        (some (codes "notify:1"))
        0
        8
        two_jobs
enqueue_lem_example =
    enqueue_lem sqlite 11 (codes "discord.notify") (notify_payload 1) (some (codes "notify:1")) 0 8
      two_jobs two_jobs-IsWellFormed

claim_in_order_example :
    (left : List Job) × ((p : Job → Bool)
      → count_if p (claimed_rows sqlite 1 10 two_jobs) + count_if p left
        ≡ count_if (λ job. is_due 10 job && p job) two_jobs)
    × All
        (λ job. All (λ other. runs_before job other ≡ true) left)
        (claimed_rows sqlite 1 10 two_jobs)
    × (left ≢ [] → length (claimed_rows sqlite 1 10 two_jobs) ≡ 1)
claim_in_order_example = claim_in_order sqlite 1 10 two_jobs

first_claimed : any (has_id 1) (claimed_rows sqlite 1 10 two_jobs) ≡ true
unfolding enqueue insert_job build has_key claimed_rows any keep is_due is_pending sorted_by
    runs_before has_id text_eq str
first_claimed = refl

claim_once_example : any (has_id 1) (claimed_rows sqlite 5 20 queue) ≡ false
claim_once_example = claim_once sqlite 1 10 two_jobs 1 5 20 first_claimed

failing_job_dies_example :
    ((fail_each ((codes "x", 1) ∷ (codes "y", 2) ∷ (codes "z", 3) ∷ []) fresh).attempts ≡ 3)
    × ((fail_each ((codes "x", 1) ∷ (codes "y", 2) ∷ (codes "z", 3) ∷ []) fresh).status ≡ dead)
failing_job_dies_example =
    failing_job_dies ((codes "x", 1) ∷ (codes "y", 2) ∷ (codes "z", 3) ∷ []) fresh refl
      (omega arith) (omega arith)

complete_error_example :
    (fresh.attempts < fresh.max_attempts)
      × ((complete (some (codes "x")) 7 fresh).status ≡ pending)
      × (7 < (complete (some (codes "x")) 7 fresh).next_run_at)
      × ((complete (some (codes "x")) 7 fresh).next_run_at ≤ 7 + seconds 600)
    ⊎ (fresh.max_attempts ≤ fresh.attempts) × ((complete (some (codes "x")) 7 fresh).status ≡ dead)
complete_error_example = complete_error (codes "x") 7 fresh

only_theirs :
    count_if (λ job. has_key (some (codes "notify:1")) job && not (belongs_to 1 job)) two_jobs ≡ 0
unfolding enqueue insert_job build has_key count_if belongs_to text_eq str any
only_theirs = refl

enqueue_after_discard_example :
    (enqueue sqlite 30
      (codes "discord.notify")
      (notify_payload 1)
      (some (codes "notify:1"))
      0
      8
      (discard_for_transaction 1 two_jobs).0).1
    ≢ none
enqueue_after_discard_example =
    enqueue_after_discard sqlite 30 1 (codes "discord.notify") (notify_payload 1)
      (some (codes "notify:1")) 0 8 two_jobs two_jobs-IsWellFormed only_theirs

fresh_found : find (has_id fresh.id) two_jobs ≡ some fresh
unfolding enqueue insert_job build has_key find has_id text_eq str any
fresh_found = refl

Step-keeps_work_example :
    Survives fresh (claim sqlite 1 10 two_jobs).0
    ⊎ ((tx_id : ℕ) × (fresh.payload.transaction_id ≡ some tx_id)
        × ((claim sqlite 1 10 two_jobs).0 ≡ (discard_for_transaction tx_id two_jobs).0))
Step-keeps_work_example =
    Step-keeps_work sqlite unhandled fresh (claimed 1 10) two_jobs-IsWellFormed fresh_found
      (unfold is_outstanding is_pending in refl)
