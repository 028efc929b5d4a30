-- ===== src/Jobs.antt =====
-- app/services/jobs.py: the durable job queue. The table is a list of rows; an operation takes the
-- table and returns the new one, with `now` for its call of `utcnow()`. The proofs are in the
-- modules below.
pub mod Shape
pub mod Durable
pub mod Invariant
pub mod Recovery
pub mod Finish
pub mod Claim
pub mod Enqueue
use receipt_manager.Prelude.{
  ℕ, ◌+◌, ◌^◌, min, Bool, true, false, not, ◌&&◌, ◌||◌, Option, none, some, List, [], ◌∷◌, ◌++◌,
  map, length, take, find, keep, any, count_if, update_where, Text, codes, text_eq, ltb, leb, ◌==◌,
  if◌then◌else◌,
}
use receipt_manager.Engine.{Engine}
use receipt_manager.Models.{JobStatus, pending, running, done, dead, Payload, Job, seconds}

pub data Outcome : Type 0 where
  returned : Outcome
  raised : Text → Outcome
  cancelled : Outcome

abbrev pub max_backoff_seconds : ℕ
max_backoff_seconds = 600

unfoldable pub is_pending : JobStatus → Bool
is_pending pending = true
is_pending _ = false

unfoldable pub is_running : JobStatus → Bool
is_running running = true
is_running _ = false

unfoldable pub is_done : JobStatus → Bool
is_done done = true
is_done _ = false

unfoldable pub is_dead : JobStatus → Bool
is_dead dead = true
is_dead _ = false

-- `status in (JobStatus.pending, JobStatus.running)`
unfoldable pub is_outstanding : JobStatus → Bool
unfolding is_pending is_running
is_outstanding status = is_pending status || is_running status

-- `Job.idempotency_key == key` of a query, and the unique constraint: NULL equals nothing
unfoldable pub has_key : Option Text → Job → Bool
has_key none job = false
has_key (some key) job = elim job.idempotency_key [ none ↦ false | some k ↦ text_eq k key ]

unfoldable pub has_id : ℕ → Job → Bool
has_id id job = job.id == id

-- `_build()` with the id that the insert assigns
unfoldable pub build : ℕ → ℕ → Text → Payload → Option Text → ℕ → ℕ → Job
build id now kind payload key delay_seconds max_attempts = record {
  id = id;
  kind = kind;
  payload = payload;
  idempotency_key = key;
  status = pending;
  attempts = 0;
  max_attempts = max_attempts;
  next_run_at = now + seconds delay_seconds;
  last_error = none;
  completed_at = none;
}

abbrev pub job_ids : List Job → List ℕ
job_ids = map (λ job. job.id)

abbrev pub delete_job : ℕ → List Job → List Job
delete_job id = keep (λ job. not (has_id id job))

module _ (sql : Engine) where
  unfoldable pub insert_job :
      ℕ → Text → Payload → Option Text → ℕ → ℕ → List Job → List Job × Option Job
  insert_job now kind payload key delay_seconds max_attempts q =
      let job = build (sql.new_id (job_ids q)) now kind payload key delay_seconds max_attempts in
      (q ++ job ∷ [], some job)

  -- what follows the IntegrityError of the first insert
  unfoldable pub requeue :
      Option Job → ℕ → Text → Payload → Option Text → ℕ → ℕ → List Job → List Job × Option Job
  requeue none now kind payload key delay_seconds max_attempts q = (q, none)
  requeue (some existing) now kind payload key delay_seconds max_attempts q =
      if is_outstanding existing.status
      then (q, none)
      else insert_job now kind payload key delay_seconds max_attempts (delete_job existing.id q)

  unfoldable pub enqueue :
      ℕ → Text → Payload → Option Text → ℕ → ℕ → List Job → List Job × Option Job
  enqueue now kind payload key delay_seconds max_attempts q =
      if any (has_key key) q
      then requeue (find (has_key key) q) now kind payload key delay_seconds max_attempts q
      else insert_job now kind payload key delay_seconds max_attempts q

unfoldable pub reset_orphaned_jobs : ℕ → List Job → List Job × ℕ
reset_orphaned_jobs now q = (
  update_where (λ job. is_running job.status)
      (λ job. record job { status = pending; next_run_at = now }) q,
  count_if (λ job. is_running job.status) q,
)

-- the `where` and the `order_by` of the query of `_claim`
unfoldable pub is_due : ℕ → Job → Bool
is_due now job = is_pending job.status && leb job.next_run_at now

unfoldable pub runs_before : Job → Job → Bool
runs_before a b =
    ltb a.next_run_at b.next_run_at || (a.next_run_at == b.next_run_at && leb a.id b.id)

unfoldable pub start : Job → Job
start job = record job { status = running; attempts = job.attempts + 1 }

module _ (sql : Engine) where
  unfoldable pub claimed_rows : ℕ → ℕ → List Job → List Job
  claimed_rows limit now q = take limit (sql.order_by Job runs_before (keep (is_due now) q))

  unfoldable pub claim : ℕ → ℕ → List Job → List Job × List (ℕ × Text × Payload)
  claim limit now q =
      let rows = claimed_rows limit now q in
      (
        update_where (λ job. any (has_id job.id) rows) start q,
        map (λ job. (job.id, job.kind, job.payload)) rows,
      )

unfoldable pub backoff : ℕ → ℕ
backoff attempts = min (2 ^ attempts) max_backoff_seconds

-- the assignments of `_finish` to the row it found
unfoldable pub complete : Option Text → ℕ → Job → Job
complete none now job = record job { status = done; completed_at = some now; last_error = none }
complete (some error) now job =
    if leb job.max_attempts job.attempts
    then record job { last_error = some (take 4000 error); status = dead }
    else record job {
      last_error = some (take 4000 error);
      status = pending;
      next_run_at = now + seconds (backoff job.attempts);
    }

unfoldable pub finish : ℕ → Option Text → ℕ → List Job → List Job
finish id error now q = elim (find (has_id id) q) [
  | none ↦ q
  | some _ ↦ update_where (has_id id) (complete error now) q
]

-- what `_run_one` hands to `_finish`
unfoldable pub error_of : Outcome → Option Text
error_of returned = none
error_of (raised trace) = some trace
error_of cancelled = some (codes "Cancelled during shutdown")

module _ (handlers : Text → Option (Payload → Outcome)) where
  unfoldable pub outcome : Text → Payload → Option Text
  unfolding error_of
  outcome kind payload = elim (handlers kind) [
    | none ↦ some (codes "No handler registered for job kind '" ++ kind ++ codes "'")
    | some fn ↦ error_of (fn payload)
  ]

  unfoldable pub run_one : ℕ → Text → Payload → ℕ → List Job → List Job
  run_one id kind payload now q = finish id (outcome kind payload) now q

  -- the claimed jobs of one batch, in the order in which they finish
  unfoldable pub run_batch : List (ℕ × Text × Payload) → ℕ → List Job → List Job
  run_batch [] now q = q
  run_batch ((id, kind, payload) ∷ rest) now q = run_batch rest now (run_one id kind payload now q)

  -- one pass of the loop of `work_forever`
  unfoldable pub work_round : Engine → ℕ → ℕ → List Job → List Job
  work_round sql batch now q = let (q', claimed) = claim sql batch now q in run_batch claimed now q'

unfoldable pub belongs_to : ℕ → Job → Bool
belongs_to tx_id job = elim job.payload.transaction_id [ none ↦ false | some i ↦ i == tx_id ]

unfoldable pub discard_for_transaction : ℕ → List Job → List Job × ℕ
discard_for_transaction tx_id q =
    (keep (λ job. not (belongs_to tx_id job)) q, count_if (belongs_to tx_id) q)

unfoldable pub dead_jobs : Engine → ℕ → List Job → List Job
dead_jobs sql limit q =
    take limit (sql.order_by Job (λ a b. leb b.id a.id) (keep (λ job. is_dead job.status) q))

unfoldable pub revive_dead : ℕ → List Job → List Job × ℕ
revive_dead now q = (
  update_where (λ job. is_dead job.status)
      (λ job. record job { status = pending; attempts = 0; next_run_at = now; last_error = none })
      q,
  count_if (λ job. is_dead job.status) q,
)

pub record Stats : Type 0 where
  pub pending_count : ℕ
  pub running_count : ℕ
  pub done_count : ℕ
  pub dead_count : ℕ

unfoldable pub queue_stats : List Job → Stats
queue_stats q = record {
  pending_count = count_if (λ job. is_pending job.status) q;
  running_count = count_if (λ job. is_running job.status) q;
  done_count = count_if (λ job. is_done job.status) q;
  dead_count = count_if (λ job. is_dead job.status) q;
}
