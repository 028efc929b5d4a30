-- ===== src/Jobs/Finish.antt =====
-- `_finish` of app/services/jobs.py: what becomes of a job that ran, its retries and its end.
use receipt_manager.Prelude.{
  ℕ, zero, suc, ◌+◌, ◌^◌, ◌≤◌, ◌<◌, ◌≡◌, refl, sym, subst, ◌∙◌, true, Option, none, some, List, [],
  ◌∷◌, find, arith, ◌==◌, leb, if◌then◌else◌, Bool-cases, inl, inr, ◌⊎◌, Option-cases, Text, length,
  find-update_where, find_sound, ==_iff,
}
use native.Mathlib.Nat.{pow-suc}
use receipt_manager.Models.{pending, dead, Job, seconds}
use receipt_manager.Jobs.{has_id, start, backoff, complete, finish}

complete-id : (error : Option Text) (now : ℕ) (job : Job) → (complete error now job).id ≡ job.id
unfolding complete
complete-id error now job = ground arith

none-some : {job : Job} → ¬ (none ≡ some job)
none-some h = cc

same_test : (id j : ℕ) (job : Job) → has_id j job ≡ true → has_id id job ≡ (id == j)
unfolding has_id
same_test id j job h = ground arith

-- The row of each id after `_finish`: that of the finished job is completed, any other is as it
-- was, and a job that is gone changes nothing.
pub find-finish :
    (id j now : ℕ) (error : Option Text) (q : List Job)
    → find (has_id j) (finish id error now q) ≡ (elim (find (has_id j) q) [
      | none ↦ none
      | some job ↦ some (if id == j then complete error now job else job)
    ])
unfolding finish
find-finish id j now error q = elim (Option-cases (find (has_id id) q)) [
  | inl gone ↦ rw (gone, finish) (untouched (find (has_id j) q) refl gone)
  | inr (job, e) ↦
      rw (e, finish)
        (find-update_where (has_id j) (has_id id) (complete error now) q
            (λ x. unfold has_id in rw (complete-id error now x))
          ∙ by_id (find (has_id j) q) refl)
]
  where
    untouched :
        (row : Option Job)
        → find (has_id j) q ≡ row
        → find (has_id id) q ≡ none
        → find (has_id j) q ≡ (elim (find (has_id j) q) [
          | none ↦ none
          | some job ↦ some (if id == j then complete error now job else job)
        ])
    untouched none e gone = rw e
    untouched (some job) e gone = elim (Bool-cases (id == j)) [
      | inl same ↦ absurd (
          none-some
            (sym gone ∙ subst (λ x. find (has_id x) q ≡ some job) (sym ((==_iff id j).0 same)) e))
      | inr other ↦ rw (e, other)
    ]

    by_id :
        (row : Option Job)
        → find (has_id j) q ≡ row
        → (elim (find (has_id j) q) [
          | none ↦ none
          | some job ↦ some (if has_id id job then complete error now job else job)
        ])
          ≡ (elim (find (has_id j) q) [
            | none ↦ none
            | some job ↦ some (if id == j then complete error now job else job)
          ])
    by_id none e = rw e
    by_id (some job) e = rw e (rw (same_test id j job (find_sound (has_id j) q job e)))

backoff_bound : (n : ℕ) → backoff n ≤ 600
unfolding backoff
backoff_bound n = omega arith

pow_pos : (n : ℕ) → 1 ≤ 2 ^ n
pow_pos zero = omega arith
pow_pos (suc n) = rw pow-suc (omega (arith, pow_pos n))

backoff_pos : (n : ℕ) → 1 ≤ backoff n
unfolding backoff
backoff_pos n = omega (arith, pow_pos n)

-- A job that raised and has attempts left is pending again, is due later than now and at most ten
-- minutes later, and one with no attempt left is dead; its attempts and its work stay as they were.
pub complete_error :
    (error : Text) (now : ℕ) (job : Job)
    → ((job.attempts < job.max_attempts)
          × ((complete (some error) now job).status ≡ pending)
          × (now < (complete (some error) now job).next_run_at)
          × ((complete (some error) now job).next_run_at ≤ now + seconds 600)
        ⊎ (job.max_attempts ≤ job.attempts) × ((complete (some error) now job).status ≡ dead))
unfolding complete
complete_error error now job = ground (arith, backoff_pos job.attempts, backoff_bound job.attempts)

-- the runs of one job that raises every time: the error and the time of each
unfoldable pub fail_each : List (Text × ℕ) → Job → Job
fail_each [] job = job
fail_each ((error, now) ∷ runs) job = fail_each runs (complete (some error) now (start job))

one_failure :
    (error : Text) (now : ℕ) (job : Job)
    → ((complete (some error) now (start job)).attempts ≡ job.attempts + 1)
      × ((complete (some error) now (start job)).max_attempts ≡ job.max_attempts)
      × ((complete (some error) now (start job)).status
          ≡ (if leb job.max_attempts (job.attempts + 1) then dead else pending))
unfolding complete start
one_failure error now job = ground arith

-- A job that raises on every run is pending, with each run counted, as long as it ran fewer than
-- `max_attempts` times, and is dead after run number `max_attempts`.
pub failing_job_dies :
    (runs : List (Text × ℕ)) (job : Job)
    → job.status ≡ pending
    → job.attempts + length runs ≤ job.max_attempts
    → job.attempts < job.max_attempts
    → ((fail_each runs job).attempts ≡ job.attempts + length runs)
      × ((fail_each runs job).status
          ≡ (if leb job.max_attempts (job.attempts + length runs) then dead else pending))
unfolding fail_each
failing_job_dies [] job p fits room = ground arith
failing_job_dies (run ∷ []) job p fits room = ground (arith, one_failure run.0 run.1 job)
failing_job_dies (run ∷ run' ∷ runs) job p fits room =
    let job' : Job = complete (some run.0) run.1 (start job) in
    ground (arith, one_failure run.0 run.1 job, failing_job_dies (run' ∷ runs) job')
