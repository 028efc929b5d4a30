-- ===== src/Jobs/Shape.antt =====
-- What the operations of app/services/jobs.py keep: the ids of the rows are distinct, and at most
-- one row holds a key.
use receipt_manager.Prelude.{
  ℕ, ◌≤◌, ◌≡◌, refl, Bool, true, false, Option, none, some, List, [], ◌∷◌, ◌++◌, keep, any,
  count_if, update_where, Text, arith, ◌==◌, Bool-cases, count_if-update_where, count_if-keep,
  count_if-append, count_if_zero_of_any, any-map, inl, inr, text_eq_sound, subst, ap, ◌∙◌, ==_iff,
}
use receipt_manager.Engine.{Engine}
use receipt_manager.Models.{Job, Payload}
use receipt_manager.Jobs.{has_key, has_id, build, job_ids, insert_job}

pub record IsWellFormed (q : List Job) : Type 0 where
  pub one_per_id : (i : ℕ) → count_if (has_id i) q ≤ 1
  pub one_per_key : (k : Text) → count_if (has_key (some k)) q ≤ 1

pub []-IsWellFormed : IsWellFormed []
unfolding count_if
[]-IsWellFormed = record { one_per_id = λ i. omega arith; one_per_key = λ k. omega arith }

-- an assignment that leaves the ids and the keys alone
pub update_where-IsWellFormed :
    (t : Job → Bool) (f : Job → Job) {q : List Job}
    → ((j : Job) → (f j).id ≡ j.id)
    → ((j : Job) → (f j).idempotency_key ≡ j.idempotency_key)
    → IsWellFormed q
    → IsWellFormed (update_where t f q)
unfolding has_id has_key
update_where-IsWellFormed t f {q} same_id same_key h = record {
  one_per_id = λ i. rw (count_if-update_where (has_id i) t f q (λ j. rw same_id)) (h.one_per_id i);
  one_per_key =
      λ k. rw (count_if-update_where (has_key (some k)) t f q (λ j. rw same_key)) (h.one_per_key k);
}

pub keep-IsWellFormed : (t : Job → Bool) {q : List Job} → IsWellFormed q → IsWellFormed (keep t q)
keep-IsWellFormed t {q} h = record {
  one_per_id = λ i. omega (arith, count_if-keep (has_id i) t q, h.one_per_id i);
  one_per_key = λ k. omega (arith, count_if-keep (has_key (some k)) t q, h.one_per_key k);
}

-- the id of an insert is that of no row
pub count_if-new_id :
    (sql : Engine) (q : List Job) → count_if (has_id (sql.new_id (job_ids q))) q ≡ 0
unfolding has_id
count_if-new_id sql q = count_if_zero_of_any _ q (
    rw (← any-map (λ i. i == sql.new_id (job_ids q)) (λ (j : Job). j.id) q)
      (sql.new_id_fresh (job_ids q)))

keyless : (k : Text) (job : Job) → job.idempotency_key ≡ none → ¬ (has_key (some k) job ≡ true)
unfolding has_key
keyless k job e t = ground arith

key_eq :
    (k k' : Text) (job : Job) → job.idempotency_key ≡ some k' → has_key (some k) job ≡ true → k' ≡ k
unfolding has_key
key_eq k k' job e t = text_eq_sound k' k (ground arith)

-- a row added behind a table in which none has its value
append_one :
    (p : Job → Bool) (q : List Job) (job : Job)
    → count_if p q ≤ 1
    → (p job ≡ true → count_if p q ≡ 0)
    → count_if p (q ++ job ∷ []) ≤ 1
append_one p q job h clash = rw (count_if-append p q (job ∷ [])) (
    unfold count_if in
    elim (Bool-cases (p job)) [
      | inl e ↦ rw e (omega (arith, clash e))
      | inr e ↦ rw e (omega arith)
    ])

append_job-IsWellFormed :
    (q : List Job) (job : Job)
    → IsWellFormed q
    → count_if (has_id job.id) q ≡ 0
    → any (has_key job.idempotency_key) q ≡ false
    → IsWellFormed (q ++ job ∷ [])
append_job-IsWellFormed q job h fresh free = record {
  one_per_id = λ i. append_one (has_id i) q job (h.one_per_id i) (same_id i);
  one_per_key = λ k.
      append_one (has_key (some k)) q job (h.one_per_key k)
        (λ e. same_key job.idempotency_key k refl e);
}
  where
    same_id : (i : ℕ) → has_id i job ≡ true → count_if (has_id i) q ≡ 0
    same_id i e =
        subst (λ x. count_if (has_id x) q ≡ 0) ((==_iff job.id i).0 (unfold has_id in e)) fresh

    same_key :
        (key : Option Text) (k : Text)
        → job.idempotency_key ≡ key
        → has_key (some k) job ≡ true
        → count_if (has_key (some k)) q ≡ 0
    same_key none k e t = absurd (keyless k job e t)
    same_key (some k') k e t =
        count_if_zero_of_any (has_key (some k)) q
          (subst (λ x. any (has_key x) q ≡ false) (e ∙ ap some (key_eq k k' job e t)) free)

module _ (sql : Engine) (now : ℕ) (kind : Text) (payload : Payload) (key : Option Text) where
  module _ (delay_seconds max_attempts : ℕ) where
    pub insert_job-IsWellFormed :
        {q : List Job}
        → IsWellFormed q
        → any (has_key key) q ≡ false
        → IsWellFormed (insert_job sql now kind payload key delay_seconds max_attempts q).0
    unfolding insert_job build
    insert_job-IsWellFormed {q} h free =
        append_job-IsWellFormed q
          (build (sql.new_id (job_ids q)) now kind payload key delay_seconds max_attempts) h
          (count_if-new_id sql q) free
