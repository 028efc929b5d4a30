-- ===== src/Jobs/Enqueue.antt =====
-- `enqueue` of app/services/jobs.py against a description of it with no SAVEPOINT and no search.
use receipt_manager.Prelude.{
  find-append_none, find-eq_none_of_any, ◌∙◌, ℕ, ◌≤◌, ◌≡◌, refl, Bool, true, false, not, ◌&&◌,
  Option, none, some, List, [], ◌∷◌, ◌++◌, find, keep, any, count_if, Text, arith, if◌then◌else◌,
  Bool-cases, inl, inr, Option-cases, any-eq_false_of_find, find_sound, keep_nothing,
  any_of_count_if_zero, ==-refl, any_of_count_if_pos, count_if_pos_of_any, count_if_mono,
  count_if_zero_of_any, count_if-append, count_if-keep_not, text_eq_refl,
}
use receipt_manager.Engine.{Engine}
use receipt_manager.Models.{Job, Payload}
use receipt_manager.Jobs.{
  has_key, has_id, build, job_ids, insert_job, requeue, enqueue, is_outstanding,
}
use receipt_manager.Jobs.Shape.{IsWellFormed, insert_job-IsWellFormed, keep-IsWellFormed}

-- a row that the queue still has to finish holds the key
abbrev pub holds : Option Text → Job → Bool
holds key job = has_key key job && is_outstanding job.status

module _ {ℓ} {A : Type ℓ} where
  pub find_counts :
      (p r : A → Bool) (xs : List A) (x : A) → find p xs ≡ some x → r x ≡ true → 1 ≤ count_if r xs
  unfolding find count_if
  find_counts p r [] x h e = cc
  find_counts p r (y ∷ ys) x h e = ground (arith, find_counts p r ys x)

  -- where two tests find one row and hold of it alone, the rows left without it are the same
  keep_other :
      (p r : A → Bool) (xs : List A) (x : A)
      → find p xs ≡ some x
      → r x ≡ true
      → count_if p xs ≤ 1
      → count_if r xs ≤ 1
      → keep (λ y. not (r y)) xs ≡ keep (λ y. not (p y)) xs
  unfolding find count_if keep
  keep_other p r [] x h e cp cr = cc
  keep_other p r (y ∷ ys) x h e cp cr = elim (Bool-cases (p y)) [
    | inl here ↦ ground (
      arith,
      keep_nothing p (λ z. not (p z)) ys (ground (arith, any_of_count_if_zero p ys)) (λ z q. rw q),
      keep_nothing r (λ z. not (r z)) ys (ground (arith, any_of_count_if_zero r ys)) (λ z q. rw q),
    )
    | inr later ↦ ground (arith, keep_other p r ys x, find_counts p r ys x)
  ]

  any_and_none :
      (p r : A → Bool) (xs : List A) → count_if p xs ≡ 0 → any (λ y. p y && r y) xs ≡ false
  unfolding count_if any
  any_and_none p r [] n = refl
  any_and_none p r (x ∷ xs) n = ground (arith, any_and_none p r xs)

  -- where one row meets a test, another test holds of some such row just if it holds of that one
  any_and :
      (p r : A → Bool) (xs : List A) (x : A)
      → find p xs ≡ some x
      → count_if p xs ≤ 1
      → any (λ y. p y && r y) xs ≡ r x
  unfolding find count_if any
  any_and p r [] x h c = cc
  any_and p r (y ∷ ys) x h c = elim (Bool-cases (p y)) [
    | inl here ↦ ground (arith, any_and_none p r ys)
    | inr later ↦ ground (arith, any_and p r ys x)
  ]

has_id_self : (job : Job) → has_id job.id job ≡ true
unfolding has_id
has_id_self job = ==-refl job.id

count_if-no_key : (q : List Job) → count_if (has_key none) q ≡ 0
unfolding count_if has_key
count_if-no_key [] = refl
count_if-no_key (job ∷ q) = count_if-no_key q

one_holder : (q : List Job) (key : Option Text) → IsWellFormed q → count_if (has_key key) q ≤ 1
one_holder q none h = omega (arith, count_if-no_key q)
one_holder q (some k) h = h.one_per_key k

module _ (sql : Engine) (now : ℕ) (kind : Text) (payload : Payload) (key : Option Text) where
  module _ (delay_seconds max_attempts : ℕ) where
    -- what `enqueue` promises: the work that is outstanding under the key is kept, and any finished
    -- row of the key gives way to one new row
    abbrev pub enqueue_spec : List Job → List Job × Option Job
    enqueue_spec q =
        let rest = keep (λ job. not (has_key key job)) q in
        let job =
          build (sql.new_id (job_ids rest)) now kind payload key delay_seconds max_attempts in
        if any (holds key) q then (q, none) else (rest ++ job ∷ [], some job)

    requeue_lem :
        (q : List Job) (existing : Job)
        → IsWellFormed q
        → find (has_key key) q ≡ some existing
        → requeue sql (some existing) now kind payload key delay_seconds max_attempts q
          ≡ enqueue_spec q
    unfolding requeue insert_job
    requeue_lem q existing h e =
        rw (any_and (has_key key) (λ j. is_outstanding j.status) q existing e (one_holder q key h))
          (rw
            (keep_other (has_key key) (has_id existing.id) q existing e (has_id_self existing)
              (one_holder q key h) (h.one_per_id existing.id))
            refl)

    enqueue_free :
        (q : List Job)
        → any (has_key key) q ≡ false
        → insert_job sql now kind payload key delay_seconds max_attempts q ≡ enqueue_spec q
    unfolding insert_job
    enqueue_free q free =
        rw
          (any_and_none (has_key key) (λ j. is_outstanding j.status) q
            (count_if_zero_of_any (has_key key) q free))
          (rw (keep_nothing (has_key key) (λ j. not (has_key key j)) q free (λ j e. rw e)) refl)

    held :
        (q : List Job) (existing : Job)
        → find (has_key key) q ≡ some existing
        → any (has_key key) q ≡ true
    held q existing e = any_of_count_if_pos (has_key key) q (
        find_counts (has_key key) (has_key key) q existing e
          (find_sound (has_key key) q existing e))

    -- On a well-formed table `enqueue` does what `enqueue_spec` says, whatever the key, also when
    -- there is none.
    pub enqueue_lem :
        (q : List Job)
        → IsWellFormed q
        → enqueue sql now kind payload key delay_seconds max_attempts q ≡ enqueue_spec q
    unfolding enqueue
    enqueue_lem q h = elim (Option-cases (find (has_key key) q)) [
      | inl e ↦
          rw (any-eq_false_of_find (has_key key) q e)
            (enqueue_free q (any-eq_false_of_find (has_key key) q e))
      | inr (existing, e) ↦ rw (held q existing e) (rw e (requeue_lem q existing h e))
    ]

    -- the table that `enqueue` leaves is well formed
    pub enqueue-IsWellFormed :
        (q : List Job)
        → IsWellFormed q
        → IsWellFormed (enqueue sql now kind payload key delay_seconds max_attempts q).0
    enqueue-IsWellFormed q h = rw (enqueue_lem q h) (elim (Bool-cases (any (holds key) q)) [
      | inl kept ↦ rw kept h
      | inr fresh ↦ rw fresh (
          unfold insert_job in
          insert_job-IsWellFormed sql now kind payload key delay_seconds max_attempts
            (keep-IsWellFormed (λ job. not (has_key key job)) h)
            (any_of_count_if_zero (has_key key) (keep (λ job. not (has_key key job)) q) (
              count_if-keep_not (has_key key) (λ job. not (has_key key job)) q
                (λ j e. ground arith))))
    ])

holds-build :
    (id now : ℕ) (kind : Text) (payload : Payload) (k : Text) (delay max_attempts : ℕ)
    → holds (some k) (build id now kind payload (some k) delay max_attempts) ≡ true
unfolding build has_key is_outstanding
holds-build id now kind payload k delay max_attempts = rw (text_eq_refl k)

one_left :
    (k : Text) (job : Job) (q : List Job)
    → holds (some k) job ≡ true
    → count_if (holds (some k)) (keep (λ j. not (has_key (some k) j)) q ++ job ∷ []) ≡ 1
one_left k job q h =
    rw (count_if-append (holds (some k)) (keep (λ j. not (has_key (some k) j)) q) (job ∷ [])) (
      rw
        (count_if-keep_not (holds (some k)) (λ j. not (has_key (some k) j)) q (λ j e. ground arith))
        (unfold count_if in rw h (omega arith)))

-- On a well-formed table, after `enqueue` under a key exactly one job holds that key and is
-- outstanding, whether it was there or is new.
pub enqueue-outstanding_once :
    (sql : Engine) (now : ℕ) (kind : Text) (payload : Payload) (k : Text) (delay max_attempts : ℕ)
    (q : List Job)
    → IsWellFormed q
    → count_if (holds (some k)) (enqueue sql now kind payload (some k) delay max_attempts q).0 ≡ 1
enqueue-outstanding_once sql now kind payload k delay max_attempts q h =
    rw (enqueue_lem sql now kind payload (some k) delay max_attempts q h)
      (elim (Bool-cases (any (holds (some k)) q)) [
        | inl kept ↦ rw kept (
            omega (
              arith,
              count_if_pos_of_any (holds (some k)) q kept,
              h.one_per_key k,
              count_if_mono (holds (some k)) (has_key (some k)) q (λ j e. ground arith),
            ))
        | inr fresh ↦
            rw fresh (one_left k _ q (holds-build _ now kind payload k delay max_attempts))
      ])

-- What one job after `enqueue` is: exactly one is outstanding under the key, and it is the one that was so
-- before, or else a new one of this kind with this payload.
abbrev pub IsQueued : Engine → ℕ → Text → Payload → Text → ℕ → List Job → List Job → Type 0
IsQueued sql now kind payload k max_attempts before after =
    (count_if (holds (some k)) after ≡ 1)
    × (find (holds (some k)) after ≡ (
        if any (holds (some k)) before
        then find (holds (some k)) before
        else some (
            build (sql.new_id (job_ids (keep (λ j. not (has_key (some k) j)) before))) now kind
              payload (some k) 0 max_attempts)))

find_left :
    (k : Text) (job : Job) (q : List Job)
    → holds (some k) job ≡ true
    → find (holds (some k)) (keep (λ j. not (has_key (some k) j)) q ++ job ∷ []) ≡ some job
find_left k job q h =
    find-append_none (holds (some k)) (keep (λ j. not (has_key (some k) j)) q) (job ∷ []) (
      find-eq_none_of_any (holds (some k)) (keep (λ j. not (has_key (some k) j)) q) (
        any_of_count_if_zero (holds (some k)) (keep (λ j. not (has_key (some k) j)) q) (
          count_if-keep_not (holds (some k)) (λ j. not (has_key (some k) j)) q
            (λ j e. ground arith))))
    ∙ (unfold find in rw h refl)

pub enqueue-IsQueued :
    (sql : Engine) (now : ℕ) (kind : Text) (payload : Payload) (k : Text) (max_attempts : ℕ)
    (q : List Job)
    → IsWellFormed q
    → IsQueued sql now kind payload k max_attempts q
        (enqueue sql now kind payload (some k) 0 max_attempts q).0
enqueue-IsQueued sql now kind payload k max_attempts q h = (
  enqueue-outstanding_once sql now kind payload k 0 max_attempts q h,
  rw (enqueue_lem sql now kind payload (some k) 0 max_attempts q h)
      (elim (Bool-cases (any (holds (some k)) q)) [
        | inl kept ↦ rw kept refl
        | inr fresh ↦ rw fresh (find_left k _ q (holds-build _ now kind payload k 0 max_attempts))
      ]),
)
