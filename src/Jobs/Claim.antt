-- ===== src/Jobs/Claim.antt =====
-- `_claim` of app/services/jobs.py: which jobs a worker gets, and that no other worker gets them.
use receipt_manager.Prelude.{
  ℕ, zero, suc, ◌+◌, ◌≤◌, ◌≡◌, ◌≢◌, subst, refl, ap, ◌∙◌, Bool, true, false, not, ◌&&◌, none, some,
  List, [], ◌∷◌, find, keep, any, count_if, update_where, arith, if◌then◌else◌, Bool-cases, inl,
  inr, All, length, take, drop, count_if-take, count_if-keep_and, count_if-update_none,
  All-of_count, count_if-take-drop, All-take, All-drop, length-take, ==_iff, any_of_count_if_zero,
  find-update_where, count_if-keep_not, sym,
}
use receipt_manager.Prelude.Sort.{IsOrder, Sorted}
use receipt_manager.Engine.{Engine}
use receipt_manager.Models.{Job}
use receipt_manager.Jobs.{has_id, is_due, runs_before, start, claimed_rows, claim, is_pending}

runs_before-IsOrder : IsOrder runs_before
unfolding runs_before
runs_before-IsOrder = record { total = λ a b. ground arith; trans = λ a b c h k. ground arith }

module _ {ℓ} {A : Type ℓ} where
  -- in a sorted list what is taken stands before what is left
  Sorted-split :
      (le : A → A → Bool) (n : ℕ) (xs : List A)
      → Sorted le xs
      → All (λ x. All (λ y. le x y ≡ true) (drop n xs)) (take n xs)
  Sorted-split le zero xs h = tt
  Sorted-split le (suc n) [] h = tt
  Sorted-split le (suc n) (x ∷ xs) h =
      (All-drop (λ y. le x y ≡ true) n xs h.0, Sorted-split le n xs h.1)

  take_full : (n : ℕ) (xs : List A) → drop n xs ≢ [] → length (take n xs) ≡ n
  take_full zero xs h = refl
  take_full (suc n) [] h = absurd (h refl)
  take_full (suc n) (x ∷ xs) h = ap suc (take_full n xs h)

unclaimed :
    (b : Bool) (i now : ℕ) (job : Job)
    → has_id i job ≡ false
    → is_due now (if b then start job else job) && has_id i (if b then start job else job) ≡ false
unfolding has_id start is_due is_pending
unclaimed b i now job h = ground arith

module _ (sql : Engine) (limit now : ℕ) (q : List Job) where
  abbrev due_in_order : List Job
  due_in_order = sql.order_by Job runs_before (keep (is_due now) q)

  -- Every job that `_claim` hands out was pending and due, and there are at most `limit` of them.
  pub claimed_due :
      All (λ job. is_due now job ≡ true) (claimed_rows sql limit now q)
      × (length (claimed_rows sql limit now q) ≤ limit)
  unfolding claimed_rows
  claimed_due = (
    All-take (λ job. is_due now job ≡ true) limit due_in_order
        (All-of_count (is_due now) due_in_order (
          sql.order_by_rows Job runs_before (λ job. not (is_due now job)) (keep (is_due now) q)
          ∙ count_if-keep_not (λ job. not (is_due now job)) (is_due now) q (λ j e. rw e))),
    omega (arith, length-take limit due_in_order),
  )

  -- The due jobs of the table are those that `_claim` hands out and some others, `left`. Each job
  -- handed out comes before each job left by (next_run_at, id), and where a job is left the batch
  -- is full.
  pub claim_in_order :
      (left : List Job) × ((p : Job → Bool)
        → count_if p (claimed_rows sql limit now q) + count_if p left
          ≡ count_if (λ job. is_due now job && p job) q)
      × All (λ job. All (λ other. runs_before job other ≡ true) left) (claimed_rows sql limit now q)
      × (left ≢ [] → length (claimed_rows sql limit now q) ≡ limit)
  unfolding claimed_rows
  claim_in_order = (
    drop limit due_in_order,
    (λ p.
        count_if-take-drop p limit due_in_order
        ∙ sql.order_by_rows Job runs_before p (keep (is_due now) q)
        ∙ count_if-keep_and p (is_due now) q),
    Sorted-split runs_before limit due_in_order
        (sql.order_by_sorted Job runs_before (keep (is_due now) q) runs_before-IsOrder),
    take_full limit due_in_order,
  )

  -- The row of an id after `_claim`: running with one more attempt if it was handed out, and
  -- otherwise as it was.
  pub find-claim :
      (i : ℕ)
      → find (has_id i) (claim sql limit now q).0 ≡ (elim (find (has_id i) q) [
        | none ↦ none
        | some job ↦
            some (if any (has_id job.id) (claimed_rows sql limit now q) then start job else job)
      ])
  unfolding claim
  find-claim i =
      find-update_where (has_id i) (λ job. any (has_id job.id) (claimed_rows sql limit now q)) start
        q (λ job. unfold has_id start in refl)

  claimed_not_due :
      (i now' : ℕ) (job : Job)
      → any (has_id i) (claimed_rows sql limit now q) ≡ true
      → is_due now' (if any (has_id job.id) (claimed_rows sql limit now q) then start job else job)
          && has_id i
              (if any (has_id job.id) (claimed_rows sql limit now q) then start job else job)
        ≡ false
  claimed_not_due i now' job h = elim (Bool-cases (has_id i job)) [
    | inl same ↦
        rw
          (subst (λ x. any (has_id x) (claimed_rows sql limit now q) ≡ true)
            (sym ((==_iff job.id i).0 (unfold has_id in same))) h)
          (unfold is_due start is_pending in refl)
    | inr other ↦ unclaimed (any (has_id job.id) (claimed_rows sql limit now q)) i now' job other
  ]

  -- No job that `_claim` handed out is handed out again by the next `_claim`, with whatever limit
  -- and at whatever time, unless another step comes between.
  pub claim_once :
      (i limit' now' : ℕ)
      → any (has_id i) (claimed_rows sql limit now q) ≡ true
      → any (has_id i) (claimed_rows sql limit' now' (claim sql limit now q).0) ≡ false
  unfolding claim
  claim_once i limit' now' h =
      let q' : List Job =
        update_where (λ job. any (has_id job.id) (claimed_rows sql limit now q)) start q in
      any_of_count_if_zero (has_id i) (claimed_rows sql limit' now' q') (
        unfold claimed_rows in
        omega (
          arith,
          count_if-take (has_id i) limit' (sql.order_by Job runs_before (keep (is_due now') q')),
          sql.order_by_rows Job runs_before (has_id i) (keep (is_due now') q'),
          count_if-keep_and (has_id i) (is_due now') q',
          count_if-update_none (λ j. is_due now' j && has_id i j)
              (λ job. any (has_id job.id) (claimed_rows sql limit now q)) start q
              (λ job. claimed_not_due i now' job h),
        ))
