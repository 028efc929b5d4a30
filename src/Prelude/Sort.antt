-- ===== src/Prelude/Sort.antt =====
-- Python's `sorted`, as a stable insertion sort, and what it means for rows to be in order.
use Prim.Native.Nat.{ℕ, suc}
use mathlib.Core.Path.{◌≡◌, refl, sym, subst, ap, ◌∙◌}
use mathlib.Core.Logic.{◌⊎◌, inl, inr}
use mathlib.Core.Bool.{Bool, true, false, not, ◌&&◌}
use mathlib.Core.List.{List, [], ◌∷◌}
use mathlib.Core.Option.{some}
use native.Mathlib.Omega.{arith}
use package.receipt_manager.Prelude.Tests.{if◌then◌else◌, Bool-cases}
use package.receipt_manager.Prelude.Lists.{All, count_if, find}

module _ {ℓ} {A : Type ℓ} where
  unfoldable pub insert_by : (A → A → Bool) → A → List A → List A
  insert_by le x [] = x ∷ []
  insert_by le x (y ∷ ys) = let rest = insert_by le x ys in if le x y then x ∷ y ∷ ys else y ∷ rest

  unfoldable pub sorted_by : (A → A → Bool) → List A → List A
  unfolding insert_by
  sorted_by le [] = []
  sorted_by le (x ∷ xs) = insert_by le x (sorted_by le xs)

  -- every row is before those that follow it
  abbrev pub Sorted : (A → A → Bool) → List A → Type 0
  Sorted le [] = Unit
  Sorted le (x ∷ xs) = All (λ y. le x y ≡ true) xs × Sorted le xs

  pub record IsOrder (le : A → A → Bool) : Type ℓ where
    pub total : (x y : A) → (le x y ≡ true) ⊎ (le y x ≡ true)
    pub trans : (x y z : A) → le x y ≡ true → le y z ≡ true → le x z ≡ true

module _ {ℓ} {A : Type ℓ} (le : A → A → Bool) where
  count_if-insert_by :
      (p : A → Bool) (x : A) (ys : List A) → count_if p (insert_by le x ys) ≡ count_if p (x ∷ ys)
  unfolding count_if insert_by
  count_if-insert_by p x [] = refl
  count_if-insert_by p x (y ∷ ys) = ground (arith, count_if-insert_by p x ys)

  count_if-cons :
      (p : A → Bool) (x : A) (xs ys : List A)
      → count_if p xs ≡ count_if p ys
      → count_if p (x ∷ xs) ≡ count_if p (x ∷ ys)
  unfolding count_if
  count_if-cons p x xs ys h = ap (λ (k : ℕ). if p x then suc k else k) h

  -- Sorting keeps every row as often as it was there.
  pub count_if-sorted_by :
      (p : A → Bool) (xs : List A) → count_if p (sorted_by le xs) ≡ count_if p xs
  unfolding sorted_by
  count_if-sorted_by p [] = refl
  count_if-sorted_by p (x ∷ xs) =
      count_if-insert_by p x (sorted_by le xs)
      ∙ count_if-cons p x (sorted_by le xs) xs (count_if-sorted_by p xs)

  All-insert_by :
      (P : A → Type 0) (x : A) (ys : List A) → P x → All P ys → All P (insert_by le x ys)
  unfolding insert_by
  All-insert_by P x [] h all = (h, tt)
  All-insert_by P x (y ∷ ys) h all = elim (Bool-cases (le x y)) [
    | inl before ↦ rw before (h, (all.0, all.1))
    | inr after ↦ rw after (all.0, All-insert_by P x ys h all.1)
  ]

  pub All-sorted_by : (P : A → Type 0) (xs : List A) → All P xs → All P (sorted_by le xs)
  unfolding sorted_by
  All-sorted_by P [] all = tt
  All-sorted_by P (x ∷ xs) all =
      All-insert_by P x (sorted_by le xs) all.0 (All-sorted_by P xs all.1)

  module _ (order : IsOrder le) where
    All-le_trans :
        (x y : A) (ys : List A)
        → le x y ≡ true
        → All (λ z. le y z ≡ true) ys
        → All (λ z. le x z ≡ true) ys
    All-le_trans x y [] h all = tt
    All-le_trans x y (z ∷ zs) h all = (order.trans x y z h all.0, All-le_trans x y zs h all.1)

    ge_of_not_le : (x y : A) → le x y ≡ false → le y x ≡ true
    ge_of_not_le x y h = elim (order.total x y) [ inl p ↦ cc | inr q ↦ q ]

    Sorted-insert_by : (x : A) (ys : List A) → Sorted le ys → Sorted le (insert_by le x ys)
    unfolding insert_by
    Sorted-insert_by x [] h = (tt, tt)
    Sorted-insert_by x (y ∷ ys) h = elim (Bool-cases (le x y)) [
      | inl before ↦ rw before ((before, All-le_trans x y ys before h.0), (h.0, h.1))
      | inr after ↦ rw after (
        All-insert_by (λ z. le y z ≡ true) x ys (ge_of_not_le x y after) h.0,
        Sorted-insert_by x ys h.1,
      )
    ]

    none_before :
        (p : A → Bool) (x : A) (ys : List A)
        → All (λ y. le x y ≡ true) ys
        → count_if (λ y. p y && not (le x y)) ys ≡ 0
    unfolding count_if
    none_before p x [] all = refl
    none_before p x (y ∷ ys) all = rw (all.0, none_before p x ys all.1) (ground (arith))

    -- In a sorted list no row that meets a test comes before the first that does.
    pub find_first :
        (p : A → Bool) (xs : List A) (x : A)
        → Sorted le xs
        → find p xs ≡ some x
        → count_if (λ y. p y && not (le x y)) xs ≡ 0
    unfolding find count_if
    find_first p [] x sorted h = refl
    find_first p (y ∷ ys) x sorted h = elim (Bool-cases (p y)) [
      | inl hit ↦
          let same : y ≡ x = ground (arith, hit) in
          let here : le x x ≡ true = elim (order.total x x) [ inl e ↦ e | inr e ↦ e ] in
          let all : All (λ w. le x w ≡ true) (y ∷ ys) = (
            subst (λ z. le x z ≡ true) (sym same) here,
            subst (λ z. All (λ w. le z w ≡ true) ys) same sorted.0,
          ) in
          none_before p x (y ∷ ys) all
      | inr miss ↦
          let later : find p ys ≡ some x = ground (arith, miss) in
          rw miss (find_first p ys x sorted.1 later)
    ]

    pub Sorted-sorted_by : (xs : List A) → Sorted le (sorted_by le xs)
    unfolding sorted_by
    Sorted-sorted_by [] = tt
    Sorted-sorted_by (x ∷ xs) = Sorted-insert_by x (sorted_by le xs) (Sorted-sorted_by xs)
