-- ===== src/Prelude/Lists.antt =====
-- Lists as the tables of the database: tests, searches, updates of the rows that meet a test.
use Prim.Native.Nat.{ℕ, zero, suc, ◌+◌, ◌≤◌, ◌<◌, min}
use mathlib.Core.Path.{◌≡◌, refl, ap}
use mathlib.Core.Bool.{Bool, true, false, not, ◌&&◌, ◌||◌}
use mathlib.Core.List.{List, [], ◌∷◌, ◌++◌, map}
use mathlib.Core.Option.{Option, none, some}
use native.Mathlib.Omega.{arith}
use package.receipt_manager.Prelude.Tests.{if◌then◌else◌}

module _ {ℓ} {A : Type ℓ} where
  abbrev pub length : List A → ℕ
  length [] = 0
  length (x ∷ xs) = suc (length xs)

  abbrev pub take : ℕ → List A → List A
  take zero xs = []
  take (suc n) [] = []
  take (suc n) (x ∷ xs) = x ∷ take n xs

  abbrev pub drop : ℕ → List A → List A
  drop zero xs = xs
  drop (suc n) [] = []
  drop (suc n) (x ∷ xs) = drop n xs

  -- `next((x for x in xs if p(x)), None)`, and the first row of a query
  unfoldable pub find : (A → Bool) → List A → Option A
  find p [] = none
  find p (x ∷ xs) = if p x then some x else find p xs

  -- the rows that a `where` clause keeps, in their order
  unfoldable pub keep : (A → Bool) → List A → List A
  keep p [] = []
  keep p (x ∷ xs) = let rest = keep p xs in if p x then x ∷ rest else rest

  unfoldable pub any : (A → Bool) → List A → Bool
  any p [] = false
  any p (x ∷ xs) = p x || any p xs

  unfoldable pub count_if : (A → Bool) → List A → ℕ
  count_if p [] = 0
  count_if p (x ∷ xs) = let rest = count_if p xs in if p x then suc rest else rest

  -- an assignment to the fields of every row that meets a test
  unfoldable pub update_where : (A → Bool) → (A → A) → List A → List A
  update_where p f [] = []
  update_where p f (x ∷ xs) = (if p x then f x else x) ∷ update_where p f xs

  abbrev pub All {κ} : (A → Type κ) → List A → Type κ
  All P [] = Unit
  All P (x ∷ xs) = P x × All P xs

module _ {ℓ} {A : Type ℓ} where
  pub length-append : (xs ys : List A) → length (xs ++ ys) ≡ length xs + length ys
  length-append [] ys = omega arith
  length-append (x ∷ xs) ys = omega (arith, length-append xs ys)

  pub length-take : (n : ℕ) (xs : List A) → length (take n xs) ≡ min n (length xs)
  length-take zero xs = omega arith
  length-take (suc n) [] = omega arith
  length-take (suc n) (x ∷ xs) = omega (arith, length-take n xs)

  pub length-update_where :
      (p : A → Bool) (f : A → A) (xs : List A) → length (update_where p f xs) ≡ length xs
  unfolding update_where
  length-update_where p f [] = refl
  length-update_where p f (x ∷ xs) = ap suc (length-update_where p f xs)

  pub length-keep : (p : A → Bool) (xs : List A) → length (keep p xs) ≡ count_if p xs
  unfolding keep count_if
  length-keep p [] = refl
  length-keep p (x ∷ xs) = ground (arith, length-keep p xs)

  pub count_if-append :
      (p : A → Bool) (xs ys : List A) → count_if p (xs ++ ys) ≡ count_if p xs + count_if p ys
  unfolding count_if
  count_if-append p [] ys = omega arith
  count_if-append p (x ∷ xs) ys = ground (arith, count_if-append p xs ys)

  pub any-append : (p : A → Bool) (xs ys : List A) → any p (xs ++ ys) ≡ (any p xs || any p ys)
  unfolding any
  any-append p [] ys = refl
  any-append p (x ∷ xs) ys = ground (arith, any-append p xs ys)

  pub find-append_none :
      (p : A → Bool) (xs ys : List A) → find p xs ≡ none → find p (xs ++ ys) ≡ find p ys
  unfolding find
  find-append_none p [] ys h = refl
  find-append_none p (x ∷ xs) ys h = ground (arith, find-append_none p xs ys)

  -- what a search finds meets the test
  pub find_sound : (p : A → Bool) (xs : List A) (x : A) → find p xs ≡ some x → p x ≡ true
  unfolding find
  find_sound p [] x h = cc
  find_sound p (y ∷ ys) x h = ground (arith, find_sound p ys x)

  pub any-eq_false_of_find : (p : A → Bool) (xs : List A) → find p xs ≡ none → any p xs ≡ false
  unfolding find any
  any-eq_false_of_find p [] h = refl
  any-eq_false_of_find p (x ∷ xs) h = ground (arith, any-eq_false_of_find p xs)

  pub find-eq_none_of_any : (p : A → Bool) (xs : List A) → any p xs ≡ false → find p xs ≡ none
  unfolding find any
  find-eq_none_of_any p [] h = refl
  find-eq_none_of_any p (x ∷ xs) h = ground (arith, find-eq_none_of_any p xs)

  pub All-append {κ} : (P : A → Type κ) (xs ys : List A) → All P xs → All P ys → All P (xs ++ ys)
  All-append P [] ys hx hy = hy
  All-append P (x ∷ xs) ys hx hy = (hx.0, All-append P xs ys hx.1 hy)

module _ {ℓ} {A : Type ℓ} where
  pub count_if-update_where :
      (p t : A → Bool) (f : A → A) (xs : List A)
      → ((x : A) → p (f x) ≡ p x)
      → count_if p (update_where t f xs) ≡ count_if p xs
  unfolding count_if update_where
  count_if-update_where p t f [] h = refl
  count_if-update_where p t f (x ∷ xs) h = ground (arith, h x, count_if-update_where p t f xs h)

  pub count_if-keep : (p t : A → Bool) (xs : List A) → count_if p (keep t xs) ≤ count_if p xs
  unfolding count_if keep
  count_if-keep p t [] = omega arith
  count_if-keep p t (x ∷ xs) = ground (arith, count_if-keep p t xs)

  pub count_if-le_length : (p : A → Bool) (xs : List A) → count_if p xs ≤ length xs
  unfolding count_if
  count_if-le_length p [] = omega arith
  count_if-le_length p (x ∷ xs) = ground (arith, count_if-le_length p xs)

  -- no row of a `where` clause fails its test
  pub count_if-keep_not :
      (p t : A → Bool) (xs : List A)
      → ((x : A) → t x ≡ true → p x ≡ false)
      → count_if p (keep t xs) ≡ 0
  unfolding count_if keep
  count_if-keep_not p t [] h = refl
  count_if-keep_not p t (x ∷ xs) h = ground (arith, h x, count_if-keep_not p t xs h)

  -- a `where` clause keeps every row that a test it follows from counts
  pub count_if-keep_all :
      (p t : A → Bool) (xs : List A)
      → ((x : A) → p x ≡ true → t x ≡ true)
      → count_if p (keep t xs) ≡ count_if p xs
  unfolding count_if keep
  count_if-keep_all p t [] h = refl
  count_if-keep_all p t (x ∷ xs) h = ground (arith, h x, count_if-keep_all p t xs h)

  pub count_if_mono :
      (p t : A → Bool) (xs : List A)
      → ((x : A) → p x ≡ true → t x ≡ true)
      → count_if p xs ≤ count_if t xs
  unfolding count_if
  count_if_mono p t [] h = omega arith
  count_if_mono p t (x ∷ xs) h = ground (arith, h x, count_if_mono p t xs h)

  pub count_if_zero_of_any : (p : A → Bool) (xs : List A) → any p xs ≡ false → count_if p xs ≡ 0
  unfolding count_if any
  count_if_zero_of_any p [] h = refl
  count_if_zero_of_any p (x ∷ xs) h = ground (arith, count_if_zero_of_any p xs)

  pub any_of_count_if_zero : (p : A → Bool) (xs : List A) → count_if p xs ≡ 0 → any p xs ≡ false
  unfolding count_if any
  any_of_count_if_zero p [] h = refl
  any_of_count_if_zero p (x ∷ xs) h = ground (arith, any_of_count_if_zero p xs)

  pub any_of_count_if_pos : (p : A → Bool) (xs : List A) → 0 < count_if p xs → any p xs ≡ true
  unfolding count_if any
  any_of_count_if_pos p [] h = elim h [ ]
  any_of_count_if_pos p (x ∷ xs) h = ground (arith, any_of_count_if_pos p xs)

  pub any-map {κ} :
      {B : Type κ} (p : B → Bool) (f : A → B) (xs : List A)
      → any p (map f xs) ≡ any (λ x. p (f x)) xs
  unfolding any
  any-map p f [] = refl
  any-map p f (x ∷ xs) = ground (arith, any-map p f xs)

  -- the first row that meets a test, after an assignment that keeps the test
  pub find-update_where :
      (p t : A → Bool) (f : A → A) (xs : List A)
      → ((x : A) → p (f x) ≡ p x)
      → find p (update_where t f xs)
        ≡ (elim (find p xs) [ none ↦ none | some x ↦ some (if t x then f x else x) ])
  unfolding find update_where
  find-update_where p t f [] h = refl
  find-update_where p t f (x ∷ xs) h = ground (arith, h x, find-update_where p t f xs h)

  pub keep_nothing :
      (p t : A → Bool) (xs : List A)
      → any p xs ≡ false
      → ((x : A) → p x ≡ false → t x ≡ true)
      → keep t xs ≡ xs
  unfolding any keep
  keep_nothing p t [] h f = refl
  keep_nothing p t (x ∷ xs) h f = ground (arith, f x, keep_nothing p t xs)

  pub count_if-take : (p : A → Bool) (n : ℕ) (xs : List A) → count_if p (take n xs) ≤ count_if p xs
  unfolding count_if
  count_if-take p zero xs = omega arith
  count_if-take p (suc n) [] = omega arith
  count_if-take p (suc n) (x ∷ xs) = ground (arith, count_if-take p n xs)

  -- tests that agree on every row
  pub count_if-cong :
      (p t : A → Bool) (xs : List A) → ((x : A) → p x ≡ t x) → count_if p xs ≡ count_if t xs
  unfolding count_if
  count_if-cong p t [] h = refl
  count_if-cong p t (x ∷ xs) h = ground (arith, h x, count_if-cong p t xs h)

module _ {ℓ} {A : Type ℓ} where
  pub count_if_pos_of_any : (p : A → Bool) (xs : List A) → any p xs ≡ true → 1 ≤ count_if p xs
  unfolding any count_if
  count_if_pos_of_any p [] h = cc
  count_if_pos_of_any p (x ∷ xs) h = ground (arith, count_if_pos_of_any p xs)

  pub count_if-update_none :
      (p t : A → Bool) (f : A → A) (xs : List A)
      → ((x : A) → p (if t x then f x else x) ≡ false)
      → count_if p (update_where t f xs) ≡ 0
  unfolding count_if update_where
  count_if-update_none p t f [] h = refl
  count_if-update_none p t f (x ∷ xs) h = rw (h x) (count_if-update_none p t f xs h)

  pub count_if-keep_and :
      (p t : A → Bool) (xs : List A) → count_if p (keep t xs) ≡ count_if (λ x. t x && p x) xs
  unfolding count_if keep
  count_if-keep_and p t [] = refl
  count_if-keep_and p t (x ∷ xs) = ground (arith, count_if-keep_and p t xs)

  pub All-of_count :
      (p : A → Bool) (xs : List A) → count_if (λ x. not (p x)) xs ≡ 0 → All (λ x. p x ≡ true) xs
  unfolding count_if
  All-of_count p [] h = tt
  All-of_count p (x ∷ xs) h = (ground arith, All-of_count p xs (ground arith))

  pub count_if-take-drop :
      (p : A → Bool) (n : ℕ) (xs : List A)
      → count_if p (take n xs) + count_if p (drop n xs) ≡ count_if p xs
  unfolding count_if
  count_if-take-drop p zero xs = omega arith
  count_if-take-drop p (suc n) [] = omega arith
  count_if-take-drop p (suc n) (x ∷ xs) = ground (arith, count_if-take-drop p n xs)

  pub All-take {κ} : (P : A → Type κ) (n : ℕ) (xs : List A) → All P xs → All P (take n xs)
  All-take P zero xs h = tt
  All-take P (suc n) [] h = tt
  All-take P (suc n) (x ∷ xs) h = (h.0, All-take P n xs h.1)

  pub All-drop {κ} : (P : A → Type κ) (n : ℕ) (xs : List A) → All P xs → All P (drop n xs)
  All-drop P zero xs h = h
  All-drop P (suc n) [] h = tt
  All-drop P (suc n) (x ∷ xs) h = All-drop P n xs h.1

  pub All-map_into {κ} :
      {P Q : A → Type κ} (f : (x : A) → P x → Q x) (xs : List A) → All P xs → All Q xs
  All-map_into f [] h = tt
  All-map_into f (x ∷ xs) h = (f x h.0, All-map_into f xs h.1)

module _ {ℓ} {A : Type ℓ} where
  pub find-keep :
      (p t : A → Bool) (xs : List A) (x : A)
      → find p xs ≡ some x
      → t x ≡ true
      → find p (keep t xs) ≡ some x
  unfolding find keep
  find-keep p t [] x h e = cc
  find-keep p t (y ∷ ys) x h e = ground (arith, find-keep p t ys x)

  pub find-append_some :
      (p : A → Bool) (xs ys : List A) (x : A) → find p xs ≡ some x → find p (xs ++ ys) ≡ some x
  unfolding find
  find-append_some p [] ys x h = cc
  find-append_some p (z ∷ zs) ys x h = ground (arith, find-append_some p zs ys x)

  -- what a search finds fails a test that no row meets
  pub any-eq_false_at :
      (p r : A → Bool) (xs : List A) (x : A) → find p xs ≡ some x → any r xs ≡ false → r x ≡ false
  unfolding find any
  any-eq_false_at p r [] x h e = cc
  any-eq_false_at p r (y ∷ ys) x h e = ground (arith, any-eq_false_at p r ys x)

module _ {ℓ} {A : Type ℓ} where
  pub count_if_never : (xs : List A) → count_if (λ _. false) xs ≡ 0
  unfolding count_if
  count_if_never [] = refl
  count_if_never (x ∷ xs) = count_if_never xs

  count_if-or :
      (p t : A → Bool) (xs : List A)
      → count_if p xs ≡ 0
      → count_if t xs ≡ 0
      → count_if (λ x. p x || t x) xs ≡ 0
  unfolding count_if
  count_if-or p t [] h k = refl
  count_if-or p t (x ∷ xs) h k = ground (arith, count_if-or p t xs)

  -- rows that meet none of some tests
  pub count_if-any {κ} :
      {B : Type κ} (r : B → A → Bool) (ys : List B) (xs : List A)
      → All (λ y. count_if (r y) xs ≡ 0) ys
      → count_if (λ x. any (λ y. r y x) ys) xs ≡ 0
  unfolding any
  count_if-any r [] xs h = count_if_never xs
  count_if-any r (y ∷ ys) xs h =
      count_if-or (r y) (λ x. any (λ y. r y x) ys) xs h.0 (count_if-any r ys xs h.1)
