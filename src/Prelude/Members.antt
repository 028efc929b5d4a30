-- ===== src/Prelude/Members.antt =====
-- What holds of every row holds of the rows that a search or a selection gives.
use mathlib.Core.Bool.{false, Bool, true}
use mathlib.Core.Path.{ap, refl, ◌≡◌, subst}
use mathlib.Core.Option.{some}
use mathlib.Core.List.{List, [], ◌∷◌, ◌++◌, Mem, mem-cons_self, mem-cons_of_mem}
use mathlib.Core.Logic.{inl, inr}
use native.Mathlib.Omega.{arith}
use package.receipt_manager.Prelude.Tests.{Bool-cases}
use package.receipt_manager.Prelude.Lists.{All, find, keep, any, update_where, take, length}

module _ {ℓ} {A : Type ℓ} where
  pub any_of_find : (p : A → Bool) (xs : List A) (x : A) → find p xs ≡ some x → any p xs ≡ true
  unfolding find any
  any_of_find p [] x h = cc
  any_of_find p (y ∷ ys) x h = ground (arith, any_of_find p ys x)

  All-weaken : (P Q : A → Type ℓ) (xs : List A) → ((x : A) → P x → Q x) → All P xs → All Q xs
  All-weaken P Q [] f all = tt
  All-weaken P Q (x ∷ xs) f all = (f x all.0, All-weaken P Q xs f all.1)

  pub All-Mem : (xs : List A) → All (λ x. Mem x xs) xs
  All-Mem [] = tt
  All-Mem (x ∷ xs) = (
    mem-cons_self,
    All-weaken (λ y. Mem y xs) (λ y. Mem y (x ∷ xs)) xs (λ y. mem-cons_of_mem x) (All-Mem xs),
  )

  pub All-keep {κ} : (P : A → Type κ) (p : A → Bool) (xs : List A) → All P xs → All P (keep p xs)
  unfolding keep
  All-keep P p [] all = tt
  All-keep P p (x ∷ xs) all = elim (Bool-cases (p x)) [
    | inl kept ↦ rw kept (all.0, All-keep P p xs all.1)
    | inr gone ↦ rw gone (All-keep P p xs all.1)
  ]

  pub All-find {κ} :
      (P : A → Type κ) (p : A → Bool) (xs : List A) (x : A) → All P xs → find p xs ≡ some x → P x
  unfolding find
  All-find P p [] x all h = cc
  All-find P p (y ∷ ys) x all h = elim (Bool-cases (p y)) [
    | inl hit ↦ let same : y ≡ x = ground (arith, hit) in subst P same all.0
    | inr miss ↦
        let later : find p ys ≡ some x = ground (arith, miss) in All-find P p ys x all.1 later
  ]

  pub keep_sound : (p : A → Bool) (xs : List A) → All (λ x. p x ≡ true) (keep p xs)
  unfolding keep
  keep_sound p [] = tt
  keep_sound p (x ∷ xs) = elim (Bool-cases (p x)) [
    | inl kept ↦ rw kept (kept, keep_sound p xs)
    | inr gone ↦ rw gone (keep_sound p xs)
  ]

  -- an assignment to rows of the second list only
  pub update_where-append_none :
      (p : A → Bool) (f : A → A) (xs ys : List A)
      → any p xs ≡ false
      → update_where p f (xs ++ ys) ≡ xs ++ update_where p f ys
  unfolding any update_where
  update_where-append_none p f [] ys h = refl
  update_where-append_none p f (x ∷ xs) ys h =
      let miss : p x ≡ false = ground arith in
      let rest : any p xs ≡ false = ground arith in
      rw miss (ap (λ zs. x ∷ zs) (update_where-append_none p f xs ys rest))

  -- Rows that are added behind a list leave it as its first rows.
  pub take-append : (xs ys : List A) → take (length xs) (xs ++ ys) ≡ xs
  take-append [] ys = refl
  take-append (x ∷ xs) ys = ap (λ zs. x ∷ zs) (take-append xs ys)
