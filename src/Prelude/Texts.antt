-- ===== src/Prelude/Texts.antt =====
-- Text as a list of code points, its equality test, and the decimal print of a number.
use Prim.Native.Nat.{ℕ, zero, suc, ◌+◌, ◌-◌, ◌*◌, ◌/◌, ◌%◌, ◌<◌}
use Prim.Native.Char.{code}
use Prim.Native.String.{String}
use mathlib.Core.Path.{◌≡◌, refl, ap, sym, ◌∙◌}
use mathlib.Core.Logic.{◌↔◌, inl, inr}
use mathlib.Core.Bool.{Bool, true, false, ◌&&◌}
use mathlib.Core.List.{List, [], ◌∷◌, ◌++◌}
use native.Mathlib.Omega.{arith}
use package.receipt_manager.Prelude.Tests.{if◌then◌else◌, Bool-cases, ◌==◌, ltb}

abbrev pub Text : Type 0
Text = List ℕ

abbrev pub codes : String → Text
codes String.[] = []
codes (String.◌∷◌ c s) = code c ∷ codes s

unfoldable pub text_eq : Text → Text → Bool
text_eq [] [] = true
text_eq [] (d ∷ t) = false
text_eq (c ∷ s) [] = false
text_eq (c ∷ s) (d ∷ t) = c == d && text_eq s t

pub text_eq_sound : (s t : Text) → text_eq s t ≡ true → s ≡ t
unfolding text_eq
text_eq_sound [] [] h = refl
text_eq_sound [] (d ∷ t) h = cc
text_eq_sound (c ∷ s) [] h = cc
text_eq_sound (c ∷ s) (d ∷ t) h = ground (arith, text_eq_sound s t)

pub text_eq_refl : (s : Text) → text_eq s s ≡ true
unfolding text_eq
text_eq_refl [] = refl
text_eq_refl (c ∷ s) = ground (arith, text_eq_refl s)

pub text_eq_iff : (s t : Text) → (text_eq s t ≡ true) ↔ (s ≡ t)
text_eq_iff s t = (text_eq_sound s t, λ e. rw e (text_eq_refl t))

pub text_eq_comm : (s t : Text) → text_eq s t ≡ text_eq t s
text_eq_comm s t = ground (arith, text_eq_iff s t, text_eq_iff t s)

-- `s` truthy: a text that is not empty
abbrev pub is_empty : Text → Bool
is_empty [] = true
is_empty (c ∷ s) = false

-- `str(n)`: one digit a round, so `suc n` rounds are enough
unfoldable pub str_rounds : ℕ → ℕ → Text
str_rounds zero n = []
str_rounds (suc fuel) n =
    let rest = str_rounds fuel (n / 10) in
    if ltb n 10 then (48 + n) ∷ [] else rest ++ (48 + n % 10) ∷ []

unfoldable pub str : ℕ → Text
unfolding str_rounds
str n = str_rounds (suc n) n

-- the number that a run of decimal digits spells, after the digits already read
unfoldable pub read_digits : ℕ → Text → ℕ
read_digits acc [] = acc
read_digits acc (c ∷ s) = read_digits (acc * 10 + (c - 48)) s

pub read_digits-append :
    (acc : ℕ) (s t : Text) → read_digits acc (s ++ t) ≡ read_digits (read_digits acc s) t
unfolding read_digits
read_digits-append acc [] t = refl
read_digits-append acc (c ∷ s) t = read_digits-append (acc * 10 + (c - 48)) s t

read_digits-str_rounds : (fuel n : ℕ) → n < fuel → read_digits 0 (str_rounds fuel n) ≡ n
unfolding str_rounds
read_digits-str_rounds zero n h = elim h [ ]
read_digits-str_rounds (suc fuel) n h = elim (Bool-cases (ltb n 10)) [
  | inl small ↦ rw small (unfold read_digits in omega arith)
  | inr large ↦
      rw (large, read_digits-append 0 (str_rounds fuel (n / 10)) ((48 + n % 10) ∷ []))
        (rw (read_digits-str_rounds fuel (n / 10) (ground arith))
          (unfold read_digits in omega arith))
]

-- The decimal print of a number reads back as that number.
pub read_digits-str : (n : ℕ) → read_digits 0 (str n) ≡ n
unfolding str
read_digits-str n = read_digits-str_rounds (suc n) n (omega arith)

pub str-injective : (m n : ℕ) → str m ≡ str n → m ≡ n
str-injective m n h = sym (read_digits-str m) ∙ ap (read_digits 0) h ∙ read_digits-str n

unfoldable pub is_prefix : Text → Text → Bool
is_prefix [] t = true
is_prefix (c ∷ s) [] = false
is_prefix (c ∷ s) (d ∷ t) = c == d && is_prefix s t

-- `needle in text`
unfoldable pub contains : Text → Text → Bool
contains needle [] = is_prefix needle []
contains needle (c ∷ s) =
    let rest = contains needle s in if is_prefix needle (c ∷ s) then true else rest
