-- ===== src/Parsing/Plain.antt =====
-- The steps of `parse_amount` of app/services/parsing.py on a text of decimal digits, dots and
-- dashes: none of those before the number changes it.
use receipt_manager.Prelude.{
  ℕ, ◌≤◌, ◌≡◌, refl, ap, Bool, true, false, not, ◌&&◌, ◌||◌, none, List, [], ◌∷◌, any, Text,
  is_prefix, leb, ◌==◌, arith, All, Bool-cases, ◌⊎◌, inl, inr,
}
use receipt_manager.Unicode.{Unicode, skip_spaces, strip_right, strip}
use receipt_manager.Parsing.{
  is_nbsp, plain_spaces, match_letters, match_one_of, currency_codes, find_code, find_index,
  prefixed_dollar, find_prefixed, symbol_codes, find_symbol, default_code, detect_currency,
}
use receipt_manager.Parsing.Amount.{unwrap, join_digits}

abbrev pub is_decimal : ℕ → Bool
is_decimal c = leb 48 c && leb c 57

abbrev pub is_plain : ℕ → Bool
is_plain c = is_decimal c || (c == b'.' || c == b'-')

abbrev pub IsPlain : Text → Type 0
IsPlain s = All (λ c. is_plain c ≡ true) s

plain_low : (c : ℕ) → is_plain c ≡ true → c ≤ 64
plain_low c h = ground arith

no_nbsp : (c : ℕ) → is_plain c ≡ true → is_nbsp c ≡ false
unfolding is_nbsp
no_nbsp c h = ground arith

pub plain_spaces_plain : (s : Text) → IsPlain s → plain_spaces s ≡ s
unfolding plain_spaces is_nbsp
plain_spaces_plain [] h = refl
plain_spaces_plain (c ∷ s) h =
    let rest : plain_spaces s ≡ s = plain_spaces_plain s h.1 in
    rw (no_nbsp c h.0) (ap (λ t. c ∷ t) rest)

pub plain_cases : (c : ℕ) → is_plain c ≡ true → ((48 ≤ c) × (c ≤ 57)) ⊎ ((c ≡ b'.') ⊎ (c ≡ b'-'))
plain_cases c h = ground arith

low : (s : Text) → IsPlain s → All (λ c. c ≤ 64) s
low [] h = tt
low (c ∷ s) h = (plain_low c h.0, low s h.1)

abbrev starts_upper : Text → Bool
starts_upper [] = false
starts_upper (p ∷ ps) = leb 65 p

codes_upper : any (λ word. not (starts_upper word)) currency_codes ≡ false
unfolding any
codes_upper = refl

dollars_upper : any (λ pair. not (starts_upper pair.0)) prefixed_dollar ≡ false
unfolding any
dollars_upper = refl

symbols_other : any (λ pair. is_plain pair.0) symbol_codes ≡ false
unfolding any
symbols_other = refl

no_index : (p : ℕ) (ps s : Text) → 65 ≤ p → IsPlain s → find_index (p ∷ ps) s ≡ none
unfolding find_index is_prefix
no_index p ps [] k h = refl
no_index p ps (c ∷ s) k h = ground (arith, plain_low c h.0, no_index p ps s k h.1)

not_there :
    (symbol : ℕ) (s : Text) → is_plain symbol ≡ false → IsPlain s → any (λ c. c == symbol) s ≡ false
unfolding any
not_there symbol [] k h = refl
not_there symbol (c ∷ s) k h = ground (arith, h.0, not_there symbol s k h.1)

module _ (u : Unicode) where
  plain_not_space : (c : ℕ) → is_plain c ≡ true → u.is_space c ≡ false
  plain_not_space c h = elim (plain_cases c h) [
    | inl (k, l) ↦ u.digit_not_space c (u.ascii_digit c k l)
    | inr (inl e) ↦ rw e u.dot_not_space
    | inr (inr e) ↦ rw e u.dash_not_space
  ]

  pub skip_spaces_plain : (s : Text) → IsPlain s → skip_spaces u s ≡ s
  unfolding skip_spaces
  skip_spaces_plain [] h = refl
  skip_spaces_plain (c ∷ s) h = rw (plain_not_space c h.0) refl

  strip_right_plain : (s : Text) → IsPlain s → strip_right u s ≡ s
  unfolding strip_right
  strip_right_plain [] h = refl
  strip_right_plain (c ∷ s) h = rw (plain_not_space c h.0, strip_right_plain s h.1) refl

  pub strip_plain : (s : Text) → IsPlain s → strip u s ≡ s
  unfolding strip
  strip_plain s h = rw (skip_spaces_plain s h) (strip_right_plain s h)

  pub join_digits_plain : (b : Bool) (s : Text) → IsPlain s → join_digits u b s ≡ s
  unfolding join_digits
  join_digits_plain b [] h = refl
  join_digits_plain b (c ∷ s) h = elim (Bool-cases b) [
    | inl after ↦
        rw (after, plain_not_space c h.0) (ap (λ t. c ∷ t) (join_digits_plain (u.is_digit c) s h.1))
    | inr start ↦ rw start (ap (λ t. c ∷ t) (join_digits_plain (u.is_digit c) s h.1))
  ]

  no_code_here :
      (words : List Text) (c : ℕ) (s : Text)
      → any (λ word. not (starts_upper word)) words ≡ false
      → is_plain c ≡ true
      → match_one_of u words (c ∷ s) ≡ none
  unfolding match_one_of match_letters any
  no_code_here [] c s k h = refl
  no_code_here ([] ∷ words) c s k h = cc
  no_code_here ((p ∷ ps) ∷ words) c s k h =
      let upper : 65 ≤ p = ground arith in
      let rest : any (λ word. not (starts_upper word)) words ≡ false = ground arith in
      rw (u.same_letter_plain c p (plain_low c h) upper, match_one_of)
        (no_code_here words c s rest h)

  no_code : (b : Bool) (s : Text) → IsPlain s → find_code u b s ≡ none
  unfolding find_code
  no_code b [] h = refl
  no_code b (c ∷ s) h =
      rw (no_code_here currency_codes c s codes_upper h.0, no_code (u.is_word c) s h.1, find_code)
        refl

  no_prefixed :
      (dollars : List (Text × Text)) (s : Text)
      → any (λ pair. not (starts_upper pair.0)) dollars ≡ false
      → IsPlain s
      → find_prefixed u s dollars ≡ none
  unfolding find_prefixed any
  no_prefixed [] s k h = refl
  no_prefixed (([], code) ∷ dollars) s k h = cc
  no_prefixed ((p ∷ ps, code) ∷ dollars) s k h =
      let upper : 65 ≤ p = ground arith in
      let rest : any (λ pair. not (starts_upper pair.0)) dollars ≡ false = ground arith in
      rw (u.upper_plain s (low s h), no_index p ps s upper h, find_prefixed)
        ((no_prefixed dollars s rest h))

  no_symbol :
      (default s : Text) (symbols : List (ℕ × Text))
      → any (λ pair. is_plain pair.0) symbols ≡ false
      → IsPlain s
      → find_symbol u default s symbols ≡ none
  unfolding find_symbol any
  no_symbol default s [] k h = refl
  no_symbol default s ((symbol, code) ∷ symbols) k h =
      let other : is_plain symbol ≡ false = ground arith in
      let rest : any (λ pair. is_plain pair.0) symbols ≡ false = ground arith in
      rw (not_there symbol s other h) (no_symbol default s symbols rest h)

  pub detect_currency_plain :
      (s default : Text) → IsPlain s → detect_currency u s default ≡ (s, default_code u default)
  unfolding detect_currency
  detect_currency_plain s default h =
      rw
        (
          no_code false s h,
          no_prefixed prefixed_dollar s dollars_upper h,
          no_symbol (default_code u default) s symbol_codes symbols_other h,
          strip_plain s h,
          detect_currency,
        )
        refl

pub unwrap_plain : (u : Unicode) (s : Text) → IsPlain s → unwrap u s ≡ (s, false)
unfolding unwrap
unwrap_plain u [] h = refl
unwrap_plain u (c ∷ s) h = let k : (c == b'(') ≡ false = ground (arith, h.0) in rw k refl
