-- ===== src/Parsing/RoundTrip.antt =====
-- `parse_amount` of app/services/parsing.py reads what `money_plain` of app/formatting.py writes.
use receipt_manager.Prelude.{
  ℕ, zero, suc, ◌+◌, ◌-◌, ◌*◌, ◌/◌, ◌%◌, ◌<◌, ◌≡◌, refl, ap, ◌∙◌, Bool, true, false, ◌||◌, none,
  some, [], ◌∷◌, ◌++◌, any, count_if, Text, is_empty, str, str_rounds, read_digits, read_digits-str,
  read_digits-append, ltb, ◌==◌, if◌then◌else◌, arith, All, All-append, Bool-cases, Option-cases,
  inl, inr, count_if-append, any-append, count_if_zero_of_any,
}
use receipt_manager.Prelude.Int.{ℤ, pos, negsuc, neg, is_negative}
use receipt_manager.Unicode.{Unicode}
use receipt_manager.Formatting.{money_plain, sign, two_digits}
use receipt_manager.Parsing.{starts_with, ends_with, default_code}
use receipt_manager.Parsing.Amount.{
  amount, leading_sign, trailing_sign, number_at, find_number, rfind, before_separator,
  after_separator, collapse_separator, cleaned, value_of, hundredths, read_amount, parse_amount,
}
use receipt_manager.Parsing.Plain.{
  is_decimal, is_plain, IsPlain, plain_spaces_plain, strip_plain, join_digits_plain, unwrap_plain,
  detect_currency_plain,
}

or_false : (b : Bool) → b || false ≡ b
or_false true = refl
or_false false = refl

neg-suc : (m : ℕ) → neg (pos (suc m)) ≡ negsuc m
unfolding neg
neg-suc m = ground arith

abbrev IsDigits : Text → Type 0
IsDigits s = All (λ c. is_decimal c ≡ true) s

-- a number with a dot and two digits, which is what stands behind the sign
abbrev body : Text → ℕ → Text
body s k = s ++ (b'.' ∷ two_digits k)

str_rounds-IsDigits : (fuel n : ℕ) → IsDigits (str_rounds fuel n)
unfolding str_rounds
str_rounds-IsDigits zero n = tt
str_rounds-IsDigits (suc fuel) n = elim (Bool-cases (ltb n 10)) [
  | inl small ↦ rw small (ground arith, tt)
  | inr large ↦ rw large (
      All-append (λ c. is_decimal c ≡ true) (str_rounds fuel (n / 10)) ((48 + n % 10) ∷ [])
        (str_rounds-IsDigits fuel (n / 10)) (ground arith, tt))
]

str-IsDigits : (n : ℕ) → IsDigits (str n)
unfolding str
str-IsDigits n = str_rounds-IsDigits (suc n) n

digits-IsPlain : (s : Text) → IsDigits s → IsPlain s
digits-IsPlain [] h = tt
digits-IsPlain (c ∷ s) h = (rw h.0 refl, digits-IsPlain s h.1)

body-IsPlain : (s : Text) (k : ℕ) → k < 100 → IsDigits s → IsPlain (body s k)
body-IsPlain s k small h =
    All-append (λ c. is_plain c ≡ true) s (b'.' ∷ two_digits k) (digits-IsPlain s h)
      (refl, (ground arith, (ground arith, tt)))

ends_with-append :
    (c : ℕ) (s : Text) (d : ℕ) (t : Text) → ends_with c (s ++ (d ∷ t)) ≡ ends_with c (d ∷ t)
unfolding ends_with
ends_with-append c [] d t = refl
ends_with-append c (a ∷ []) d t = refl
ends_with-append c (a ∷ b ∷ s) d t = ends_with-append c (b ∷ s) d t

body_ends : (s : Text) (k : ℕ) → k < 100 → ends_with b'-' (body s k) ≡ false
body_ends s k small =
    rw (ends_with-append b'-' s b'.' (two_digits k)) (unfold ends_with in ground arith)

body_starts :
    (c : ℕ) (s : Text) (k : ℕ)
    → is_decimal c ≡ false
    → (c == b'.') ≡ false
    → IsDigits s
    → starts_with c (body s k) ≡ false
body_starts c [] k h g d = ground arith
body_starts c (a ∷ s) k h g d = ground (arith, d.0)

is_empty-append : (s t : Text) → is_empty t ≡ false → is_empty (s ++ t) ≡ false
is_empty-append [] t h = h
is_empty-append (c ∷ s) t h = refl

body_filled : (s : Text) (k : ℕ) → is_empty (body s k) ≡ false
body_filled [] k = refl
body_filled (a ∷ s) k = refl

no_separator : (c : ℕ) (s : Text) → is_decimal c ≡ false → IsDigits s → any (λ d. d == c) s ≡ false
unfolding any
no_separator c [] g h = refl
no_separator c (a ∷ s) g h = ground (arith, h.0, no_separator c s g h.1)

before_separator-body : (s t : Text) → IsDigits s → before_separator b'.' (s ++ (b'.' ∷ t)) ≡ s
unfolding before_separator
before_separator-body [] t h = refl
before_separator-body (a ∷ s) t h =
    let k : (a == b'.') ≡ false = ground (arith, h.0) in
    rw k (ap (λ r. a ∷ r) (before_separator-body s t h.1))

after_separator-body : (s t : Text) → IsDigits s → after_separator b'.' (s ++ (b'.' ∷ t)) ≡ t
unfolding after_separator
after_separator-body [] t h = refl
after_separator-body (a ∷ s) t h =
    let k : (a == b'.') ≡ false = ground (arith, h.0) in rw k (after_separator-body s t h.1)

rfind-none : (c : ℕ) (s : Text) → any (λ d. d == c) s ≡ false → rfind c s ≡ none
unfolding rfind any
rfind-none c [] h = refl
rfind-none c (a ∷ s) h = ground (arith, rfind-none c s)

count-body : (s : Text) (k : ℕ) → k < 100 → IsDigits s → count_if (λ c. c == b'.') (body s k) ≡ 1
count-body s k small h =
    rw
      (
        count_if-append (λ c. c == b'.') s (b'.' ∷ two_digits k),
        count_if_zero_of_any (λ c. c == b'.') s (no_separator b'.' s refl h),
      )
      (unfold count_if in ground arith)

comma-body : (s : Text) (k : ℕ) → k < 100 → IsDigits s → any (λ c. c == b',') (body s k) ≡ false
comma-body s k small h =
    rw (any-append (λ c. c == b',') s (b'.' ∷ two_digits k), no_separator b',' s refl h)
      (unfold any in ground arith)

module _ (u : Unicode) where
  decimal_digit : (c : ℕ) → is_decimal c ≡ true → u.is_digit c ≡ true
  decimal_digit c h = u.ascii_digit c (ground arith) (ground arith)

  number_at-append :
      (s t : Text)
      → IsDigits s
      → is_empty t ≡ false
      → number_at u t ≡ t
      → number_at u (s ++ t) ≡ s ++ t
  unfolding number_at
  number_at-append [] t h k e = e
  number_at-append (a ∷ s) t h k e =
      let filled : is_empty (s ++ t) ≡ false = is_empty-append s t k in
      rw (decimal_digit a h.0, number_at-append s t h.1 k e, filled) refl

  number_at-cents : (k : ℕ) → k < 100 → number_at u (b'.' ∷ two_digits k) ≡ b'.' ∷ two_digits k
  unfolding number_at
  number_at-cents k small =
      let tens : u.is_digit (48 + k / 10) ≡ true = decimal_digit (48 + k / 10) (ground arith) in
      let ones : u.is_digit (48 + k % 10) ≡ true = decimal_digit (48 + k % 10) (ground arith) in
      rw (u.dot_not_digit, tens, ones) refl

  find_number_whole :
      (b : Bool) (t : Text)
      → is_empty t ≡ false
      → number_at u t ≡ t
      → find_number u b t ≡ some (t, b)
  unfolding find_number
  find_number_whole b [] k e = cc
  find_number_whole b (c ∷ t) k e = rw (e, find_number) refl

  find_number-body :
      (b : Bool) (s : Text) (k : ℕ)
      → k < 100
      → IsDigits s
      → find_number u b (body s k) ≡ some (body s k, b)
  find_number-body b s k small h =
      find_number_whole b (body s k) (body_filled s k)
        (number_at-append s (b'.' ∷ two_digits k) h refl (number_at-cents k small))

  value_of-digits : (acc : ℕ) (s : Text) → IsDigits s → value_of u acc s ≡ read_digits acc s
  unfolding value_of read_digits
  value_of-digits acc [] h = refl
  value_of-digits acc (c ∷ s) h =
      let e : u.digit_value c ≡ c - 48 = u.ascii_digit_value c (ground arith) (ground arith) in
      rw e (value_of-digits (acc * 10 + (c - 48)) s h.1)

  cleaned-body : (s : Text) (k : ℕ) → k < 100 → IsDigits s → cleaned u (body s k) ≡ body s k
  unfolding cleaned collapse_separator
  cleaned-body s k small h =
      let kept : collapse_separator u (body s k) b'.' ≡ body s k =
        rw (count-body s k small h, after_separator-body s (two_digits k) h, collapse_separator)
          refl in
      elim (Option-cases (rfind b'.' (body s k))) [
        | inl missing ↦
            rw (missing, rfind-none b',' (body s k) (comma-body s k small h), cleaned) refl
        | inr (i, found) ↦
            rw (found, rfind-none b',' (body s k) (comma-body s k small h), cleaned) kept
      ]

  hundredths-body : (n k : ℕ) → k < 100 → hundredths u (body (str n) k) ≡ some (100 * n + k)
  unfolding hundredths
  hundredths-body n k small =
      let spelled : value_of u 0 (str n ++ two_digits k) ≡ 100 * n + k =
        value_of-digits 0 (str n ++ two_digits k) (
          All-append (λ c. is_decimal c ≡ true) (str n) (two_digits k) (str-IsDigits n)
            (ground arith, (ground arith, tt)))
        ∙ (read_digits-append 0 (str n) (two_digits k)
            ∙ rw (read_digits-str n) (unfold read_digits in omega arith)) in
      rw
        (
          count-body (str n) k small (str-IsDigits n),
          before_separator-body (str n) (two_digits k) (str-IsDigits n),
          after_separator-body (str n) (two_digits k) (str-IsDigits n),
          spelled,
          hundredths,
        )
        (ap some (omega arith))

  -- the steps before the number only take the sign away
  signed_body :
      (n k : ℕ) (negative : Bool)
      → k < 100
      → trailing_sign u (leading_sign u (body (str n) k, negative)) ≡ (body (str n) k, negative)
  unfolding trailing_sign leading_sign
  signed_body n k negative small =
      rw
        (
          body_starts b'-' (str n) k refl refl (str-IsDigits n),
          body_starts b'+' (str n) k refl refl (str-IsDigits n),
          body_ends (str n) k small,
        )
        refl

  negative_body :
      (n k : ℕ)
      → k < 100
      → trailing_sign u (leading_sign u (b'-' ∷ body (str n) k, false)) ≡ (body (str n) k, true)
  unfolding trailing_sign leading_sign
  negative_body n k small =
      rw
        (
          strip_plain u (body (str n) k) (body-IsPlain (str n) k small (str-IsDigits n)),
          body_ends (str n) k small,
        )
        refl

  read_amount-body :
      (raw currency : Text) (n k : ℕ) (negative : Bool)
      → k < 100
      → read_amount u raw currency (body (str n) k, negative)
        ≡ amount (if negative then neg (pos (100 * n + k)) else pos (100 * n + k)) currency
  unfolding read_amount
  read_amount-body raw currency n k negative small =
      let plain : IsPlain (body (str n) k) = body-IsPlain (str n) k small (str-IsDigits n) in
      rw
        (
          join_digits_plain u false (body (str n) k) plain,
          find_number-body false (str n) k small (str-IsDigits n),
          cleaned-body (str n) k small (str-IsDigits n),
          hundredths-body n k small,
          read_amount,
        )
        (ap (λ b. amount (if b then neg (pos (100 * n + k)) else pos (100 * n + k)) currency)
          (or_false negative))

  parse_amount-plain :
      (raw default_currency : Text)
      → IsPlain raw
      → is_empty raw ≡ false
      → parse_amount u raw default_currency
        ≡ read_amount u raw
            (default_code u default_currency)
            (trailing_sign u (leading_sign u (raw, false)))
  unfolding parse_amount
  parse_amount-plain raw default_currency h filled =
      rw
        (
          strip_plain u raw h,
          filled,
          plain_spaces_plain raw h,
          unwrap_plain u raw h,
          detect_currency_plain u raw default_currency h,
          parse_amount,
        )
        refl

  -- An amount as `money_plain` writes it reads back as that amount, in the default currency.
  pub parse_amount-money_plain :
      (amount_minor : ℤ) (default_currency : Text)
      → parse_amount u (money_plain amount_minor) default_currency
        ≡ amount amount_minor (default_code u default_currency)
  unfolding money_plain sign is_negative
  parse_amount-money_plain (pos m) default_currency =
      let n : ℕ = m / 100 in
      let k : ℕ = m % 100 in
      let small : k < 100 = omega arith in
      let whole : 100 * n + k ≡ m = omega arith in
      parse_amount-plain (body (str n) k) default_currency
        (body-IsPlain (str n) k small (str-IsDigits n)) (body_filled (str n) k)
      ∙ (rw (signed_body n k false small)
            (read_amount-body (body (str n) k) (default_code u default_currency) n k false small)
          ∙ ap (λ v. amount (pos v) (default_code u default_currency)) whole)
  parse_amount-money_plain (negsuc m) default_currency =
      let n : ℕ = suc m / 100 in
      let k : ℕ = suc m % 100 in
      let small : k < 100 = omega arith in
      let whole : 100 * n + k ≡ suc m = omega arith in
      parse_amount-plain (b'-' ∷ body (str n) k) default_currency
        (refl, body-IsPlain (str n) k small (str-IsDigits n)) refl
      ∙ (rw (negative_body n k small) (
            read_amount-body (b'-' ∷ body (str n) k) (default_code u default_currency) n k true
              small)
          ∙ (ap (λ v. amount (neg (pos v)) (default_code u default_currency)) whole
              ∙ ap (λ v. amount v (default_code u default_currency)) (neg-suc m)))
