-- ===== src/Shortcode/Codes.antt =====
-- The codes that app/services/shortcode.py reads from a message.
use receipt_manager.Prelude.{
  ℕ, zero, suc, ◌-◌, ◌≤◌, ◌≡◌, refl, ap, ◌∙◌, Bool, true, false, none, some, [], ◌∷◌, ◌++◌, length,
  any, Text, arith, ◌==◌, Bool-cases, inl, inr, All, length-append,
}
use receipt_manager.Unicode.{Unicode, skip_spaces}
use receipt_manager.Shortcode.{
  digit_run, after_digits, at_boundary, match_code, match_tail, match_digits, codes_from,
  extract_codes,
}

abbrev pub has_hash : Text → Bool
has_hash s = any (λ c. c == b'#') s

module _ (u : Unicode) where
  abbrev pub Digits : Text → Type 0
  Digits s = All (λ c. u.is_digit c ≡ true) s

  no_match : (c : ℕ) (s : Text) → (c == b'#') ≡ false → match_code u (c ∷ s) ≡ none
  unfolding match_code
  no_match c s h = rw h

  codes_from-none :
      (c : ℕ) (s : Text) → match_code u (c ∷ s) ≡ none → codes_from u 0 (c ∷ s) ≡ codes_from u 0 s
  unfolding codes_from match_digits match_tail
  codes_from-none c s h = ground arith

  -- text with no `#` has no code
  codes_from-plain : (skip : ℕ) (s : Text) → has_hash s ≡ false → codes_from u skip s ≡ []
  unfolding codes_from any
  codes_from-plain zero [] h = refl
  codes_from-plain (suc skip) [] h = refl
  codes_from-plain (suc skip) (c ∷ s) h = codes_from-plain skip s (ground arith)
  codes_from-plain zero (c ∷ s) h = elim (Bool-cases (c == b'#')) [
    | inl hash ↦ cc
    | inr other ↦ codes_from-none c s (no_match c s other) ∙ codes_from-plain 0 s (ground arith)
  ]

  codes_from-skip : (s t : Text) → codes_from u (length s) (s ++ t) ≡ codes_from u 0 t
  unfolding codes_from
  codes_from-skip [] t = refl
  codes_from-skip (c ∷ s) t = codes_from-skip s t

  -- the text before the first `#` is passed over
  codes_from-before :
      (pre s : Text) → has_hash pre ≡ false → codes_from u 0 (pre ++ s) ≡ codes_from u 0 s
  unfolding codes_from any
  codes_from-before [] s h = refl
  codes_from-before (c ∷ pre) s h = elim (Bool-cases (c == b'#')) [
    | inl hash ↦ cc
    | inr other ↦
        codes_from-none c (pre ++ s) (no_match c (pre ++ s) other)
        ∙ codes_from-before pre s (ground arith)
  ]

  -- a text that does not go on with a digit
  abbrev pub EndsRun : Text → Type 0
  EndsRun [] = Unit
  EndsRun (c ∷ s) = u.is_word c ≡ false

  word_not_digit : (c : ℕ) → u.is_word c ≡ false → u.is_digit c ≡ false
  word_not_digit c h = ground (arith, u.digit_is_word c)

  digit_run-append : (ds rest : Text) → Digits ds → EndsRun rest → digit_run u (ds ++ rest) ≡ ds
  unfolding digit_run
  digit_run-append [] [] h e = refl
  digit_run-append [] (c ∷ rest) h e = rw (word_not_digit c e)
  digit_run-append (d ∷ ds) rest h e = rw (h.0, digit_run-append ds rest h.1 e)

  after_digits-append :
      (ds rest : Text) → Digits ds → EndsRun rest → after_digits u (ds ++ rest) ≡ rest
  unfolding after_digits
  after_digits-append [] [] h e = refl
  after_digits-append [] (c ∷ rest) h e = rw (word_not_digit c e)
  after_digits-append (d ∷ ds) rest h e = rw (h.0) (after_digits-append ds rest h.1 e)

  skip_spaces-Digits :
      (ds rest : Text) → 3 ≤ length ds → Digits ds → skip_spaces u (ds ++ rest) ≡ ds ++ rest
  unfolding skip_spaces
  skip_spaces-Digits [] rest h d = absurd (omega arith)
  skip_spaces-Digits (c ∷ ds) rest h d = rw (u.digit_not_space c d.0)

  EndsRun-boundary : (rest : Text) → EndsRun rest → at_boundary u rest ≡ true
  unfolding at_boundary
  EndsRun-boundary [] e = refl
  EndsRun-boundary (c ∷ rest) e = rw e

  match_code-Digits :
      (ds rest : Text)
      → 3 ≤ length ds
      → length ds ≤ 9
      → Digits ds
      → EndsRun rest
      → match_code u (b'#' ∷ (ds ++ rest)) ≡ some (ds, rest)
  unfolding match_code
  match_code-Digits ds rest lo hi d e = rw (skip_spaces-Digits ds rest lo d) (
      rw (digit_run-append ds rest d e)
        (rw (after_digits-append ds rest d e) (rw (EndsRun-boundary rest e) (ground arith))))

  match_digits-some :
      (t ds rest : Text) → match_code u t ≡ some (ds, rest) → match_digits u t ≡ ds ∷ []
  unfolding match_digits
  match_digits-some t ds rest h = ground arith

  match_tail-some :
      (t ds rest : Text)
      → match_code u t ≡ some (ds, rest)
      → match_tail u t ≡ length t - length rest - 1
  unfolding match_tail
  match_tail-some t ds rest h = ground arith

  codes_from-some :
      (c : ℕ) (s ds rest : Text)
      → match_code u (c ∷ s) ≡ some (ds, rest)
      → codes_from u 0 (c ∷ s) ≡ ds ∷ codes_from u (length s - length rest) s
  unfolding codes_from
  codes_from-some c s ds rest h =
      rw (match_digits-some (c ∷ s) ds rest h)
        (ap (λ k. ds ∷ codes_from u k s) (match_tail-some (c ∷ s) ds rest h ∙ omega arith))

  -- In a message with one `#`, which three to nine digits follow that are no part of a longer word,
  -- these digits are the one code, whatever stands before and behind.
  pub extract_codes_one :
      (pre ds rest : Text)
      → has_hash pre ≡ false
      → has_hash rest ≡ false
      → 3 ≤ length ds
      → length ds ≤ 9
      → Digits ds
      → EndsRun rest
      → extract_codes u (pre ++ (b'#' ∷ (ds ++ rest))) ≡ ds ∷ []
  unfolding extract_codes
  extract_codes_one pre ds rest hp hr lo hi d e =
      codes_from-before pre (b'#' ∷ (ds ++ rest)) hp
      ∙ codes_from-some b'#' (ds ++ rest) ds rest (match_code-Digits ds rest lo hi d e)
      ∙ ap (λ k. ds ∷ codes_from u k (ds ++ rest)) (omega (arith, length-append ds rest))
      ∙ ap (λ l. ds ∷ l) (codes_from-skip ds rest ∙ codes_from-plain 0 rest hr)
