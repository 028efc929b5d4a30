-- ===== src/Unicode.antt =====
-- The character tables of Python that the patterns and the string methods of the services read.
-- They are data of the interpreter, so they are a parameter, with the documented facts that the
-- proofs need.
use receipt_manager.Prelude.{
  ℕ, ◌-◌, ◌≤◌, ◌≡◌, Bool, true, false, ◌&&◌, [], ◌∷◌, All, Text, is_empty, if◌then◌else◌,
}

pub record Unicode : Type 0 where
  pub is_digit : ℕ → Bool  -- `\d`
  pub is_space : ℕ → Bool  -- `\s` and `str.isspace`
  pub is_word : ℕ → Bool  -- `\w`
  pub lower : Text → Text  -- `str.lower`
  pub upper : Text → Text  -- `str.upper`
  pub digit_value : ℕ → ℕ  -- the value of a character of `\d` in a numeral
  pub same_letter : ℕ → ℕ → Bool  -- a character of a text and one of a pattern, with `re.IGNORECASE`
  pub repr : Text → Text
  pub digit_is_word : (c : ℕ) → is_digit c ≡ true → is_word c ≡ true
  pub digit_not_space : (c : ℕ) → is_digit c ≡ true → is_space c ≡ false
  pub hash_not_digit : is_digit b'#' ≡ false
  pub hash_not_space : is_space b'#' ≡ false
  pub dot_not_digit : is_digit b'.' ≡ false
  pub dash_not_digit : is_digit b'-' ≡ false
  pub dot_not_space : is_space b'.' ≡ false
  pub dash_not_space : is_space b'-' ≡ false
  pub ascii_digit : (c : ℕ) → 48 ≤ c → c ≤ 57 → is_digit c ≡ true
  pub ascii_digit_value : (c : ℕ) → 48 ≤ c → c ≤ 57 → digit_value c ≡ c - 48
  -- the characters up to `@` have no case
  pub same_letter_plain : (c p : ℕ) → c ≤ 64 → 65 ≤ p → same_letter c p ≡ false
  pub upper_plain : (s : Text) → All (λ c. c ≤ 64) s → upper s ≡ s

unfoldable pub skip_spaces : Unicode → Text → Text
skip_spaces u [] = []
skip_spaces u (c ∷ s) = let rest = skip_spaces u s in if u.is_space c then rest else c ∷ s

unfoldable pub strip_right : Unicode → Text → Text
strip_right u [] = []
strip_right u (c ∷ s) =
    let rest = strip_right u s in if u.is_space c && is_empty rest then [] else c ∷ rest

-- `str.strip`
unfoldable pub strip : Unicode → Text → Text
strip u s = strip_right u (skip_spaces u s)
