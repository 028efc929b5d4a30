-- ===== src/Shortcode.antt =====
-- app/services/shortcode.py: the short codes of the transactions. The proofs are in the modules
-- below.
pub mod Free
pub mod Codes
pub mod Allocate
use receipt_manager.Prelude.{
  ℕ, zero, suc, ◌+◌, ◌-◌, max, Bool, true, false, not, ◌&&◌, ◌||◌, Option, none, some, List, [],
  ◌∷◌, ◌++◌, map, length, find, keep, any, Text, text_eq, str, leb, ◌==◌, if◌then◌else◌, is_empty,
}
use receipt_manager.Engine.{Engine}
use receipt_manager.Models.{Transaction}
use receipt_manager.Unicode.{Unicode, skip_spaces, strip}

abbrev pub start_at : ℕ
start_at = 1000

unfoldable pub has_code : Text → Transaction → Bool
has_code code tx = text_eq tx.short_code code

abbrev pub tx_ids : List Transaction → List ℕ
tx_ids = map (λ tx. tx.id)

-- the truth value of `db.scalar(select(Transaction.id).where(...))`
unfoldable pub code_in_use : List Transaction → ℕ → Bool
code_in_use txs n = elim (find (has_code (str n)) txs) [ none ↦ false | some tx ↦ not (tx.id == 0) ]

-- `while ...: nxt += 1`, with fuel
unfoldable pub first_free : ℕ → List Transaction → ℕ → ℕ
first_free zero txs n = n
first_free (suc fuel) txs n =
    let rest = first_free fuel txs (n + 1) in if code_in_use txs n then rest else n

-- `func.max(cast(Transaction.short_code, Integer))`, with 0 for no row as in `int(highest or 0)`
unfoldable pub highest_code : Engine → List Transaction → ℕ
highest_code sql [] = 0
highest_code sql (tx ∷ txs) = max (sql.cast_integer tx.short_code) (highest_code sql txs)

unfoldable pub next_short_code : Engine → List Transaction → Text
next_short_code sql txs =
    str (first_free (suc (length txs)) txs (max (highest_code sql txs + 1) start_at))

module _ (sql : Engine) (make_transaction : ℕ → Text → Transaction) where
  -- One round for each attempt. Its list holds the rows that other writers commit after the code is
  -- read and before the row is written. `none` is the RuntimeError after the last attempt.
  unfoldable pub allocate :
      List (List Transaction) → List Transaction → List Transaction × Option Transaction
  allocate [] txs = (txs, none)
  allocate (others ∷ rounds) txs =
      let code = next_short_code sql txs in
      let table = txs ++ others in
      let tx = make_transaction (sql.new_id (tx_ids table)) code in
      let retry = allocate rounds table in
      if any (has_code tx.short_code) table then retry else (table ++ tx ∷ [], some tx)

module _ (u : Unicode) where
  unfoldable pub digit_run : Text → Text
  digit_run [] = []
  digit_run (c ∷ s) = let rest = digit_run s in if u.is_digit c then c ∷ rest else []

  unfoldable pub after_digits : Text → Text
  after_digits [] = []
  after_digits (c ∷ s) = let rest = after_digits s in if u.is_digit c then rest else c ∷ s

  -- `\b` behind a digit: the end of the text, or a character that is not of a word
  unfoldable pub at_boundary : Text → Bool
  at_boundary [] = true
  at_boundary (c ∷ s) = not (u.is_word c)

  -- `#\s*(\d{3,9})\b` at the start of a text: the digits, and the text behind them. A shorter run of
  -- digits than the whole is followed by a digit, where there is no `\b`, so the whole run is it.
  unfoldable pub match_code : Text → Option (Text × Text)
  match_code [] = none
  match_code (c ∷ s) =
      let digits = digit_run (skip_spaces u s) in
      let rest = after_digits (skip_spaces u s) in
      if c == b'#' && leb 3 (length digits) && leb (length digits) 9 && at_boundary rest
      then some (digits, rest)
      else none

  -- the characters of a match that stand behind its first one
  unfoldable pub match_tail : Text → ℕ
  match_tail s = elim (match_code s) [ none ↦ 0 | some (digits, rest) ↦ length s - length rest - 1 ]

  unfoldable pub match_digits : Text → List Text
  match_digits s = elim (match_code s) [ none ↦ [] | some (digits, rest) ↦ digits ∷ [] ]

  -- `finditer`: from left to right, passing over what a match took
  unfoldable pub codes_from : ℕ → Text → List Text
  codes_from skip [] = []
  codes_from (suc skip) (c ∷ s) = codes_from skip s
  codes_from zero (c ∷ s) = match_digits (c ∷ s) ++ codes_from (match_tail (c ∷ s)) s

  unfoldable pub extract_codes : Text → List Text
  extract_codes text = codes_from 0 text

  -- `_CODE_RE.sub(" ", text)`
  unfoldable pub sub_from : ℕ → Text → Text
  sub_from skip [] = []
  sub_from (suc skip) (c ∷ s) = sub_from skip s
  sub_from zero (c ∷ s) =
      elim (match_code (c ∷ s)) [ none ↦ c | some _ ↦ b' ' ] ∷ sub_from (match_tail (c ∷ s)) s

  -- `re.sub(r"[ \t]+", " ", line)`
  unfoldable pub collapse_blanks : Bool → Text → Text
  collapse_blanks in_run [] = []
  collapse_blanks in_run (c ∷ s) =
      let blank = c == b' ' || c == 9 in
      let rest = collapse_blanks blank s in
      if blank then (if in_run then rest else b' ' ∷ rest) else c ∷ rest

  -- the characters at which `str.splitlines` ends a line
  unfoldable pub ends_line : ℕ → Bool
  ends_line c =
      c == 10
      || c == 11
      || c == 12
      || c == 13
      || c == 28
      || c == 29
      || c == 30
      || c == 0x85
      || c == 0x2028
      || c == 0x2029

  abbrev pub add_char : ℕ → List Text → List Text
  add_char c [] = (c ∷ []) ∷ []
  add_char c (line ∷ lines) = (c ∷ line) ∷ lines

  abbrev pub starts_newline : Text → Bool
  starts_newline [] = false
  starts_newline (d ∷ t) = d == 10

  -- the lines of a text that is read from inside a line; `\r\n` ends one line
  unfoldable pub lines_from : Text → List Text
  lines_from [] = [] ∷ []
  lines_from (c ∷ s) =
      let rest = lines_from s in
      if c == 13 && starts_newline s
      then rest
      else if ends_line c
      then [] ∷ rest
      else add_char c rest

  abbrev join_lines : List Text → Text
  join_lines [] = []
  join_lines (line ∷ []) = line
  join_lines (line ∷ line' ∷ lines) = line ++ 10 ∷ join_lines (line' ∷ lines)

  -- `splitlines` gives no empty last line where this splitting does: empty lines are dropped below
  unfoldable pub strip_codes : Text → Text
  strip_codes text = strip u (
      join_lines (
        keep (λ line. not (is_empty line))
          (map (λ line. strip u (collapse_blanks false line)) (lines_from (sub_from 0 text)))))
