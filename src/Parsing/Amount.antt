-- ===== src/Parsing/Amount.antt =====
-- `parse_amount` of app/services/parsing.py. An amount is in hundredths of the unit.
use receipt_manager.Prelude.{
  ℕ, suc, ◌+◌, ◌*◌, ◌/◌, ◌^◌, Bool, true, false, not, ◌&&◌, ◌||◌, Option, none, some, [], ◌∷◌, ◌++◌,
  map, length, any, count_if, keep, Text, codes, is_empty, ltb, leb, ◌==◌, if◌then◌else◌,
}
use receipt_manager.Prelude.Int.{ℤ, pos, neg}
use receipt_manager.Unicode.{Unicode, skip_spaces, strip}
use receipt_manager.Parsing.{starts_with, ends_with, drop_last, plain_spaces, detect_currency}

pub data Amount : Type 0 where
  amount : ℤ → Text → Amount
  unreadable : Text → Amount  -- a ValueError with its message

abbrev pub behind_first : Text → Text
behind_first [] = []
behind_first (c ∷ s) = s

-- the text and `negative` after one step of the reading
abbrev pub Signed : Type 0
Signed = Text × Bool

-- `num.rfind(separator)`
unfoldable pub rfind : ℕ → Text → Option ℕ
rfind separator [] = none
rfind separator (c ∷ s) = elim (rfind separator s) [
  | some i ↦ some (suc i)
  | none ↦ if c == separator then some 0 else none
]

abbrev pub without : ℕ → Text → Text
without separator = keep (λ c. not (c == separator))

-- `num.replace(separator, ".")`
abbrev pub dotted : ℕ → Text → Text
dotted separator = map (λ c. if c == separator then b'.' else c)

-- `num.partition(separator)`
unfoldable pub before_separator : ℕ → Text → Text
before_separator separator [] = []
before_separator separator (c ∷ s) =
    let rest = before_separator separator s in if c == separator then [] else c ∷ rest

unfoldable pub after_separator : ℕ → Text → Text
after_separator separator [] = []
after_separator separator (c ∷ s) =
    let rest = after_separator separator s in if c == separator then s else rest

module _ (u : Unicode) where
  -- the parentheses of accounting
  unfoldable pub unwrap : Text → Signed
  unwrap text =
      if starts_with b'(' text && ends_with b')' text && ltb 2 (length text)
      then (strip u (drop_last (behind_first text)), true)
      else (text, false)

  -- a sign before the number, then one behind it
  unfoldable pub leading_sign : Signed → Signed
  leading_sign (text, negative) =
      if starts_with b'-' text
      then (strip u (behind_first text), true)
      else if starts_with b'+' text
      then (strip u (behind_first text), negative)
      else (text, negative)

  unfoldable pub trailing_sign : Signed → Signed
  trailing_sign (text, negative) =
      if ends_with b'-' text then (strip u (drop_last text), true) else (text, negative)

  abbrev pub starts_digit : Text → Bool
  starts_digit [] = false
  starts_digit (c ∷ s) = u.is_digit c

  -- `_BETWEEN_DIGITS_SPACE_RE.sub("", text)`; the flag tells whether a digit stands before
  unfoldable pub join_digits : Bool → Text → Text
  join_digits after_digit [] = []
  join_digits after_digit (c ∷ s) =
      let dropped = after_digit && u.is_space c && starts_digit (skip_spaces u s) in
      let rest = join_digits (dropped || u.is_digit c) s in if dropped then rest else c ∷ rest

  abbrev pub in_number : ℕ → Bool
  in_number c = u.is_digit c || c == b'.' || c == b','

  -- `[\d.,]*\d` at the start of a text: the longest run that ends with a digit, empty for no match
  unfoldable pub number_at : Text → Text
  number_at [] = []
  number_at (c ∷ s) =
      let rest = number_at s in
      if in_number c
      then (if is_empty rest then (if u.is_digit c then c ∷ [] else []) else c ∷ rest)
      else []

  -- the leftmost match, and whether a minus or a parenthesis stands right before it
  unfoldable pub find_number : Bool → Text → Option (Text × Bool)
  find_number after_sign [] = none
  find_number after_sign (c ∷ s) =
      let later = find_number (c == b'-' || c == b'(') s in
      if is_empty (number_at (c ∷ s)) then later else some (number_at (c ∷ s), after_sign)

  -- `_collapse_single_separator`
  unfoldable pub collapse_separator : Text → ℕ → Text
  collapse_separator num separator =
      let int_part = before_separator separator num in
      let frac = after_separator separator num in
      if ltb 1 (count_if (λ c. c == separator) num)
      then without separator num
      else if length frac == 3
          && leb 1 (length int_part)
          && leb (length int_part) 3
          && not (any (λ c. not (u.is_digit c)) int_part)
          && not (starts_with b'0' int_part)
      then without separator num
      else if separator == b'.'
      then num
      else dotted separator num

  -- the text that `_parse_numeric` hands to `Decimal`
  unfoldable pub cleaned : Text → Text
  cleaned num = elim (rfind b'.' num) [
    | none ↦ elim (rfind b',' num) [ none ↦ num | some j ↦ collapse_separator num b',' ]
    | some i ↦ elim (rfind b',' num) [
      | none ↦ collapse_separator num b'.'
      | some j ↦ if ltb j i then without b',' num else dotted b',' (without b'.' num)
    ]
  ]

  unfoldable pub value_of : ℕ → Text → ℕ
  value_of acc [] = acc
  value_of acc (c ∷ s) = value_of (acc * 10 + u.digit_value c) s

  -- `int((Decimal(text) * 100).to_integral_value(rounding=ROUND_HALF_UP))` for digits with at most one
  -- dot between them; `none` is InvalidOperation
  unfoldable pub hundredths : Text → Option ℕ
  hundredths text =
      let int_part = before_separator b'.' text in
      let frac = after_separator b'.' text in
      let scale = 10 ^ length frac in
      if ltb 1 (count_if (λ c. c == b'.') text)
      then none
      else some ((200 * value_of 0 (int_part ++ frac) + scale) / (2 * scale))

  unfoldable pub read_amount : Text → Text → Signed → Amount
  read_amount raw currency (text, negative) = elim (find_number false (join_digits false text)) [
    | none ↦ unreadable (codes "Could not find a number in " ++ u.repr raw)
    | some (num, after_sign) ↦ elim (hundredths (cleaned num)) [
      | none ↦ unreadable (codes "Could not parse a number from " ++ u.repr raw)
      | some minor ↦ amount (if negative || after_sign then neg (pos minor) else pos minor) currency
    ]
  ]

  -- `raw` is a text: the None of the source is refused before, with the message of the empty one
  unfoldable pub parse_amount : Text → Text → Amount
  parse_amount raw default_currency =
      let text = strip u raw in
      let unwrapped = unwrap (plain_spaces text) in
      let detected = detect_currency u unwrapped.0 default_currency in
      if is_empty text
      then unreadable (codes "No amount text provided")
      else read_amount raw detected.1 (trailing_sign (leading_sign (detected.0, unwrapped.1)))
