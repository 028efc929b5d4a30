-- ===== src/Parsing.antt =====
-- app/services/parsing.py: what is read from an alert mail. Here are its types, the plain text of a
-- mail and the currency of an amount; the children have the amount itself, the rules, and proofs.
-- BeautifulSoup, `re` on the patterns of the users, `strptime` and dateutil are parameters. A number
-- of more than 28 digits, which the context of Python's decimal rounds, is not treated apart.
pub mod Amount
pub mod Rules
pub mod Plain
pub mod RoundTrip
pub mod First
pub mod Tester
use receipt_manager.Prelude.{
  ℕ, Bool, true, false, not, ◌&&◌, ◌||◌, Option, none, some, List, [], ◌∷◌, ◌++◌, map, length, take,
  drop, suc, ◌+◌, any, keep, Text, codes, text_eq, is_empty, is_prefix, contains, ◌==◌,
  if◌then◌else◌,
}
use receipt_manager.Prelude.Int.{ℤ}
use receipt_manager.Unicode.{Unicode, strip}

pub record ParsedFields : Type 0 where
  pub merchant : Text
  pub amount_minor : ℤ
  pub currency : Text
  pub card_ending : Option Text
  pub cardholder : Option Text
  pub occurred_at : Option ℕ

pub record ParseRule : Type 0 where
  pub id : ℕ
  pub name : Text
  pub enabled : Bool
  pub priority : ℕ
  pub sender_match : Text
  pub subject_match : Text
  pub match_is_regex : Bool
  pub body_regex : Text
  pub default_currency : Text
  pub date_format : Option Text

pub record ParseOutcome : Type 0 where
  pub rule : Option ParseRule
  pub fields : Option ParsedFields
  pub error : Option Text

abbrev pub starts_with : ℕ → Text → Bool
starts_with c [] = false
starts_with c (d ∷ s) = d == c

unfoldable pub ends_with : ℕ → Text → Bool
ends_with c [] = false
ends_with c (d ∷ []) = d == c
ends_with c (d ∷ e ∷ s) = ends_with c (e ∷ s)

-- `text[:-1]`
unfoldable pub drop_last : Text → Text
drop_last [] = []
drop_last (c ∷ []) = []
drop_last (c ∷ d ∷ s) = c ∷ drop_last (d ∷ s)

-- `_NBSP_VARIANTS`
unfoldable pub is_nbsp : ℕ → Bool
is_nbsp c = c == 0xa0 || c == 0x2009 || c == 0x202f || c == 0x2007

unfoldable pub plain_spaces : Text → Text
plain_spaces s = map (λ c. if is_nbsp c then b' ' else c) s

abbrev pub is_blank : ℕ → Bool
is_blank c = c == b' ' || c == 9

abbrev pub starts_blank : Text → Bool
starts_blank [] = false
starts_blank (c ∷ s) = is_blank c

-- `.replace("\r\n", "\n").replace("\r", "\n")`
unfoldable pub newlines : Text → Text
newlines [] = []
newlines (c ∷ s) =
    let rest = newlines s in
    if c == 13 then (if starts_with 10 s then rest else 10 ∷ rest) else c ∷ rest

-- `_INLINE_SPACES_RE.sub(" ", text)`
unfoldable pub inline_spaces : Text → Text
inline_spaces [] = []
inline_spaces (c ∷ s) =
    let rest = inline_spaces s in
    if is_blank c then (if starts_blank s then rest else b' ' ∷ rest) else c ∷ rest

-- `line.rstrip(" \t")` of each line
unfoldable pub trim_lines : Text → Text
trim_lines [] = []
trim_lines (c ∷ s) =
    let rest = trim_lines s in
    if is_blank c && (is_empty rest || starts_with 10 rest) then rest else c ∷ rest

abbrev pub two_newlines : Text → Bool
two_newlines [] = false
two_newlines (c ∷ s) = c == 10 && starts_with 10 s

-- `_BLANK_LINES_RE.sub("\n\n", text)`
unfoldable pub blank_lines : Text → Text
blank_lines [] = []
blank_lines (c ∷ s) =
    let rest = blank_lines s in if c == 10 && two_newlines s then rest else c ∷ rest

unfoldable pub normalize_text : Unicode → Text → Text
normalize_text u text =
    strip u (blank_lines (trim_lines (inline_spaces (plain_spaces (newlines text)))))

-- `get_text` stands for the BeautifulSoup document without its scripts and heads
unfoldable pub html_to_text : Unicode → (Text → Text) → Text → Text
html_to_text u get_text html = normalize_text u (get_text html)

abbrev pub currency_codes : List Text
currency_codes =
    codes "USD"
    ∷ codes "EUR"
    ∷ codes "GBP"
    ∷ codes "CAD"
    ∷ codes "AUD"
    ∷ codes "NZD"
    ∷ codes "JPY"
    ∷ codes "CHF"
    ∷ codes "SEK"
    ∷ codes "NOK"
    ∷ codes "DKK"
    ∷ codes "ZAR"
    ∷ codes "INR"
    ∷ codes "MXN"
    ∷ codes "SGD"
    ∷ codes "HKD"
    ∷ []

-- `_PREFIXED_DOLLAR`, sorted by length as Python's stable sort leaves it
abbrev pub prefixed_dollar : List (Text × Text)
prefixed_dollar =
    (codes "CA$", codes "CAD")
    ∷ (codes "US$", codes "USD")
    ∷ (codes "AU$", codes "AUD")
    ∷ (codes "NZ$", codes "NZD")
    ∷ (codes "SG$", codes "SGD")
    ∷ (codes "HK$", codes "HKD")
    ∷ (codes "MX$", codes "MXN")
    ∷ (codes "NT$", codes "TWD")
    ∷ (codes "C$", codes "CAD")
    ∷ (codes "U$", codes "USD")
    ∷ (codes "A$", codes "AUD")
    ∷ (codes "S$", codes "SGD")
    ∷ (codes "R$", codes "BRL")
    ∷ []

-- `_SYMBOL_TO_CODE` in its order
abbrev pub symbol_codes : List (ℕ × Text)
symbol_codes =
    (b'$', codes "USD")
    ∷ (0xa3, codes "GBP")
    ∷ (0x20ac, codes "EUR")
    ∷ (0xa5, codes "JPY")
    ∷ (0x20b9, codes "INR")
    ∷ []

-- `_DOLLAR_CODES`
unfoldable pub is_dollar : Text → Bool
is_dollar code = any (text_eq code) (
    codes "USD"
    ∷ codes "CAD"
    ∷ codes "AUD"
    ∷ codes "NZD"
    ∷ codes "SGD"
    ∷ codes "HKD"
    ∷ codes "MXN"
    ∷ [])

-- `text.find(needle)`
unfoldable pub find_index : Text → Text → Option ℕ
find_index needle [] = if is_empty needle then some 0 else none
find_index needle (c ∷ s) =
    let later : Option ℕ = elim (find_index needle s) [ none ↦ none | some i ↦ some (suc i) ] in
    if is_prefix needle (c ∷ s) then some 0 else later

module _ (u : Unicode) where
  -- a code at the start of a text, as `re.IGNORECASE` compares: the text behind it
  unfoldable pub match_letters : Text → Text → Option Text
  match_letters [] s = some s
  match_letters (p ∷ ps) [] = none
  match_letters (p ∷ ps) (c ∷ s) =
      let rest = match_letters ps s in if u.same_letter c p then rest else none

  -- `\b` behind a letter
  unfoldable pub at_word_end : Text → Bool
  at_word_end [] = true
  at_word_end (c ∷ s) = not (u.is_word c)

  unfoldable pub match_one_of : List Text → Text → Option Text
  match_one_of [] s = none
  match_one_of (code ∷ rest) s =
      let later = match_one_of rest s in
      elim (match_letters code s) [
        | none ↦ later
        | some behind ↦ if at_word_end behind then some behind else later
      ]

  -- the leftmost match of `_CURRENCY_CODE_RE`: the text before it, what matched (three characters),
  -- and the text behind it; `in_word` tells whether the character before is of a word
  unfoldable pub find_code : Bool → Text → Option (Text × Text × Text)
  find_code in_word [] = none
  find_code in_word (c ∷ s) =
      let later : Option (Text × Text × Text) = elim (find_code (u.is_word c) s) [
        | none ↦ none
        | some (before, code, behind) ↦ some (c ∷ before, code, behind)
      ] in
      elim (match_one_of currency_codes (c ∷ s)) [
        | none ↦ later
        | some behind ↦ if in_word then later else some ([], take 3 (c ∷ s), behind)
      ]

  unfoldable pub find_prefixed : Text → List (Text × Text) → Option (Text × Text)
  find_prefixed text [] = none
  find_prefixed text ((dollar, code) ∷ rest) =
      let later = find_prefixed text rest in
      elim (find_index dollar (u.upper text)) [
        | none ↦ later
        | some i ↦ some (strip u (take i text ++ drop (i + length dollar) text), code)
      ]

  unfoldable pub find_symbol : Text → Text → List (ℕ × Text) → Option (Text × Text)
  find_symbol default text [] = none
  find_symbol default text ((symbol, code) ∷ rest) =
      let later = find_symbol default text rest in
      if any (λ c. c == symbol) text
      then some (
        strip u (keep (λ c. not (c == symbol)) text),
        if symbol == b'$' then (if is_dollar default then default else codes "USD") else code,
      )
      else later

  -- `(default_currency or "USD").upper()`
  unfoldable pub default_code : Text → Text
  default_code default_currency =
      u.upper (if is_empty default_currency then codes "USD" else default_currency)

  -- `_detect_currency`
  unfoldable pub detect_currency : Text → Text → Text × Text
  detect_currency text default_currency =
      let default = default_code default_currency in
      elim (find_code false text) [
        | some (before, code, behind) ↦ (strip u (before ++ behind), u.upper code)
        | none ↦ elim (find_prefixed text prefixed_dollar) [
          | some found ↦ found
          | none ↦ elim (find_symbol default text symbol_codes) [
            | some found ↦ found
            | none ↦ (strip u text, default)
          ]
        ]
      ]
