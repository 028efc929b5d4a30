-- ===== src/Formatting.antt =====
-- app/formatting.py: amounts as text. Times of day and zones are not modelled.
use receipt_manager.Prelude.{
  ℕ, zero, suc, ◌+◌, ◌/◌, ◌%◌, [], ◌∷◌, ◌++◌, Text, codes, str, is_empty, text_eq, ltb, ◌||◌,
  if◌then◌else◌,
}
use receipt_manager.Prelude.Int.{ℤ, pos, negsuc, is_negative}
use receipt_manager.Unicode.{Unicode}

abbrev pub magnitude : ℤ → ℕ
magnitude (pos n) = n
magnitude (negsuc n) = suc n

abbrev pub two_digits : ℕ → Text
two_digits n = (48 + n / 10) ∷ (48 + n % 10) ∷ []

abbrev pub three_digits : ℕ → Text
three_digits n = (48 + n / 100) ∷ two_digits (n % 100)

-- the integer part of the format `,.2f`; `suc n` rounds are enough, since each divides by 1000
unfoldable pub grouped_rounds : ℕ → ℕ → Text
grouped_rounds zero n = []
grouped_rounds (suc fuel) n =
    let rest = grouped_rounds fuel (n / 1000) in
    if ltb n 1000 then str n else rest ++ b',' ∷ three_digits (n % 1000)

unfoldable pub grouped : ℕ → Text
unfolding grouped_rounds
grouped n = grouped_rounds (suc n) n

unfoldable pub sign : ℤ → Text
sign amount = if is_negative amount then codes "-" else []

-- `_SYMBOLS.get(code, "")`
unfoldable pub symbol_of : Text → Text
symbol_of code =
    if text_eq code (codes "USD")
      || text_eq code (codes "CAD")
      || text_eq code (codes "AUD")
      || text_eq code (codes "NZD")
    then codes "$"
    else if text_eq code (codes "GBP")
    then codes "£"
    else if text_eq code (codes "EUR")
    then codes "€"
    else if text_eq code (codes "JPY")
    then codes "¥"
    else if text_eq code (codes "INR")
    then codes "₹"
    else []

unfoldable pub money : Unicode → ℤ → Text → Text
money u amount_minor currency =
    let symbol = symbol_of (u.upper currency) in
    let body =
      grouped (magnitude amount_minor / 100) ++ b'.' ∷ two_digits (magnitude amount_minor % 100) in
    if is_empty symbol
    then sign amount_minor ++ body ++ b' ' ∷ u.upper currency
    else sign amount_minor ++ symbol ++ body

unfoldable pub money_plain : ℤ → Text
money_plain amount_minor =
    sign amount_minor
    ++ str (magnitude amount_minor / 100)
    ++ b'.' ∷ two_digits (magnitude amount_minor % 100)
