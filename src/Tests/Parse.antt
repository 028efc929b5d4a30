-- ===== src/Tests/Parse.antt =====
-- The parser of alert mails at concrete rules and texts.
use receipt_manager.Prelude.{
  text_eq, str, not, ◌&&◌, ℕ, ◌≡◌, refl, true, false, none, some, List, [], ◌∷◌, Text, codes,
  contains, is_prefix, if◌then◌else◌, any, keep, count_if,
}
use receipt_manager.Parsing.Rules.{
  parse_occurred_at, truthy_text, stripped, effective_default, fields_from, group, read_groups,
  try_rules, rule_before, apply_rule, envelope_field_matches, parse_email, rule_matches_envelope,
  no_match, matched, no_date, Searches, Dates,
}
use receipt_manager.Parsing.First.{parse_email-first, has_fields, reads}
use receipt_manager.Prelude.Sort.{insert_by, sorted_by}
use mathlib.Core.List.{Mem}
use receipt_manager.Prelude.Int.{pos, negsuc, neg}
use receipt_manager.Formatting.{money_plain}
use receipt_manager.Unicode.{skip_spaces, strip, strip_right}
use receipt_manager.Parsing.{
  ParseRule, ends_with, drop_last, is_nbsp, plain_spaces, is_dollar, match_letters, at_word_end,
  match_one_of, find_code, find_index, find_prefixed, find_symbol, default_code, detect_currency,
}
use receipt_manager.Parsing.Amount.{
  amount, unwrap, leading_sign, trailing_sign, join_digits, number_at, find_number, rfind,
  before_separator, after_separator, collapse_separator, cleaned, value_of, hundredths, read_amount,
  parse_amount,
}
use receipt_manager.Parsing.RoundTrip.{parse_amount-money_plain}
use receipt_manager.Tests.Setup.{ascii}

canadian : parse_amount ascii (codes "CA$300.00") (codes "USD") ≡ amount (pos 30000) (codes "CAD")
unfolding parse_amount strip strip_right skip_spaces plain_spaces is_nbsp unwrap detect_currency
    find_code match_one_of match_letters at_word_end find_prefixed find_index is_prefix find_symbol
    is_dollar default_code leading_sign trailing_sign ends_with drop_last join_digits read_amount
    find_number number_at cleaned rfind collapse_separator before_separator after_separator count_if
    hundredths value_of
canadian = refl

european :
    parse_amount ascii (codes "(1.234,56 EUR)") (codes "USD") ≡ amount (negsuc 123455) (codes "EUR")
unfolding parse_amount strip strip_right skip_spaces plain_spaces is_nbsp unwrap detect_currency
    find_code match_one_of match_letters at_word_end find_prefixed find_index is_prefix find_symbol
    is_dollar default_code leading_sign trailing_sign ends_with drop_last join_digits read_amount
    find_number number_at cleaned rfind collapse_separator before_separator after_separator count_if
    hundredths value_of keep neg
european = refl

five_thousandths : parse_amount ascii (codes "0.005") [] ≡ amount (pos 1) (codes "USD")
unfolding parse_amount strip strip_right skip_spaces plain_spaces is_nbsp unwrap detect_currency
    find_code match_one_of match_letters at_word_end find_prefixed find_index is_prefix find_symbol
    is_dollar default_code leading_sign trailing_sign ends_with drop_last join_digits read_amount
    find_number number_at cleaned rfind collapse_separator before_separator after_separator count_if
    hundredths value_of any
five_thousandths = refl

parse_amount-money_plain_example :
    parse_amount ascii (money_plain (negsuc 4)) (codes "USD") ≡ amount (negsuc 4) (codes "USD")
unfolding default_code
parse_amount-money_plain_example = parse_amount-money_plain ascii (negsuc 4) (codes "USD")

-- a pattern matches where it stands in the text, and then captures the whole text as the amount
abbrev plain_searches : Searches
plain_searches = record {
  finds = λ pattern value. some (contains pattern value);
  search_body = λ pattern body.
      if contains pattern body then matched 0 0 ((codes "amount", some body) ∷ []) else no_match;
}

abbrev no_dates : Dates
no_dates = record { strptime = λ value format. no_date; fuzzy = λ value. no_date }

abbrev rule_row : ℕ → ℕ → Text → ParseRule
rule_row id priority pattern = record {
  id = id;
  name = codes "r";
  enabled = true;
  priority = priority;
  sender_match = codes "bank";
  subject_match = [];
  match_is_regex = false;
  body_regex = pattern;
  default_currency = codes "EUR";
  date_format = none;
}

abbrev rules : List ParseRule
rules = rule_row 1 100 (codes "1") ∷ rule_row 2 50 (codes "x") ∷ []

-- the second rule comes first, but does not match; the first reads the mail
reads_mail :
    has_fields (parse_email ascii no_dates plain_searches rules (codes "bank") [] (codes "12.00"))
    ≡ true
unfolding parse_email keep sorted_by insert_by rule_before try_rules rule_matches_envelope
    envelope_field_matches apply_rule read_groups group fields_from effective_default stripped
    truthy_text parse_occurred_at contains text_eq parse_amount strip strip_right skip_spaces
    plain_spaces is_nbsp unwrap detect_currency find_code match_one_of match_letters at_word_end
    find_prefixed find_index is_prefix find_symbol is_dollar default_code leading_sign trailing_sign
    ends_with drop_last join_digits read_amount find_number number_at cleaned rfind
    collapse_separator before_separator after_separator count_if hundredths value_of any
reads_mail = refl

parse_email-first_example :
    (rule : ParseRule) × Mem rule rules
    × (rule.enabled && reads ascii no_dates plain_searches (codes "bank") [] (codes "12.00") rule
        ≡ true)
    × (parse_email ascii no_dates plain_searches rules (codes "bank") [] (codes "12.00")
        ≡ apply_rule ascii no_dates plain_searches rule (codes "12.00"))
    × (count_if
          (λ other.
            other.enabled
            && (reads ascii no_dates plain_searches (codes "bank") [] (codes "12.00") other
                && not (rule_before rule other)))
          rules
        ≡ 0)
parse_email-first_example =
    parse_email-first ascii no_dates plain_searches rules (codes "bank") [] (codes "12.00")
      reads_mail

abbrev isoformat : ℕ → Text
isoformat at = str at
