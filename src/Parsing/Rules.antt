-- ===== src/Parsing/Rules.antt =====
-- The rules of app/services/parsing.py: which of them a mail meets, what one reads from a mail, and
-- the first in order that reads an amount. `Searches` and `Dates` stand for `re` on the patterns of
-- the users and for `strptime` and dateutil.
use receipt_manager.Prelude.{
  ℕ, ◌-◌, Bool, true, false, not, ◌&&◌, ◌||◌, Option, none, some, List, [], ◌∷◌, ◌++◌, length, drop,
  keep, Text, codes, text_eq, is_empty, contains, str, ltb, leb, ◌==◌, if◌then◌else◌,
}
use receipt_manager.Prelude.Sort.{sorted_by}
use receipt_manager.Prelude.Int.{ℤ}
use receipt_manager.Unicode.{Unicode, strip}
use receipt_manager.Parsing.{
  ParsedFields, ParseRule, ParseOutcome, inline_spaces, default_code, detect_currency,
}
use receipt_manager.Parsing.Amount.{amount, unreadable, parse_amount}

-- `match.groupdict()`: a name with its text, `none` for a group that took no part
abbrev pub Groups : Type 0
Groups = List (Text × Option Text)

pub data BodySearch : Type 0 where
  bad_pattern : Text → BodySearch  -- a re.error with its message
  no_match : BodySearch
  matched : ℕ → ℕ → Groups → BodySearch  -- the span and the groups
  search_failed : Text → BodySearch  -- any other exception

pub data ReadDate : Type 0 where
  no_date : ReadDate
  date : ℕ → ReadDate
  date_failed : Text → ReadDate  -- an exception that `_parse_occurred_at` does not catch

pub record Searches : Type 0 where
  pub finds : Text → Text → Option Bool  -- `re.search` with IGNORECASE; `none` is a re.error
  pub search_body : Text → Text → BodySearch

pub record Dates : Type 0 where
  pub strptime : Text → Text → ReadDate
  pub fuzzy : Text → ReadDate

-- `groups.get(name)`
unfoldable pub group : Text → Groups → Option Text
group name [] = none
group name ((key, value) ∷ groups) =
    let rest = group name groups in if text_eq key name then value else rest

-- a text that Python takes for true
unfoldable pub truthy_text : Option Text → Option Text
truthy_text none = none
truthy_text (some []) = none
truthy_text (some (c ∷ s)) = some (c ∷ s)

abbrev pub max_card_ending_digits : ℕ
max_card_ending_digits = 8

abbrev pub rule_named : ParseRule → Text → Text
rule_named rule rest = codes "Rule '" ++ (rule.name ++ (b'\'' ∷ rest))

abbrev pub refused : ParseRule → Text → ParseOutcome
refused rule error = record { rule = some rule; fields = none; error = some error }

-- the key `(rule.priority, rule.id or 0)`
unfoldable pub rule_before : ParseRule → ParseRule → Bool
rule_before a b = ltb a.priority b.priority || (a.priority == b.priority && leb a.id b.id)

abbrev pub failure_text : ParseRule → ParseOutcome → Text
failure_text rule outcome =
    b'\''
    ∷ (rule.name
        ++ (codes "' ("
            ++ (elim outcome.error [ none ↦ codes "None" | some error ↦ error ] ++ codes ")")))

-- `"; ".join(failures)`
unfoldable pub join_failures : List Text → Text
join_failures [] = []
join_failures (s ∷ []) = s
join_failures (s ∷ t ∷ rest) = s ++ (codes "; " ++ join_failures (t ∷ rest))

-- what is left to say when no rule is left
unfoldable pub no_success : List ParseRule → List Text → ParseOutcome
no_success [] failures = record {
  rule = none;
  fields = none;
  error = some (codes "No parse rule matched this sender/subject");
}
no_success (first ∷ more) failures = refused first (
    str (length (first ∷ more))
    ++ (codes " rule(s) matched sender/subject but none extracted an amount: "
        ++ (if is_empty (join_failures failures)
            then codes "no attempts were made"
            else join_failures failures)))

module _ (u : Unicode) where
  unfoldable pub merchant_of : Option Text → Text
  merchant_of none = []
  merchant_of (some raw) = if is_empty raw then [] else strip u (inline_spaces raw)

  unfoldable pub last_digits : Text → Option Text
  last_digits raw =
      let digits = keep u.is_digit raw in
      if leb 4 (length digits)
      then some (drop (length digits - max_card_ending_digits) digits)
      else none

  unfoldable pub card_ending_of : Groups → Option Text
  card_ending_of groups = elim (truthy_text (group (codes "card_ending") groups)) [
    | some raw ↦ last_digits raw
    | none ↦ elim (truthy_text (group (codes "card_last4") groups)) [
      | some raw ↦ last_digits raw
      | none ↦ none
    ]
  ]

  -- `raw.strip() if raw and raw.strip() else None`
  unfoldable pub stripped : Option Text → Option Text
  stripped none = none
  stripped (some raw) = truthy_text (some (strip u raw))

  -- the currency that an amount without one of its own is in
  unfoldable pub effective_default : Option Text → Text → Text
  effective_default raw_currency default_currency = elim (stripped raw_currency) [
    | none ↦ default_code u default_currency
    | some _ ↦ elim raw_currency [
      | none ↦ default_code u default_currency
      | some raw ↦ (detect_currency u raw default_currency).1
    ]
  ]

  module _ (dates : Dates) where
    unfoldable pub parse_occurred_at : Option Text → Option Text → ReadDate
    parse_occurred_at raw date_format = elim (stripped raw) [
      | none ↦ no_date
      | some value ↦ elim (truthy_text date_format) [
        | some format ↦ dates.strptime value format
        | none ↦ dates.fuzzy value
      ]
    ]

    unfoldable pub fields_from : ParseRule → Groups → ℤ → Text → ParseOutcome
    fields_from rule groups minor currency =
        let fields : Option ℕ → ParsedFields = λ occurred_at. record {
          merchant = merchant_of (group (codes "merchant") groups);
          amount_minor = minor;
          currency = currency;
          card_ending = card_ending_of groups;
          cardholder = stripped (group (codes "cardholder") groups);
          occurred_at = occurred_at;
        } in
        elim (parse_occurred_at (group (codes "occurred_at") groups) rule.date_format) [
          | date_failed message ↦
              refused rule (rule_named rule (codes " failed unexpectedly: " ++ message))
          | no_date ↦ record { rule = some rule; fields = some (fields none); error = none }
          | date at ↦ record { rule = some rule; fields = some (fields (some at)); error = none }
        ]

    unfoldable pub read_groups : ParseRule → Groups → ParseOutcome
    read_groups rule groups = elim (group (codes "amount") groups) [
      | none ↦ refused rule (rule_named rule (codes " matched but captured no 'amount' group"))
      | some raw ↦
          elim (parse_amount u raw
            (effective_default (group (codes "currency") groups) rule.default_currency)) [
              | unreadable message ↦ refused rule (
                  rule_named rule (
                    codes " captured an unparseable amount "
                    ++ (u.repr raw ++ (codes ": " ++ message))))
              | amount minor currency ↦ fields_from rule groups minor currency
            ]
    ]

    module _ (searches : Searches) where
      unfoldable pub envelope_field_matches : Text → Bool → Text → Bool
      envelope_field_matches pattern is_regex value =
          if is_empty pattern
          then true
          else if is_regex
          then (elim (searches.finds pattern value) [ none ↦ false | some found ↦ found ])
          else contains (u.lower pattern) (u.lower value)

      unfoldable pub rule_matches_envelope : ParseRule → Text → Text → Bool
      rule_matches_envelope rule sender subject =
          envelope_field_matches rule.sender_match rule.match_is_regex sender
          && envelope_field_matches rule.subject_match rule.match_is_regex subject

      unfoldable pub apply_rule : ParseRule → Text → ParseOutcome
      apply_rule rule body_text = elim (searches.search_body rule.body_regex body_text) [
        | bad_pattern message ↦ refused rule (codes "Invalid regex: " ++ message)
        | no_match ↦ refused rule (rule_named rule (codes " did not match the message body"))
        | search_failed message ↦
            refused rule (rule_named rule (codes " failed unexpectedly: " ++ message))
        | matched from to groups ↦ read_groups rule groups
      ]

      -- the loop over the rules in order, with `envelope_matches` and `failures`
      unfoldable pub try_rules :
          List ParseRule → List Text → Text → Text → Text → List ParseRule → ParseOutcome
      try_rules envelope_matches failures sender subject body_text [] =
          no_success envelope_matches failures
      try_rules envelope_matches failures sender subject body_text (rule ∷ rules) =
          let outcome = apply_rule rule body_text in
          let after =
            try_rules (envelope_matches ++ rule ∷ []) (failures ++ failure_text rule outcome ∷ [])
              sender subject body_text rules in
          let skipped = try_rules envelope_matches failures sender subject body_text rules in
          if not (rule_matches_envelope rule sender subject)
          then skipped
          else (elim outcome.fields [ some fields ↦ outcome | none ↦ after ])

      unfoldable pub parse_email : List ParseRule → Text → Text → Text → ParseOutcome
      parse_email rules sender subject body_text =
          try_rules [] [] sender subject body_text
            (sorted_by rule_before (keep (λ rule. rule.enabled) rules))
