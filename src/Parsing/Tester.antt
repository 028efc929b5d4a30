-- ===== src/Parsing/Tester.antt =====
-- `test_rule` of app/services/parsing.py, the preview of a rule on the settings page. `isoformat` is
-- that of a datetime; `get_text` stands for BeautifulSoup, as in `html_to_text`.
use receipt_manager.Prelude.{
  ℕ, ◌≡◌, refl, ◌∙◌, sym, ap, Bool, true, false, Option, none, some, [], ◌∷◌, ◌++◌, Text, codes,
  keep, if◌then◌else◌, arith,
}
use receipt_manager.Prelude.Int.{ℤ}
use receipt_manager.Prelude.Sort.{sorted_by, insert_by}
use receipt_manager.Unicode.{Unicode}
use receipt_manager.Formatting.{money_plain}
use receipt_manager.Parsing.{ParsedFields, ParseRule, normalize_text, html_to_text}
use receipt_manager.Parsing.Rules.{
  Groups, BodySearch, bad_pattern, no_match, matched, search_failed, Searches, Dates, rule_named,
  rule_matches_envelope, apply_rule, try_rules, parse_email, no_success,
}

-- the entry `fields` of the result
pub record ShownFields : Type 0 where
  pub merchant : Text
  pub amount_minor : ℤ
  pub amount_display : Text
  pub currency : Text
  pub card_ending : Option Text
  pub cardholder : Option Text
  pub occurred_at : Option Text

pub record TestResult : Type 0 where
  pub envelope_matched : Bool
  pub normalized_text : Text
  pub is_matched : Bool
  pub error : Option Text
  pub groups : Groups
  pub span : Option (ℕ × ℕ)
  pub fields : Option ShownFields

unfoldable pub show : (ℕ → Text) → ParsedFields → ShownFields
show isoformat fields = record {
  merchant = fields.merchant;
  amount_minor = fields.amount_minor;
  amount_display = money_plain fields.amount_minor;
  currency = fields.currency;
  card_ending = fields.card_ending;
  cardholder = fields.cardholder;
  occurred_at = elim fields.occurred_at [ none ↦ none | some at ↦ some (isoformat at) ];
}

unfoldable pub show_all : (ℕ → Text) → Option ParsedFields → Option ShownFields
show_all isoformat none = none
show_all isoformat (some fields) = some (show isoformat fields)

unfoldable pub tested_text : Unicode → (Text → Text) → Text → Bool → Text
tested_text u get_text raw_body is_html =
    if is_html then html_to_text u get_text raw_body else normalize_text u raw_body

module _ (u : Unicode) (dates : Dates) (searches : Searches) (get_text : Text → Text)
    (isoformat : ℕ → Text) where
  unfoldable pub test_rule : ParseRule → Text → Text → Text → Bool → TestResult
  test_rule rule sender subject raw_body is_html =
      let text = tested_text u get_text raw_body is_html in
      let result : TestResult = record {
        envelope_matched = rule_matches_envelope u dates searches rule sender subject;
        normalized_text = text;
        is_matched = false;
        error = none;
        groups = [];
        span = none;
        fields = none;
      } in
      let outcome = apply_rule u dates searches rule text in
      elim (searches.search_body rule.body_regex text) [
        | bad_pattern message ↦ record result { error = some (codes "Invalid regex: " ++ message) }
        | search_failed message ↦ record result {
          error = some (codes "Unexpected error: " ++ message);
        }
        | no_match ↦ record result {
          error = some (rule_named rule (codes " did not match the message body"));
        }
        | matched from to groups ↦ record result {
          is_matched = true;
          groups = groups;
          span = some (from, to);
          error = elim outcome.fields [ none ↦ outcome.error | some fields ↦ none ];
          fields = show_all isoformat outcome.fields;
        }
      ]

  test_rule-fields :
      (rule : ParseRule) (sender subject raw_body : Text) (is_html : Bool) (found : BodySearch)
      → searches.search_body rule.body_regex (tested_text u get_text raw_body is_html) ≡ found
      → (test_rule rule sender subject raw_body is_html).fields
        ≡ show_all isoformat
            (apply_rule u dates searches rule (tested_text u get_text raw_body is_html)).fields
  unfolding test_rule apply_rule show_all
  test_rule-fields rule sender subject raw_body is_html (bad_pattern message) e =
      rw (e, test_rule, apply_rule) refl
  test_rule-fields rule sender subject raw_body is_html no_match e =
      rw (e, test_rule, apply_rule) refl
  test_rule-fields rule sender subject raw_body is_html (matched from to groups) e =
      rw (e, test_rule) refl
  test_rule-fields rule sender subject raw_body is_html (search_failed message) e =
      rw (e, test_rule, apply_rule) refl

  parse_email_one :
      (rule : ParseRule) (sender subject text : Text)
      → rule.enabled ≡ true
      → rule_matches_envelope u dates searches rule sender subject ≡ true
      → (parse_email u dates searches (rule ∷ []) sender subject text).fields
        ≡ (apply_rule u dates searches rule text).fields
  unfolding parse_email keep sorted_by insert_by try_rules no_success
  parse_email_one rule sender subject text on meets = ground (arith, on, meets)

  -- What the preview shows of a rule that meets the sender and the subject is what ingestion reads with that
  -- rule alone, enabled, from the normalized text.
  pub test_rule-parse_email :
      (rule : ParseRule) (sender subject raw_body : Text) (is_html : Bool)
      → rule.enabled ≡ true
      → rule_matches_envelope u dates searches rule sender subject ≡ true
      → (test_rule rule sender subject raw_body is_html).fields
        ≡ show_all isoformat
            (parse_email u dates searches
              (rule ∷ [])
              sender
              subject
              (tested_text u get_text raw_body is_html)).fields
  test_rule-parse_email rule sender subject raw_body is_html on meets =
      test_rule-fields rule sender subject raw_body is_html
        (searches.search_body rule.body_regex (tested_text u get_text raw_body is_html)) refl
      ∙ sym (
          ap (show_all isoformat) (
            parse_email_one rule sender subject (tested_text u get_text raw_body is_html) on meets))
