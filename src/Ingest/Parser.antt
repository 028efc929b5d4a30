-- ===== src/Ingest/Parser.antt =====
-- The calls of app/services/ingest.py into app/services/parsing.py: the parser that `ingest_message`
-- builds from the rows of parse_rules.
use receipt_manager.Prelude.{List, Text}
use receipt_manager.Unicode.{Unicode}
use receipt_manager.Parsing.{ParseRule, html_to_text, normalize_text}
use receipt_manager.Parsing.Rules.{Searches, Dates, parse_email}
use receipt_manager.Ingest.{MailParser}

unfoldable pub parser_of : Unicode → (Text → Text) → Dates → Searches → List ParseRule → MailParser
parser_of u get_text dates searches rules = record {
  html_to_text = html_to_text u get_text;
  normalize_text = normalize_text u;
  parse_email = parse_email u dates searches rules;
}
