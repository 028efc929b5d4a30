-- ===== src/Matching.antt =====
-- app/services/matching.py: which charge an uploaded receipt belongs to. The proofs are in the
-- modules below.
pub mod Resolve
use receipt_manager.Prelude.{
  ℕ, suc, ◌+◌, ◌*◌, Bool, true, false, ◌&&◌, Option, none, some, List, [], ◌∷◌, length, take, find,
  keep, count_if, Text, text_eq, ltb, leb, ◌==◌, if◌then◌else◌, is_empty,
}
use receipt_manager.Engine.{Engine}
use receipt_manager.Models.{Transaction, DiscordMessage, is_matchable, seconds}
use receipt_manager.Unicode.{Unicode}
use receipt_manager.Shortcode.{extract_codes, has_code}

abbrev pub max_picker_options : ℕ
max_picker_options = 25

pub data MatchMethod : Type 0 where
  reply code sole_open ambiguous none_open : MatchMethod

pub record MatchResult : Type 0 where
  pub method : MatchMethod
  pub transaction : Option Transaction
  pub candidates : List Transaction
  pub truncated : Bool

unfoldable pub has_message_id : Text → DiscordMessage → Bool
has_message_id id message = text_eq message.message_id id

unfoldable pub has_tx_id : ℕ → Transaction → Bool
has_tx_id id tx = tx.id == id

-- `db.get(Transaction, id)`
unfoldable pub get_transaction : List Transaction → ℕ → Option Transaction
get_transaction txs id = find (has_tx_id id) txs

unfoldable pub announced_by : List Transaction → DiscordMessage → Option Transaction
announced_by txs record' = elim record'.transaction_id [
  | none ↦ none
  | some id ↦ get_transaction txs id
]

unfoldable pub find_by_reply :
    List DiscordMessage → List Transaction → Option Text → Option Transaction
find_by_reply messages txs none = none
find_by_reply messages txs (some id) =
    if is_empty id
    then none
    else elim (find (has_message_id id) messages) [ none ↦ none | some m ↦ announced_by txs m ]

unfoldable pub first_known : List Transaction → List Text → Option Transaction
first_known txs [] = none
first_known txs (code' ∷ codes') =
    let rest = first_known txs codes' in
    elim (find (has_code code') txs) [ none ↦ rest | some tx ↦ some tx ]

-- `text or ""`
abbrev pub or_empty : Option Text → Text
or_empty none = []
or_empty (some text) = text

unfoldable pub find_by_code : Unicode → List Transaction → Option Text → Option Transaction
find_by_code u txs text = first_known txs (extract_codes u (or_empty text))

-- `order_by(Transaction.occurred_at.desc())`
unfoldable pub newer_first : Transaction → Transaction → Bool
newer_first a b = leb b.occurred_at a.occurred_at

unfoldable pub open_transactions : Engine → ℕ → List Transaction → List Transaction
open_transactions sql limit txs =
    take limit (sql.order_by Transaction newer_first (keep (λ tx. is_matchable tx.status) txs))

-- `occurred_at >= utcnow() - timedelta(days=days)`, with the difference on the other side
unfoldable pub is_recent : ℕ → ℕ → Transaction → Bool
is_recent now days tx = leb now (tx.occurred_at + days * seconds 86400)

unfoldable pub recent_transactions : Engine → ℕ → ℕ → ℕ → List Transaction → List Transaction
recent_transactions sql now days limit txs =
    take limit (sql.order_by Transaction newer_first (keep (is_recent now days) txs))

unfoldable pub count_open : List Transaction → ℕ
count_open txs = count_if (λ tx. is_matchable tx.status) txs

abbrev pub by : MatchMethod → Transaction → MatchResult
by method tx = record { method = method; transaction = some tx; candidates = []; truncated = false }

abbrev pub ask : MatchMethod → List Transaction → Bool → MatchResult
ask method candidates truncated = record {
  method = method;
  transaction = none;
  candidates = candidates;
  truncated = truncated;
}

-- the end of `resolve`, on the candidates that are kept
unfoldable pub choose : List Transaction → Bool → List Transaction → MatchResult
choose [] truncated recent = ask none_open recent false
choose (tx ∷ []) truncated recent =
    if truncated then ask ambiguous (tx ∷ []) truncated else by sole_open tx
choose (tx ∷ tx' ∷ txs) truncated recent = ask ambiguous (tx ∷ tx' ∷ txs) truncated

unfoldable pub resolve_implicit : Engine → ℕ → List Transaction → MatchResult
resolve_implicit sql now txs =
    let found = open_transactions sql (max_picker_options + 1) txs in
    choose (take max_picker_options found) (ltb max_picker_options (length found))
      (recent_transactions sql now 7 max_picker_options txs)

unfoldable pub resolve :
    Unicode
    → Engine
    → ℕ
    → List DiscordMessage
    → List Transaction
    → Option Text
    → Option Text
    → MatchResult
resolve u sql now messages txs referenced text = elim (find_by_reply messages txs referenced) [
  | some tx ↦ by reply tx
  | none ↦ elim (find_by_code u txs text) [
    | some tx ↦ by code tx
    | none ↦ resolve_implicit sql now txs
  ]
]

unfoldable pub is_resolved : MatchResult → Bool
is_resolved r = elim r.transaction [ none ↦ false | some _ ↦ true ]

unfoldable pub needs_prompt : MatchResult → Bool
needs_prompt r = elim r.method [ ambiguous ↦ true | none_open ↦ true | _ ↦ false ]
