-- ===== src/QboSync.antt =====
-- app/services/qbo_sync.py: the cached chart of accounts of QuickBooks. A row of the answer is a
-- record of texts, with the empty one for an entry that is missing. The proofs are in the module
-- below.
pub mod Upsert
use receipt_manager.Prelude.{
  ℕ, ◌+◌, Bool, true, false, not, ◌&&◌, ◌||◌, Option, none, some, List, [], ◌∷◌, ◌++◌, map, find,
  any, keep, count_if, update_where, Text, text_eq, is_empty, if◌then◌else◌,
}
use receipt_manager.Engine.{Engine}
use receipt_manager.Unicode.{Unicode, strip}

pub record QboAccount : Type 0 where
  pub id : ℕ
  pub qbo_id : Text
  pub name : Text
  pub fully_qualified_name : Text
  pub account_type : Text
  pub account_sub_type : Option Text
  pub active : Bool
  pub synced_at : ℕ

pub record Row : Type 0 where
  pub id : Text
  pub name : Text
  pub fully_qualified_name : Text
  pub account_type : Text
  pub account_sub_type : Text
  pub active : Bool

unfoldable pub has_qbo_id : Text → QboAccount → Bool
has_qbo_id id account = text_eq account.qbo_id id

-- `row.get("FullyQualifiedName") or name`
unfoldable pub full_name : Row → Text
full_name row = if is_empty row.fully_qualified_name then row.name else row.fully_qualified_name

unfoldable pub sub_type : Row → Option Text
sub_type row = if is_empty row.account_sub_type then none else some row.account_sub_type

unfoldable pub make_account : ℕ → Text → ℕ → Row → QboAccount
make_account id qbo_id now row = record {
  id = id;
  qbo_id = qbo_id;
  name = row.name;
  fully_qualified_name = full_name row;
  account_type = row.account_type;
  account_sub_type = sub_type row;
  active = row.active;
  synced_at = now;
}

unfoldable pub same_option : Option Text → Option Text → Bool
same_option none none = true
same_option none (some t) = false
same_option (some s) none = false
same_option (some s) (some t) = text_eq s t

unfoldable pub same_bool : Bool → Bool → Bool
same_bool true b = b
same_bool false b = not b

unfoldable pub is_changed : Row → QboAccount → Bool
is_changed row account =
    not (text_eq account.name row.name)
    || not (text_eq account.fully_qualified_name (full_name row))
    || not (text_eq account.account_type row.account_type)
    || not (same_option account.account_sub_type (sub_type row))
    || not (same_bool account.active row.active)

unfoldable pub assign_row : ℕ → Row → QboAccount → QboAccount
assign_row now row account = record account {
  name = row.name;
  fully_qualified_name = full_name row;
  account_type = row.account_type;
  account_sub_type = sub_type row;
  active = row.active;
  synced_at = now;
}

abbrev pub account_ids : List QboAccount → List ℕ
account_ids = map (λ account. account.id)

module _ (u : Unicode) (sql : Engine) (now : ℕ) where
  -- one row with an id: the accounts, and what it adds to `added` and `updated`
  unfoldable pub merge_row : Text → Row → List QboAccount → List QboAccount × ℕ × ℕ
  merge_row id row accounts = elim (find (has_qbo_id id) accounts) [
    | none ↦ (accounts ++ make_account (sql.new_id (account_ids accounts)) id now row ∷ [], 1, 0)
    | some account ↦ (
      update_where (has_qbo_id id) (assign_row now row) accounts,
      0,
      if is_changed row account then 1 else 0,
    )
  ]

  unfoldable pub merge_rows : List Row → List QboAccount → List QboAccount × ℕ × ℕ
  merge_rows [] accounts = (accounts, 0, 0)
  merge_rows (row ∷ rows) accounts =
      let id = strip u row.id in
      let first = if is_empty id then (accounts, 0, 0) else merge_row id row accounts in
      let rest = merge_rows rows first.0 in (rest.0, first.1 + rest.1, first.2 + rest.2)

  -- `seen`
  unfoldable pub seen_ids : List Row → List Text
  seen_ids rows = keep (λ id. not (is_empty id)) (map (λ row. strip u row.id) rows)

  unfoldable pub is_dropped : List Text → QboAccount → Bool
  is_dropped seen account = account.active && not (any (text_eq account.qbo_id) seen)

  -- the accounts, and added, updated, deactivated
  unfoldable pub upsert_accounts : List Row → List QboAccount → List QboAccount × ℕ × ℕ × ℕ
  upsert_accounts rows accounts =
      let merged = merge_rows rows accounts in
      let gone = is_dropped (seen_ids rows) in
      (
        update_where gone (λ account. record account { active = false }) merged.0,
        merged.1,
        merged.2,
        count_if gone merged.0,
      )
