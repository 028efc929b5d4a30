-- ===== src/Tests/Accounts.antt =====
-- The theorem on the accounts of QuickBooks, at two of them.
use receipt_manager.Prelude.{
  arith, text_eq, ◌+◌, ◌≤◌, ◌≡◌, true, List, [], ◌∷◌, Text, codes, count_if, length,
}
use receipt_manager.QboSync.{
  QboAccount, Row, has_qbo_id, make_account, seen_ids, is_dropped, upsert_accounts,
}
use receipt_manager.QboSync.Upsert.{upsert_accounts_lem}
use receipt_manager.Tests.Setup.{sqlite, ascii}

abbrev row : Text → Text → Row
row id name = record {
  id = id;
  name = name;
  fully_qualified_name = [];
  account_type = codes "Expense";
  account_sub_type = [];
  active = true;
}

-- "Meals" was there before and is not returned any more, "Travel" is new
abbrev rows : List Row
rows = row (codes "8") (codes "Travel") ∷ row [] (codes "none") ∷ []

abbrev accounts : List QboAccount
accounts = make_account 1 (codes "7") 10 (row (codes "7") (codes "Meals")) ∷ []

upsert_accounts_lem_example :
    let after = upsert_accounts ascii sqlite 20 rows accounts in
    (count_if (is_dropped ascii sqlite 20 (seen_ids ascii sqlite 20 rows)) after.0 ≡ 0)
    × (length after.0 ≡ length accounts + after.1)
    × (count_if (has_qbo_id (codes "7")) after.0 ≤ 1)
unfolding count_if has_qbo_id text_eq make_account
upsert_accounts_lem_example =
    upsert_accounts_lem ascii sqlite 20 rows accounts (codes "7") (omega arith)
