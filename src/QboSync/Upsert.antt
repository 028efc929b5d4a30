-- ===== src/QboSync/Upsert.antt =====
-- What `upsert_accounts` of app/services/qbo_sync.py makes of the cached accounts.
use receipt_manager.Prelude.{
  ℕ, ◌+◌, ◌≤◌, ◌≡◌, refl, Bool, false, none, List, [], ◌∷◌, ◌++◌, find, length, count_if, Text,
  text_eq, text_eq_sound, is_empty, if◌then◌else◌, Bool-cases, Option-cases, inl, inr, arith,
  count_if-update_where, count_if-append, count_if-update_none, length-update_where, length-append,
  count_if_zero_of_any, any-eq_false_of_find, subst,
}
use receipt_manager.Engine.{Engine}
use receipt_manager.Unicode.{Unicode, strip}
use receipt_manager.QboSync.{
  QboAccount, Row, has_qbo_id, make_account, assign_row, account_ids, merge_row, merge_rows,
  seen_ids, is_dropped, upsert_accounts,
}

module _ (u : Unicode) (sql : Engine) (now : ℕ) where
  -- no account is lost, and no id is doubled
  abbrev Kept : List QboAccount → List QboAccount × ℕ × ℕ → Type 0
  Kept before after =
      (length after.0 ≡ length before + after.1)
      × ((id : Text) → count_if (has_qbo_id id) before ≤ 1 → count_if (has_qbo_id id) after.0 ≤ 1)

  one_more :
      (id qbo_id : Text) (row : Row) (n : ℕ) (accounts : List QboAccount)
      → find (has_qbo_id qbo_id) accounts ≡ none
      → count_if (has_qbo_id id) accounts ≤ 1
      → count_if (has_qbo_id id) (accounts ++ make_account n qbo_id now row ∷ []) ≤ 1
  unfolding count_if has_qbo_id make_account
  one_more id qbo_id row n accounts absent once =
      rw (count_if-append (has_qbo_id id) accounts (make_account n qbo_id now row ∷ []))
        (elim (Bool-cases (text_eq qbo_id id)) [
          | inl e ↦
              let zero =
                subst (λ k. count_if (has_qbo_id k) accounts ≡ 0) (text_eq_sound qbo_id id e)
                  (count_if_zero_of_any (has_qbo_id qbo_id) accounts
                    (any-eq_false_of_find (has_qbo_id qbo_id) accounts absent)) in
              rw e (omega (arith, zero))
          | inr e ↦ rw e (omega (arith, once))
        ])

  merge_row-Kept :
      (id : Text) (row : Row) (accounts : List QboAccount)
      → Kept accounts (merge_row u sql now id row accounts)
  unfolding merge_row
  merge_row-Kept id row accounts = elim (Option-cases (find (has_qbo_id id) accounts)) [
    | inl e ↦
        rw (e, merge_row)
          (
            length-append accounts
                (make_account (sql.new_id (account_ids accounts)) id now row ∷ []),
            λ k once. one_more k id row (sql.new_id (account_ids accounts)) accounts e once,
          )
    | inr (account, e) ↦
        rw (e, merge_row)
          (
            omega (arith, length-update_where (has_qbo_id id) (assign_row now row) accounts),
            λ k once.
                rw
                  (count_if-update_where (has_qbo_id k) (has_qbo_id id) (assign_row now row)
                    accounts (λ a. unfold has_qbo_id assign_row in refl))
                  once,
          )
  ]

  first-Kept :
      (id : Text) (row : Row) (accounts : List QboAccount)
      → Kept accounts
          (if is_empty id then (accounts, 0, 0) else merge_row u sql now id row accounts)
  first-Kept id row accounts = elim (Bool-cases (is_empty id)) [
    | inl e ↦ rw e (omega arith, λ k once. once)
    | inr e ↦ rw e (merge_row-Kept id row accounts)
  ]

  merge_rows-Kept :
      (rows : List Row) (accounts : List QboAccount)
      → Kept accounts (merge_rows u sql now rows accounts)
  unfolding merge_rows
  merge_rows-Kept [] accounts = (omega arith, λ k once. once)
  merge_rows-Kept (row ∷ rows) accounts =
      let id : Text = strip u row.id in
      let one = first-Kept id row accounts in
      let rest =
        merge_rows-Kept rows
          (if is_empty id then (accounts, 0, 0) else merge_row u sql now id row accounts).0 in
      (omega (arith, one.0, rest.0), λ k once. rest.1 k (one.1 k once))

  settled :
      (seen : List Text) (account : QboAccount)
      → is_dropped u sql now seen
          (if is_dropped u sql now seen account then record account { active = false } else account)
        ≡ false
  settled seen account = elim (Bool-cases (is_dropped u sql now seen account)) [
    | inl e ↦ rw e (unfold is_dropped in refl)
    | inr e ↦ rw e e
  ]

  -- Let at most one account have an id. After a sync no account is active that QuickBooks did not
  -- return, no account is removed, their number grows by those that are counted as added, and still
  -- at most one account has the id.
  pub upsert_accounts_lem :
      (rows : List Row) (accounts : List QboAccount) (id : Text)
      → count_if (has_qbo_id id) accounts ≤ 1
      → let after = upsert_accounts u sql now rows accounts in
        (count_if (is_dropped u sql now (seen_ids u sql now rows)) after.0 ≡ 0)
        × (length after.0 ≡ length accounts + after.1)
        × (count_if (has_qbo_id id) after.0 ≤ 1)
  unfolding upsert_accounts
  upsert_accounts_lem rows accounts id once =
      let gone : QboAccount → Bool = is_dropped u sql now (seen_ids u sql now rows) in
      let stop : QboAccount → QboAccount = λ account. record account { active = false } in
      let merged : List QboAccount = (merge_rows u sql now rows accounts).0 in
      let kept = merge_rows-Kept rows accounts in
      (
        count_if-update_none gone gone stop merged (settled (seen_ids u sql now rows)),
        omega (arith, length-update_where gone stop merged, kept.0),
        rw (count_if-update_where (has_qbo_id id) gone stop merged (λ a. unfold has_qbo_id in refl))
            (kept.1 id once),
      )
