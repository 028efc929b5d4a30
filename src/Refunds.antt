-- ===== src/Refunds.antt =====
-- `link_refund` of app/services/ingest.py. The proofs are in the module below.
pub mod Links
use receipt_manager.Prelude.{
  ℕ, Bool, true, false, not, ◌&&◌, Option, none, some, List, [], ◌∷◌, keep, any, update_where,
  text_eq, leb, ◌==◌, if◌then◌else◌,
}
use receipt_manager.Prelude.Int.{is_negative, neg, eq_ℤ}
use receipt_manager.Engine.{Engine}
use receipt_manager.Models.{Transaction}
use receipt_manager.Matching.{newer_first}

-- the row links to the charge `id`
unfoldable pub claims : ℕ → Transaction → Bool
claims id tx = elim tx.refund_of_id [ none ↦ false | some i ↦ i == id ]

unfoldable pub is_linked : Transaction → Bool
is_linked tx = elim tx.refund_of_id [ none ↦ false | some _ ↦ true ]

-- the `where` of the query, with `already_claimed` as the rows that link to the candidate
unfoldable pub reverses : List Transaction → Transaction → Transaction → Bool
reverses txs tx c =
    not (c.id == tx.id)
    && text_eq c.merchant tx.merchant
    && eq_ℤ c.amount_minor (neg tx.amount_minor)
    && leb c.occurred_at tx.occurred_at
    && not (is_linked c)
    && not (any (claims c.id) txs)

abbrev pub first_row : List Transaction → Option Transaction
first_row [] = none
first_row (tx ∷ txs) = some tx

unfoldable pub link_refund :
    Engine → List Transaction → Transaction → Transaction × Option Transaction
link_refund sql txs tx =
    if not (is_negative tx.amount_minor)
    then (tx, none)
    else elim (first_row (sql.order_by Transaction newer_first (keep (reverses txs tx) txs))) [
      | none ↦ (tx, none)
      | some original ↦ (record tx { refund_of_id = some original.id }, some original)
    ]

-- the row of `tx` after the flush that writes it
unfoldable pub save_transaction : Transaction → List Transaction → List Transaction
save_transaction tx txs = update_where (λ t. t.id == tx.id) (λ _. tx) txs
