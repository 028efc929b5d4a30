-- ===== src/Engine.antt =====
-- What app/services asks of the database engine (SQLite through SQLAlchemy), which is not part of
-- the repository: the id of a new row, and the order of `ORDER BY`. A query is otherwise read as
-- the rows of the table that its `where` clause keeps.
use receipt_manager.Prelude.{ℕ, ◌≡◌, Bool, false, List, any, count_if, ◌==◌, Text, str}
use receipt_manager.Prelude.Sort.{IsOrder, Sorted}

pub record Engine : Type 1 where
  -- INTEGER PRIMARY KEY: the id of the next row, from the ids of the table; ids of deleted rows
  -- may come again
  pub new_id : List ℕ → ℕ
  pub new_id_fresh : (ids : List ℕ) → any (λ i. i == new_id ids) ids ≡ false
  -- CAST(text AS INTEGER), which reads a decimal print
  pub cast_integer : Text → ℕ
  pub cast_integer-str : (n : ℕ) → cast_integer (str n) ≡ n
  -- ORDER BY: the same rows, each as often, in order; rows that compare equal in any order
  pub order_by : (A : Type 0) → (A → A → Bool) → List A → List A
  pub order_by_rows :
      (A : Type 0) (le : A → A → Bool) (p : A → Bool) (rows : List A)
      → count_if p (order_by A le rows) ≡ count_if p rows
  pub order_by_sorted :
      (A : Type 0) (le : A → A → Bool) (rows : List A) → IsOrder le → Sorted le (order_by A le rows)
