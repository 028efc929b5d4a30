-- ===== src/Shortcode/Allocate.antt =====
-- `allocate` of app/services/shortcode.py: the savepoint loop around the insert of a transaction.
use mathlib.Core.List.{append-nil}
use receipt_manager.Prelude.{
  ℕ, ◌≤◌, ◌≡◌, ◌≢◌, Bool, true, false, Option, none, some, List, [], ◌∷◌, ◌++◌, length, any,
  count_if, Text, arith, ◌==◌, Bool-cases, inl, inr, All, All-append, text_eq_refl, count_if-append,
  count_if_zero_of_any,
}
use receipt_manager.Engine.{Engine}
use receipt_manager.Models.{Transaction}
use receipt_manager.Shortcode.{has_code, next_short_code, allocate, tx_ids}
use receipt_manager.Shortcode.Free.{Positive, next_short_code_free}

-- the returned transaction, if there is one, is the only one of the table with its code
abbrev pub OwnsCode : List Transaction → Option Transaction → Type 0
OwnsCode table none = Unit
OwnsCode table (some tx) = count_if (has_code tx.short_code) table ≡ 1

-- what `allocate` leaves, from the table it began with
abbrev pub Allocated : List Transaction → List Transaction × Option Transaction → Type 0
Allocated txs r = ((p : Transaction → Bool) → count_if p txs ≤ count_if p r.0) × OwnsCode r.0 r.1

has_code_self : (tx : Transaction) → has_code tx.short_code tx ≡ true
unfolding has_code
has_code_self tx = text_eq_refl tx.short_code

grown :
    (txs others : List Transaction) (r : List Transaction × Option Transaction)
    → Allocated (txs ++ others) r
    → Allocated txs r
grown txs others r h = (λ p. omega (arith, h.0 p, count_if-append p txs others), h.1)

once :
    (table : List Transaction) (tx : Transaction)
    → any (has_code tx.short_code) table ≡ false
    → count_if (has_code tx.short_code) (table ++ tx ∷ []) ≡ 1
once table tx free = rw (count_if-append (has_code tx.short_code) table (tx ∷ [])) (
    unfold count_if in
    rw (has_code_self tx) (omega (arith, count_if_zero_of_any (has_code tx.short_code) table free)))

module _ (sql : Engine) (make_transaction : ℕ → Text → Transaction) where
  -- Whatever the other writers do, `allocate` keeps every row of the table, and the transaction
  -- that it returns is the only one of the table with its code.
  pub allocate_unique :
      (rounds : List (List Transaction)) (txs : List Transaction)
      → Allocated txs (allocate sql make_transaction rounds txs)
  unfolding allocate
  allocate_unique [] txs = (λ p. omega arith, tt)
  allocate_unique (others ∷ rounds) txs =
      let code : Text = next_short_code sql txs in
      let table : List Transaction = txs ++ others in
      let tx : Transaction = make_transaction (sql.new_id (tx_ids table)) code in
      let later : Allocated txs (allocate sql make_transaction rounds table) =
        grown txs others (allocate sql make_transaction rounds table)
          (allocate_unique rounds table) in
      elim (Bool-cases (any (has_code tx.short_code) table)) [
        | inl taken ↦ rw taken later
        | inr free ↦ rw free (
          (λ p. omega (arith, count_if-append p txs others, count_if-append p table (tx ∷ []))),
          once table tx free,
        )
      ]

  free_alone :
      (own : (id : ℕ) (code : Text) → (make_transaction id code).short_code ≡ code)
      (txs : List Transaction)
      → Positive txs
      → any
          (has_code
            (make_transaction
              (sql.new_id (tx_ids (txs ++ [])))
              (next_short_code sql txs)).short_code)
          (txs ++ [])
        ≡ false
  free_alone own txs pos =
      rw (own (sql.new_id (tx_ids (txs ++ []))) (next_short_code sql txs))
        (rw append-nil ((next_short_code_free sql txs pos).4))

  -- If the built transaction carries the code it is given, an attempt in which no other writer
  -- interferes succeeds: the loop gives up only where each attempt was beaten.
  pub allocate_succeeds :
      (own : (id : ℕ) (code : Text) → (make_transaction id code).short_code ≡ code)
      (rounds : List (List Transaction)) (txs : List Transaction)
      → Positive txs
      → All Positive rounds
      → any (λ others. length others == 0) rounds ≡ true
      → (allocate sql make_transaction rounds txs).1 ≢ none
  unfolding allocate any
  allocate_succeeds own [] txs pos all h = cc
  allocate_succeeds own ([] ∷ rounds) txs pos all h = rw (free_alone own txs pos) (λ e. cc)
  allocate_succeeds own ((other ∷ others) ∷ rounds) txs pos all h =
      let table : List Transaction = txs ++ other ∷ others in
      let tx : Transaction =
        make_transaction (sql.new_id (tx_ids table)) (next_short_code sql txs) in
      let later =
        allocate_succeeds own rounds table
          (All-append (λ tx. 1 ≤ tx.id) txs (other ∷ others) pos all.0) all.1 (ground arith) in
      elim (Bool-cases (any (has_code tx.short_code) table)) [
        | inl taken ↦ rw taken later
        | inr free ↦ rw free (λ e. cc)
      ]
