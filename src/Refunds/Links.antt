-- ===== src/Refunds/Links.antt =====
-- The links that `link_refund` of app/services/ingest.py makes between refunds and charges.
use receipt_manager.Prelude.{
  count_if_never, ◌≡◌, refl, ◌∙◌, sym, Bool, true, not, ◌&&◌, Option, none, some, List, [], ◌∷◌,
  keep, count_if, arith, Bool-cases, inl, inr, All, subst, count_if-keep_not, count_if-keep_and,
  ltb, Option-cases, count_if-cong,
}
use receipt_manager.Prelude.Sort.{IsOrder, Sorted}
use receipt_manager.Prelude.Int.{is_negative}
use receipt_manager.Engine.{Engine}
use receipt_manager.Models.{Transaction}
use receipt_manager.Matching.{newer_first}
use receipt_manager.Refunds.{reverses, first_row, link_refund}

newer_first-IsOrder : IsOrder newer_first
unfolding newer_first
newer_first-IsOrder = record { total = λ a b. ground arith; trans = λ a b c h k. ground arith }

first_row-meets :
    (p : Transaction → Bool) (txs : List Transaction) (c : Transaction)
    → count_if (λ t. not (p t)) txs ≡ 0
    → first_row txs ≡ some c
    → p c ≡ true
unfolding count_if
first_row-meets p [] c h e = cc
first_row-meets p (tx ∷ txs) c h e = ground arith

some_inj : {A : Type 0} {a b : A} → some a ≡ some b → a ≡ b
some_inj h = cc

newest_of :
    (p : Transaction → Bool) (txs : List Transaction) (c : Transaction)
    → All (λ t. newer_first c t ≡ true) txs
    → count_if (λ t. p t && ltb c.occurred_at t.occurred_at) txs ≡ 0
unfolding newer_first count_if
newest_of p [] c h = refl
newest_of p (tx ∷ txs) c h = let e = h.0 in ground (arith, newest_of p txs c h.1)

-- nothing in a sorted list is newer than its first row
first_row-newest :
    (p : Transaction → Bool) (txs : List Transaction) (c : Transaction)
    → Sorted newer_first txs
    → first_row txs ≡ some c
    → count_if (λ t. p t && ltb c.occurred_at t.occurred_at) txs ≡ 0
unfolding newer_first count_if
first_row-newest p [] c s e = refl
first_row-newest p (tx ∷ txs) c s e =
    subst (λ c. count_if (λ t. p t && ltb c.occurred_at t.occurred_at) (tx ∷ txs) ≡ 0) (some_inj e)
      (let h = newest_of p txs tx s.0 in ground (arith))

none_first :
    (txs : List Transaction) (p : Transaction → Bool) → first_row txs ≡ none → count_if p txs ≡ 0
unfolding count_if
none_first [] p h = refl
none_first (tx ∷ txs) p h = cc

module _ (sql : Engine) (txs : List Transaction) (tx : Transaction) where
  abbrev candidates : List Transaction
  candidates = sql.order_by Transaction newer_first (keep (reverses txs tx) txs)

  candidates_meet : count_if (λ t. not (reverses txs tx t)) candidates ≡ 0
  candidates_meet =
      sql.order_by_rows Transaction newer_first (λ t. not (reverses txs tx t))
        (keep (reverses txs tx) txs)
      ∙ count_if-keep_not (λ t. not (reverses txs tx t)) (reverses txs tx) txs (λ t e. rw e)

  candidates_all :
      (p : Transaction → Bool)
      → count_if p candidates ≡ count_if (λ t. reverses txs tx t && p t) txs
  candidates_all p =
      sql.order_by_rows Transaction newer_first p (keep (reverses txs tx) txs)
      ∙ count_if-keep_and p (reverses txs tx) txs

  pub linked :
      (c : Transaction)
      → first_row candidates ≡ some c
      → (reverses txs tx c ≡ true)
        × (count_if (λ t. reverses txs tx t && ltb c.occurred_at t.occurred_at) txs ≡ 0)
  linked c e = (
    first_row-meets (reverses txs tx) candidates c candidates_meet e,
    sym (candidates_all (λ t. ltb c.occurred_at t.occurred_at))
        ∙ first_row-newest (λ _. true) candidates c
            (sql.order_by_sorted Transaction newer_first (keep (reverses txs tx) txs)
              newer_first-IsOrder)
            e,
  )

  pub unlinked : first_row candidates ≡ none → count_if (reverses txs tx) txs ≡ 0
  unlinked e =
      sym (
        candidates_all (λ _. true)
        ∙ count_if-cong (λ t. reverses txs tx t && true) (reverses txs tx) txs (λ t. ground arith))
      ∙ none_first candidates (λ _. true) e

-- the result of link_refund: no link, or a link to a best candidate
pub IsLinked : List Transaction → Transaction → Transaction × Option Transaction → Type 0
IsLinked txs tx (tx', none) =
    (tx' ≡ tx) × (count_if (λ c. is_negative tx.amount_minor && reverses txs tx c) txs ≡ 0)
IsLinked txs tx (tx', some c) =
    (tx' ≡ record tx { refund_of_id = some c.id })
    × (is_negative tx.amount_minor ≡ true)
    × (reverses txs tx c ≡ true)
    × (count_if (λ t. reverses txs tx t && ltb c.occurred_at t.occurred_at) txs ≡ 0)

-- A refund links to a charge of the same merchant and the opposite amount that is not later than
-- it, is no refund itself and is claimed by no row, and among these to a most recent one. It stays
-- unlinked just where there is none, and a row that is no refund is left as it is.
pub link_refund_lem :
    (sql : Engine) (txs : List Transaction) (tx : Transaction)
    → IsLinked txs tx (link_refund sql txs tx)
unfolding link_refund IsLinked
link_refund_lem sql txs tx = elim (Bool-cases (is_negative tx.amount_minor)) [
  | inr e ↦ rw (e) (refl, rw e (count_if_never txs))
  | inl e ↦ elim (Option-cases (first_row (candidates sql txs tx))) [
    | inl n ↦ simp (e, n) (refl, unlinked sql txs tx n)
    | inr (c, f) ↦ simp (e, f) (let l = linked sql txs tx c f in (refl, refl, l.0, l.1))
  ]
]
