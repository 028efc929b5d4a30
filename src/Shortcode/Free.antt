-- ===== src/Shortcode/Free.antt =====
-- The codes that app/services/shortcode.py allocates: they are free, and its loops end.
use receipt_manager.Prelude.{
  ℕ, zero, suc, ◌+◌, ◌≤◌, ◌<◌, max, ◌≡◌, refl, ap, ◌∙◌, Bool, true, false, List, [], ◌∷◌, length,
  find, any, count_if, text_eq, str, leb, ◌==◌, arith, Bool-cases, inl, inr, All, read_digits,
  read_digits-str, text_eq_sound, count_if-le_length, count_if_mono,
}
use receipt_manager.Engine.{Engine}
use receipt_manager.Models.{Transaction}
use receipt_manager.Shortcode.{
  start_at, has_code, code_in_use, first_free, highest_code, next_short_code,
}

-- the rows whose code, read as a number, is not below `n`
abbrev from_number : ℕ → Transaction → Bool
from_number n tx = leb n (read_digits 0 tx.short_code)

code_number :
    (tx : Transaction) (n : ℕ)
    → text_eq tx.short_code (str n) ≡ true
    → read_digits 0 tx.short_code ≡ n
code_number tx n h = ap (read_digits 0) (text_eq_sound tx.short_code (str n) h) ∙ read_digits-str n

not_more :
    (txs : List Transaction) (n : ℕ)
    → count_if (from_number (n + 1)) txs ≤ count_if (from_number n) txs
not_more txs n = count_if_mono (from_number (n + 1)) (from_number n) txs (λ tx e. ground arith)

used_row :
    (txs : List Transaction) (n : ℕ)
    → code_in_use txs n ≡ true
    → any (λ tx. read_digits 0 tx.short_code == n) txs ≡ true
unfolding code_in_use find any has_code
used_row [] n h = cc
used_row (tx ∷ txs) n h = elim (Bool-cases (text_eq tx.short_code (str n))) [
  | inl same ↦ ground (arith, code_number tx n same)
  | inr other ↦ ground (arith, used_row txs n)
]

fewer :
    (txs : List Transaction) (n : ℕ)
    → any (λ tx. read_digits 0 tx.short_code == n) txs ≡ true
    → count_if (from_number (n + 1)) txs < count_if (from_number n) txs
unfolding any count_if
fewer [] n h = cc
fewer (tx ∷ txs) n h = ground (arith, fewer txs n, not_more txs n)

later : {P : Type 0} {n m : ℕ} → P × (n + 1 ≤ m) → P × (n ≤ m)
later h = (h.0, omega (arith, h.1))

-- With more fuel than rows whose code is not below the first candidate the search ends at a number
-- that is not below it and that no row has.
first_free_lem :
    (fuel : ℕ) (txs : List Transaction) (n : ℕ)
    → count_if (from_number n) txs < fuel
    → (code_in_use txs (first_free fuel txs n) ≡ false) × (n ≤ first_free fuel txs n)
unfolding first_free
first_free_lem zero txs n h = elim h [ ]
first_free_lem (suc fuel) txs n h = elim (Bool-cases (code_in_use txs n)) [
  | inl taken ↦
      rw taken (
        later (first_free_lem fuel txs (n + 1) (omega (arith, fewer txs n (used_row txs n taken)))))
  | inr free ↦ rw free (free, omega arith)
]

-- the ids of the table are positive, as SQLite assigns them
abbrev pub Positive : List Transaction → Type 0
Positive txs = All (λ tx. 1 ≤ tx.id) txs

-- where ids are positive, a code is not in use just if no row has it
unused :
    (txs : List Transaction) (n : ℕ)
    → Positive txs
    → code_in_use txs n ≡ false
    → any (has_code (str n)) txs ≡ false
unfolding code_in_use any find
unused [] n pos h = refl
unused (tx ∷ txs) n pos h = elim (Bool-cases (has_code (str n) tx)) [
  | inl same ↦ ground (arith, pos.0)
  | inr other ↦ rw other (unused txs n pos.1 (ground arith))
]

pub next_short_code_free :
    (sql : Engine) (txs : List Transaction)
    → Positive txs
    → (n : ℕ) × (next_short_code sql txs ≡ str n)
      × (start_at ≤ n)
      × (highest_code sql txs < n)
      × (any (has_code (next_short_code sql txs)) txs ≡ false)
unfolding next_short_code
next_short_code_free sql txs pos =
    let from : ℕ = max (highest_code sql txs + 1) start_at in
    let found =
      first_free_lem (suc (length txs)) txs from
        (omega (arith, count_if-le_length (from_number from) txs)) in
    (
      first_free (suc (length txs)) txs from,
      refl,
      omega (arith, found.1),
      omega (arith, found.1),
      unused txs (first_free (suc (length txs)) txs from) pos found.0,
    )
