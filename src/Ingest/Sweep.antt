-- ===== src/Ingest/Sweep.antt =====
-- `sweep_lapsed` of app/services/ingest.py.
use receipt_manager.Prelude.{
  ℕ, ◌+◌, ◌≡◌, refl, Bool, true, false, List, [], ◌∷◌, count_if, update_where, if◌then◌else◌,
  Bool-cases, inl, inr, count_if-update_none, arith,
}
use receipt_manager.Models.{is_open, lapsed, needs_attention, Transaction}
use receipt_manager.Ingest.{MailSettings, Inbox, is_lapsing, lapse, sweep_lapsed}

abbrev pub is_lapsed : Transaction → Bool
is_lapsed tx = elim tx.status [ lapsed ↦ true | _ ↦ false ]

abbrev pub needs_work : Transaction → Bool
needs_work tx = elim tx.status [ needs_attention ↦ true | _ ↦ false ]

settled :
    (hours now : ℕ) (tx : Transaction)
    → is_lapsing hours now (if is_lapsing hours now tx then lapse now tx else tx) ≡ false
settled hours now tx = elim (Bool-cases (is_lapsing hours now tx)) [
  | inl e ↦ rw e (unfold is_lapsing lapse is_open in refl)
  | inr e ↦ rw e e
]

counted :
    (hours now : ℕ) (txs : List Transaction)
    → count_if is_lapsed (update_where (is_lapsing hours now) (lapse now) txs)
      ≡ count_if is_lapsed txs + count_if (is_lapsing hours now) txs
unfolding count_if update_where is_lapsing lapse is_open
counted hours now [] = refl
counted hours now (tx ∷ txs) = ground (arith, counted hours now txs)

unchanged :
    (p : Transaction → Bool) (f : Transaction → Transaction) (txs : List Transaction)
    → count_if p txs ≡ 0
    → update_where p f txs ≡ txs
unfolding count_if update_where
unchanged p f [] h = refl
unchanged p f (tx ∷ txs) h = ground (arith, unchanged p f txs)

nothing_stale :
    (settings : MailSettings) (now : ℕ) (s : Inbox)
    → count_if (is_lapsing settings.lapse_hours now) s.transactions ≡ 0
    → sweep_lapsed settings now s ≡ (s, 0)
unfolding sweep_lapsed
nothing_stale settings now s h =
    rw (h, unchanged (is_lapsing settings.lapse_hours now) (lapse now) s.transactions h) refl

attention_kept :
    (hours now : ℕ) (txs : List Transaction)
    → count_if needs_work (update_where (is_lapsing hours now) (lapse now) txs)
      ≡ count_if needs_work txs
unfolding count_if update_where is_lapsing lapse is_open
attention_kept hours now [] = refl
attention_kept hours now (tx ∷ txs) = ground (arith, attention_kept hours now txs)

-- A sweep leaves no open charge whose announcement is older than the hours of the settings, it
-- makes as many charges lapsed as it returns and no other, it leaves the charges in need of
-- attention in their number, and a second sweep at once changes nothing.
pub sweep_lapses :
    (settings : MailSettings) (now : ℕ) (s : Inbox)
    → let swept = sweep_lapsed settings now s in
      (count_if (is_lapsing settings.lapse_hours now) swept.0.transactions ≡ 0)
      × (count_if is_lapsed swept.0.transactions ≡ count_if is_lapsed s.transactions + swept.1)
      × (count_if needs_work swept.0.transactions ≡ count_if needs_work s.transactions)
      × (sweep_lapsed settings now swept.0 ≡ (swept.0, 0))
unfolding sweep_lapsed
sweep_lapses settings now s =
    let hours : ℕ = settings.lapse_hours in
    let clean =
      count_if-update_none (is_lapsing hours now) (is_lapsing hours now) (lapse now) s.transactions
        (settled hours now) in
    (
      clean,
      counted hours now s.transactions,
      attention_kept hours now s.transactions,
      nothing_stale settings now (sweep_lapsed settings now s).0 clean,
    )
