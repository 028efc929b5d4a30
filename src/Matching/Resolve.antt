-- ===== src/Matching/Resolve.antt =====
-- What `resolve` of app/services/matching.py decides.
use receipt_manager.Prelude.{
  ℕ, zero, suc, ◌+◌, ◌≤◌, min, ◌≡◌, refl, ap, ◌∙◌, sym, Bool, true, false, not, Option, none, some,
  List, [], ◌∷◌, ◌++◌, length, take, find, keep, count_if, Text, ltb, arith, All, length-take,
  All-take, All-of_count, count_if-keep_not, length-keep, count_if-take, count_if-keep,
}
use receipt_manager.Engine.{Engine}
use receipt_manager.Models.{Transaction, DiscordMessage, is_matchable}
use receipt_manager.Unicode.{Unicode}
use receipt_manager.Shortcode.{has_code}
use receipt_manager.Shortcode.Codes.{extract_codes_one, has_hash, Digits, EndsRun}
use receipt_manager.Matching.{
  MatchResult, code, sole_open, ambiguous, none_open, max_picker_options, by, ask, choose,
  find_by_reply, find_by_code, first_known, open_transactions, recent_transactions, resolve,
  resolve_implicit, count_open, newer_first,
}

module _ (u : Unicode) (sql : Engine) (now : ℕ) where
  -- A message that is no reply to an announcement, and whose caption has one `#` with the code of a
  -- charge behind it, is resolved to the charge of that code, whatever its status: also a lapsed one.
  pub resolve-by_code :
      (messages : List DiscordMessage) (txs : List Transaction) (referenced : Option Text)
      (pre rest : Text) (tx : Transaction)
      → find_by_reply messages txs referenced ≡ none
      → find (has_code tx.short_code) txs ≡ some tx
      → has_hash pre ≡ false
      → has_hash rest ≡ false
      → 3 ≤ length tx.short_code
      → length tx.short_code ≤ 9
      → Digits u tx.short_code
      → EndsRun u rest
      → resolve u sql now messages txs referenced (some (pre ++ (b'#' ∷ (tx.short_code ++ rest))))
        ≡ by code tx
  unfolding resolve find_by_code first_known
  resolve-by_code messages txs referenced pre rest tx noreply known hp hr lo hi d e =
      rw (noreply, resolve)
        (rw (extract_codes_one u pre tx.short_code rest hp hr lo hi d e) (rw known refl))

count_all {ℓ} : {A : Type ℓ} (xs : List A) → length xs ≡ count_if (λ _. true) xs
unfolding count_if
count_all [] = refl
count_all (x ∷ xs) = ap suc (count_all xs)

module _ (sql : Engine) where
  length-order_by :
      (le : Transaction → Transaction → Bool) (txs : List Transaction)
      → length (sql.order_by Transaction le txs) ≡ length txs
  length-order_by le txs =
      count_all (sql.order_by Transaction le txs)
      ∙ sql.order_by_rows Transaction le (λ _. true) txs
      ∙ sym (count_all txs)

  length-open_transactions :
      (limit : ℕ) (txs : List Transaction)
      → length (open_transactions sql limit txs) ≡ min limit (count_open txs)
  unfolding open_transactions count_open
  length-open_transactions limit txs =
      length-take limit
        (sql.order_by Transaction newer_first (keep (λ tx. is_matchable tx.status) txs))
      ∙ ap (λ n. min limit n)
          (length-order_by newer_first (keep (λ tx. is_matchable tx.status) txs)
            ∙ length-keep (λ tx. is_matchable tx.status) txs)

  open_transactions-matchable :
      (limit : ℕ) (txs : List Transaction)
      → All (λ tx. is_matchable tx.status ≡ true) (open_transactions sql limit txs)
  unfolding open_transactions
  open_transactions-matchable limit txs =
      let rows : List Transaction = keep (λ tx. is_matchable tx.status) txs in
      All-take (λ tx. is_matchable tx.status ≡ true) limit
        (sql.order_by Transaction newer_first rows)
        (All-of_count (λ tx. is_matchable tx.status) (sql.order_by Transaction newer_first rows)
          (sql.order_by_rows Transaction newer_first (λ tx. not (is_matchable tx.status)) rows
            ∙ count_if-keep_not (λ tx. not (is_matchable tx.status)) (λ tx. is_matchable tx.status)
                txs (λ tx e. rw e)))

  open_transactions-rows :
      (limit : ℕ) (p : Transaction → Bool) (txs : List Transaction)
      → count_if p (open_transactions sql limit txs) ≤ count_if p txs
  unfolding open_transactions
  open_transactions-rows limit p txs =
      let rows : List Transaction = keep (λ tx. is_matchable tx.status) txs in
      omega (
        arith,
        count_if-take p limit (sql.order_by Transaction newer_first rows),
        sql.order_by_rows Transaction newer_first p rows,
        count_if-keep p (λ tx. is_matchable tx.status) txs,
      )

-- the outcome that the number of open charges calls for
abbrev pub ImplicitOutcome : List Transaction → List Transaction → ℕ → MatchResult → Type 0
ImplicitOutcome txs recent zero r = r ≡ ask none_open recent false
ImplicitOutcome txs recent (suc zero) r =
    (tx : Transaction) × (r ≡ by sole_open tx)
    × (is_matchable tx.status ≡ true)
    × ((p : Transaction → Bool) → p tx ≡ true → 1 ≤ count_if p txs)
ImplicitOutcome txs recent (suc (suc n)) r =
    (candidates : List Transaction) × (r
      ≡ ask ambiguous candidates (ltb max_picker_options (suc (suc n))))
    × (length candidates ≡ min max_picker_options (suc (suc n)))
    × All (λ tx. is_matchable tx.status ≡ true) candidates

same_truncated :
    (a b : ℕ)
    → a ≡ min (max_picker_options + 1) b
    → ltb max_picker_options a ≡ ltb max_picker_options b
same_truncated a b h = ground arith

choose_lem :
    (txs recent found : List Transaction) (n : ℕ)
    → length found ≡ min (max_picker_options + 1) n
    → All (λ tx. is_matchable tx.status ≡ true) found
    → ((p : Transaction → Bool) → count_if p found ≤ count_if p txs)
    → ImplicitOutcome txs recent n
        (choose (take max_picker_options found) (ltb max_picker_options (length found)) recent)
unfolding choose
choose_lem txs recent [] zero l m inside = refl
choose_lem txs recent (tx ∷ found) zero l m inside = absurd (omega arith)
choose_lem txs recent [] (suc zero) l m inside = absurd (omega arith)
choose_lem txs recent (tx ∷ []) (suc zero) l m inside =
    (tx, refl, m.0, λ p e. omega (arith, inside p, counted p tx e))
  where
    counted :
        (p : Transaction → Bool) (tx' : Transaction) → p tx' ≡ true → count_if p (tx' ∷ []) ≡ 1
    counted p tx' e = unfold count_if in rw e
choose_lem txs recent (tx ∷ tx' ∷ found) (suc zero) l m inside = absurd (omega arith)
choose_lem txs recent [] (suc (suc n)) l m inside = absurd (omega arith)
choose_lem txs recent (tx ∷ []) (suc (suc n)) l m inside = absurd (omega arith)
choose_lem txs recent (tx ∷ tx' ∷ found) (suc (suc n)) l m inside = (
  take max_picker_options (tx ∷ tx' ∷ found),
  ap (ask ambiguous (take max_picker_options (tx ∷ tx' ∷ found)))
      (same_truncated (length (tx ∷ tx' ∷ found)) (suc (suc n)) l),
  length-take max_picker_options (tx ∷ tx' ∷ found) ∙ omega arith,
  All-take (λ t. is_matchable t.status ≡ true) max_picker_options (tx ∷ tx' ∷ found) m,
)

-- Where neither a reply nor a code says which charge a receipt is for, only charges that are new,
-- notified or in need of attention are chosen from. With none the recent charges are offered. With
-- exactly one, which is a row of the table, it is taken with no question. With two or more the
-- choice is offered among 25 of them at most, marked as truncated just if there are more.
pub resolve_implicitly :
    (u : Unicode) (sql : Engine) (now : ℕ) (messages : List DiscordMessage) (txs : List Transaction)
    (referenced text : Option Text)
    → find_by_reply messages txs referenced ≡ none
    → find_by_code u txs text ≡ none
    → ImplicitOutcome txs
        (recent_transactions sql now 7 max_picker_options txs)
        (count_open txs)
        (resolve u sql now messages txs referenced text)
unfolding resolve resolve_implicit
resolve_implicitly u sql now messages txs referenced text noreply nocode =
    rw (noreply, resolve)
      (rw (nocode, resolve)
        (choose_lem txs (recent_transactions sql now 7 max_picker_options txs)
          (open_transactions sql (max_picker_options + 1) txs) (count_open txs)
          (length-open_transactions sql (max_picker_options + 1) txs)
          (open_transactions-matchable sql (max_picker_options + 1) txs)
          (λ p. open_transactions-rows sql (max_picker_options + 1) p txs)))
