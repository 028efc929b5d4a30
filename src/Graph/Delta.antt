-- ===== src/Graph/Delta.antt =====
-- `_request` and `delta` of app/services/graph.py: the retries are bounded, and the fuel of the pages
-- does not matter once the pages end.
use receipt_manager.Graph.{
  new_ids, Attempt, no_token, transport_error, answered, Asked, Outcome, ok, error, expired, Server,
  is_throttled, retry_delay, request_from, request, read_pages, Page, GraphError,
}
use receipt_manager.Prelude.{
  ◌++◌, ℕ, zero, suc, ◌+◌, ◌-◌, ◌*◌, ◌^◌, ◌≤◌, ◌≡◌, refl, ◌∙◌, ap, sym, min, Bool, ◌||◌, Option,
  none, some, List, Text, leb, ◌==◌, arith, Bool-cases, Option-cases, inl, inr, ◌⊎◌,
}

retry_delay-le : (attempt : ℕ) (retry_after : Option ℕ) → retry_delay attempt retry_after ≤ 60
unfolding retry_delay
retry_delay-le attempt none = ground arith
retry_delay-le attempt (some s) = ground arith

-- what a run of attempts may take
IsBounded {ℓ} : {A : Type ℓ} → ℕ → ℕ → Asked A → Type 0
IsBounded left clock r = (r.1 ≤ clock + left) × (r.2 ≤ 60 * left)

pause-le : (attempt : ℕ) → min (2 ^ attempt) 30 ≤ 60
pause-le attempt = ground arith

module _ {ℓ} {A : Type ℓ} where
  attempt-IsBounded :
      (ask : ℕ → Attempt A) (attempts left clock : ℕ) (answer : Attempt A)
      → ask clock ≡ answer
      → IsBounded left (clock + 1) (request_from ask attempts left (clock + 1))
      → IsBounded (suc left) clock (request_from ask attempts (suc left) clock)
  unfolding request_from IsBounded
  attempt-IsBounded ask attempts left clock (no_token text) e rest =
      rw (e, request_from) (omega arith, omega arith)
  attempt-IsBounded ask attempts left clock (transport_error text) e (asked, slept) =
      let short : min (2 ^ (attempts - suc left)) 30 ≤ 60 = pause-le (attempts - suc left) in
      rw (e, request_from) (omega arith, omega arith)
  attempt-IsBounded ask attempts left clock (answered status retry_after text body) e
        (asked, slept) =
      let short : retry_delay (attempts - suc left) retry_after ≤ 60 =
        retry_delay-le (attempts - suc left) retry_after in
      elim (Bool-cases (is_throttled status)) [
        | inl again ↦ rw (e, again, request_from) (omega arith, omega arith)
        | inr settled ↦ elim (Bool-cases (status == 401 || status == 403)) [
          | inl refused ↦ rw (e, settled, refused, request_from) (omega arith, omega arith)
          | inr f ↦ elim (Bool-cases (status == 410)) [
            | inl gone ↦ rw (e, settled, f, gone, request_from) (omega arith, omega arith)
            | inr g ↦ elim (Bool-cases (leb 400 status)) [
              | inl bad ↦ rw (e, settled, f, g, bad, request_from) (omega arith, omega arith)
              | inr fine ↦ rw (e, settled, f, g, fine, request_from) (omega arith, omega arith)
            ]
          ]
        ]
      ]

  request_from-IsBounded :
      (ask : ℕ → Attempt A) (attempts left clock : ℕ)
      → IsBounded left clock (request_from ask attempts left clock)
  unfolding request_from IsBounded
  request_from-IsBounded ask attempts zero clock = (omega arith, omega arith)
  request_from-IsBounded ask attempts (suc left) clock =
      attempt-IsBounded ask attempts left clock (ask clock) refl
        (request_from-IsBounded ask attempts left (clock + 1))

  -- Whatever Graph answers, a request is sent at most four times and sleeps four minutes at most in all.
  pub request-bounded :
      (ask : ℕ → Attempt A) (clock : ℕ)
      → ((request ask clock).1 ≤ clock + 4) × ((request ask clock).2 ≤ 240)
  unfolding request IsBounded
  request-bounded ask clock = request_from-IsBounded ask 4 4 clock

outcome_cases {ℓ} :
    {A : Type ℓ} (r : Outcome A)
    → ((a : A) × (r ≡ ok a)) ⊎ (((reason : GraphError) × (r ≡ error reason)) ⊎ (r ≡ expired))
outcome_cases (ok a) = inl (a, refl)
outcome_cases (error reason) = inr (inl (reason, refl))
outcome_cases expired = inr (inr refl)

-- a page before the pages behind it
abbrev behind :
    List (Text × Bool) → ℕ → Asked (List Text × Option Text) → Asked (List Text × Option Text)
behind items slept rest = (
  elim rest.0 [
    | error e ↦ error e
    | expired ↦ expired
    | ok (ids, link) ↦ ok (new_ids items ++ ids, link)
  ],
  rest.1,
  slept + rest.2,
)

-- where the pages behind it end, so do these
behind_ok :
    (items : List (Text × Bool)) (time : ℕ) (rest : Asked (List Text × Option Text))
    (found : List Text × Option Text)
    → (behind items time rest).0 ≡ ok found
    → (later : List Text × Option Text) × (rest.0 ≡ ok later)
behind_ok items time (ok later, clock, slept) found h = (later, refl)
behind_ok items time (error e, clock, slept) found h = cc
behind_ok items time (expired, clock, slept) found h = cc

module _ (server : Server) where
  next_page :
      (fuel clock : ℕ) (url next : Text) (page : Page)
      → (request (server.page_at url) clock).0 ≡ ok page
      → page.next_link ≡ some next
      → read_pages server (suc fuel) url clock
        ≡ behind page.items
            (request (server.page_at url) clock).2
            (read_pages server fuel next (request (server.page_at url) clock).1)
  unfolding read_pages
  next_page fuel clock url next page e f = rw (e, f, read_pages) refl

  -- More fuel changes nothing once the pages end.
  pub pages_more :
      (fuel clock : ℕ) (url : Text) (found : List Text × Option Text)
      → (read_pages server fuel url clock).0 ≡ ok found
      → read_pages server (suc fuel) url clock ≡ read_pages server fuel url clock
  unfolding read_pages
  pages_more zero clock url found h = cc
  pages_more (suc fuel) clock url found h =
      let asked : Asked Page = request (server.page_at url) clock in
      elim (outcome_cases asked.0) [
        | inr (inl (reason, e)) ↦ rw (e, read_pages) refl
        | inr (inr e) ↦ rw (e, read_pages) refl
        | inl (page, e) ↦ elim (Option-cases page.next_link) [
          | inl f ↦ rw (e, f, read_pages) refl
          | inr (next, f) ↦
              let later : (later : List Text × Option Text) × ((read_pages server fuel next
                      asked.1).0
                    ≡ ok later) =
                behind_ok page.items asked.2 (read_pages server fuel next asked.1) found
                  (sym (ap (λ r. r.0) (next_page fuel clock url next page e f)) ∙ h) in
              next_page (suc fuel) clock url next page e f
              ∙ (ap (behind page.items asked.2) (pages_more fuel asked.1 next later.0 later.1)
                  ∙ sym (next_page fuel clock url next page e f))
        ]
      ]
