-- ===== src/Ingest/Filed.antt =====
-- `ingest_message` of app/services/ingest.py: what becomes of a mail that was not seen before.
use receipt_manager.Ingest.Waived.{
  announced, fields_of-open, IsAnnounced, allocate-HasStatus, ruled_waived, linked_rest, status_of,
  waives,
}
use receipt_manager.Ingest.{
  MailParser, MailSettings, Inbox, Ingested, skipped, created, failed, envelope_allowed,
  has_internet_id, make_email, make_transaction, is_filed, file_charge, file_message,
  ingest_message, body_of, fields_of, email_ids, text_or_empty,
}
use receipt_manager.MerchantRules.{Search, apply_merchant_rules, file_by}
use receipt_manager.Prelude.{
  ap, ℕ, ◌≡◌, refl, ◌∙◌, Bool, true, false, Option, none, some, List, [], ◌∷◌, ◌++◌, find, any,
  subst, count_if, update_where, Text, length, ◌==◌, ==-refl, arith, Bool-cases, Option-cases, inl,
  inr, ◌⊎◌, All, any-append, count_if-append, count_if_zero_of_any, text_eq_refl,
}
use receipt_manager.Engine.{Engine}
use receipt_manager.Unicode.{Unicode}
use receipt_manager.Models.{TransactionStatus, Transaction, MerchantRule, RawEmail, Job}
use receipt_manager.Jobs.Shape.{IsWellFormed}
use receipt_manager.Shortcode.{allocate, has_code, next_short_code, tx_ids}
use receipt_manager.Shortcode.Free.{Positive}
use receipt_manager.Shortcode.Allocate.{allocate_succeeds}
use receipt_manager.Refunds.{link_refund, save_transaction}
use receipt_manager.Parsing.{ParsedFields}
use receipt_manager.Graph.{GraphMessage}

abbrev has_tx_id : ℕ → Transaction → Bool
has_tx_id id tx = tx.id == id

-- the returned transaction, if there is one, is a row of the table
abbrev HasRow : List Transaction × Option Transaction → Type 0
HasRow (table, none) = Unit
HasRow (table, some tx) = any (has_tx_id tx.id) table ≡ true

last_row :
    (table : List Transaction) (tx : Transaction) → any (has_tx_id tx.id) (table ++ tx ∷ []) ≡ true
unfolding any
last_row table tx =
    rw (any-append (has_tx_id tx.id) table (tx ∷ [])) (ground (arith, ==-refl tx.id))

allocate-HasRow :
    (sql : Engine) (make : ℕ → Text → Transaction) (rounds : List (List Transaction))
    (txs : List Transaction)
    → HasRow (allocate sql make rounds txs)
unfolding allocate
allocate-HasRow sql make [] txs = tt
allocate-HasRow sql make (others ∷ rounds) txs =
    let table : List Transaction = txs ++ others in
    let row : Transaction = make (sql.new_id (tx_ids table)) (next_short_code sql txs) in
    elim (Bool-cases (any (has_code row.short_code) table)) [
      | inl taken ↦ rw taken (allocate-HasRow sql make rounds table)
      | inr free ↦ rw free (last_row table row)
    ]

row_of :
    (r : List Transaction × Option Transaction) (tx : Transaction)
    → r.1 ≡ some tx
    → HasRow r
    → any (has_tx_id tx.id) r.0 ≡ true
row_of (table, none) tx e h = cc
row_of (table, some t) tx e h =
    subst (λ t. any (has_tx_id t.id) table ≡ true) (let f : t ≡ tx = cc in f) h

find_saved :
    (tx : Transaction) (txs : List Transaction)
    → any (has_tx_id tx.id) txs ≡ true
    → find (has_tx_id tx.id) (save_transaction tx txs) ≡ some tx
unfolding any find save_transaction update_where
find_saved tx [] h = cc
find_saved tx (t ∷ txs) h = ground (arith, find_saved tx txs)

ruled_id :
    (u : Unicode) (search : Search) (sql : Engine) (rules : List MerchantRule) (tx : Transaction)
    → (apply_merchant_rules u search sql rules tx).0.id ≡ tx.id
unfolding apply_merchant_rules file_by
ruled_id u search sql rules tx = ground arith

linked_id :
    (sql : Engine) (txs : List Transaction) (tx : Transaction)
    → (link_refund sql txs tx).0.id ≡ tx.id
unfolding link_refund
linked_id sql txs tx = ground arith

-- what is left of a mail that is not to be lost: its own row, a row for its charge, and the job
-- that announces the charge unless a merchant rule waives its receipt
pub IsFiled :
    Unicode
    → Search
    → Engine
    → ℕ
    → GraphMessage
    → List MerchantRule
    → List Job
    → Inbox × Ingested
    → Type 0
IsFiled u search sql now message rules jobs (s, skipped) = ⊥
IsFiled u search sql now message rules jobs (s, failed) = ⊥
IsFiled u search sql now message rules jobs (s, created tx) =
    (count_if (has_internet_id message.internet_message_id) s.emails ≡ 1)
    × (find (has_tx_id tx.id) s.transactions ≡ some tx)
    × ((any (waives u search tx.merchant) rules ≡ true) ⊎ IsAnnounced sql now tx.id jobs s.jobs)

module _ (u : Unicode) (search : Search) (sql : Engine) (parsing : MailParser)
    (settings : MailSettings) where
  file_charge-IsFiled :
      (now : ℕ) (message : GraphMessage) (tx : Transaction) (s : Inbox)
      → count_if (has_internet_id message.internet_message_id) s.emails ≡ 1
      → any (has_tx_id tx.id) s.transactions ≡ true
      → is_filed tx.status ≡ false
      → IsWellFormed s.jobs
      → IsFiled u search sql now message s.rules s.jobs
          (file_charge u search sql parsing settings now tx s)
  unfolding file_charge IsFiled
  file_charge-IsFiled now message tx s mail row plain wf =
      let ruled : Transaction = (apply_merchant_rules u search sql s.rules tx).0 in
      let linked : Transaction = (link_refund sql s.transactions ruled).0 in
      let id : linked.id ≡ tx.id =
        linked_id sql s.transactions ruled ∙ ruled_id u search sql s.rules tx in
      let rest = linked_rest sql s.transactions ruled in
      (
        mail,
        find_saved linked s.transactions (rw id row),
        elim (ruled_waived u search sql s.rules tx plain) [
          | inl open_still ↦
              inr (announced sql now linked s.jobs (ap is_filed rest.0 ∙ open_still) wf)
          | inr waived ↦ inl (ap (λ m. any (waives u search m) s.rules) rest.1 ∙ waived)
        ],
      )

  one_mail :
      (emails : List RawEmail) (id now : ℕ) (message : GraphMessage) (body error : Option Text)
      → any (has_internet_id message.internet_message_id) emails ≡ false
      → count_if
          (has_internet_id message.internet_message_id)
          (emails ++ make_email id now message body error ∷ [])
        ≡ 1
  unfolding count_if has_internet_id make_email
  one_mail emails id now message body error h =
      rw
        (
          count_if-append (has_internet_id message.internet_message_id) emails
              (make_email id now message body error ∷ []),
          text_eq_refl message.internet_message_id,
        )
        (omega (arith, count_if_zero_of_any (has_internet_id message.internet_message_id) emails h))

  file_message-IsFiled :
      (rounds : List (List Transaction)) (now : ℕ) (message : GraphMessage) (s : Inbox)
      → any (has_internet_id message.internet_message_id) s.emails ≡ false
      → Positive s.transactions
      → All Positive rounds
      → any (λ others. length others == 0) rounds ≡ true
      → IsWellFormed s.jobs
      → IsFiled u search sql now message s.rules s.jobs
          (file_message u search sql parsing settings rounds now message s)
  unfolding file_message make_transaction
  file_message-IsFiled rounds now message s fresh pos all quiet wf =
      let body : Option Text = body_of parsing message in
      let parsed : ParsedFields × TransactionStatus × Option Text =
        fields_of settings
          (parsing.parse_email message.sender message.subject (text_or_empty body)) in
      let email_id : ℕ = sql.new_id (email_ids s.emails) in
      let make : ℕ → Text → Transaction = make_transaction email_id message parsed.0 parsed.1 in
      elim (Option-cases (allocate sql make rounds s.transactions).1) [
        | inl none_left ↦
            elim (allocate_succeeds sql make (λ id code. refl) rounds s.transactions pos all quiet
              none_left) [ ]
        | inr (tx, e) ↦
            rw (e, file_message)
              (file_charge-IsFiled now message tx
                (record s {
                  emails = s.emails ++ make_email email_id now message body parsed.2 ∷ [];
                  transactions = (allocate sql make rounds s.transactions).0;
                })
                (one_mail s.emails email_id now message body parsed.2 fresh)
                (row_of (allocate sql make rounds s.transactions) tx e
                  (allocate-HasRow sql make rounds s.transactions))
                (ap is_filed (
                    status_of (allocate sql make rounds s.transactions) parsed.1 tx e (
                      allocate-HasStatus sql make parsed.1 rounds s.transactions (λ id code. refl)))
                  ∙ fields_of-open settings
                      (parsing.parse_email message.sender message.subject (text_or_empty body)))
                wf)
      ]

  -- A mail that passes the filter of the settings and that neither the table nor another writer
  -- has is never lost, whatever the parser makes of it: where ids are positive, the job table is
  -- well-formed and some attempt at a code meets no other writer, `ingest_message` creates a
  -- transaction, keeps the mail once, and unless a rule of the table that skips receipts matches the
  -- merchant, exactly one outstanding job is under the key of the announcement: the one that was
  -- outstanding under it before, or else a new one that announces this charge.
  pub never_drops_charge :
      (others : List RawEmail) (rounds : List (List Transaction)) (now : ℕ) (message : GraphMessage)
      (s : Inbox)
      → any (has_internet_id message.internet_message_id) s.emails ≡ false
      → envelope_allowed u settings message.sender message.subject ≡ true
      → any (has_internet_id message.internet_message_id) others ≡ false
      → Positive s.transactions
      → All Positive rounds
      → any (λ others. length others == 0) rounds ≡ true
      → IsWellFormed s.jobs
      → IsFiled u search sql now message s.rules s.jobs
          (ingest_message u search sql parsing settings others rounds now message s)
  unfolding ingest_message
  never_drops_charge others rounds now message s fresh allowed unraced pos all quiet wf =
      rw (fresh, allowed, unraced)
        (file_message-IsFiled rounds now message (record s { emails = s.emails ++ others })
          (rw (any-append (has_internet_id message.internet_message_id) s.emails others, fresh)
            unraced)
          pos all quiet wf)
