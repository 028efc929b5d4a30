-- ===== src/Ingest/Again.antt =====
-- `ingest_message` of app/services/ingest.py on a message that was delivered before.
use receipt_manager.Prelude.{
  ℕ, ◌≡◌, refl, Bool, true, not, ◌||◌, Option, List, [], ◌∷◌, ◌++◌, any, Text, arith, Bool-cases,
  Option-cases, inl, inr, any-append, text_eq_refl,
}
use receipt_manager.Engine.{Engine}
use receipt_manager.Unicode.{Unicode}
use receipt_manager.Models.{TransactionStatus, Transaction, RawEmail}
use receipt_manager.Shortcode.{allocate}
use receipt_manager.MerchantRules.{Search}
use receipt_manager.Parsing.{ParsedFields}
use receipt_manager.Graph.{GraphMessage}
use receipt_manager.Ingest.{
  MailParser, MailSettings, Inbox, Ingested, skipped, created, failed, envelope_allowed,
  has_internet_id, make_email, make_transaction, file_charge, file_message, ingest_message, body_of,
  fields_of, email_ids, text_or_empty,
}

module _ (u : Unicode) (search : Search) (sql : Engine) (parsing : MailParser)
    (settings : MailSettings) where
  last_mail :
      (emails : List RawEmail) (id now : ℕ) (message : GraphMessage) (body error : Option Text)
      → any
          (has_internet_id message.internet_message_id)
          (emails ++ make_email id now message body error ∷ [])
        ≡ true
  unfolding any has_internet_id make_email
  last_mail emails id now message body error =
      rw
        (
          any-append (has_internet_id message.internet_message_id) emails
              (make_email id now message body error ∷ []),
          text_eq_refl message.internet_message_id,
        )
        (ground arith)

  -- a mail that made a transaction is in the table
  IsKept : GraphMessage → Inbox × Ingested → Type 0
  IsKept message (s, skipped) = Unit
  IsKept message (s, failed) = Unit
  IsKept message (s, created tx) = any (has_internet_id message.internet_message_id) s.emails ≡ true

  file_charge-IsKept :
      (now : ℕ) (message : GraphMessage) (tx : Transaction) (s : Inbox)
      → any (has_internet_id message.internet_message_id) s.emails ≡ true
      → IsKept message (file_charge u search sql parsing settings now tx s)
  unfolding IsKept file_charge
  file_charge-IsKept now message tx s h = h

  file_message-IsKept :
      (rounds : List (List Transaction)) (now : ℕ) (message : GraphMessage) (s : Inbox)
      → IsKept message (file_message u search sql parsing settings rounds now message s)
  unfolding file_message
  file_message-IsKept rounds now message s =
      let body : Option Text = body_of parsing message in
      let parsed : ParsedFields × TransactionStatus × Option Text =
        fields_of settings
          (parsing.parse_email message.sender message.subject (text_or_empty body)) in
      let email_id : ℕ = sql.new_id (email_ids s.emails) in
      let make : ℕ → Text → Transaction = make_transaction email_id message parsed.0 parsed.1 in
      elim (Option-cases (allocate sql make rounds s.transactions).1) [
        | inl e ↦ rw (e, file_message) (unfold IsKept in tt)
        | inr (tx, e) ↦
            rw (e, file_message)
              (file_charge-IsKept now message tx
                (record s {
                  emails = s.emails ++ make_email email_id now message body parsed.2 ∷ [];
                  transactions = (allocate sql make rounds s.transactions).0;
                })
                (last_mail s.emails email_id now message body parsed.2))
      ]

  ingest_message-IsKept :
      (others : List RawEmail) (rounds : List (List Transaction)) (now : ℕ) (message : GraphMessage)
      (s : Inbox)
      → IsKept message (ingest_message u search sql parsing settings others rounds now message s)
  unfolding ingest_message IsKept
  ingest_message-IsKept others rounds now message s =
      let passed_over : Bool =
        any (has_internet_id message.internet_message_id) s.emails
        || not (envelope_allowed u settings message.sender message.subject) in
      elim (Bool-cases passed_over) [
        | inl e ↦ rw e tt
        | inr e ↦ elim (Bool-cases (any (has_internet_id message.internet_message_id) others)) [
          | inl f ↦ rw (e, f) tt
          | inr f ↦
              rw (e, f)
                (file_message-IsKept rounds now message (record s { emails = s.emails ++ others }))
        ]
      ]

  skipped_when_known :
      (r : Inbox × Ingested) (tx : Transaction) (others : List RawEmail)
      (rounds : List (List Transaction)) (now : ℕ) (message : GraphMessage)
      → r.1 ≡ created tx
      → IsKept message r
      → ingest_message u search sql parsing settings others rounds now message r.0 ≡ (r.0, skipped)
  unfolding ingest_message IsKept
  skipped_when_known (s, skipped) tx others rounds now message e h = cc
  skipped_when_known (s, failed) tx others rounds now message e h = cc
  skipped_when_known (s, created t) tx others rounds now message e h = rw h refl

  -- A message that made a transaction is skipped when it is delivered again: whatever the other
  -- writers and the time, the second call changes no table.
  ingest_again :
      (others others' : List RawEmail) (rounds rounds' : List (List Transaction)) (now later : ℕ)
      (message : GraphMessage) (s : Inbox) (tx : Transaction)
      → (ingest_message u search sql parsing settings others rounds now message s).1 ≡ created tx
      → let s' = (ingest_message u search sql parsing settings others rounds now message s).0 in
        ingest_message u search sql parsing settings others' rounds' later message s'
        ≡ (s', skipped)
  ingest_again others others' rounds rounds' now later message s tx e =
      skipped_when_known (ingest_message u search sql parsing settings others rounds now message s)
        tx others' rounds' later message e (ingest_message-IsKept others rounds now message s)
