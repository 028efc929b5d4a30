-- ===== src/Ingest.antt =====
-- app/services/ingest.py from `_envelope_allowed` on: a message of the mailbox becomes a
-- transaction and the intent to announce it. The proofs are in the modules below. `parsing` stands
-- for app/services/parsing.py, whose rules are closed over: the theorems hold for every reading of
-- a mail. The two lists of rows that other writers commit are those of `allocate`, and the mails.
pub mod Waived
pub mod Filed
pub mod Again
pub mod Sweep
pub mod Parser
pub mod Poll
use receipt_manager.Prelude.{
  ℕ, ◌+◌, ◌*◌, Bool, true, false, not, ◌&&◌, ◌||◌, Option, none, some, List, [], ◌∷◌, ◌++◌, map,
  any, count_if, update_where, Text, codes, text_eq, contains, str, is_empty, ltb, if◌then◌else◌,
}
use receipt_manager.Prelude.Int.{ℤ, pos}
use receipt_manager.Engine.{Engine}
use receipt_manager.Unicode.{Unicode, strip}
use receipt_manager.Models.{
  TransactionStatus, new, notified, receipt_attached, verified, lapsed, no_receipt_required,
  needs_attention, ignored, is_open, seconds, Transaction, MerchantRule, RawEmail, AuditLog, Job,
}
use receipt_manager.Formatting.{money_plain}
use receipt_manager.Parsing.{ParsedFields, ParseOutcome}
use receipt_manager.Graph.{GraphMessage}
use receipt_manager.Jobs.{enqueue}
use receipt_manager.Shortcode.{allocate}
use receipt_manager.MerchantRules.{
  Search, truthy, apply_merchant_rules, empty_payload, default_attempts,
}
use receipt_manager.Refunds.{link_refund, save_transaction}

-- app/services/parsing.py as the module calls it; `Parsing.Rules` has the code behind it
pub record MailParser : Type 0 where
  pub html_to_text : Text → Text
  pub normalize_text : Text → Text
  pub parse_email : Text → Text → Text → ParseOutcome

-- the settings that the module reads
pub record MailSettings : Type 0 where
  pub filter_sender : Text
  pub filter_subject : Text
  pub default_currency : Text
  pub lapse_hours : ℕ

-- the tables of the module
pub record Inbox : Type 0 where
  pub emails : List RawEmail
  pub rules : List MerchantRule
  pub transactions : List Transaction
  pub jobs : List Job
  pub audit : List AuditLog

pub data Ingested : Type 0 where
  skipped : Ingested
  created : Transaction → Ingested
  failed : Ingested  -- an exception; the session is rolled back

unfoldable pub envelope_allowed : Unicode → MailSettings → Text → Text → Bool
envelope_allowed u settings sender subject =
    let want_sender = u.lower (strip u settings.filter_sender) in
    let want_subject = u.lower (strip u settings.filter_subject) in
    (is_empty want_sender || contains want_sender (u.lower sender))
    && (is_empty want_subject || contains want_subject (u.lower subject))

unfoldable pub has_internet_id : Text → RawEmail → Bool
has_internet_id id email = text_eq email.internet_message_id id

unfoldable pub plain_body : MailParser → Option Text → Option Text
plain_body parsing none = none
plain_body parsing (some text) =
    if is_empty text then some text else some (parsing.normalize_text text)

unfoldable pub body_of : MailParser → GraphMessage → Option Text
body_of parsing message = elim message.body_html [
  | none ↦ plain_body parsing message.body_text
  | some html ↦
      if is_empty html
      then plain_body parsing message.body_text
      else some (parsing.html_to_text html)
]

-- `body_text or ""`
unfoldable pub text_or_empty : Option Text → Text
text_or_empty none = []
text_or_empty (some s) = s

unfoldable pub status_value : TransactionStatus → Text
status_value new = codes "new"
status_value notified = codes "notified"
status_value receipt_attached = codes "receipt_attached"
status_value verified = codes "verified"
status_value lapsed = codes "lapsed"
status_value no_receipt_required = codes "no_receipt_required"
status_value needs_attention = codes "needs_attention"
status_value ignored = codes "ignored"

-- the fields, the status of the charge and the error of the mail, from what was parsed
unfoldable pub fields_of :
    MailSettings → ParseOutcome → ParsedFields × TransactionStatus × Option Text
fields_of settings outcome = elim outcome.fields [
  | some fields ↦ (fields, new, none)
  | none ↦ (
    record {
      merchant = codes "(unparsed)";
      amount_minor = pos 0;
      currency = settings.default_currency;
      card_ending = none;
      cardholder = none;
      occurred_at = none;
    },
    needs_attention,
    outcome.error,
  )
]

unfoldable pub make_email : ℕ → ℕ → GraphMessage → Option Text → Option Text → RawEmail
make_email id now message body error = record {
  id = id;
  graph_message_id = message.graph_id;
  internet_message_id = message.internet_message_id;
  sender = message.sender;
  subject = message.subject;
  body_html = message.body_html;
  body_text = body;
  received_at = message.received_at;
  processed_at = some now;
  parse_error = error;
}

unfoldable pub make_transaction :
    ℕ → GraphMessage → ParsedFields → TransactionStatus → ℕ → Text → Transaction
make_transaction email_id message fields status id code = record {
  id = id;
  short_code = code;
  email_id = some email_id;
  occurred_at = elim fields.occurred_at [ none ↦ message.received_at | some at ↦ at ];
  merchant = if is_empty fields.merchant then codes "(unknown)" else fields.merchant;
  amount_minor = fields.amount_minor;
  currency = fields.currency;
  card_ending = fields.card_ending;
  cardholder = fields.cardholder;
  status = status;
  category = none;
  category_account_id = none;
  notes = none;
  refund_of_id = none;
  notified_at = none;
  lapsed_at = none;
  matched_at = none;
  notify_message_id = none;
}

unfoldable pub created_audit : Transaction → Option MerchantRule → Option Transaction → AuditLog
created_audit tx rule original = record {
  actor = codes "ingest";
  action = codes "transaction.created";
  entity = some (codes "transaction");
  entity_id = some tx.short_code;
  detail = some (
      tx.merchant
      ++ b' ' ∷ money_plain tx.amount_minor
      ++ b' ' ∷ tx.currency
      ++ codes " ("
      ++ status_value tx.status
      ++ codes ")"
      ++ (elim rule [ none ↦ [] | some r ↦ codes " [merchant rule: " ++ r.pattern ++ codes "]" ])
      ++ (elim original [
        | none ↦ []
        | some o ↦ codes " [refund of #" ++ o.short_code ++ codes "]"
      ]));
}

unfoldable pub is_filed : TransactionStatus → Bool
is_filed no_receipt_required = true
is_filed _ = false

unfoldable pub notify_key : ℕ → Text
notify_key id = codes "notify:" ++ str id

unfoldable pub announce : Engine → ℕ → Transaction → List Job → List Job
announce sql now tx q =
    if is_filed tx.status
    then q
    else (enqueue sql now (codes "discord.notify")
        (record empty_payload { transaction_id = some tx.id }) (some (notify_key tx.id)) 0
        default_attempts q).0

abbrev pub email_ids : List RawEmail → List ℕ
email_ids = map (λ email. email.id)

module _ (u : Unicode) (search : Search) (sql : Engine) (parsing : MailParser)
    (settings : MailSettings) where
  -- what follows `allocate`
  unfoldable pub file_charge : ℕ → Transaction → Inbox → Inbox × Ingested
  file_charge now tx s =
      let ruled = apply_merchant_rules u search sql s.rules tx in
      let linked = link_refund sql s.transactions ruled.0 in
      (
        record s {
          transactions = save_transaction linked.0 s.transactions;
          jobs = announce sql now linked.0 s.jobs;
          audit = s.audit ++ created_audit linked.0 ruled.1 linked.1 ∷ [];
        },
        created linked.0,
      )

  -- what follows the flush of the mail
  unfoldable pub file_message :
      List (List Transaction) → ℕ → GraphMessage → Inbox → Inbox × Ingested
  file_message rounds now message s =
      let body = body_of parsing message in
      let parsed =
        fields_of settings
          (parsing.parse_email message.sender message.subject (text_or_empty body)) in
      let email_id = sql.new_id (email_ids s.emails) in
      let email = make_email email_id now message body parsed.2 in
      let allocated =
        allocate sql (make_transaction email_id message parsed.0 parsed.1) rounds s.transactions in
      elim allocated.1 [
        | none ↦ (record s { transactions = allocated.0 }, failed)
        | some tx ↦
            file_charge now tx
              (record s { emails = s.emails ++ email ∷ []; transactions = allocated.0 })
      ]

  unfoldable pub ingest_message :
      List RawEmail → List (List Transaction) → ℕ → GraphMessage → Inbox → Inbox × Ingested
  ingest_message others rounds now message s =
      let raced : Inbox = record s { emails = s.emails ++ others } in
      if any (has_internet_id message.internet_message_id) s.emails
        || not (envelope_allowed u settings message.sender message.subject)
      then (s, skipped)
      else if any (has_internet_id message.internet_message_id) others
      then (raced, skipped)
      else file_message rounds now message raced

  unfoldable pub count_created : Ingested → ℕ
  count_created skipped = 0
  count_created (created tx) = 1
  count_created failed = 0

  -- each message with the rows that others commit meanwhile
  unfoldable pub ingest_batch :
      ℕ → List (GraphMessage × List RawEmail × List (List Transaction)) → Inbox → Inbox × ℕ
  ingest_batch now [] s = (s, 0)
  ingest_batch now ((message, others, rounds) ∷ messages) s =
      let first = ingest_message others rounds now message s in
      let rest = ingest_batch now messages first.0 in (rest.0, count_created first.1 + rest.1)

-- the rows of the query of `sweep_lapsed`; `notified_at < utcnow() - hours` with the hours on the
-- other side, where ℕ does not cut the difference off
unfoldable pub is_lapsing : ℕ → ℕ → Transaction → Bool
is_lapsing hours now tx =
    is_open tx.status
    && (elim tx.notified_at [ none ↦ false | some at ↦ ltb (at + seconds (hours * 3600)) now ])

unfoldable pub lapse : ℕ → Transaction → Transaction
lapse now tx = record tx { status = lapsed; lapsed_at = some now }

unfoldable pub sweep_lapsed : MailSettings → ℕ → Inbox → Inbox × ℕ
sweep_lapsed settings now s =
    let hours = settings.lapse_hours in
    let stale = count_if (is_lapsing hours now) s.transactions in
    (
      record s {
        transactions = update_where (is_lapsing hours now) (lapse now) s.transactions;
        audit =
            if ltb 0 stale
            then s.audit
              ++ record {
                actor = codes "scheduler";
                action = codes "transactions.lapsed";
                entity = none;
                entity_id = none;
                detail =
                    some (str stale ++ codes " charge(s) lapsed after " ++ str hours ++ codes "h");
              }
                ∷ []
            else s.audit;
      },
      stale,
    )
