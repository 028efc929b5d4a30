-- ===== src/Models.antt =====
-- app/models.py: the statuses and the rows of the tables. A time is a number of microseconds since
-- the epoch, `Mapped[Optional[...]]` an `Option`, and a JSON payload a record of optional entries.
use receipt_manager.Prelude.{
  ℕ, ◌*◌, Bool, true, false, Option, none, some, ◌&&◌, ◌==◌, text_eq, List, Text,
}
use receipt_manager.Prelude.Int.{ℤ}

pub data TransactionStatus : Type 0 where
  new notified receipt_attached verified lapsed no_receipt_required : TransactionStatus
  needs_attention ignored : TransactionStatus

pub data JobStatus : Type 0 where
  pending running done dead : JobStatus

-- `open_statuses()`, as a test
unfoldable pub is_open : TransactionStatus → Bool
is_open new = true
is_open notified = true
is_open _ = false

-- the list `open_statuses() + [needs_attention]` of the implicit matching queries, as a test
unfoldable pub is_matchable : TransactionStatus → Bool
is_matchable new = true
is_matchable notified = true
is_matchable needs_attention = true
is_matchable _ = false

abbrev pub seconds : ℕ → ℕ
seconds n = n * 1000000

-- the entries that the handlers of the repository read from a job's payload
pub record Payload : Type 0 where
  pub transaction_id : Option ℕ
  pub attachment_ids : List ℕ
  pub hint : Text
  pub user_note : Text
  pub message_id : Text
  pub content : Text

pub record Job : Type 0 where
  pub id : ℕ
  pub kind : Text
  pub payload : Payload
  pub idempotency_key : Option Text
  pub status : JobStatus
  pub attempts : ℕ
  pub max_attempts : ℕ
  pub next_run_at : ℕ
  pub last_error : Option Text
  pub completed_at : Option ℕ

pub record Transaction : Type 0 where
  pub id : ℕ
  pub short_code : Text
  pub email_id : Option ℕ
  pub occurred_at : ℕ
  pub merchant : Text
  pub amount_minor : ℤ
  pub currency : Text
  pub card_ending : Option Text
  pub cardholder : Option Text
  pub status : TransactionStatus
  pub category : Option Text
  pub category_account_id : Option ℕ
  pub notes : Option Text
  pub refund_of_id : Option ℕ
  pub notified_at : Option ℕ
  pub lapsed_at : Option ℕ
  pub matched_at : Option ℕ
  pub notify_message_id : Option Text

pub record Attachment : Type 0 where
  pub id : ℕ
  pub transaction_id : Option ℕ
  pub path : Text
  pub thumb_path : Option Text
  pub original_filename : Option Text
  pub size : ℕ  -- `bytes`
  pub sha256 : Text
  pub source_message_id : Option Text
  pub uploader_id : Option Text
  pub received_at : ℕ
  pub source_deleted : Bool

-- the rows that `uq_att_tx_sha` allows one of: a charge has a photo once; NULL equals nothing
unfoldable pub has_photo : ℕ → Text → Attachment → Bool
has_photo tx_id sha256 att =
    (elim att.transaction_id [ none ↦ false | some i ↦ i == tx_id ]) && text_eq att.sha256 sha256

pub record DiscordMessage : Type 0 where
  pub id : ℕ
  pub message_id : Text
  pub channel_id : Text
  pub direction : Text
  pub kind : Text
  pub transaction_id : Option ℕ
  pub author_id : Option Text
  pub content : Option Text
  pub deleted_at : Option ℕ

pub record MerchantRule : Type 0 where
  pub id : ℕ
  pub pattern : Text
  pub is_regex : Bool
  pub enabled : Bool
  pub skip_receipt : Bool
  pub category : Option Text
  pub note : Option Text

pub record RawEmail : Type 0 where
  pub id : ℕ
  pub graph_message_id : Text
  pub internet_message_id : Text
  pub sender : Text
  pub subject : Text
  pub body_html : Option Text
  pub body_text : Option Text
  pub received_at : ℕ
  pub processed_at : Option ℕ
  pub parse_error : Option Text

pub record AuditLog : Type 0 where
  pub actor : Text
  pub action : Text
  pub entity : Option Text
  pub entity_id : Option Text
  pub detail : Option Text
