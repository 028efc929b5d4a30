-- ===== src/Bot.antt =====
-- app/discordbot/bot.py: the tables that the Discord side writes, the rows of a captured receipt
-- and its link to a charge. The proofs are in the modules below.
pub mod Link
pub mod Channel
pub mod Receive
pub mod Named
pub mod NewFile
pub mod Reaches
use receipt_manager.Prelude.{
  ℕ, ◌+◌, ◌&&◌, ◌||◌, min, Bool, true, false, not, Option, none, some, List, [], ◌∷◌, ◌++◌, map,
  take, any, find, update_where, Text, codes, text_eq, str, is_empty, ltb, ◌==◌, if◌then◌else◌,
}
use receipt_manager.Engine.{Engine}
use receipt_manager.Unicode.{Unicode}
use receipt_manager.Models.{
  receipt_attached, Transaction, has_photo, Attachment, DiscordMessage, AuditLog, Job, Payload,
}
use receipt_manager.Formatting.{money}
use receipt_manager.Jobs.{enqueue}
use receipt_manager.Shortcode.{has_code}
use receipt_manager.MerchantRules.{append_note, default_attempts}
use receipt_manager.Storage.{StoredFile}

pub record Chat : Type 0 where
  pub transactions : List Transaction
  pub attachments : List Attachment
  pub messages : List DiscordMessage
  pub jobs : List Job
  pub audit : List AuditLog

unfoldable pub render_summary : Unicode → Transaction → Text
render_summary u tx =
    b'#' ∷ tx.short_code
    ++ codes " · "
    ++ tx.merchant
    ++ codes " · "
    ++ money u tx.amount_minor tx.currency

unfoldable pub render_option_label : Unicode → Transaction → Text
render_option_label u tx = take 100 (
    b'#' ∷ tx.short_code
    ++ codes " · "
    ++ money u tx.amount_minor tx.currency
    ++ codes " · "
    ++ tx.merchant)

abbrev pub attachment_row_ids : List Attachment → List ℕ
attachment_row_ids = map (λ att. att.id)

abbrev pub message_row_ids : List DiscordMessage → List ℕ
message_row_ids = map (λ m. m.id)

unfoldable pub is_message : Text → DiscordMessage → Bool
is_message id m = text_eq m.message_id id

-- `DiscordMessage.message_id` is unique: `none` for the IntegrityError
unfoldable pub add_message : DiscordMessage → List DiscordMessage → Option (List DiscordMessage)
add_message m messages =
    if any (is_message m.message_id) messages then none else some (messages ++ m ∷ [])

-- the row of `_persist_capture`
unfoldable pub captured : ℕ → ℕ → StoredFile → Option Text → Text → Text → Attachment
captured id now file original_filename message_id uploader_id = record {
  id = id;
  transaction_id = none;
  path = file.rel_path;
  thumb_path = file.thumb_rel_path;
  original_filename = original_filename;
  size = file.size;
  sha256 = file.sha256;
  source_message_id = some message_id;
  uploader_id = some uploader_id;
  received_at = now;
  source_deleted = false;
}

unfoldable pub received : ℕ → Option Text → Text → Text → Text → DiscordMessage
received id original_filename message_id channel_id uploader_id = record {
  id = id;
  message_id = message_id;
  channel_id = channel_id;
  direction = codes "in";
  kind = codes "receipt";
  transaction_id = none;
  author_id = some uploader_id;
  content = elim original_filename [
    | none ↦ none
    | some name ↦ if is_empty name then none else some (take 4000 name)
  ];
  deleted_at = none;
}

module _ (sql : Engine) where
  -- the id of the new attachment, or `none` for an IntegrityError, where nothing is written
  unfoldable pub persist_capture :
      ℕ → StoredFile → Option Text → Text → Text → Text → Chat → Chat × Option ℕ
  persist_capture now file original_filename message_id channel_id uploader_id chat =
      let id = sql.new_id (attachment_row_ids chat.attachments) in
      let row =
        received (sql.new_id (message_row_ids chat.messages)) original_filename message_id
          channel_id uploader_id in
      elim (add_message row chat.messages) [
        | none ↦ (chat, none)
        | some messages ↦ (
          record chat {
            attachments =
                chat.attachments
                ++ captured id now file original_filename message_id uploader_id ∷ [];
            messages = messages;
          },
          some id,
        )
      ]

unfoldable pub is_attachment : ℕ → Attachment → Bool
is_attachment id att = att.id == id

unfoldable pub is_orphan : Attachment → Bool
is_orphan att = elim att.transaction_id [ none ↦ true | some _ ↦ false ]

unfoldable pub attach : ℕ → Attachment → Attachment
attach tx_id att = record att { transaction_id = some tx_id }

-- `att` is a row, and is linked to no charge
unfoldable pub is_free : ℕ → List Attachment → Bool
is_free id atts = elim (find (is_attachment id) atts) [ none ↦ false | some att ↦ is_orphan att ]

-- the assignments of the loop of `_link_attachments`: the rows, and `linked`
unfoldable pub assign_rows : ℕ → List ℕ → List Attachment → List Attachment × ℕ
assign_rows tx_id [] atts = (atts, 0)
assign_rows tx_id (id ∷ ids) atts =
    let free = is_free id atts in
    let atts' = if free then update_where (is_attachment id) (attach tx_id) atts else atts in
    let rest = assign_rows tx_id ids atts' in (rest.0, if free then rest.1 + 1 else rest.1)

-- the photo of the row is on the charge already
unfoldable pub is_doubled : ℕ → ℕ → List Attachment → Bool
is_doubled tx_id id atts = elim (find (is_attachment id) atts) [
  | none ↦ false
  | some att ↦ any (has_photo tx_id att.sha256) atts
]

-- whether one of the assignments violates `uq_att_tx_sha`
unfoldable pub breaks_photo_once : ℕ → List ℕ → List Attachment → Bool
breaks_photo_once tx_id [] atts = false
breaks_photo_once tx_id (id ∷ ids) atts =
    let free = is_free id atts in
    let atts' = if free then update_where (is_attachment id) (attach tx_id) atts else atts in
    let rest = breaks_photo_once tx_id ids atts' in free && is_doubled tx_id id atts || rest

-- the loop with the flush of its rows: `none` for the IntegrityError
unfoldable pub link_rows : ℕ → List ℕ → List Attachment → Option (List Attachment × ℕ)
link_rows tx_id ids atts =
    if breaks_photo_once tx_id ids atts then none else some (assign_rows tx_id ids atts)

pub data Linked : Type 0 where
  no_charge : Linked
  integrity_error : Linked
  link_done : Text → ℕ → ℕ → Linked  -- the summary, the id of the charge and `linked`

unfoldable pub least : List ℕ → ℕ
least [] = 0
least (id ∷ []) = id
least (id ∷ id' ∷ ids) = min id (least (id' ∷ ids))

unfoldable pub finalize_key : ℕ → List ℕ → Text
finalize_key tx_id ids = codes "finalize:" ++ str tx_id ++ b':' ∷ str (least ids)

-- the assignments to the charge
unfoldable pub mark_attached : ℕ → Text → Transaction → Transaction
mark_attached now user_note tx = record tx {
  status = receipt_attached;
  matched_at = some now;
  notes = if is_empty user_note then tx.notes else append_note tx.notes user_note;
}

unfoldable pub attached_audit : ℕ → Text → Transaction → AuditLog
attached_audit linked user_note tx = record {
  actor = codes "discord";
  action = codes "receipt.attached";
  entity = some (codes "transaction");
  entity_id = some tx.short_code;
  detail = some (
      str linked
      ++ codes " file(s) attached"
      ++ (if is_empty user_note then [] else codes "; note: " ++ take 120 user_note));
}

unfoldable pub finalize_payload : ℕ → List ℕ → Text → Text → Payload
finalize_payload tx_id ids hint user_note = record {
  transaction_id = some tx_id;
  attachment_ids = ids;
  hint = hint;
  user_note = user_note;
  message_id = [];
  content = [];
}

module _ (u : Unicode) (sql : Engine) where
  -- The IntegrityError leaves `session_scope`, which rolls everything back: the `except` of `enqueue`
  -- may take it first, but a session whose flush failed refuses the query that follows.
  unfoldable pub link_attachments : ℕ → List ℕ → Text → Text → Text → Chat → Chat × Linked
  link_attachments now ids short_code hint user_note chat =
      elim (find (has_code short_code) chat.transactions) [
        | none ↦ (chat, no_charge)
        | some tx ↦ elim (link_rows tx.id ids chat.attachments) [
          | none ↦ (chat, integrity_error)
          | some rows ↦ (
            if ltb 0 rows.1
                then record chat {
                  transactions =
                      update_where (λ t. t.id == tx.id) (mark_attached now user_note)
                        chat.transactions;
                  attachments = rows.0;
                  audit = chat.audit ++ attached_audit rows.1 user_note tx ∷ [];
                  jobs =
                      (enqueue sql now (codes "discord.finalize")
                        (finalize_payload tx.id ids hint user_note) (some (finalize_key tx.id ids))
                        0 default_attempts chat.jobs).0;
                }
                else record chat { attachments = rows.0 },
            link_done (render_summary u tx) tx.id rows.1,
          )
        ]
      ]
