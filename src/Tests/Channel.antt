-- ===== src/Tests/Channel.antt =====
-- The theorems on the channel, at concrete tables.
use receipt_manager.Bot.{
  render_summary, assign_rows, is_doubled, breaks_photo_once, Chat, persist_capture,
  link_attachments, link_rows, is_free, is_attachment, is_orphan, attach, add_message,
}
use receipt_manager.Bot.Link.{IsFinalized, link_again, linked_job, second_file_refused}
use receipt_manager.Models.{has_photo, notified, Attachment, Payload}
use receipt_manager.Prelude.{
  ℕ, ◌≡◌, refl, true, false, Option, none, some, [], ◌∷◌, codes, find, any, text_eq,
}
use receipt_manager.Jobs.{raised}
use receipt_manager.Jobs.Shape.{[]-IsWellFormed}
use receipt_manager.Shortcode.{has_code}
use receipt_manager.Storage.{Disk, StoredFile, assert_durable, absolute_path}
use receipt_manager.Tasks.{Gateway, Deletion, DiscordSettings, joined, finalize, get, is_linked_to}
use receipt_manager.Tasks.Finalize.{fails, finalize_needs_files}
use receipt_manager.Tasks.Chunks.{chunk, chunk-joined}
use receipt_manager.Tests.Setup.{sqlite, ascii, charge, no_payload}

-- a disk on which no file is left
abbrev lost_disk : Disk
lost_disk = record { is_inside = λ path. true; contents = λ path. none; sha256 = λ s. s }

abbrev gateway : Gateway
gateway = record {
  channel = some (codes "7");
  send = λ text. some (codes "8");
  delete = λ id. Deletion.deleted;
}

abbrev discord_settings : DiscordSettings
discord_settings = record {
  delete_receipt = true;
  delete_notify = true;
  keep_confirmation = true;
  digest_enabled = true;
  lapse_hours = 72;
}

abbrev pub receipt : ℕ → Option ℕ → Attachment
receipt id tx_id = record {
  id = id;
  transaction_id = tx_id;
  path = codes "2024/r.jpg";
  thumb_path = none;
  original_filename = none;
  size = 3;
  sha256 = codes "abc";
  source_message_id = some (codes "55");
  uploader_id = some (codes "9");
  received_at = 20;
  source_deleted = false;
}

abbrev chat : Option ℕ → Chat
chat tx_id = record {
  transactions = charge 1 (codes "1000") notified 10 ∷ [];
  attachments = receipt 1 tx_id ∷ [];
  messages = [];
  jobs = [];
  audit = [];
}

abbrev file : StoredFile
file = record {
  rel_path = codes "2024/r.jpg";
  thumb_rel_path = none;
  mime = codes "image/jpeg";
  size = 3;
  sha256 = codes "abc";
  width = none;
  height = none;
  converted_from = none;
}

abbrev linked_chat : Chat
linked_chat = (link_attachments ascii sqlite 60 (1 ∷ []) (codes "1000") [] [] (chat none)).0

link_again_example :
    (link_attachments ascii sqlite 70 (1 ∷ []) (codes "1000") [] [] linked_chat).0 ≡ linked_chat
unfolding find has_code text_eq link_attachments link_rows breaks_photo_once is_doubled is_free
    is_attachment is_orphan attach any has_photo assign_rows
link_again_example =
    link_again ascii sqlite 60 70 (1 ∷ []) (codes "1000") (codes "1000") [] [] [] []
      (render_summary ascii (charge 1 (codes "1000") notified 10)) 1 1 (chat none) refl

linked_job_example : IsFinalized sqlite 60 1 (1 ∷ []) [] [] [] linked_chat.jobs
unfolding find has_code text_eq link_rows is_free is_attachment is_orphan attach breaks_photo_once
    is_doubled any has_photo assign_rows
linked_job_example =
    linked_job ascii sqlite 60 (1 ∷ []) (codes "1000") [] [] (chat none)
      (charge 1 (codes "1000") notified 10) refl refl refl []-IsWellFormed

abbrev captured_chat : Chat
captured_chat =
    (persist_capture sqlite 60 file none (codes "55") (codes "7") (codes "9") (chat none)).0

second_file_refused_example :
    persist_capture sqlite 61 file none (codes "55") (codes "7") (codes "9") captured_chat
    ≡ (captured_chat, none)
unfolding persist_capture add_message any
second_file_refused_example =
    second_file_refused sqlite 60 61 2 file file none none (codes "55") (codes "7") (codes "9")
      (chat none) refl

abbrev finalize_payload_row : Payload
finalize_payload_row = record no_payload { transaction_id = some 1; attachment_ids = 1 ∷ [] }

finalize_needs_files_example :
    finalize ascii lost_disk sqlite gateway discord_settings 60 finalize_payload_row 1
      (chat (some 1))
    ≡ (chat (some 1), [], raised (codes "CaptureError"))
unfolding get find any fails is_attachment is_linked_to assert_durable absolute_path
finalize_needs_files_example =
    finalize_needs_files ascii lost_disk sqlite gateway discord_settings 60 finalize_payload_row 1
      (chat (some 1)) (charge 1 (codes "1000") notified 10) refl refl

chunk-joined_example : joined (chunk (codes "one two three") 5) ≡ codes "one two three"
chunk-joined_example = chunk-joined (codes "one two three") 5
