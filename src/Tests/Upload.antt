-- ===== src/Tests/Upload.antt =====
-- The theorems on a message in the channel, at one receipt with the code of its charge.
use receipt_manager.Bot.{
  attachment_row_ids, add_message, is_message, persist_capture, Chat, captured, attach,
  is_attachment,
}
use receipt_manager.Bot.Named.{hint_of}
use receipt_manager.Bot.Reaches.{chosen, capture_message-doubled, capture_message-reaches}
use receipt_manager.Models.{Attachment, has_photo, notified}
use receipt_manager.Prelude.{
  List, true, text_eq, ◌≡◌, refl, false, none, some, [], ◌∷◌, codes, take, any, find,
}
use receipt_manager.Shortcode.{
  after_digits, at_boundary, digit_run, match_code, match_digits, codes_from, extract_codes,
  has_code,
}
use receipt_manager.Unicode.{skip_spaces}
use receipt_manager.Matching.{first_known, find_by_code, find_by_reply, resolve}
use receipt_manager.Storage.{
  stored, checksum_differs, verify_written, refuse_download, store_receipt_bytes,
}
use receipt_manager.Bot.Link.{IsFinalized}
use receipt_manager.Bot.Channel.{
  Handled, user_note_of, downloaded, Upload, Message, ChannelConfig, on_message, capture_message,
}
use receipt_manager.Tests.Channel.{receipt}
use receipt_manager.Bot.Receive.{on_message-keeps_receipts}
use receipt_manager.Jobs.Shape.{[]-IsWellFormed}
use receipt_manager.Tests.Setup.{ascii, sqlite, charge}
use receipt_manager.Tests.Guards.{disk, images, bytes, file}

abbrev upload : Upload
upload = record { filename = codes "a.png"; size = 3; read = downloaded bytes; images = images }

abbrev message : Message
message = record {
  id = codes "55";
  channel_id = codes "7";
  author_id = codes "9";
  is_bot = false;
  content = codes "#1000 lunch";
  reference = none;
  attachments = upload ∷ [];
}

abbrev config : ChannelConfig
config = record { channel_id = codes "7"; allowed = []; timeout_min = 10 }

abbrev channel_chat : Chat
channel_chat = record {
  transactions = charge 1 (codes "1000") notified 10 ∷ [];
  attachments = [];
  messages = [];
  jobs = [];
  audit = [];
}

stores : store_receipt_bytes disk images bytes (some (codes "a.png")) (some 3) ≡ stored file
unfolding store_receipt_bytes refuse_download verify_written checksum_differs text_eq
stores = refl

no_message : any (is_message (codes "55")) channel_chat.messages ≡ false
unfolding any
no_message = refl

has_charge :
    find (has_code (codes "1000")) channel_chat.transactions
    ≡ some (charge 1 (codes "1000") notified 10)
unfolding find has_code text_eq
has_charge = refl

-- the upload of `message` where no receipt is on the charge, and where one is
abbrev with_receipts : List Attachment → Chat
with_receipts atts = record channel_chat { attachments = atts }

abbrev end_of : List Attachment → Handled
end_of atts = capture_message ascii sqlite disk (λ t. []) 60 config message (with_receipts atts)

abbrev expected_row : List Attachment → Attachment
expected_row atts =
    captured (sqlite.new_id (attachment_row_ids atts)) 60 file (some (codes "a.png")) (codes "55")
      (codes "9")

-- a receipt with another photo, and one with the photo of the upload
abbrev other_photo : Attachment
other_photo = record (receipt 4 (some 1)) { sha256 = codes "xyz" }

abbrev same_photo : Attachment
same_photo = receipt 4 (some 1)

picks_charge :
    (atts : List Attachment)
    → (chosen ascii sqlite disk
        (λ t. [])
        60
        config
        message
        upload
        bytes
        file
        (charge 1 (codes "1000") notified 10)
        (with_receipts atts)).transaction
      ≡ some (charge 1 (codes "1000") notified 10)
unfolding persist_capture add_message any resolve find_by_reply find_by_code first_known
    extract_codes find has_code text_eq codes_from match_digits match_code digit_run skip_spaces
    at_boundary after_digits
picks_charge atts = refl

capture_message-reaches_example :
    (find
        (is_attachment (expected_row (other_photo ∷ [])).id)
        (end_of (other_photo ∷ [])).chat.attachments
      ≡ some (attach 1 (expected_row (other_photo ∷ []))))
    × IsFinalized sqlite 60 1
        ((expected_row (other_photo ∷ [])).id ∷ [])
        (hint_of
          (chosen ascii sqlite disk
            (λ t. [])
            60
            config
            message
            upload
            bytes
            file
            (charge 1 (codes "1000") notified 10)
            (with_receipts (other_photo ∷ []))).method)
        (user_note_of ascii message)
        []
        (end_of (other_photo ∷ [])).chat.jobs
unfolding any has_photo text_eq
capture_message-reaches_example =
    capture_message-reaches ascii sqlite disk (λ t. []) 60 config message upload bytes file
      (charge 1 (codes "1000") notified 10) (with_receipts (other_photo ∷ [])) refl refl stores
      no_message has_charge (picks_charge (other_photo ∷ [])) refl []-IsWellFormed

capture_message-doubled_example :
    ((end_of (same_photo ∷ [])).chat.attachments ≡ same_photo ∷ expected_row (same_photo ∷ []) ∷ [])
    × ((end_of (same_photo ∷ [])).chat.transactions ≡ charge 1 (codes "1000") notified 10 ∷ [])
    × ((end_of (same_photo ∷ [])).chat.jobs ≡ [])
    × ((end_of (same_photo ∷ [])).replies ≡ [])
    × ((end_of (same_photo ∷ [])).is_raised ≡ true)
unfolding any has_photo text_eq
capture_message-doubled_example =
    capture_message-doubled ascii sqlite disk (λ t. []) 60 config message upload bytes file
      (charge 1 (codes "1000") notified 10) (with_receipts (same_photo ∷ [])) refl refl stores
      no_message has_charge (picks_charge (same_photo ∷ [])) refl

on_message-keeps_receipts_example :
    take 1
      (on_message ascii sqlite disk
        (λ t. [])
        60
        config
        message
        (with_receipts (other_photo ∷ []))).chat.attachments
    ≡ other_photo ∷ []
on_message-keeps_receipts_example =
    on_message-keeps_receipts ascii sqlite disk (λ t. []) 60 config message
      (with_receipts (other_photo ∷ []))
