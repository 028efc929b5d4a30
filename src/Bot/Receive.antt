-- ===== src/Bot/Receive.antt =====
-- `_capture_message` and `on_message` of app/discordbot/bot.py: what becomes of the receipts.
use receipt_manager.Bot.Channel.{
  after_link, finish_capture, has_no_ids, has_no_uploads, sole_hint, not_downloaded, Download,
  downloaded, Upload, Message, ChannelConfig, Failure, Resolved, resolve_upload, link_captured,
  prompt, file_captured, capture_files, capture_message, on_message, user_note_of,
}
use receipt_manager.Bot.Link.{link_raises, attachments_after}
use receipt_manager.Bot.{
  Linked, breaks_photo_once, no_charge, integrity_error, link_done, text_eq, is_empty,
  message_row_ids, DiscordMessage, received, Chat, persist_capture, captured, link_attachments,
  assign_rows, is_attachment, is_free, attach, attachment_row_ids, is_message, add_message,
}
use receipt_manager.Prelude.Members.{take-append, update_where-append_none}
use receipt_manager.Prelude.{
  subst, ◌⊎◌, ◌||◌, any-map, ℕ, ◌≡◌, refl, ◌∙◌, ap, sym, Bool, false, not, ◌&&◌, Option, none, some,
  List, [], ◌∷◌, ◌++◌, take, any, find, update_where, length, Text, ◌==◌, arith, All, Bool-cases,
  Option-cases, inl, inr, any-append, find-append_none, find-eq_none_of_any,
}
use mathlib.Core.List.{append_assoc, append-nil}
use receipt_manager.Engine.{Engine}
use receipt_manager.Unicode.{Unicode}
use receipt_manager.Models.{Attachment}
use receipt_manager.Shortcode.{has_code}
use receipt_manager.Matching.{MatchMethod, reply, code, sole_open, ambiguous, none_open}
use receipt_manager.Storage.{
  Disk, CaptureError, stored, refused, StoredFile, Stored, store_receipt_bytes,
}

pub new_id_unknown :
    (sql : Engine) (atts : List Attachment)
    → any (is_attachment (sql.new_id (attachment_row_ids atts))) atts ≡ false
unfolding is_attachment
new_id_unknown sql atts =
    sym (any-map (λ i. i == sql.new_id (attachment_row_ids atts)) (λ att. att.id) atts)
    ∙ sql.new_id_fresh (attachment_row_ids atts)

pub is_free-append :
    (id : ℕ) (old new : List Attachment)
    → any (is_attachment id) old ≡ false
    → is_free id (old ++ new) ≡ is_free id new
unfolding is_free
is_free-append id old new h =
    rw
      (
        find-append_none (is_attachment id) old new (find-eq_none_of_any (is_attachment id) old h),
        is_free,
      )
      refl

module _ (tx_id : ℕ) where
  -- linking files that are not among the first rows leaves these as they are
  pub assign_rows-append :
      (ids : List ℕ) (old new : List Attachment)
      → All (λ id. any (is_attachment id) old ≡ false) ids
      → (assign_rows tx_id ids (old ++ new)).0 ≡ old ++ (assign_rows tx_id ids new).0
  unfolding assign_rows
  assign_rows-append [] old new h = refl
  assign_rows-append (id ∷ ids) old new h =
      let same : is_free id (old ++ new) ≡ is_free id new = is_free-append id old new h.0 in
      elim (Bool-cases (is_free id new)) [
        | inl free ↦
            rw (same, free, update_where-append_none (is_attachment id) (attach tx_id) old new h.0)
              (assign_rows-append ids old (update_where (is_attachment id) (attach tx_id) new) h.1)
        | inr taken ↦ rw (same, taken) (assign_rows-append ids old new h.1)
      ]

module _ (u : Unicode) (sql : Engine) (disk : Disk) where
  persisted :
      (now : ℕ) (file : StoredFile) (name : Option Text) (message channel uploader : Text)
      (chat : Chat)
      → any (is_message message) chat.messages ≡ false
      → (persist_capture sql now file name message channel uploader chat).1
        ≡ some (sql.new_id (attachment_row_ids chat.attachments))
  unfolding persist_capture add_message received
  persisted now file name message channel uploader chat g =
      rw (g, persist_capture, add_message) refl

  -- a file of the message that is downloaded and stored
  pub captured_one :
      (now : ℕ) (message : Message) (upload : Upload) (bytes : Text) (file : StoredFile)
      (chat : Chat)
      → upload.read ≡ downloaded bytes
      → store_receipt_bytes disk upload.images bytes (some upload.filename) (some upload.size)
        ≡ stored file
      → any (is_message message.id) chat.messages ≡ false
      → capture_files u sql disk now message (upload ∷ []) chat ≡ (
        (persist_capture sql now file
            (some upload.filename)
            message.id
            message.channel_id
            message.author_id
            chat).0,
        sql.new_id (attachment_row_ids chat.attachments) ∷ [],
        [],
        false,
      )
  unfolding capture_files
  captured_one now message upload bytes file chat e f g =
      rw (e, f, capture_files)
        (rw
          (persisted now file (some upload.filename) message.id message.channel_id message.author_id
            chat g)
          refl)

list_cases : (xs : List ℕ) → (xs ≡ []) ⊎ ((x : ℕ) × (ys : List ℕ) × (xs ≡ x ∷ ys))
list_cases [] = inl refl
list_cases (x ∷ ys) = inr (x, ys, refl)

data_cases :
    (d : Download)
    → ((bytes : Text) × (d ≡ downloaded bytes)) ⊎ ((error : Text) × (d ≡ not_downloaded error))
data_cases (downloaded bytes) = inl (bytes, refl)
data_cases (not_downloaded error) = inr (error, refl)

store_cases :
    (d : Stored)
    → ((file : StoredFile) × (d ≡ stored file)) ⊎ ((error : CaptureError) × (d ≡ refused error))
store_cases (stored file) = inl (file, refl)
store_cases (refused error) = inr (error, refl)

-- `atts` are the rows of `old` and others behind them
abbrev Extends : List Attachment → List Attachment → Type 0
Extends old atts = (new : List Attachment) × (atts ≡ old ++ new)

Extends-trans :
    (old mid atts : List Attachment) → Extends old mid → Extends mid atts → Extends old atts
Extends-trans old mid atts (new, e) (new', e') =
    (new ++ new', e' ∙ (ap (λ t. t ++ new') e ∙ append_assoc old new new'))

unknown_before :
    (id : ℕ) (old atts : List Attachment)
    → Extends old atts
    → any (is_attachment id) atts ≡ false
    → any (is_attachment id) old ≡ false
unknown_before id old atts (new, e) h =
    let whole : any (is_attachment id) old || any (is_attachment id) new ≡ false =
      sym (any-append (is_attachment id) old new) ∙ (sym (ap (any (is_attachment id)) e) ∙ h) in
    ground (arith, whole)

All-unknown_before :
    (ids : List ℕ) (old atts : List Attachment)
    → Extends old atts
    → All (λ id. any (is_attachment id) atts ≡ false) ids
    → All (λ id. any (is_attachment id) old ≡ false) ids
All-unknown_before [] old atts x h = tt
All-unknown_before (id ∷ ids) old atts x h =
    (unknown_before id old atts x h.0, All-unknown_before ids old atts x h.1)

-- the rows that a capture leaves, and the ids that it gives
IsAdded : List Attachment → Chat × List ℕ × List Failure × Bool → Type 0
IsAdded old r = Extends old r.0.attachments × All (λ id. any (is_attachment id) old ≡ false) r.1

after_link-chat : (chat : Chat) (done : Linked) → (after_link chat done).chat ≡ chat
unfolding after_link
after_link-chat chat no_charge = refl
after_link-chat chat integrity_error = refl
after_link-chat chat (link_done summary id n) = refl

module _ (u : Unicode) (sql : Engine) (disk : Disk) where
  persist_capture-Extends :
      (now : ℕ) (file : StoredFile) (name : Option Text) (message channel uploader : Text)
      (chat : Chat)
      → Extends chat.attachments
          (persist_capture sql now file name message channel uploader chat).0.attachments
  unfolding persist_capture
  persist_capture-Extends now file name message channel uploader chat =
      let row : DiscordMessage =
        received (sql.new_id (message_row_ids chat.messages)) name message channel uploader in
      elim (Option-cases (add_message row chat.messages)) [
        | inl e ↦ rw (e, persist_capture) ([], sym (append-nil chat.attachments))
        | inr (messages, e) ↦
            rw (e, persist_capture)
              (
                captured (sql.new_id (attachment_row_ids chat.attachments)) now file name message
                      uploader
                    ∷ [],
                refl,
              )
      ]

  persist_capture-id :
      (now : ℕ) (file : StoredFile) (name : Option Text) (message channel uploader : Text)
      (chat : Chat) (id : ℕ)
      → (persist_capture sql now file name message channel uploader chat).1 ≡ some id
      → any (is_attachment id) chat.attachments ≡ false
  unfolding persist_capture
  persist_capture-id now file name message channel uploader chat id h =
      let row : DiscordMessage =
        received (sql.new_id (message_row_ids chat.messages)) name message channel uploader in
      let fresh : any (is_attachment (sql.new_id (attachment_row_ids chat.attachments)))
            chat.attachments
          ≡ false =
        new_id_unknown sql chat.attachments in
      elim (Option-cases (add_message row chat.messages)) [
        | inl e ↦ ground (arith, e)
        | inr (messages, e) ↦
            let same : sql.new_id (attachment_row_ids chat.attachments) ≡ id = ground (arith, e) in
            subst (λ i. any (is_attachment i) chat.attachments ≡ false) same fresh
      ]

  -- one file whose bytes were stored, before the files behind it
  stored-IsAdded :
      (now : ℕ) (message : Message) (upload : Upload) (uploads : List Upload) (chat : Chat)
      (bytes : Text) (file : StoredFile)
      → upload.read ≡ downloaded bytes
      → store_receipt_bytes disk upload.images bytes (some upload.filename) (some upload.size)
        ≡ stored file
      → IsAdded
          (persist_capture sql now file
            (some upload.filename)
            message.id
            message.channel_id
            message.author_id
            chat).0.attachments
          (capture_files u sql disk now message uploads
            (persist_capture sql now file
              (some upload.filename)
              message.id
              message.channel_id
              message.author_id
              chat).0)
      → IsAdded chat.attachments (capture_files u sql disk now message (upload ∷ uploads) chat)
  unfolding capture_files IsAdded
  stored-IsAdded now message upload uploads chat bytes file e f rest =
      let r : Chat × Option ℕ =
        persist_capture sql now file (some upload.filename) message.id message.channel_id
          message.author_id chat in
      let grown : Extends chat.attachments r.0.attachments =
        persist_capture-Extends now file (some upload.filename) message.id message.channel_id
          message.author_id chat in
      elim (Option-cases r.1) [
        | inl g ↦ rw (e, f, g, capture_files) (grown, tt)
        | inr (id, g) ↦
            rw (e, f, g, capture_files)
              (
                Extends-trans chat.attachments r.0.attachments
                    (capture_files u sql disk now message uploads r.0).0.attachments grown rest.0,
                (
                  persist_capture-id now file (some upload.filename) message.id message.channel_id
                      message.author_id chat id g,
                  All-unknown_before (capture_files u sql disk now message uploads r.0).1
                      chat.attachments r.0.attachments grown rest.1,
                ),
              )
      ]

  capture_files-IsAdded :
      (now : ℕ) (message : Message) (uploads : List Upload) (chat : Chat)
      → IsAdded chat.attachments (capture_files u sql disk now message uploads chat)
  unfolding capture_files IsAdded
  capture_files-IsAdded now message [] chat = (([], sym (append-nil chat.attachments)), tt)
  capture_files-IsAdded now message (upload ∷ uploads) chat =
      let skipped : IsAdded chat.attachments (capture_files u sql disk now message uploads chat) =
        capture_files-IsAdded now message uploads chat in
      elim (data_cases upload.read) [
        | inr (error, e) ↦ rw (e, capture_files) (skipped.0, skipped.1)
        | inl (bytes, e) ↦
            elim (store_cases (
              store_receipt_bytes disk upload.images bytes (some upload.filename)
                (some upload.size))) [
                  | inr (error, f) ↦ rw (e, f, capture_files) (skipped.0, skipped.1)
                  | inl (file, f) ↦ stored-IsAdded now message upload uploads chat bytes file e f (
                      capture_files-IsAdded now message uploads
                        (persist_capture sql now file (some upload.filename) message.id
                          message.channel_id message.author_id chat).0)
                ]
      ]

  link-Extends :
      (now : ℕ) (ids : List ℕ) (short_code hint note : Text) (old : List Attachment) (chat : Chat)
      → Extends old chat.attachments
      → All (λ id. any (is_attachment id) old ≡ false) ids
      → Extends old (link_attachments u sql now ids short_code hint note chat).0.attachments
  unfolding link_attachments
  link-Extends now ids short_code hint note old chat (new, e) h =
      elim (Option-cases (find (has_code short_code) chat.transactions)) [
        | inl f ↦ (rw (f, link_attachments) (new, e))
        | inr (tx, f) ↦ elim (Bool-cases (breaks_photo_once tx.id ids chat.attachments)) [
          | inl b ↦ rw (link_raises u sql now ids short_code hint note chat tx f b) (new, e)
          | inr b ↦ (
            (assign_rows tx.id ids new).0,
            attachments_after u sql now ids short_code hint note chat tx f b
                ∙ (ap (λ atts. (assign_rows tx.id ids atts).0) e
                    ∙ assign_rows-append tx.id ids old new h),
          )
        ]
      ]

  pub link_captured-chat :
      (now : ℕ) (ids : List ℕ) (short hint note : Text) (chat : Chat)
      → (link_captured u sql now ids (some short) hint note chat).chat
        ≡ (link_attachments u sql now ids short hint note chat).0
  unfolding link_captured
  link_captured-chat now ids short hint note chat =
      let done = link_attachments u sql now ids short hint note chat in
      after_link-chat done.0 done.1

  link_captured-Extends :
      (now : ℕ) (ids : List ℕ) (short_code : Option Text) (hint note : Text) (old : List Attachment)
      (chat : Chat)
      → Extends old chat.attachments
      → All (λ id. any (is_attachment id) old ≡ false) ids
      → Extends old (link_captured u sql now ids short_code hint note chat).chat.attachments
  unfolding link_captured
  link_captured-Extends now ids none hint note old chat x h = x
  link_captured-Extends now ids (some short) hint note old chat x h =
      let linked : Extends old (link_attachments u sql now ids short hint note chat).0.attachments =
        link-Extends now ids short hint note old chat x h in
      rw (link_captured-chat now ids short hint note chat) linked

  prompt-chat :
      (config : ChannelConfig) (message : Message) (ids : List ℕ) (outcome : Resolved) (chat : Chat)
      → (prompt u config message ids outcome chat).chat ≡ chat
  unfolding prompt
  prompt-chat config message ids outcome chat = ground arith

  file_captured-Extends :
      (now : ℕ) (config : ChannelConfig) (message : Message) (ids : List ℕ) (outcome : Resolved)
      (method : MatchMethod) (old : List Attachment) (chat : Chat)
      → outcome.method ≡ method
      → Extends old chat.attachments
      → All (λ id. any (is_attachment id) old ≡ false) ids
      → Extends old (file_captured u sql now config message ids outcome chat).chat.attachments
  unfolding file_captured
  file_captured-Extends now config message ids outcome reply old chat e x h =
      rw (e, file_captured)
        (link_captured-Extends now ids outcome.short_code [] (user_note_of u message) old chat x h)
  file_captured-Extends now config message ids outcome code old chat e x h =
      rw (e, file_captured)
        (link_captured-Extends now ids outcome.short_code [] (user_note_of u message) old chat x h)
  file_captured-Extends now config message ids outcome sole_open old chat e x h =
      rw (e, file_captured)
        (link_captured-Extends now ids outcome.short_code sole_hint (user_note_of u message) old
          chat x h)
  file_captured-Extends now config message ids outcome ambiguous old chat e x h =
      rw (e, file_captured, prompt-chat config message ids outcome chat) x
  file_captured-Extends now config message ids outcome none_open old chat e x h =
      rw (e, file_captured, prompt-chat config message ids outcome chat) x

  module _ (when : ℕ → Text) where
    capture_message-Extends :
        (now : ℕ) (config : ChannelConfig) (message : Message) (chat : Chat)
        → Extends chat.attachments
            (capture_message u sql disk when now config message chat).chat.attachments
    unfolding capture_message finish_capture IsAdded
    capture_message-Extends now config message chat =
        let r : Chat × List ℕ × List Failure × Bool =
          capture_files u sql disk now message message.attachments chat in
        let added : IsAdded chat.attachments r =
          capture_files-IsAdded now message message.attachments chat in
        let outcome : Resolved =
          resolve_upload u sql disk when now message.reference message.content r.0 in
        elim (Bool-cases r.3) [
          | inl e ↦ rw (e, finish_capture) added.0
          | inr e ↦ elim (list_cases r.1) [
            | inl f ↦ rw (e, f, finish_capture) added.0
            | inr (id, ids, f) ↦
                rw (e, f, finish_capture)
                  (file_captured-Extends now config message r.1 outcome outcome.method
                    chat.attachments r.0 refl added.0 added.1)
          ]
        ]

    on_message-Extends :
        (now : ℕ) (config : ChannelConfig) (message : Message) (chat : Chat)
        → Extends chat.attachments
            (on_message u sql disk when now config message chat).chat.attachments
    unfolding on_message
    on_message-Extends now config message chat =
        let captured_rows : Extends chat.attachments
            (capture_message u sql disk when now config message chat).chat.attachments =
          capture_message-Extends now config message chat in
        let same : Extends chat.attachments chat.attachments =
          ([], sym (append-nil chat.attachments)) in
        elim (Bool-cases (message.is_bot || has_no_uploads message.attachments)) [
          | inl e ↦ rw (e, on_message) same
          | inr e ↦
              elim (Bool-cases (
                is_empty config.channel_id || not (text_eq message.channel_id config.channel_id))) [
                  | inl f ↦ rw (e, f, on_message) same
                  | inr f ↦
                      elim (Bool-cases (
                        not (has_no_ids config.allowed)
                        && not (any (text_eq message.author_id) config.allowed))) [
                          | inl g ↦ rw (e, f, g, on_message) same
                          | inr g ↦ rw (e, f, g, on_message) captured_rows
                        ]
                ]
        ]

    -- Whatever a message in the channel brings, the receipts that were captured before stay as they are,
    -- in their rows, with the charge that they are linked to.
    pub on_message-keeps_receipts :
        (now : ℕ) (config : ChannelConfig) (message : Message) (chat : Chat)
        → take
            (length chat.attachments)
            (on_message u sql disk when now config message chat).chat.attachments
          ≡ chat.attachments
    on_message-keeps_receipts now config message chat =
        let x : Extends chat.attachments
            (on_message u sql disk when now config message chat).chat.attachments =
          on_message-Extends now config message chat in
        ap (take (length chat.attachments)) x.1 ∙ take-append chat.attachments x.0
