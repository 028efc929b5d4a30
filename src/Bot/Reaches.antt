-- ===== src/Bot/Reaches.antt =====
-- app/discordbot/bot.py from an upload to the job that finalizes it, where its charge is known.
use receipt_manager.Bot.Named.{resolve-IsNamed, named, hint_of}
use receipt_manager.Bot.NewFile.{find_linked, linked_once, breaks_new, new_row_linked}
use receipt_manager.Bot.Channel.{
  failure_reply, after_link, finish_capture, downloaded, Upload, Message, ChannelConfig, Handled,
  Resolved, resolve_upload, link_captured, file_captured, capture_files, capture_message,
  user_note_of,
}
use receipt_manager.Prelude.{
  ℕ, ◌≡◌, refl, ◌∙◌, ap, sym, subst, true, false, Option, none, some, List, [], ◌∷◌, ◌++◌, any,
  find, Text, ltb,
}
use receipt_manager.Bot.{
  breaks_photo_once, received, add_message, Chat, persist_capture, captured, link_attachments,
  assign_rows, is_attachment, attach, attachment_row_ids, is_message,
}
use receipt_manager.Bot.Link.{link_raises, IsFinalized, linked_job, attachments_after}
use receipt_manager.Bot.Receive.{
  link_captured-chat, assign_rows-append, captured_one, new_id_unknown,
}
use receipt_manager.Models.{has_photo, Transaction, Attachment}
use receipt_manager.Engine.{Engine}
use receipt_manager.Unicode.{Unicode}
use receipt_manager.Jobs.Shape.{IsWellFormed}
use receipt_manager.Shortcode.{has_code}
use receipt_manager.Matching.{
  MatchMethod, reply, code, sole_open, ambiguous, none_open, MatchResult, ask, resolve,
  needs_prompt,
}
use receipt_manager.Storage.{Disk, stored, StoredFile, store_receipt_bytes}

module _ (u : Unicode) (sql : Engine) (disk : Disk) (when : ℕ → Text) where
  -- the rows after an upload whose charge is known
  abbrev Reached : ℕ → ℕ → Attachment → Transaction → Text → Text → Chat → Handled → Type 0
  Reached now id row tx hint note before h =
      (find (is_attachment id) h.chat.attachments ≡ some (attach tx.id row))
      × IsFinalized sql now tx.id (id ∷ []) hint note before.jobs h.chat.jobs

  module _ (now : ℕ) (id : ℕ) (row : Attachment) (old : List Attachment) (chat : Chat)
      (tx : Transaction) (rows : chat.attachments ≡ old ++ row ∷ [])
      (unknown : any (is_attachment id) old ≡ false) (same : row.id ≡ id)
      (orphan : row.transaction_id ≡ none)
      (found : find (has_code tx.short_code) chat.transactions ≡ some tx) where
    breaks :
        breaks_photo_once tx.id (id ∷ []) chat.attachments ≡ any (has_photo tx.id row.sha256) old
    breaks =
        ap (breaks_photo_once tx.id (id ∷ [])) rows
        ∙ breaks_new tx.id id row old unknown same orphan

    -- linking the one new file
    link_new :
        (hint note : Text)
        → any (has_photo tx.id row.sha256) old ≡ false
        → IsWellFormed chat.jobs
        → Reached now id row tx hint note chat
            (link_captured u sql now (id ∷ []) (some tx.short_code) hint note chat)
    link_new hint note new_photo wf =
        let free : breaks_photo_once tx.id (id ∷ []) chat.attachments ≡ false =
          breaks ∙ new_photo in
        let linked : (link_attachments u sql now (id ∷ []) tx.short_code hint note
              chat).0.attachments
            ≡ old ++ attach tx.id row ∷ [] =
          attachments_after u sql now (id ∷ []) tx.short_code hint note chat tx found free
          ∙ (ap (λ atts. (assign_rows tx.id (id ∷ []) atts).0) rows
              ∙ (assign_rows-append tx.id (id ∷ []) old (row ∷ []) (unknown, tt)
                  ∙ ap (λ t. old ++ t) (new_row_linked tx.id id row same orphan))) in
        let once : ltb 0 (assign_rows tx.id (id ∷ []) chat.attachments).1 ≡ true =
          ap (λ atts. ltb 0 (assign_rows tx.id (id ∷ []) atts).1) rows
          ∙ linked_once tx.id id row old unknown same orphan in
        rw (link_captured-chat u sql disk now (id ∷ []) tx.short_code hint note chat) (
          ap (find (is_attachment id)) linked ∙ find_linked tx.id id row old unknown same,
          linked_job u sql now (id ∷ []) tx.short_code hint note chat tx found free once wf,
        )

    -- the same where its photo is on the charge
    link_doubled :
        (hint note : Text)
        → any (has_photo tx.id row.sha256) old ≡ true
        → link_captured u sql now (id ∷ []) (some tx.short_code) hint note chat
          ≡ record { chat = chat; replies = []; is_raised = true }
    unfolding link_captured after_link
    link_doubled hint note doubled =
        rw
          (link_raises u sql now (id ∷ []) tx.short_code hint note chat tx found (breaks ∙ doubled))
          refl

  file_captured-named :
      (now : ℕ) (config : ChannelConfig) (message : Message) (ids : List ℕ) (tx : Transaction)
      (outcome : Resolved) (method : MatchMethod) (chat : Chat)
      → outcome.method ≡ method
      → needs_prompt (ask method [] false) ≡ false
      → outcome.short_code ≡ some tx.short_code
      → file_captured u sql now config message ids outcome chat
        ≡ link_captured u sql now ids
            (some tx.short_code)
            (hint_of method)
            (user_note_of u message)
            chat
  unfolding file_captured needs_prompt
  file_captured-named now config message ids tx outcome reply chat e n s =
      rw (e, s, file_captured) refl
  file_captured-named now config message ids tx outcome code chat e n s =
      rw (e, s, file_captured) refl
  file_captured-named now config message ids tx outcome sole_open chat e n s =
      rw (e, s, file_captured) refl
  file_captured-named now config message ids tx outcome ambiguous chat e n s = cc
  file_captured-named now config message ids tx outcome none_open chat e n s = cc

  abbrev code_of : Option Transaction → Option Text
  code_of t = elim t [ none ↦ none | some tx ↦ some tx.short_code ]

  abbrev Persisted : ℕ → Message → Upload → StoredFile → Chat → Chat → Type 0
  Persisted now message upload file chat after =
      (after.attachments
        ≡ chat.attachments
          ++ captured (sql.new_id (attachment_row_ids chat.attachments)) now file
              (some upload.filename) message.id message.author_id
            ∷ [])
      × (after.transactions ≡ chat.transactions)
      × (after.jobs ≡ chat.jobs)

  persist_capture-Persisted :
      (now : ℕ) (message : Message) (upload : Upload) (file : StoredFile) (chat : Chat)
      → any (is_message message.id) chat.messages ≡ false
      → Persisted now message upload file chat
          (persist_capture sql now file
            (some upload.filename)
            message.id
            message.channel_id
            message.author_id
            chat).0
  unfolding persist_capture add_message received
  persist_capture-Persisted now message upload file chat g =
      rw (g, persist_capture, add_message) (refl, refl, refl)

  -- what `_capture_message` does with the one file that it stored
  capture_message-one :
      (now : ℕ) (config : ChannelConfig) (message : Message) (upload : Upload) (bytes : Text)
      (file : StoredFile) (chat : Chat)
      → message.attachments ≡ upload ∷ []
      → upload.read ≡ downloaded bytes
      → store_receipt_bytes disk upload.images bytes (some upload.filename) (some upload.size)
        ≡ stored file
      → any (is_message message.id) chat.messages ≡ false
      → let chat' =
          (persist_capture sql now file
            (some upload.filename)
            message.id
            message.channel_id
            message.author_id
            chat).0 in
        capture_message u sql disk when now config message chat
        ≡ file_captured u sql now config message
            (sql.new_id (attachment_row_ids chat.attachments) ∷ [])
            (resolve_upload u sql disk when now message.reference message.content chat')
            chat'
  unfolding capture_message finish_capture failure_reply
  capture_message-one now config message upload bytes file chat one e f g =
      let files : capture_files u sql disk now message message.attachments chat ≡ (
        (persist_capture sql now file (some upload.filename) message.id message.channel_id
            message.author_id chat).0,
        sql.new_id (attachment_row_ids chat.attachments) ∷ [],
        [],
        false,
      ) =
        ap (λ uploads. capture_files u sql disk now message uploads chat) one
        ∙ captured_one u sql disk now message upload bytes file chat e f g in
      ap (λ r. finish_capture u sql disk when now config message r) files

  -- what follows the capture of a message with one receipt
  module _ (now : ℕ) (config : ChannelConfig) (message : Message) (upload : Upload) (bytes : Text)
      (file : StoredFile) (tx : Transaction) (chat : Chat) where
    abbrev pub stored_chat : Chat
    stored_chat =
        (persist_capture sql now file (some upload.filename) message.id message.channel_id
          message.author_id chat).0

    abbrev pub chosen : MatchResult
    chosen =
        resolve u sql now stored_chat.messages stored_chat.transactions message.reference
          (some message.content)

    abbrev pub new_row : Attachment
    new_row =
        captured (sql.new_id (attachment_row_ids chat.attachments)) now file (some upload.filename)
          message.id message.author_id

    linked_at_end :
        message.attachments ≡ upload ∷ []
        → upload.read ≡ downloaded bytes
        → store_receipt_bytes disk upload.images bytes (some upload.filename) (some upload.size)
          ≡ stored file
        → any (is_message message.id) chat.messages ≡ false
        → chosen.transaction ≡ some tx
        → capture_message u sql disk when now config message chat
          ≡ link_captured u sql now
              (new_row.id ∷ [])
              (some tx.short_code)
              (hint_of chosen.method)
              (user_note_of u message)
              stored_chat
    unfolding captured
    linked_at_end one e f g h =
        let calm : needs_prompt chosen ≡ false =
          named chosen tx
            (resolve-IsNamed u sql now stored_chat.messages stored_chat.transactions
              message.reference (some message.content))
            h in
        capture_message-one now config message upload bytes file chat one e f g
        ∙ file_captured-named now config message (new_row.id ∷ []) tx
            (resolve_upload u sql disk when now message.reference message.content stored_chat)
            chosen.method stored_chat (unfold resolve_upload in refl) (unfold needs_prompt in calm)
            (unfold resolve_upload in ap code_of h)

    -- A message with one receipt that downloads, is stored, whose charge a reply, a code or the one open charge
    -- names, and whose photo is not on that charge yet: its new row is linked to the charge, and a
    -- well-formed queue has exactly one outstanding job under the key of the row: the one that was
    -- outstanding under it before, or else a new one to finalize this row of this charge, with the
    -- note of the message.
    pub capture_message-reaches :
        message.attachments ≡ upload ∷ []
        → upload.read ≡ downloaded bytes
        → store_receipt_bytes disk upload.images bytes (some upload.filename) (some upload.size)
          ≡ stored file
        → any (is_message message.id) chat.messages ≡ false
        → find (has_code tx.short_code) chat.transactions ≡ some tx
        → chosen.transaction ≡ some tx
        → any (has_photo tx.id file.sha256) chat.attachments ≡ false
        → IsWellFormed chat.jobs
        → let after = (capture_message u sql disk when now config message chat).chat in
          (find (is_attachment new_row.id) after.attachments ≡ some (attach tx.id new_row))
          × IsFinalized sql now tx.id
              (new_row.id ∷ [])
              (hint_of chosen.method)
              (user_note_of u message)
              chat.jobs
              after.jobs
    unfolding captured
    capture_message-reaches one e f g found h new_photo wf =
        let kept : Persisted now message upload file chat stored_chat =
          persist_capture-Persisted now message upload file chat g in
        rw (linked_at_end one e f g h) (
          subst
            (λ q.
              Reached now new_row.id new_row tx (hint_of chosen.method) (user_note_of u message)
                (record stored_chat { jobs = q })
                (link_captured u sql now (new_row.id ∷ []) (some tx.short_code)
                  (hint_of chosen.method) (user_note_of u message) stored_chat))
            kept.2
            (link_new now new_row.id new_row chat.attachments stored_chat tx kept.0
              (new_id_unknown sql chat.attachments) refl refl
              (ap (find (has_code tx.short_code)) kept.1 ∙ found) (hint_of chosen.method)
              (user_note_of u message) new_photo (subst IsWellFormed (sym kept.2) wf)))

    -- The same message where its photo is on the charge already: the link violates `uq_att_tx_sha`, so the row
    -- stays without a charge, no job is made, nothing is answered and the handler raises.
    pub capture_message-doubled :
        message.attachments ≡ upload ∷ []
        → upload.read ≡ downloaded bytes
        → store_receipt_bytes disk upload.images bytes (some upload.filename) (some upload.size)
          ≡ stored file
        → any (is_message message.id) chat.messages ≡ false
        → find (has_code tx.short_code) chat.transactions ≡ some tx
        → chosen.transaction ≡ some tx
        → any (has_photo tx.id file.sha256) chat.attachments ≡ true
        → let after = capture_message u sql disk when now config message chat in
          (after.chat.attachments ≡ chat.attachments ++ new_row ∷ [])
          × (after.chat.transactions ≡ chat.transactions)
          × (after.chat.jobs ≡ chat.jobs)
          × (after.replies ≡ [])
          × (after.is_raised ≡ true)
    unfolding captured
    capture_message-doubled one e f g found h doubled =
        let kept : Persisted now message upload file chat stored_chat =
          persist_capture-Persisted now message upload file chat g in
        rw
          (
            linked_at_end one e f g h,
            link_doubled now new_row.id new_row chat.attachments stored_chat tx kept.0
                (new_id_unknown sql chat.attachments) refl refl
                (ap (find (has_code tx.short_code)) kept.1 ∙ found) (hint_of chosen.method)
                (user_note_of u message) doubled,
          )
          (kept.0, kept.1, kept.2, refl, refl)
