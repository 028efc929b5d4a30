-- ===== src/Bot/Link.antt =====
-- `_persist_capture` and `_link_attachments` of app/discordbot/bot.py.
use receipt_manager.Prelude.{
  ◌∙◌, ap, sym, ℕ, ◌≡◌, refl, true, false, Option, none, some, List, [], ◌∷◌, ◌++◌, find, any,
  update_where, Text, ltb, if◌then◌else◌, Bool-cases, Option-cases, inl, inr, All, arith,
  text_eq_refl, any-append,
}
use receipt_manager.Bot.{
  codes, Job, assign_rows, breaks_photo_once, integrity_error, link_done, no_charge, Chat,
  is_message, add_message, persist_capture, received, message_row_ids, is_attachment, is_orphan,
  attach, is_free, link_rows, finalize_key, finalize_payload, link_attachments,
}
use receipt_manager.Engine.{Engine}
use receipt_manager.Unicode.{Unicode}
use receipt_manager.Models.{Transaction, Attachment, DiscordMessage}
use receipt_manager.Jobs.Shape.{IsWellFormed}
use receipt_manager.Jobs.Enqueue.{IsQueued, enqueue-IsQueued}
use receipt_manager.Shortcode.{has_code}
use receipt_manager.MerchantRules.{default_attempts}
use receipt_manager.Storage.{StoredFile}

module _ (tx_id : ℕ) where
  attach-not_free :
      (i id : ℕ) (atts : List Attachment)
      → is_free i atts ≡ false
      → is_free i (update_where (is_attachment id) (attach tx_id) atts) ≡ false
  unfolding is_free is_orphan is_attachment attach find update_where
  attach-not_free i id [] h = refl
  attach-not_free i id (att ∷ atts) h = ground (arith, attach-not_free i id atts)

  attach_self :
      (id : ℕ) (atts : List Attachment)
      → is_free id (update_where (is_attachment id) (attach tx_id) atts) ≡ false
  unfolding is_free is_orphan is_attachment attach find update_where
  attach_self id [] = refl
  attach_self id (att ∷ atts) = ground (arith, attach_self id atts)

  step_not_free :
      (i id : ℕ) (atts : List Attachment)
      → is_free i atts ≡ false
      → is_free i
          (if is_free id atts then update_where (is_attachment id) (attach tx_id) atts else atts)
        ≡ false
  step_not_free i id atts h = elim (Bool-cases (is_free id atts)) [
    | inl e ↦ rw e (attach-not_free i id atts h)
    | inr e ↦ rw e h
  ]

  step_self :
      (id : ℕ) (atts : List Attachment)
      → is_free id
          (if is_free id atts then update_where (is_attachment id) (attach tx_id) atts else atts)
        ≡ false
  step_self id atts = elim (Bool-cases (is_free id atts)) [
    | inl e ↦ rw e (attach_self id atts)
    | inr e ↦ rw e e
  ]

  rows_not_free :
      (i : ℕ) (ids : List ℕ) (atts : List Attachment)
      → is_free i atts ≡ false
      → is_free i (assign_rows tx_id ids atts).0 ≡ false
  unfolding assign_rows
  rows_not_free i [] atts h = h
  rows_not_free i (id ∷ ids) atts h = rows_not_free i ids _ (step_not_free i id atts h)

  rows_linked :
      (ids : List ℕ) (atts : List Attachment)
      → All (λ i. is_free i (assign_rows tx_id ids atts).0 ≡ false) ids
  unfolding assign_rows
  rows_linked [] atts = tt
  rows_linked (id ∷ ids) atts = (rows_not_free id ids _ (step_self id atts), rows_linked ids _)

  nothing_free :
      (ids : List ℕ) (atts : List Attachment)
      → All (λ i. is_free i atts ≡ false) ids
      → assign_rows tx_id ids atts ≡ (atts, 0)
  unfolding assign_rows
  nothing_free [] atts h = refl
  nothing_free (id ∷ ids) atts h = rw (h.0, nothing_free ids atts h.1) refl

  nothing_broken :
      (ids : List ℕ) (atts : List Attachment)
      → All (λ i. is_free i atts ≡ false) ids
      → breaks_photo_once tx_id ids atts ≡ false
  unfolding breaks_photo_once
  nothing_broken [] atts h = refl
  nothing_broken (id ∷ ids) atts h = rw (h.0, nothing_broken ids atts h.1) refl

not_gone : (summary : Text) (tx_id count : ℕ) → no_charge ≡ link_done summary tx_id count → ⊥
not_gone summary tx_id count h = cc

not_raised :
    (summary : Text) (tx_id count : ℕ) → integrity_error ≡ link_done summary tx_id count → ⊥
not_raised summary tx_id count h = cc

-- the job that finalizes the files of a charge is in the queue
abbrev pub IsFinalized : Engine → ℕ → ℕ → List ℕ → Text → Text → List Job → List Job → Type 0
IsFinalized sql now tx_id ids hint note =
    IsQueued sql now (codes "discord.finalize")
      (record {
        transaction_id = some tx_id;
        attachment_ids = ids;
        hint = hint;
        user_note = note;
        message_id = [];
        content = [];
      })
      (finalize_key tx_id ids) default_attempts

module _ (u : Unicode) (sql : Engine) where
  link_nothing :
      (now : ℕ) (ids : List ℕ) (code hint note : Text) (chat : Chat)
      → All (λ i. is_free i chat.attachments ≡ false) ids
      → (link_attachments u sql now ids code hint note chat).0 ≡ chat
  unfolding link_attachments link_rows
  link_nothing now ids code hint note chat h =
      elim (Option-cases (find (has_code code) chat.transactions)) [
        | inl e ↦ rw (e, link_attachments) refl
        | inr (tx, e) ↦
            rw
              (
                e,
                link_attachments,
                link_rows,
                nothing_broken tx.id ids chat.attachments h,
                nothing_free tx.id ids chat.attachments h,
              )
              refl
      ]

  pub attachments_after :
      (now : ℕ) (ids : List ℕ) (code hint note : Text) (chat : Chat) (tx : Transaction)
      → find (has_code code) chat.transactions ≡ some tx
      → breaks_photo_once tx.id ids chat.attachments ≡ false
      → (link_attachments u sql now ids code hint note chat).0.attachments
        ≡ (assign_rows tx.id ids chat.attachments).0
  unfolding link_attachments link_rows
  attachments_after now ids code hint note chat tx e b =
      elim (Bool-cases (ltb 0 (assign_rows tx.id ids chat.attachments).1)) [
        | inl f ↦ rw (e, link_attachments, link_rows, b, f) refl
        | inr f ↦ rw (e, link_attachments, link_rows, b, f) refl
      ]

  -- where a photo is on the charge already, nothing is written and the IntegrityError leaves the function
  pub link_raises :
      (now : ℕ) (ids : List ℕ) (code hint note : Text) (chat : Chat) (tx : Transaction)
      → find (has_code code) chat.transactions ≡ some tx
      → breaks_photo_once tx.id ids chat.attachments ≡ true
      → link_attachments u sql now ids code hint note chat ≡ (chat, integrity_error)
  unfolding link_attachments link_rows
  link_raises now ids code hint note chat tx e b = rw (e, link_attachments, link_rows, b) refl

  link_gone :
      (now : ℕ) (ids : List ℕ) (code hint note : Text) (chat : Chat)
      → find (has_code code) chat.transactions ≡ none
      → link_attachments u sql now ids code hint note chat ≡ (chat, no_charge)
  unfolding link_attachments
  link_gone now ids code hint note chat e = rw (e, link_attachments) refl

  -- Once files are linked to a charge, linking them again changes no table, whether to the same charge or to
  -- another: no receipt moves, no job and no log entry is added.
  pub link_again :
      (now later : ℕ) (ids : List ℕ) (code code' hint hint' note note' summary : Text)
      (tx_id count : ℕ) (chat : Chat)
      → (link_attachments u sql now ids code hint note chat).1 ≡ link_done summary tx_id count
      → let chat' = (link_attachments u sql now ids code hint note chat).0 in
        (link_attachments u sql later ids code' hint' note' chat').0 ≡ chat'
  link_again now later ids code code' hint hint' note note' summary tx_id count chat h =
      elim (Option-cases (find (has_code code) chat.transactions)) [
        | inl e ↦
            elim (not_gone summary tx_id count
              (sym (ap (λ r. r.1) (link_gone now ids code hint note chat e)) ∙ h)) [ ]
        | inr (tx, e) ↦ elim (Bool-cases (breaks_photo_once tx.id ids chat.attachments)) [
          | inl b ↦
              elim (not_raised summary tx_id count
                (sym (ap (λ r. r.1) (link_raises now ids code hint note chat tx e b)) ∙ h)) [ ]
          | inr b ↦
              link_nothing later ids code' hint' note'
                (link_attachments u sql now ids code hint note chat).0
                (rw (attachments_after now ids code hint note chat tx e b)
                  (rows_linked tx.id ids chat.attachments))
        ]
      ]

  -- Where a code names a charge, none of the files is a photo that is on it already and at least one file is
  -- linked to it, the queue of a well-formed job table has exactly one outstanding job under the key
  -- of these files: the one that was outstanding under it before, or else a new one to finalize these
  -- files of this charge.
  pub linked_job :
      (now : ℕ) (ids : List ℕ) (code hint note : Text) (chat : Chat) (tx : Transaction)
      → find (has_code code) chat.transactions ≡ some tx
      → breaks_photo_once tx.id ids chat.attachments ≡ false
      → ltb 0 (assign_rows tx.id ids chat.attachments).1 ≡ true
      → IsWellFormed chat.jobs
      → IsFinalized sql now tx.id ids hint note chat.jobs
          (link_attachments u sql now ids code hint note chat).0.jobs
  unfolding link_attachments link_rows finalize_payload
  linked_job now ids code hint note chat tx e b f h =
      rw (e, link_attachments, link_rows, b, f)
        (enqueue-IsQueued sql now (codes "discord.finalize") (finalize_payload tx.id ids hint note)
          (finalize_key tx.id ids) default_attempts chat.jobs h)

-- the message is known after a capture
Recorded : Text → Chat × Option ℕ → Type 0
Recorded id (chat, none) = Unit
Recorded id (chat, some i) = any (is_message id) chat.messages ≡ true

module _ (sql : Engine) where
  last_recorded :
      (m : DiscordMessage) (ms : List DiscordMessage)
      → any (is_message m.message_id) (ms ++ m ∷ []) ≡ true
  unfolding any is_message
  last_recorded m ms =
      rw (any-append (is_message m.message_id) ms (m ∷ []), text_eq_refl m.message_id)
        (ground arith)

  persist_capture-Recorded :
      (now : ℕ) (file : StoredFile) (name : Option Text) (message channel uploader : Text)
      (chat : Chat)
      → Recorded message (persist_capture sql now file name message channel uploader chat)
  unfolding persist_capture add_message received
  persist_capture-Recorded now file name message channel uploader chat =
      let row : DiscordMessage =
        received (sql.new_id (message_row_ids chat.messages)) name message channel uploader in
      elim (Bool-cases (any (is_message message) chat.messages)) [
        | inl e ↦ rw (e, persist_capture) (unfold Recorded in tt)
        | inr e ↦ rw (e, persist_capture) (unfold Recorded in last_recorded row chat.messages)
      ]

  refused_when-Recorded :
      (r : Chat × Option ℕ) (id now : ℕ) (file : StoredFile) (name : Option Text)
      (message channel uploader : Text)
      → r.1 ≡ some id
      → Recorded message r
      → persist_capture sql now file name message channel uploader r.0 ≡ (r.0, none)
  unfolding persist_capture add_message received Recorded
  refused_when-Recorded (chat, none) id now file name message channel uploader e h = cc
  refused_when-Recorded (chat, some i) id now file name message channel uploader e h =
      rw (h, persist_capture) refl

  -- Of the files of one Discord message only the first is recorded: after a capture, the capture of
  -- another file of the message violates the unique message id, and writes nothing.
  pub second_file_refused :
      (now later id : ℕ) (file file' : StoredFile) (name name' : Option Text)
      (message channel uploader : Text) (chat : Chat)
      → (persist_capture sql now file name message channel uploader chat).1 ≡ some id
      → let chat' = (persist_capture sql now file name message channel uploader chat).0 in
        persist_capture sql later file' name' message channel uploader chat' ≡ (chat', none)
  second_file_refused now later id file file' name name' message channel uploader chat e =
      refused_when-Recorded (persist_capture sql now file name message channel uploader chat) id
        later file' name' message channel uploader e
        (persist_capture-Recorded now file name message channel uploader chat)
