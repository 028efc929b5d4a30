-- ===== src/Bot/Channel.antt =====
-- The handlers of app/discordbot/bot.py for a message in the channel and for the picker. An upload
-- carries what discord.py and the storage of its file give; a reply is what it tells, its wording is
-- left out.
use receipt_manager.Prelude.{
  ℕ, ◌*◌, Bool, true, false, not, ◌&&◌, ◌||◌, Option, none, some, List, [], ◌∷◌, ◌++◌, map, take,
  any, Text, codes, text_eq, is_empty, if◌then◌else◌,
}
use receipt_manager.Engine.{Engine}
use receipt_manager.Unicode.{Unicode}
use receipt_manager.Shortcode.{strip_codes}
use receipt_manager.Matching.{MatchMethod, reply, code, sole_open, ambiguous, none_open, resolve}
use receipt_manager.Storage.{Disk, Images, CaptureError, stored, refused, store_receipt_bytes}
use receipt_manager.Bot.{
  Linked, no_charge, integrity_error, link_done, Chat, persist_capture, link_attachments,
  render_option_label,
}

pub data Download : Type 0 where
  downloaded : Text → Download
  not_downloaded : Text → Download  -- a discord.HTTPException or NotFound

-- a discord.Attachment; `images` is closed over the name that its file is stored under
pub record Upload : Type 0 where
  pub filename : Text
  pub size : ℕ
  pub read : Download
  pub images : Images

pub record Message : Type 0 where
  pub id : Text
  pub channel_id : Text
  pub author_id : Text
  pub is_bot : Bool
  pub content : Text
  pub reference : Option Text  -- the id of the message that it replies to
  pub attachments : List Upload

pub record ChannelConfig : Type 0 where
  pub channel_id : Text
  pub allowed : List Text
  pub timeout_min : ℕ

pub data Failure : Type 0 where
  download_failed : Text → Text → Failure
  not_stored : Text → CaptureError → Failure

pub record Picker : Type 0 where
  pub attachment_ids : List ℕ
  pub options : List (Text × Text × Text)
  pub uploader_id : Text
  pub timeout_seconds : ℕ
  pub truncated : Bool
  pub prompt_recent : Bool
  pub user_note : Text

pub data Reply : Type 0 where
  not_authorized : Text → Reply
  could_not_store : List Failure → Reply
  charge_gone : Reply
  nothing_to_match : Reply
  which_charge : Picker → Reply

-- the tables, the replies in order, and whether the handler raised
pub record Handled : Type 0 where
  pub chat : Chat
  pub replies : List Reply
  pub is_raised : Bool

-- what `_resolve_upload` returns; a candidate is its code, its label and its time
pub record Resolved : Type 0 where
  pub method : MatchMethod
  pub truncated : Bool
  pub candidates : List (Text × Text × Text)
  pub short_code : Option Text

abbrev pub handled : Chat → List Reply → Handled
handled chat replies = record { chat = chat; replies = replies; is_raised = false }

abbrev pub orphan_choice : Text
orphan_choice = codes "__orphan__"

-- the answer to a choice in the picker
pub data Answer : Type 0 where
  not_yours : Answer
  held : Answer
  not_found : Text → Answer
  attached : Answer
  no_answer : Answer  -- the callback raised

abbrev pub has_no_uploads : List Upload → Bool
has_no_uploads [] = true
has_no_uploads (x ∷ xs) = false

abbrev pub has_no_ids : List Text → Bool
has_no_ids [] = true
has_no_ids (x ∷ xs) = false

abbrev pub sole_hint : Text
sole_hint = codes "_(only one charge was awaiting a receipt — reply with_ `#code` _to correct)_"

abbrev pub has_none : List (Text × Text × Text) → Bool
has_none [] = true
has_none (c ∷ cs) = false

unfoldable pub picker_options : List (Text × Text × Text) → List (Text × Text × Text)
picker_options candidates = take 25 (
    map (λ c. (c.0, c.1, take 100 c.2)) candidates
    ++ (
      orphan_choice,
      codes "None of these — hold for later",
      codes "Keep it in the orphan queue and assign it from the web UI",
    )
      ∷ [])

unfoldable pub make_picker : ChannelConfig → Message → List ℕ → Resolved → Text → Picker
make_picker config message ids outcome user_note = record {
  attachment_ids = ids;
  options = picker_options outcome.candidates;
  uploader_id = message.author_id;
  timeout_seconds = config.timeout_min * 60;
  truncated = outcome.truncated;
  prompt_recent = elim outcome.method [ none_open ↦ true | _ ↦ false ];
  user_note = user_note;
}

unfoldable pub failure_reply : List Failure → List Reply
failure_reply [] = []
failure_reply (f ∷ fs) = could_not_store (f ∷ fs) ∷ []

unfoldable pub user_note_of : Unicode → Message → Text
user_note_of u message = take 2000 (strip_codes u message.content)

unfoldable pub prompt : Unicode → ChannelConfig → Message → List ℕ → Resolved → Chat → Handled
prompt u config message ids outcome chat =
    if has_none outcome.candidates
    then handled chat (nothing_to_match ∷ [])
    else handled chat
        (which_charge (make_picker config message ids outcome (user_note_of u message)) ∷ [])

-- an IntegrityError leaves `_capture_message`
unfoldable pub after_link : Chat → Linked → Handled
after_link chat no_charge = handled chat (charge_gone ∷ [])
after_link chat integrity_error = record { chat = chat; replies = []; is_raised = true }
after_link chat (link_done summary id n) = handled chat []

module _ (u : Unicode) (sql : Engine) where
  -- `interaction_check`, then `_on_select`
  unfoldable pub on_select : ℕ → Picker → Text → Text → Chat → Chat × Answer
  on_select now picker user choice chat =
      let done = link_attachments u sql now picker.attachment_ids choice [] picker.user_note chat in
      if not (text_eq user picker.uploader_id)
      then (chat, not_yours)
      else if text_eq choice orphan_choice
      then (chat, held)
      else (elim done.1 [
        | no_charge ↦ (done.0, not_found choice)
        | integrity_error ↦ (done.0, no_answer)
        | link_done summary id n ↦ (done.0, attached)
      ])

  unfoldable pub link_captured : ℕ → List ℕ → Option Text → Text → Text → Chat → Handled
  link_captured now ids none hint user_note chat = handled chat (charge_gone ∷ [])
  link_captured now ids (some short_code) hint user_note chat =
      let done = link_attachments u sql now ids short_code hint user_note chat in
      after_link done.0 done.1

  -- the end of `_capture_message`
  unfoldable pub file_captured : ℕ → ChannelConfig → Message → List ℕ → Resolved → Chat → Handled
  file_captured now config message ids outcome chat = elim outcome.method [
    | reply ↦ link_captured now ids outcome.short_code [] (user_note_of u message) chat
    | code ↦ link_captured now ids outcome.short_code [] (user_note_of u message) chat
    | sole_open ↦ link_captured now ids outcome.short_code sole_hint (user_note_of u message) chat
    | ambiguous ↦ prompt u config message ids outcome chat
    | none_open ↦ prompt u config message ids outcome chat
  ]

  module _ (disk : Disk) where
    -- the loop over the attachments: the tables, the ids, the failures, and whether it raised
    unfoldable pub capture_files :
        ℕ → Message → List Upload → Chat → Chat × List ℕ × List Failure × Bool
    capture_files now message [] chat = (chat, [], [], false)
    capture_files now message (upload ∷ uploads) chat =
        let failed : Failure → Chat × List ℕ × List Failure × Bool = λ failure.
          (let rest = capture_files now message uploads chat in
            (rest.0, rest.1, failure ∷ rest.2, rest.3)) in
        elim upload.read [
          | not_downloaded error ↦ failed (download_failed upload.filename error)
          | downloaded bytes ↦
              elim (store_receipt_bytes disk upload.images bytes (some upload.filename)
                (some upload.size)) [
                  | refused error ↦ failed (not_stored upload.filename error)
                  | stored file ↦
                      let captured =
                        persist_capture sql now file (some upload.filename) message.id
                          message.channel_id message.author_id chat in
                      let rest = capture_files now message uploads captured.0 in
                      elim captured.1 [
                        | none ↦ (captured.0, [], [], true)
                        | some id ↦ (rest.0, id ∷ rest.1, rest.2, rest.3)
                      ]
                ]
        ]

  module _ (disk : Disk) (when : ℕ → Text) where
    unfoldable pub resolve_upload : ℕ → Option Text → Text → Chat → Resolved
    resolve_upload now referenced text chat =
        let result = resolve u sql now chat.messages chat.transactions referenced (some text) in
        record {
          method = result.method;
          truncated = result.truncated;
          candidates =
              map (λ tx. (tx.short_code, render_option_label u tx, when tx.occurred_at))
                result.candidates;
          short_code = elim result.transaction [ none ↦ none | some tx ↦ some tx.short_code ];
        }

    -- what follows the loop of `_capture_message`
    unfoldable pub finish_capture :
        ℕ → ChannelConfig → Message → Chat × List ℕ × List Failure × Bool → Handled
    finish_capture now config message captured =
        let replies = failure_reply captured.2 in
        let outcome = resolve_upload now message.reference message.content captured.0 in
        let filed = file_captured now config message captured.1 outcome captured.0 in
        if captured.3
        then record { chat = captured.0; replies = []; is_raised = true }
        else (elim captured.1 [
          | [] ↦ handled captured.0 replies
          | id ∷ ids ↦ record {
            chat = filed.chat;
            replies = replies ++ filed.replies;
            is_raised = filed.is_raised;
          }
        ])

    unfoldable pub capture_message : ℕ → ChannelConfig → Message → Chat → Handled
    capture_message now config message chat =
        finish_capture now config message (capture_files disk now message message.attachments chat)

    unfoldable pub on_message : ℕ → ChannelConfig → Message → Chat → Handled
    on_message now config message chat =
        if message.is_bot || has_no_uploads message.attachments
        then handled chat []
        else if is_empty config.channel_id || not (text_eq message.channel_id config.channel_id)
        then handled chat []
        else if not (has_no_ids config.allowed)
            && not (any (text_eq message.author_id) config.allowed)
        then handled chat (not_authorized message.author_id ∷ [])
        else capture_message now config message chat
