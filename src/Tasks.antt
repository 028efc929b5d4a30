-- ===== src/Tasks.antt =====
-- app/discordbot/tasks.py: the handlers of the Discord jobs. `Gateway` is what they take from
-- discord.py. A handler returns the tables, what it did in the channel, in order, and the outcome
-- of its job. The proofs are in the modules below.
pub mod Finalize
pub mod Chunks
pub mod Digest
use receipt_manager.Prelude.{
  ℕ, ◌+◌, ◌-◌, ◌*◌, max, Bool, true, false, not, ◌&&◌, ◌||◌, Option, none, some, List, [], ◌∷◌,
  ◌++◌, map, take, any, find, keep, count_if, length, update_where, Text, codes, text_eq, str,
  is_empty, ltb, leb, ◌==◌, if◌then◌else◌,
}
use receipt_manager.Prelude.Sort.{sorted_by}
use receipt_manager.Engine.{Engine}
use receipt_manager.Unicode.{Unicode}
use receipt_manager.Models.{
  TransactionStatus, new, notified, lapsed, needs_attention, is_matchable, seconds, Transaction,
  Attachment, DiscordMessage, AuditLog, Payload,
}
use receipt_manager.Formatting.{money}
use receipt_manager.Jobs.{Outcome, returned, raised}
use receipt_manager.MerchantRules.{truthy}
use receipt_manager.Storage.{Disk, CaptureError, assert_durable}
use receipt_manager.Bot.{
  Chat, is_message, is_attachment, is_orphan, message_row_ids, render_summary,
}

pub data Deletion : Type 0 where
  deleted not_found forbidden http_error : Deletion

pub record Gateway : Type 0 where
  pub channel : Option Text  -- the id of the channel, or `none` for NotConnected
  pub send : Text → Option Text  -- the id of the new message, or `none` for an exception
  pub delete : Text → Deletion

-- a message that was sent, and one whose deletion was asked for
pub data Effect : Type 0 where
  sent : Text → Effect
  removed : Text → Effect

pub record DiscordSettings : Type 0 where
  pub delete_receipt : Bool
  pub delete_notify : Bool
  pub keep_confirmation : Bool
  pub digest_enabled : Bool
  pub lapse_hours : ℕ

unfoldable pub get : ℕ → List Transaction → Option Transaction
get id txs = find (λ tx. tx.id == id) txs

-- `"\n".join(lines)` and `" · ".join(parts)`
unfoldable pub join : Text → List Text → Text
join separator [] = []
join separator (line ∷ []) = line
join separator (line ∷ line' ∷ lines) = line ++ separator ++ join separator (line' ∷ lines)

unfoldable pub joined : List Text → Text
joined lines = join (10 ∷ []) lines

module _ (u : Unicode) (time_of : ℕ → Text) where
  -- `time_of` is `when(_, tz)` of app/formatting.py
  unfoldable pub render_notification : Transaction → Text
  render_notification tx =
      let card : List Text = elim tx.card_ending [
        | none ↦ []
        | some card ↦ if is_empty card then [] else (codes "Card ••" ++ card) ∷ []
      ] in
      let warning : List Text = elim tx.status [
        | needs_attention ↦
            (codes "⚠"
              ++ 65039 ∷ codes " _Could not parse this alert — check the raw email in the UI._")
            ∷ []
        | _ ↦ []
      ] in
      joined (
        (codes "**#"
            ++ tx.short_code
            ++ codes "** · **"
            ++ money u tx.amount_minor tx.currency
            ++ codes "** · "
            ++ tx.merchant)
          ∷ join (codes " · ") (card ++ time_of tx.occurred_at ∷ [])
          ∷ warning
        ++ []
          ∷ (codes "_Reply to this message with the receipt, or upload it with_ `#"
              ++ tx.short_code
              ++ codes "` _in the caption._")
          ∷ codes "_Anything else you type is saved as a note — who attended, what it was for._"
          ∷ [])

  unfoldable pub load_notification : ℕ → Chat → Option Text
  load_notification tx_id chat = elim (get tx_id chat.transactions) [
    | none ↦ none
    | some tx ↦ if truthy tx.notify_message_id then none else some (render_notification tx)
  ]

unfoldable pub out_message : ℕ → Text → Text → Text → ℕ → DiscordMessage
out_message id message_id channel_id kind tx_id = record {
  id = id;
  message_id = message_id;
  channel_id = channel_id;
  direction = codes "out";
  kind = kind;
  transaction_id = some tx_id;
  author_id = none;
  content = none;
  deleted_at = none;
}

unfoldable pub status_after_notify : TransactionStatus → TransactionStatus
status_after_notify new = notified
status_after_notify s = s

unfoldable pub mark_notified : ℕ → Text → Transaction → Transaction
mark_notified now message_id tx = record tx {
  notify_message_id = some message_id;
  notified_at = some now;
  status = status_after_notify tx.status;
}

-- a new message of Discord has a new id, so the unique constraint holds
unfoldable pub add_out : Engine → Text → Text → Text → ℕ → List DiscordMessage → List DiscordMessage
add_out sql message_id channel_id kind tx_id messages =
    messages
    ++ out_message (sql.new_id (message_row_ids messages)) message_id channel_id kind tx_id ∷ []

unfoldable pub record_notification : Engine → ℕ → ℕ → Text → Text → Chat → Chat
record_notification sql now tx_id message_id channel_id chat = elim (get tx_id chat.transactions) [
  | none ↦ chat
  | some tx ↦ record chat {
    transactions =
        update_where (λ t. t.id == tx_id) (mark_notified now message_id) chat.transactions;
    messages = add_out sql message_id channel_id (codes "notify") tx.id chat.messages;
  }
]

unfoldable pub notify :
    Unicode → (ℕ → Text) → Engine → Gateway → ℕ → ℕ → Chat → Chat × List Effect × Outcome
notify u time_of sql gateway now tx_id chat = elim (load_notification u time_of tx_id chat) [
  | none ↦ (chat, [], returned)
  | some content ↦ elim gateway.channel [
    | none ↦ (chat, [], raised (codes "NotConnected"))
    | some channel_id ↦ elim (gateway.send content) [
      | none ↦ (chat, [], raised (codes "HTTPException"))
      | some message_id ↦ (
        record_notification sql now tx_id message_id channel_id chat,
        sent content ∷ [],
        returned,
      )
    ]
  ]
]

pub record ToFinalize : Type 0 where
  pub summary : Text
  pub notify_message_id : Option Text
  pub receipt_message_ids : List Text

pub data Gathered : Type 0 where
  gathered : List Text → Gathered
  undurable : CaptureError → Gathered

-- `set.add`
unfoldable pub add_once : Text → List Text → List Text
add_once x xs = if any (text_eq x) xs then xs else x ∷ xs

unfoldable pub add_source : Option Text → Gathered → Gathered
add_source id (undurable error) = undurable error
add_source none (gathered ids) = gathered ids
add_source (some id) (gathered ids) =
    if is_empty id then gathered ids else gathered (add_once id ids)

-- `att.transaction_id == tx.id`
unfoldable pub is_linked_to : ℕ → Attachment → Bool
is_linked_to tx_id att = elim att.transaction_id [ none ↦ false | some i ↦ i == tx_id ]

-- the loop of `_load_finalize`. A set has no order, so the ids are added from the last.
unfoldable pub gather : Disk → ℕ → List Attachment → List ℕ → Gathered
gather disk tx_id atts [] = gathered []
gather disk tx_id atts (id ∷ ids) =
    let rest = gather disk tx_id atts ids in
    elim (find (is_attachment id) atts) [
      | none ↦ rest
      | some att ↦
          if not (is_linked_to tx_id att)
          then rest
          else elim (assert_durable disk att.path att.sha256 att.size) [
            | some error ↦ undurable error
            | none ↦ add_source att.source_message_id rest
          ]
    ]

-- the order of two texts by their code points
unfoldable pub text_leb : Text → Text → Bool
text_leb [] t = true
text_leb (c ∷ s) [] = false
text_leb (c ∷ s) (d ∷ t) = let rest = text_leb s t in ltb c d || (c == d && rest)

pub data Loaded : Type 0 where
  no_charge : Loaded
  not_durable : CaptureError → Loaded
  loaded : ToFinalize → Loaded

unfoldable pub load_finalize : Unicode → Disk → ℕ → List ℕ → Chat → Loaded
load_finalize u disk tx_id ids chat = elim (get tx_id chat.transactions) [
  | none ↦ no_charge
  | some tx ↦ elim (gather disk tx.id chat.attachments ids) [
    | undurable error ↦ not_durable error
    | gathered sources ↦ loaded (record {
      summary = render_summary u tx;
      notify_message_id = tx.notify_message_id;
      receipt_message_ids = sorted_by text_leb sources;
    })
  ]
]

unfoldable pub mark_message : ℕ → Text → List DiscordMessage → List DiscordMessage
mark_message now id messages =
    update_where (is_message id) (λ m. record m { deleted_at = some now }) messages

unfoldable pub mark_messages : ℕ → List Text → List DiscordMessage → List DiscordMessage
mark_messages now [] messages = messages
mark_messages now (id ∷ ids) messages = mark_messages now ids (mark_message now id messages)

unfoldable pub mark_sources : List ℕ → List Attachment → List Attachment
mark_sources ids atts =
    update_where (λ att. any (λ i. i == att.id) ids) (λ att. record att { source_deleted = true })
      atts

unfoldable pub mark_deleted : ℕ → List Text → List ℕ → Chat → Chat
mark_deleted now message_ids ids chat = record chat {
  messages = mark_messages now message_ids chat.messages;
  attachments = mark_sources ids chat.attachments;
}

unfoldable pub record_confirmation : Engine → ℕ → Text → Text → Chat → Chat
record_confirmation sql tx_id message_id channel_id chat = record chat {
  messages = add_out sql message_id channel_id (codes "confirm") tx_id chat.messages;
  audit =
      chat.audit
      ++ record {
        actor = codes "discord";
        action = codes "receipt.finalized";
        entity = some (codes "transaction");
        entity_id = some (str tx_id);
        detail = none;
      }
        ∷ [];
}

-- the ids that `delete` did away with
unfoldable pub is_gone : Deletion → Bool
is_gone deleted = true
is_gone not_found = true
is_gone forbidden = false
is_gone http_error = false

-- the truth value of a list
abbrev pub has_rows {ℓ} : {A : Type ℓ} → List A → Bool
has_rows [] = false
has_rows (x ∷ xs) = true

-- the characters at which `str.splitlines` cuts
unfoldable pub is_line_break : ℕ → Bool
is_line_break c =
    (leb 10 c && leb c 13) || (leb 28 c && leb c 30) || c == 133 || c == 8232 || c == 8233

-- `user_note.splitlines()[0]`
unfoldable pub first_line : Text → Text
first_line [] = []
first_line (c ∷ s) = let rest = first_line s in if is_line_break c then [] else c ∷ rest

unfoldable pub confirmation : ToFinalize → Text → Text → Text
confirmation found user_note hint =
    codes "✅ "
    ++ found.summary
    ++ codes " — receipt stored"
    ++ (if is_empty user_note then [] else 10 ∷ codes "📝 " ++ take 200 (first_line user_note))
    ++ (if is_empty hint then [] else 10 ∷ hint)

unfoldable pub to_delete : DiscordSettings → ToFinalize → List Text
to_delete settings found =
    (if settings.delete_receipt then found.receipt_message_ids else [])
    ++ (elim found.notify_message_id [
      | none ↦ []
      | some id ↦ if settings.delete_notify && not (is_empty id) then id ∷ [] else []
    ])

-- what follows the confirmation
unfoldable pub delete_messages :
    Gateway → ℕ → List Text → List ℕ → List Effect → Chat → Chat × List Effect × Outcome
delete_messages gateway now message_ids ids effects chat =
    let gone = keep (λ id. is_gone (gateway.delete id)) message_ids in
    (
      if has_rows gone then mark_deleted now gone ids chat else chat,
      effects ++ map removed message_ids,
      returned,
    )

unfoldable pub finalize :
    Unicode
    → Disk
    → Engine
    → Gateway
    → DiscordSettings
    → ℕ
    → Payload
    → ℕ
    → Chat
    → Chat × List Effect × Outcome
finalize u disk sql gateway settings now payload tx_id chat =
    let ids = payload.attachment_ids in
    elim (load_finalize u disk tx_id ids chat) [
      | no_charge ↦ (chat, [], returned)
      | not_durable error ↦ (chat, [], raised (codes "CaptureError"))
      | loaded found ↦ elim gateway.channel [
        | none ↦ (chat, [], raised (codes "NotConnected"))
        | some channel_id ↦
            if settings.keep_confirmation
            then (let text = confirmation found payload.user_note payload.hint in
                elim (gateway.send text) [
                  | none ↦ (chat, [], raised (codes "HTTPException"))
                  | some message_id ↦
                      delete_messages gateway now (to_delete settings found) ids (sent text ∷ [])
                        (record_confirmation sql tx_id message_id channel_id chat)
                ])
            else delete_messages gateway now (to_delete settings found) ids [] chat
      ]
    ]

-- the handler `discord.delete_message`; where the id is empty, nothing is done
unfoldable pub delete_message : Gateway → Text → List Effect × Outcome
delete_message gateway id = if is_empty id then ([], returned) else elim gateway.channel [
  | none ↦ ([], raised (codes "NotConnected"))
  | some _ ↦ (
    removed id ∷ [],
    elim (gateway.delete id) [ http_error ↦ raised (codes "HTTPException") | _ ↦ returned ],
  )
]
