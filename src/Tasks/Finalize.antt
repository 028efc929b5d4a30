-- ===== src/Tasks/Finalize.antt =====
-- `notify` and `finalize` of app/discordbot/tasks.py.
use receipt_manager.Prelude.{
  ℕ, ◌≡◌, refl, Bool, true, false, ◌&&◌, Option, none, some, List, [], ◌∷◌, find, any, Text, codes,
  inl, inr, ◌⊎◌, arith,
}
use receipt_manager.Engine.{Engine}
use receipt_manager.Unicode.{Unicode}
use receipt_manager.Models.{Transaction, Attachment, Payload}
use receipt_manager.Jobs.{raised}
use receipt_manager.Storage.{Disk, CaptureError, assert_durable}
use receipt_manager.Bot.{Chat, is_attachment}
use receipt_manager.Tasks.{
  Gateway, DiscordSettings, get, Gathered, gathered, undurable, add_source, is_linked_to, gather,
  not_durable, load_finalize, finalize,
}

-- the file of a row that is linked to the charge fails the last check
unfoldable pub fails : Disk → ℕ → Option Attachment → Bool
fails disk tx_id none = false
fails disk tx_id (some att) =
    is_linked_to tx_id att
    && (elim (assert_durable disk att.path att.sha256 att.size) [ none ↦ false | some _ ↦ true ])

abbrev pub is_unsafe : Disk → ℕ → List Attachment → ℕ → Bool
is_unsafe disk tx_id atts id = fails disk tx_id (find (is_attachment id) atts)

abbrev is_undurable : Gathered → Bool
is_undurable (undurable error) = true
is_undurable (gathered ids) = false

gathered_cases :
    (g : Gathered)
    → ((ids : List Text) × (g ≡ gathered ids)) ⊎ ((error : CaptureError) × (g ≡ undurable error))
gathered_cases (gathered ids) = inl (ids, refl)
gathered_cases (undurable error) = inr (error, refl)

gather_fails :
    (disk : Disk) (tx_id : ℕ) (atts : List Attachment) (ids : List ℕ)
    → any (is_unsafe disk tx_id atts) ids ≡ true
    → is_undurable (gather disk tx_id atts ids) ≡ true
unfolding gather add_source fails any
gather_fails disk tx_id atts [] h = cc
gather_fails disk tx_id atts (id ∷ ids) h = ground (arith, gather_fails disk tx_id atts ids)

refused_load :
    (u : Unicode) (disk : Disk) (tx_id : ℕ) (ids : List ℕ) (chat : Chat) (tx : Transaction)
    → get tx_id chat.transactions ≡ some tx
    → is_undurable (gather disk tx.id chat.attachments ids) ≡ true
    → (error : CaptureError) × (load_finalize u disk tx_id ids chat ≡ not_durable error)
unfolding load_finalize
refused_load u disk tx_id ids chat tx e h =
    elim (gathered_cases (gather disk tx.id chat.attachments ids)) [
      | inl (sources, g) ↦ ground (arith, h, g)
      | inr (error, g) ↦ (error, rw (e, g, load_finalize) refl)
    ]

-- Where the file of an attachment that the job names is linked to the charge and is not on disk as
-- it was stored, `finalize` raises, so that the job runs again, and does nothing else: no message is
-- posted, none is deleted and no table changes.
pub finalize_needs_files :
    (u : Unicode) (disk : Disk) (sql : Engine) (gateway : Gateway) (settings : DiscordSettings)
    (now : ℕ) (payload : Payload) (tx_id : ℕ) (chat : Chat) (tx : Transaction)
    → get tx_id chat.transactions ≡ some tx
    → any (is_unsafe disk tx.id chat.attachments) payload.attachment_ids ≡ true
    → finalize u disk sql gateway settings now payload tx_id chat
      ≡ (chat, [], raised (codes "CaptureError"))
unfolding finalize load_finalize
finalize_needs_files u disk sql gateway settings now payload tx_id chat tx e h =
    let (error, l) =
      refused_load u disk tx_id payload.attachment_ids chat tx e
        (gather_fails disk tx.id chat.attachments payload.attachment_ids h) in
    rw (l, finalize) refl
