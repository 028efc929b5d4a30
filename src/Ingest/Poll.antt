-- ===== src/Ingest/Poll.antt =====
-- The poll of app/services/ingest.py: `_read_poll_config`, `_save_poll_result`, `poll_once`, one round of
-- `poll_forever`, and `simulate_email`. `server` is that of Graph; `meanwhile` gives for each message the
-- rows that other writers commit while it is ingested.
use receipt_manager.Ingest.{
  skipped, MailParser, MailSettings, Inbox, Ingested, has_internet_id, ingest_message, ingest_batch,
  count_created,
}
use receipt_manager.Prelude.{
  inr, inl, Bool-cases, ℕ, ◌*◌, ◌^◌, ◌≡◌, refl, max, min, Bool, true, false, not, ◌&&◌, Option,
  none, some, List, [], ◌∷◌, ◌++◌, map, any, Text, codes, is_empty, if◌then◌else◌, All,
}
use receipt_manager.Engine.{Engine}
use receipt_manager.Unicode.{Unicode}
use receipt_manager.Models.{Transaction, RawEmail}
use receipt_manager.MerchantRules.{Search}
use receipt_manager.Graph.{
  GraphMessage, GraphCredentials, DeltaResult, GraphError, ok, error, expired, Server, validate,
  delta,
}

-- the settings that the poll reads and writes, next to the tables
pub record Mailbox : Type 0 where
  pub inbox : Inbox
  pub credentials : GraphCredentials
  pub folder_id : Text
  pub delta_link : Text
  pub poll_seconds : ℕ
  pub last_poll_at : Option ℕ
  pub last_mail_at : Option ℕ
  pub last_poll_error : Text

-- `sk.is_configured_for_graph` and the folder
unfoldable pub is_configured : Mailbox → Bool
is_configured box =
    (elim (validate box.credentials) [ none ↦ true | some e ↦ false ])
    && not (is_empty box.folder_id)

-- the cursor that `delta` gets: an empty one is None
unfoldable pub cursor : Mailbox → Option Text
cursor box = if is_empty box.delta_link then none else some box.delta_link

unfoldable pub save_poll_result : ℕ → Option Text → Bool → Text → Mailbox → Mailbox
save_poll_result now link saw_mail message box = record box {
  delta_link = elim link [
    | none ↦ box.delta_link
    | some text ↦ if is_empty text then box.delta_link else text
  ];
  last_poll_at = some now;
  last_poll_error = message;
  last_mail_at = if saw_mail then some now else box.last_mail_at;
}

abbrev pub has_mail : List GraphMessage → Bool
has_mail [] = false
has_mail (m ∷ ms) = true

-- how long `poll_forever` waits: the setting, or longer after failures
unfoldable pub wait_configured : ℕ → ℕ
wait_configured poll_seconds = max 5 poll_seconds

unfoldable pub wait_after_failure : ℕ → ℕ → ℕ
wait_after_failure interval failures = min (interval * 2 ^ min failures 5) 300

abbrev pub Meanwhile : Type 0
Meanwhile = GraphMessage → List RawEmail × List (List Transaction)

module _ (u : Unicode) (search : Search) (sql : Engine) (parser : MailParser)
    (settings : MailSettings) where
  -- what follows the fetch
  unfoldable pub take_messages : Meanwhile → ℕ → DeltaResult → Mailbox → Mailbox × ℕ
  take_messages meanwhile now result box =
      let batch : Inbox × ℕ =
        ingest_batch u search sql parser settings now
          (map (λ m. (m, (meanwhile m).0, (meanwhile m).1)) result.messages) box.inbox in
      (
        save_poll_result now result.delta_link (has_mail result.messages) []
            (record box { inbox = batch.0 }),
        batch.1,
      )

  -- `message` prints the error
  unfoldable pub poll_once :
      (GraphError → Text) → Server → ℕ → Text → Meanwhile → ℕ → Mailbox → Mailbox × ℕ
  poll_once message server fuel folder_url meanwhile now box =
      if not (is_configured box)
      then (box, 0)
      else (elim (delta server u now fuel folder_url (cursor box)) [
        | ok result ↦ take_messages meanwhile now result box
        | error e ↦ (save_poll_result now none false (message e) box, 0)
        | expired ↦ (box, 0)
      ])

  unfoldable pub simulate_email :
      (ℕ → Text)
      → List RawEmail
      → List (List Transaction)
      → ℕ
      → Text
      → Text
      → Text
      → Bool
      → Inbox
      → Inbox × Ingested
  simulate_email timestamp others rounds now sender subject body is_html inbox =
      let message : GraphMessage = record {
        graph_id = codes "simulated-" ++ timestamp now;
        internet_message_id =
            codes "<simulated-" ++ (timestamp now ++ codes "@receiptmanager.local>");
        subject = subject;
        sender = sender;
        received_at = now;
        body_html = if is_html then some body else none;
        body_text = if is_html then none else some body;
      } in
      ingest_message u search sql parser settings others rounds now message inbox

  skips_known :
      (others : List RawEmail) (rounds : List (List Transaction)) (now : ℕ) (m : GraphMessage)
      (inbox : Inbox)
      → any (has_internet_id m.internet_message_id) inbox.emails ≡ true
      → ingest_message u search sql parser settings others rounds now m inbox ≡ (inbox, skipped)
  unfolding ingest_message
  skips_known others rounds now m inbox h = rw (h, ingest_message) refl

  -- messages that the mailbox gave before
  known_again :
      (meanwhile : Meanwhile) (now : ℕ) (messages : List GraphMessage) (inbox : Inbox)
      → All (λ m. any (has_internet_id m.internet_message_id) inbox.emails ≡ true) messages
      → ingest_batch u search sql parser settings now
          (map (λ m. (m, (meanwhile m).0, (meanwhile m).1)) messages)
          inbox
        ≡ (inbox, 0)
  unfolding ingest_batch
  known_again meanwhile now [] inbox h = refl
  known_again meanwhile now (m ∷ messages) inbox h =
      rw
        (
          skips_known (meanwhile m).0 (meanwhile m).1 now m inbox h.0,
          known_again meanwhile now messages inbox h.1,
        )
        (unfold count_created in refl)

  -- A poll that replays only messages that are in the table, as after a cursor that Graph let expire, changes no
  -- table of charges, mails, jobs or log entries, and reports no new charge.
  pub poll_once-replay :
      (message : GraphError → Text) (server : Server) (fuel : ℕ) (folder_url : Text)
      (meanwhile : Meanwhile) (now : ℕ) (box : Mailbox) (result : DeltaResult)
      → delta server u now fuel folder_url (cursor box) ≡ ok result
      → All
          (λ m. any (has_internet_id m.internet_message_id) box.inbox.emails ≡ true)
          result.messages
      → ((poll_once message server fuel folder_url meanwhile now box).0.inbox ≡ box.inbox)
        × ((poll_once message server fuel folder_url meanwhile now box).1 ≡ 0)
  unfolding poll_once take_messages save_poll_result
  poll_once-replay message server fuel folder_url meanwhile now box result e h =
      elim (Bool-cases (is_configured box)) [
        | inr off ↦ rw (off, poll_once) (refl, refl)
        | inl on ↦
            rw (on, e, poll_once)
              (rw (known_again meanwhile now result.messages box.inbox h) (refl, refl))
      ]

  -- A poll that fails keeps the tables and the cursor, so the next one asks for the same messages.
  pub poll_once-failed :
      (message : GraphError → Text) (server : Server) (fuel : ℕ) (folder_url : Text)
      (meanwhile : Meanwhile) (now : ℕ) (box : Mailbox) (reason : GraphError)
      → delta server u now fuel folder_url (cursor box) ≡ error reason
      → let after = (poll_once message server fuel folder_url meanwhile now box).0 in
        (after.inbox ≡ box.inbox) × (after.delta_link ≡ box.delta_link)
  unfolding poll_once save_poll_result
  poll_once-failed message server fuel folder_url meanwhile now box reason e =
      elim (Bool-cases (is_configured box)) [
        | inr off ↦ rw (off, poll_once) (refl, refl)
        | inl on ↦ rw (on, e, poll_once) (refl, refl)
      ]
