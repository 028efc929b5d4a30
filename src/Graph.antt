-- ===== src/Graph.antt =====
-- app/services/graph.py: what the mailbox gives. `Server` stands for Microsoft Graph behind httpx and
-- msal: what it answers may depend on how many requests came before. JSON is read up to the fields that
-- the code looks at, and the time of a mail up to `fromisoformat`.
pub mod Delta
use receipt_manager.Prelude.{
  ◌-◌, ℕ, zero, suc, ◌+◌, ◌*◌, ◌^◌, min, Bool, true, false, not, ◌&&◌, ◌||◌, Option, none, some,
  List, [], ◌∷◌, ◌++◌, Text, codes, text_eq, is_empty, str, take, leb, ◌==◌, if◌then◌else◌,
}
use receipt_manager.Prelude.Sort.{sorted_by}
use receipt_manager.Unicode.{Unicode}

pub record GraphMessage : Type 0 where
  pub graph_id : Text
  pub internet_message_id : Text
  pub subject : Text
  pub sender : Text
  pub received_at : ℕ
  pub body_html : Option Text
  pub body_text : Option Text

pub record DeltaResult : Type 0 where
  pub messages : List GraphMessage
  pub delta_link : Option Text
  pub resynced : Bool

pub record GraphCredentials : Type 0 where
  pub tenant_id : Text
  pub client_id : Text
  pub client_secret : Text
  pub mailbox : Text

-- what `_to_message` reads; `received` is none for a text that is no time
pub record MessageData : Type 0 where
  pub id : Text
  pub internet_message_id : Option Text
  pub subject : Option Text
  pub address : Option Text
  pub received : Option ℕ
  pub content_type : Text
  pub content : Option Text

-- an item of a page: its id, empty for none, and whether it has `@removed`
pub record Page : Type 0 where
  pub items : List (Text × Bool)
  pub next_link : Option Text
  pub delta_link : Option Text

pub data Attempt {ℓ} (A : Type ℓ) : Type ℓ where
  no_token : Text → Attempt A  -- a GraphAuthError of `_token`
  transport_error : Text → Attempt A  -- an httpx.HTTPError
  answered : ℕ → Option ℕ → Text → A → Attempt A  -- the status, Retry-After, the text, the JSON

pub data GraphError : Type 0 where
  not_configured : GraphError
  auth_failed : Text → GraphError
  rejected : ℕ → Text → GraphError
  graph_status : ℕ → Text → GraphError
  gave_up : ℕ → GraphError
  expired_full_sync : GraphError
  too_many_pages : GraphError  -- the model's own: the fuel of `read_pages` is used up

pub data Outcome {ℓ} (A : Type ℓ) : Type ℓ where
  ok : A → Outcome A
  error : GraphError → Outcome A
  expired : Outcome A  -- _DeltaExpired

pub record Server : Type 0 where
  pub page_at : Text → ℕ → Attempt Page
  pub message_at : Text → ℕ → Attempt MessageData

-- `creds.validate()`
unfoldable pub validate : GraphCredentials → Option GraphError
validate creds =
    if is_empty creds.tenant_id
      || is_empty creds.client_id
      || is_empty creds.client_secret
      || is_empty creds.mailbox
    then some not_configured
    else none

-- how long `_request` sleeps before the next attempt
unfoldable pub retry_delay : ℕ → Option ℕ → ℕ
retry_delay attempt none = min (2 ^ attempt) 60
retry_delay attempt (some seconds) = min seconds 60

unfoldable pub is_throttled : ℕ → Bool
is_throttled status = status == 429 || status == 503 || status == 504

-- the answer, the number of requests so far, and the seconds slept
abbrev pub Asked {ℓ} : Type ℓ → Type ℓ
Asked A = Outcome A × ℕ × ℕ

unfoldable pub request_from {ℓ} : {A : Type ℓ} → (ℕ → Attempt A) → ℕ → ℕ → ℕ → Asked A
request_from ask attempts zero clock = (error (gave_up attempts), clock, 0)
request_from ask attempts (suc left) clock =
    let attempt = attempts - suc left in
    let rest = request_from ask attempts left (clock + 1) in
    elim (ask clock) [
      | no_token text ↦ (error (auth_failed text), clock + 1, 0)
      | transport_error text ↦ (rest.0, rest.1, min (2 ^ attempt) 30 + rest.2)
      | answered status retry_after text body ↦
          if is_throttled status
          then (rest.0, rest.1, retry_delay attempt retry_after + rest.2)
          else if status == 401 || status == 403
          then (error (rejected status (take 400 text)), clock + 1, 0)
          else if status == 410
          then (expired, clock + 1, 0)
          else if leb 400 status
          then (error (graph_status status (take 400 text)), clock + 1, 0)
          else (ok body, clock + 1, 0)
    ]

-- `_request`, with its four attempts
unfoldable pub request {ℓ} : {A : Type ℓ} → (ℕ → Attempt A) → ℕ → Asked A
request ask clock = request_from ask 4 4 clock

-- `value or ""`
abbrev pub text_or : Option Text → Text
text_or none = []
text_or (some s) = s

unfoldable pub to_message : Unicode → ℕ → MessageData → GraphMessage
to_message u now item =
    let is_html = text_eq (u.lower item.content_type) (codes "html") in
    record {
      graph_id = item.id;
      internet_message_id =
          if is_empty (text_or item.internet_message_id)
          then codes "graph:" ++ item.id
          else text_or item.internet_message_id;
      subject = text_or item.subject;
      sender = text_or item.address;
      received_at = elim item.received [ none ↦ now | some at ↦ at ];
      body_html = if is_html then item.content else none;
      body_text = if is_html then none else item.content;
    }

-- the ids that a page adds
unfoldable pub new_ids : List (Text × Bool) → List Text
new_ids [] = []
new_ids ((id, is_removed) ∷ items) =
    let rest = new_ids items in if is_removed || is_empty id then rest else id ∷ rest

unfoldable pub received_before : GraphMessage → GraphMessage → Bool
received_before a b = leb a.received_at b.received_at

module _ (server : Server) where
  -- the `while True` of `delta`: the ids in order, and the new delta link
  unfoldable pub read_pages : ℕ → Text → ℕ → Asked (List Text × Option Text)
  read_pages zero url clock = (error too_many_pages, clock, 0)
  read_pages (suc fuel) url clock =
      let asked : Asked Page = request (server.page_at url) clock in
      elim asked.0 [
        | error e ↦ (error e, asked.1, asked.2)
        | expired ↦ (expired, asked.1, asked.2)
        | ok page ↦ elim page.next_link [
          | none ↦ (ok (new_ids page.items, page.delta_link), asked.1, asked.2)
          | some next ↦
              let rest : Asked (List Text × Option Text) = read_pages fuel next asked.1 in
              (
                elim rest.0 [
                  | error e ↦ error e
                  | expired ↦ expired
                  | ok (ids, link) ↦ ok (new_ids page.items ++ ids, link)
                ],
                rest.1,
                asked.2 + rest.2,
              )
        ]
      ]

  module _ (u : Unicode) (now : ℕ) where
    -- `get_message`: a message that cannot be fetched is passed over
    unfoldable pub get_messages : List Text → ℕ → List GraphMessage × ℕ
    get_messages [] clock = ([], clock)
    get_messages (id ∷ ids) clock =
        let asked : Asked MessageData = request (server.message_at id) clock in
        let rest = get_messages ids asked.1 in
        elim asked.0 [
          | ok item ↦ (to_message u now item ∷ rest.0, rest.1)
          | error e ↦ rest
          | expired ↦ rest
        ]

    -- what follows the loop
    unfoldable pub fetched : List Text × Option Text → ℕ → DeltaResult
    fetched (ids, link) clock = record {
      messages = sorted_by received_before (get_messages ids clock).0;
      delta_link = link;
      resynced = false;
    }

    -- `delta(folder_id, None)`
    unfoldable pub full_sync : ℕ → Text → ℕ → Outcome DeltaResult
    full_sync fuel folder_url clock =
        let pages : Asked (List Text × Option Text) = read_pages fuel folder_url clock in
        elim pages.0 [
          | error e ↦ error e
          | expired ↦ error expired_full_sync
          | ok found ↦ ok (fetched found pages.1)
        ]

    unfoldable pub mark_resynced : Outcome DeltaResult → Outcome DeltaResult
    mark_resynced (ok result) = ok (record result { resynced = true })
    mark_resynced (error e) = error e
    mark_resynced expired = expired

    -- an empty delta link is falsy, but it is not None: a 410 then starts over as well
    unfoldable pub delta : ℕ → Text → Option Text → Outcome DeltaResult
    delta fuel folder_url none = full_sync fuel folder_url 0
    delta fuel folder_url (some link) =
        let url = if is_empty link then folder_url else link in
        let pages : Asked (List Text × Option Text) = read_pages fuel url 0 in
        elim pages.0 [
          | error e ↦ error e
          | expired ↦ mark_resynced (full_sync fuel folder_url pages.1)
          | ok found ↦ ok (fetched found pages.1)
        ]
