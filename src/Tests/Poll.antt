-- ===== src/Tests/Poll.antt =====
-- The theorems on the poll of the mailbox, at a server with one mail.
use receipt_manager.Prelude.Sort.{insert_by, sorted_by}
use receipt_manager.Graph.{
  to_message, get_messages, fetched, new_ids, is_throttled, request_from, read_pages, answered,
  Page, MessageData, Server, ok, delta, DeltaResult, request,
}
use receipt_manager.Prelude.{
  ◌==◌, if◌then◌else◌, text_eq, ◌≡◌, refl, true, false, none, some, [], ◌∷◌, ◌≤◌, codes, any,
}
use receipt_manager.Graph.Delta.{request-bounded}
use receipt_manager.Ingest.{make_email, has_internet_id}
use receipt_manager.Ingest.Poll.{Mailbox, cursor, poll_once, poll_once-replay, Meanwhile}
use receipt_manager.Tests.Setup.{ascii, sqlite}
use receipt_manager.Tests.Mail.{message, settings, no_parsing, inbox, no_search}

abbrev page : Page
page = record {
  items = (codes "g", false) ∷ [];
  next_link = none;
  delta_link = some (codes "next");
}

abbrev mail : MessageData
mail = record {
  id = codes "g";
  internet_message_id = some (codes "m1");
  subject = some (codes "alert");
  address = some (codes "a bank");
  received = some 50;
  content_type = codes "text";
  content = some (codes "hello");
}

-- the first request is throttled
abbrev server : Server
server = record {
  page_at =
      λ url clock. if clock == 0 then answered 429 none [] page else answered 200 none [] page;
  message_at = λ id clock. answered 200 none [] mail;
}

abbrev box : Mailbox
box = record {
  inbox = record inbox { emails = make_email 1 55 message none none ∷ [] };
  credentials = record {
    tenant_id = codes "t";
    client_id = codes "c";
    client_secret = codes "s";
    mailbox = codes "m";
  };
  folder_id = codes "f";
  delta_link = codes "cursor";
  poll_seconds = 15;
  last_poll_at = none;
  last_mail_at = none;
  last_poll_error = [];
}

abbrev delivered : DeltaResult
delivered = record { messages = message ∷ []; delta_link = some (codes "next"); resynced = false }

one_mail : delta server ascii 60 2 (codes "/delta") (cursor box) ≡ ok delivered
unfolding delta cursor read_pages request request_from is_throttled new_ids fetched get_messages
    to_message sorted_by insert_by text_eq
one_mail = refl

abbrev nobody : Meanwhile
nobody m = ([], [])

seen : any (has_internet_id (codes "m1")) box.inbox.emails ≡ true
unfolding any has_internet_id text_eq make_email
seen = refl

poll_once-replay_example :
    ((poll_once ascii no_search sqlite no_parsing settings
        (λ e. [])
        server
        2
        (codes "/delta")
        nobody
        60
        box).0.inbox
      ≡ box.inbox)
    × ((poll_once ascii no_search sqlite no_parsing settings
          (λ e. [])
          server
          2
          (codes "/delta")
          nobody
          60
          box).1
        ≡ 0)
poll_once-replay_example =
    poll_once-replay ascii no_search sqlite no_parsing settings (λ e. []) server 2 (codes "/delta")
      nobody 60 box delivered one_mail (seen, tt)

request-bounded_example :
    ((request (server.page_at []) 0).1 ≤ 4) × ((request (server.page_at []) 0).2 ≤ 240)
request-bounded_example = request-bounded (server.page_at []) 0
