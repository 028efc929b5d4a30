-- ===== src/Web.antt =====
-- The handlers of app/web/routes_ui.py that change the tables, for a user who is logged in: the guard
-- `verify_csrf`, then the handler. A handler that returns commits what it changed, one that raises
-- an HTTPException changes nothing. The forms are the arguments; a page's HTML is left out.
pub mod Charges
pub mod Receipts
pub mod Delete
pub mod Settled
pub mod Removed
pub mod Login
pub mod Guard
pub mod Factors
pub mod Account
pub mod Revoked
use receipt_manager.Prelude.{
  ℕ, Bool, true, false, not, Option, none, some, List, [], ◌∷◌, ◌++◌, map, any, find, update_where,
  Text, codes, str, is_empty, if◌then◌else◌, ◌==◌,
}
use receipt_manager.Models.{
  TransactionStatus, new, notified, lapsed, needs_attention, receipt_attached, Transaction,
  Attachment, DiscordMessage, RawEmail, MerchantRule, AuditLog, Job,
}
use receipt_manager.QboSync.{QboAccount}
use receipt_manager.Security.{User, Session, check_csrf}

pub record Site : Type 0 where
  pub transactions : List Transaction
  pub attachments : List Attachment
  pub messages : List DiscordMessage
  pub emails : List RawEmail
  pub rules : List MerchantRule
  pub accounts : List QboAccount
  pub jobs : List Job
  pub audit : List AuditLog

pub data Flash : Type 0 where
  success failure warning : Text → Flash

pub data Response : Type 0 where
  redirected : Text → Flash → Response
  http_error : ℕ → Text → Response
  commit_failed : Response  -- the IntegrityError of the commit, after which the tables are as before
  enrolment : Text → Response  -- the page that shows a new secret

-- the tables, the response, and the files that were removed, with their thumbnails
pub record Handled : Type 0 where
  pub site : Site
  pub response : Response
  pub removed : List (Text × Option Text)

abbrev pub respond : Site → Response → Handled
respond site response = record { site = site; response = response; removed = [] }

abbrev pub not_found : Site → Text → Handled
not_found site detail = respond site (http_error 404 detail)

-- `verify_csrf`
unfoldable pub verify_csrf : Session → Text → Site → Handled → Handled
verify_csrf session csrf_token site handled =
    if check_csrf session (some csrf_token)
    then handled
    else respond site (http_error 403 (codes "Invalid or missing CSRF token."))

abbrev pub log : Text → Text → Text → Text → Option Text → AuditLog
log actor action entity entity_id detail = record {
  actor = actor;
  action = action;
  entity = some entity;
  entity_id = some entity_id;
  detail = detail;
}

abbrev pub has_row_id : ℕ → Transaction → Bool
has_row_id id tx = tx.id == id

abbrev pub is_row : ℕ → Attachment → Bool
is_row id att = att.id == id

abbrev pub page_of : Text → Text
page_of code = codes "/transactions/" ++ code

unfoldable pub awaits_receipt : TransactionStatus → Bool
awaits_receipt new = true
awaits_receipt notified = true
awaits_receipt lapsed = true
awaits_receipt needs_attention = true
awaits_receipt _ = false

-- a charge that a receipt was attached to by hand
unfoldable pub attach_by_hand : ℕ → Transaction → Transaction
attach_by_hand now tx =
    if awaits_receipt tx.status
    then record tx { status = receipt_attached; matched_at = some now }
    else tx
