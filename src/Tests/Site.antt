-- ===== src/Tests/Site.antt =====
-- The theorems on the web handlers, at one charge with a receipt.
use receipt_manager.Web.Settled.{IsSettled, IsSpared}
use receipt_manager.Web.Receipts.{is_on}
use receipt_manager.Jobs.{belongs_to}
use receipt_manager.Prelude.{
  not, ◌==◌, if◌then◌else◌, text_eq, ◌≡◌, refl, true, false, none, some, [], ◌∷◌, ◌+◌, codes,
  length, any, find, count_if, All,
}
use receipt_manager.Web.{Handled, Site, has_row_id}
use receipt_manager.Models.{receipt_attached}
use receipt_manager.Security.{Session, check_csrf}
use receipt_manager.Shortcode.{has_code}
use receipt_manager.Web.Delete.{is_about, refunds, delete_transaction}
use receipt_manager.Web.Removed.{delete_transaction-leaves_nothing}
use receipt_manager.Tests.Setup.{sqlite, charge}
use receipt_manager.Tests.Guards.{user}
use receipt_manager.Tests.Channel.{receipt}

abbrev web_session : Session
web_session = record {
  id = codes "t";
  user_id = 1;
  csrf_token = codes "c";
  totp_pending = false;
  expires_at = 100;
  user_agent = none;
  ip = none;
}

abbrev site : Site
site = record {
  transactions =
      charge 1 (codes "1000") receipt_attached 10
      ∷ record (charge 2 (codes "1001") receipt_attached 10) { refund_of_id = some 1 }
      ∷ [];
  attachments = receipt 1 (some 1) ∷ [];
  messages = [];
  emails = [];
  rules = [];
  accounts = [];
  jobs = [];
  audit = [];
}

abbrev after_delete : Handled
after_delete =
    delete_transaction sqlite 60 (λ a. []) user web_session (codes "1000") (codes "c") true site

delete_transaction-leaves_nothing_example :
    (any (has_row_id 1) after_delete.site.transactions ≡ false)
    × (any (refunds 1) after_delete.site.transactions ≡ false)
    × (any (is_on 1) after_delete.site.attachments ≡ false)
    × (any (is_about 1) after_delete.site.messages ≡ false)
    × (any (belongs_to 1) after_delete.site.jobs ≡ false)
    × (length after_delete.site.attachments + length after_delete.removed ≡ 1)
    × (length after_delete.removed ≡ count_if (is_on 1) site.attachments)
    × All
        (λ att. IsSettled (is_on 1 att) true att after_delete.site.attachments after_delete.removed)
        site.attachments
    × All
        (λ t.
          IsSpared
            (not (t.id == 1))
            (if refunds 1 t then record t { refund_of_id = none } else t)
            after_delete.site.transactions)
        site.transactions
unfolding check_csrf text_eq find has_code
delete_transaction-leaves_nothing_example =
    delete_transaction-leaves_nothing sqlite 60 (λ a. []) user web_session (codes "1000")
      (codes "c") true site (charge 1 (codes "1000") receipt_attached 10) refl refl
