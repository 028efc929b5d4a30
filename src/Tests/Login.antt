-- ===== src/Tests/Login.antt =====
-- The theorems on the login, at an account with a secret.
use receipt_manager.Web.Revoked.{
  change_password-signs_out, is_foreign, delete_user-keeps_caller, totp_confirm-needs_code,
}
use receipt_manager.Prelude.{
  keep, Text, any, ◌⊎◌, ◌≡◌, ◌+◌, ◌*◌, refl, true, false, none, some, [], ◌∷◌, codes, leb, text_eq,
  find, if◌then◌else◌,
}
use receipt_manager.Web.Account.{is_other, change_password, delete_user, totp_confirm, AccountPage}
use receipt_manager.Web.Login.{
  validate_password_strength, clear_pending, logged_in, admitted, bounced, verify_totp,
  login_submit, totp_submit, require_user, login_user, Accounts, LoginSettings, Secrets, Visitor,
}
use receipt_manager.Security.{
  load_session, register_successful_login, create_session, is_locked_out, has_token, Session, User,
  check_csrf, is_setup_complete,
}
use receipt_manager.Unicode.{strip, strip_right, skip_spaces}
use receipt_manager.Web.Factors.{totp_submit-require_user, login_submit-require_user}
use receipt_manager.Models.{seconds}
use receipt_manager.Tests.Setup.{ascii}
use receipt_manager.MerchantRules.{truthy}

abbrev secrets : Secrets
secrets = record {
  hash = λ s. s;
  verify_password = λ hash s. text_eq hash s;
  needs_rehash = λ hash. false;
  is_digits = λ s. true;
  verify_code = λ secret s. text_eq secret s;
}

abbrev settings : LoginSettings
settings = record { max_attempts = 3; lockout_minutes = 15; ttl_hours = 12 }

abbrev visitor : Visitor
visitor = record { cookie = none; user_agent = none; ip = none }

-- the account is locked until 500
abbrev guarded_user : User
guarded_user = record {
  id = 1;
  username = codes "ann";
  password_hash = codes "h";
  is_admin = true;
  totp_secret = some (codes "7");
  failed_logins = 0;
  locked_until = some 500;
  last_login_at = none;
}

abbrev waiting : Session
waiting = record {
  id = codes "t";
  user_id = 1;
  csrf_token = codes "c";
  totp_pending = true;
  expires_at = 1000;
  user_agent = none;
  ip = none;
}

abbrev accounts : Accounts
accounts = record { users = guarded_user ∷ []; sessions = waiting ∷ []; audit = [] }

abbrev no_sessions : Accounts
no_sessions = record { users = guarded_user ∷ []; sessions = []; audit = [] }

login_submit-require_user_example :
    let made = create_session (codes "t") (codes "c") 12 600 guarded_user none none [] in
    require_user 700
      (some (codes "t"))
      (login_submit secrets settings ascii
        (codes "t")
        (codes "c")
        600
        visitor
        (codes "h")
        (codes "ann")
        no_sessions).0
    ≡ (if leb (600 + seconds (12 * 3600)) 700
        then bounced (codes "/login")
        else if truthy guarded_user.totp_secret
        then bounced (codes "/login/totp")
        else admitted (logged_in secrets 600 (codes "h") made.1 guarded_user) made.1)
unfolding is_setup_complete login_user find is_locked_out text_eq any strip strip_right skip_spaces
login_submit-require_user_example =
    login_submit-require_user secrets settings ascii (codes "t") (codes "c") 600 700 visitor
      (codes "h") (codes "ann") guarded_user no_sessions refl refl refl refl refl refl refl

totp_submit-require_user_example :
    require_user 400
      (some (codes "t"))
      (totp_submit secrets settings ascii 300 (some (codes "t")) (codes "7") (codes "c") accounts).0
    ≡ (if verify_totp secrets ascii (codes "7") (codes "7")
        then admitted (register_successful_login 300 guarded_user) (clear_pending waiting)
        else bounced (codes "/login/totp"))
unfolding check_csrf find text_eq has_token
totp_submit-require_user_example =
    totp_submit-require_user secrets settings ascii 300 400 (codes "t") (codes "c") (codes "7")
      waiting guarded_user accounts refl refl refl refl refl refl refl refl

abbrev admitted_session : Session
admitted_session = clear_pending waiting

abbrev second_session : Session
second_session = record admitted_session { id = codes "u" }

abbrev colleague : User
colleague = record guarded_user { id = 2; username = codes "bob" }

abbrev account_page : AccountPage
account_page = record {
  accounts = record {
    users = guarded_user ∷ colleague ∷ [];
    sessions = admitted_session ∷ second_session ∷ [];
    audit = [];
  };
  pending = λ id. some (codes "9");
}

abbrev long_password : Text
long_password = codes "correct horse battery"

change_password-signs_out_example :
    let after =
      (change_password secrets guarded_user admitted_session
        (codes "h")
        long_password
        long_password
        (codes "c")
        account_page).0.accounts in
    (any (is_other guarded_user admitted_session) after.sessions ≡ false)
    × (keep (is_foreign 1) after.sessions ≡ keep (is_foreign 1) account_page.accounts.sessions)
    × (require_user 400 (some (codes "t")) after
        ≡ admitted (record guarded_user { password_hash = long_password }) admitted_session)
unfolding check_csrf find text_eq has_token require_user load_session validate_password_strength
change_password-signs_out_example =
    change_password-signs_out secrets guarded_user admitted_session 400 (some (codes "t"))
      (codes "h") long_password (codes "c") account_page refl refl refl refl

delete_user-keeps_caller_example :
    require_user 400
      (some (codes "t"))
      (delete_user ascii guarded_user admitted_session 2 (codes "c") account_page).0.accounts
    ≡ admitted guarded_user admitted_session
unfolding find text_eq has_token require_user load_session
delete_user-keeps_caller_example =
    delete_user-keeps_caller ascii guarded_user admitted_session 400 (some (codes "t")) 2
      (codes "c") account_page refl

totp_confirm-needs_code_example :
    let after =
      (totp_confirm secrets ascii guarded_user admitted_session
        (codes "9")
        (codes "c")
        account_page).0.accounts in
    (require_user 400 (some (codes "t")) after ≡ admitted guarded_user admitted_session)
    ⊎ (require_user 400 (some (codes "t")) after
        ≡ admitted (record guarded_user { totp_secret = some (codes "9") }) admitted_session)
      × (verify_totp secrets ascii (codes "9") (codes "9") ≡ true)
unfolding find text_eq has_token require_user load_session
totp_confirm-needs_code_example =
    totp_confirm-needs_code secrets ascii guarded_user admitted_session 400 (some (codes "t"))
      (codes "9") (codes "c") account_page refl
