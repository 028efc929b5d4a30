-- ===== src/Web/Account.antt =====
-- app/web/routes_account.py: the handlers that change an account, for the user and the session that
-- `require_user` of Web/Login admits. `secrets` is that of Web/Login; the secret of an enrolment that is
-- not confirmed is kept by account, as `get_setting` reads it back. An HTTPException changes nothing.
-- The foreign key of a session deletes it with its account (`PRAGMA foreign_keys=ON` of app/db.py).
use receipt_manager.Prelude.{
  length, leb, any, find, text_eq, ◌&&◌, is_empty, none, codes, map, not, some, Bool, List, Option,
  count_if, keep, Text, ℕ, [], true, str, if◌then◌else◌, ◌++◌, ◌∷◌, ◌==◌,
}
use receipt_manager.Web.Login.{
  text_of, validate_password_strength, verify_totp, has_user_id, save_user, Accounts, Secrets,
}
use receipt_manager.Web.{
  enrolment, success, warning, AuditLog, failure, http_error, redirected, Flash, Response,
}
use receipt_manager.MerchantRules.{truthy}
use receipt_manager.Security.{check_csrf, has_token, Session, User}
use receipt_manager.Unicode.{strip, Unicode}
use receipt_manager.Engine.{Engine}

pub record AccountPage : Type 0 where
  pub accounts : Accounts
  pub pending : ℕ → Option Text

-- `redirect_with("/account", ...)`
abbrev pub to_account : Flash → Response
to_account = redirected (codes "/account")

abbrev pub error_page : AccountPage → Text → AccountPage × Response
error_page s message = (s, to_account (failure message))

-- `verify_csrf`
unfoldable pub with_csrf :
    Session → Text → AccountPage → AccountPage × Response → AccountPage × Response
with_csrf session csrf_token s handled =
    if check_csrf session (some csrf_token)
    then handled
    else (s, http_error 403 (codes "Invalid or missing CSRF token."))

abbrev pub account_entry : Text → Text → Option Text → Option Text → Option Text → AuditLog
account_entry actor action entity entity_id detail = record {
  actor = actor;
  action = action;
  entity = entity;
  entity_id = entity_id;
  detail = detail;
}

-- the other sessions of the account
unfoldable pub is_other : User → Session → Session → Bool
is_other user session other = other.user_id == user.id && not (has_token session.id other)

abbrev pub drop_others : User → Session → List Session → List Session
drop_others user session = keep (λ other. not (is_other user session other))

abbrev pub set_pending : ℕ → Option Text → (ℕ → Option Text) → ℕ → Option Text
set_pending id secret pending other = if other == id then secret else pending other

-- the account with its new hash, and its other sessions gone
unfoldable pub password_changed : Text → User → Session → Accounts → Accounts
password_changed hash user session s = record {
  users = save_user (record user { password_hash = hash }) s.users;
  sessions = drop_others user session s.sessions;
  audit =
      s.audit
      ++ account_entry user.username (codes "account.password_changed") none none (
          some (
            str (count_if (is_other user session) s.sessions) ++ codes " other session(s) revoked"))
        ∷ [];
}

unfoldable pub change_password :
    Secrets → User → Session → Text → Text → Text → Text → AccountPage → AccountPage × Response
change_password secrets user session current_password new_password new_password_confirm csrf_token
      s =
    with_csrf session csrf_token s (
      if not (secrets.verify_password user.password_hash current_password)
      then error_page s (codes "Current password is incorrect.")
      else if not (text_eq new_password new_password_confirm)
      then error_page s (codes "The two new passwords do not match.")
      else (elim (validate_password_strength new_password) [
        | some problem ↦ error_page s problem
        | none ↦ (
          record s {
            accounts = password_changed (secrets.hash new_password) user session s.accounts;
          },
          to_account (
              success (
                codes "Password changed. "
                ++ (str (count_if (is_other user session) s.accounts.sessions)
                    ++ codes " other session(s) signed out."))),
        )
      ]))

-- `secret` is what `new_totp_secret` draws
unfoldable pub totp_begin : Text → User → Session → Text → AccountPage → AccountPage × Response
totp_begin secret user session csrf_token s = with_csrf session csrf_token s (
    if truthy user.totp_secret
    then (s, to_account (warning (codes "Two-factor is already enabled.")))
    else (record s { pending = set_pending user.id (some secret) s.pending }, enrolment secret))

unfoldable pub enrol : Text → User → AccountPage → AccountPage
enrol secret user s = record {
  accounts = record {
    users = save_user (record user { totp_secret = some secret }) s.accounts.users;
    sessions = s.accounts.sessions;
    audit =
        s.accounts.audit
        ++ account_entry user.username (codes "account.totp_enabled") none none none ∷ [];
  };
  pending = set_pending user.id none s.pending;
}

unfoldable pub totp_confirm :
    Secrets → Unicode → User → Session → Text → Text → AccountPage → AccountPage × Response
totp_confirm secrets u user session code csrf_token s = with_csrf session csrf_token s (
    if not (truthy (s.pending user.id))
    then error_page s (codes "Start the setup again — no pending secret.")
    else if not (verify_totp secrets u (text_of (s.pending user.id)) code)
    then error_page s (codes "That code is not valid. Try again.")
    else (
      enrol (text_of (s.pending user.id)) user s,
      to_account (success (codes "Two-factor authentication is on.")),
    ))

unfoldable pub totp_disable :
    Secrets → User → Session → Text → Text → AccountPage → AccountPage × Response
totp_disable secrets user session password csrf_token s = with_csrf session csrf_token s (
    if not (secrets.verify_password user.password_hash password)
    then error_page s (codes "Password is incorrect.")
    else (
      record s {
        accounts = record s.accounts {
          users = save_user (record user { totp_secret = none }) s.accounts.users;
          audit =
              s.accounts.audit
              ++ account_entry user.username (codes "account.totp_disabled") none none none ∷ [];
        };
      },
      to_account (warning (codes "Two-factor authentication is off.")),
    ))

unfoldable pub revoke_sessions : User → Session → Text → AccountPage → AccountPage × Response
revoke_sessions user session csrf_token s =
    let others = str (count_if (is_other user session) s.accounts.sessions) in
    with_csrf session csrf_token s (
      record s {
        accounts = record s.accounts {
          sessions = drop_others user session s.accounts.sessions;
          audit =
              s.accounts.audit
              ++ account_entry user.username (codes "account.sessions_revoked") none none
                  (some others)
                ∷ [];
        };
      },
      to_account (success (codes "Signed out " ++ (others ++ codes " other session(s)."))),
    )

abbrev pub admins_only : AccountPage → AccountPage × Response
admins_only s = (s, http_error 403 (codes "Admins only"))

unfoldable pub is_plain_name : (Text → Bool) → Text → Bool
is_plain_name is_alnum name =
    not (is_empty name) && is_alnum (keep (λ c. not (c == b'-') && not (c == b'_')) name)

unfoldable pub new_user : Engine → Text → Text → List User → User
new_user sql name hash users = record {
  id = sql.new_id (map (λ u. u.id) users);
  username = name;
  password_hash = hash;
  is_admin = true;
  totp_secret = none;
  failed_logins = 0;
  locked_until = none;
  last_login_at = none;
}

-- `is_alnum` is `str.isalnum`
unfoldable pub add_user :
    Secrets
    → Unicode
    → Engine
    → (Text → Bool)
    → User
    → Session
    → Text
    → Text
    → Text
    → AccountPage
    → AccountPage × Response
add_user secrets u sql is_alnum user session new_username new_user_password csrf_token s =
    let name = u.lower (strip u new_username) in
    let users = s.accounts.users in
    with_csrf session csrf_token s (
      if not user.is_admin
      then admins_only s
      else if not (is_plain_name is_alnum name)
      then error_page s (codes "Usernames must be alphanumeric.")
      else if any (λ user. text_eq user.username name) users
      then error_page s (codes "User " ++ (u.repr name ++ codes " already exists."))
      else (elim (validate_password_strength new_user_password) [
        | some problem ↦ error_page s problem
        | none ↦ (
          record s {
            accounts = record s.accounts {
              users = users ++ new_user sql name (secrets.hash new_user_password) users ∷ [];
              audit =
                  s.accounts.audit
                  ++ account_entry user.username (codes "user.created") (some (codes "user"))
                      (some name) none
                    ∷ [];
            };
          },
          to_account (success (codes "Created user " ++ (u.repr name ++ codes "."))),
        )
      ]))

-- the account goes, and with it its sessions
unfoldable pub user_deleted : User → User → Accounts → Accounts
user_deleted target user s = record {
  users = keep (λ other. not (has_user_id target.id other)) s.users;
  sessions = keep (λ session. not (session.user_id == target.id)) s.sessions;
  audit =
      s.audit
      ++ account_entry user.username (codes "user.deleted") (some (codes "user"))
          (some target.username) none
        ∷ [];
}

unfoldable pub delete_user :
    Unicode → User → Session → ℕ → Text → AccountPage → AccountPage × Response
delete_user u user session user_id csrf_token s = with_csrf session csrf_token s (
    if not user.is_admin
    then admins_only s
    else (elim (find (has_user_id user_id) s.accounts.users) [
      | none ↦ (s, http_error 404 (codes "No such user"))
      | some target ↦
          if target.id == user.id
          then error_page s (codes "You cannot delete your own account.")
          else if leb (length s.accounts.users) 1
          then error_page s (codes "Cannot delete the only account.")
          else (
            record s { accounts = user_deleted target user s.accounts },
            to_account (success (codes "Deleted user " ++ (u.repr target.username ++ codes "."))),
          )
    ]))
