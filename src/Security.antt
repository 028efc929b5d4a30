-- ===== src/Security.antt =====
-- app/security.py: the sessions of the browser and the throttling of logins. `ttl_hours`,
-- `max_attempts` and `lockout_minutes` are the settings of app/config.py, and the two tokens those
-- that the `secrets` module draws. The proofs are in the modules below.
pub mod Lockout
pub mod Sessions
use receipt_manager.Prelude.{
  ℕ, ◌+◌, ◌*◌, Bool, true, false, not, Option, none, some, List, [], ◌∷◌, ◌++◌, take, find, keep,
  Text, text_eq, is_empty, ltb, leb, if◌then◌else◌,
}
use receipt_manager.Models.{seconds}
use receipt_manager.MerchantRules.{truthy}

pub record User : Type 0 where
  pub id : ℕ
  pub username : Text
  pub password_hash : Text
  pub is_admin : Bool
  pub totp_secret : Option Text
  pub failed_logins : ℕ
  pub locked_until : Option ℕ
  pub last_login_at : Option ℕ

pub record Session : Type 0 where
  pub id : Text
  pub user_id : ℕ
  pub csrf_token : Text
  pub totp_pending : Bool
  pub expires_at : ℕ
  pub user_agent : Option Text
  pub ip : Option Text

unfoldable pub is_setup_complete : List User → Bool
is_setup_complete [] = false
is_setup_complete (user ∷ users) = true

-- `(s or "")[:n] or None`
unfoldable pub clip : ℕ → Option Text → Option Text
clip n none = none
clip n (some s) = if is_empty (take n s) then none else some (take n s)

unfoldable pub create_session :
    Text → Text → ℕ → ℕ → User → Option Text → Option Text → List Session → List Session × Session
create_session token csrf_token ttl_hours now user user_agent ip sessions =
    let session : Session = record {
      id = token;
      user_id = user.id;
      csrf_token = csrf_token;
      totp_pending = truthy user.totp_secret;
      expires_at = now + seconds (ttl_hours * 3600);
      user_agent = clip 255 user_agent;
      ip = clip 64 ip;
    } in
    (sessions ++ session ∷ [], session)

unfoldable pub has_token : Text → Session → Bool
has_token token session = text_eq session.id token

abbrev pub delete_session : Text → List Session → List Session
delete_session token = keep (λ session. not (has_token token session))

unfoldable pub load_session : ℕ → Option Text → List Session → List Session × Option Session
load_session now none sessions = (sessions, none)
load_session now (some token) sessions =
    if is_empty token then (sessions, none) else elim (find (has_token token) sessions) [
      | none ↦ (sessions, none)
      | some session ↦
          if leb session.expires_at now
          then (delete_session token sessions, none)
          else (sessions, some session)
    ]

unfoldable pub destroy_session : Option Text → List Session → List Session
destroy_session none sessions = sessions
destroy_session (some token) sessions =
    if is_empty token then sessions else elim (find (has_token token) sessions) [
      | none ↦ sessions
      | some session ↦ delete_session token sessions
    ]

unfoldable pub check_csrf : Session → Option Text → Bool
check_csrf session none = false
check_csrf session (some submitted) =
    if is_empty submitted then false else text_eq session.csrf_token submitted

unfoldable pub is_locked_out : ℕ → User → Bool
is_locked_out now user = elim user.locked_until [ none ↦ false | some until ↦ ltb now until ]

unfoldable pub register_failed_login : ℕ → ℕ → ℕ → User → User
register_failed_login max_attempts lockout_minutes now user =
    if leb max_attempts (user.failed_logins + 1)
    then record user {
      failed_logins = 0;
      locked_until = some (now + seconds (lockout_minutes * 60));
    }
    else record user { failed_logins = user.failed_logins + 1 }

unfoldable pub register_successful_login : ℕ → User → User
register_successful_login now user = record user {
  failed_logins = 0;
  locked_until = none;
  last_login_at = some now;
}
