-- ===== src/Web/Login.antt =====
-- app/web/routes_auth.py: the first account, the login with its second factor, the logout; and `require_user`
-- of app/web/deps.py. `Secrets` stands for argon2, pyotp and the `secrets` module, whose tokens are the arguments.
-- An answer is where the browser is sent, or the form with its error.
use receipt_manager.Prelude.{
  true, ℕ, Bool, false, not, ◌&&◌, Option, none, some, List, [], ◌∷◌, ◌++◌, map, find, keep, length,
  update_where, Text, codes, str, text_eq, is_empty, ltb, ◌==◌, if◌then◌else◌,
}
use receipt_manager.Engine.{Engine}
use receipt_manager.Unicode.{Unicode, strip}
use receipt_manager.Models.{AuditLog}
use receipt_manager.MerchantRules.{truthy}
use receipt_manager.Security.{
  User, Session, is_setup_complete, create_session, has_token, load_session, destroy_session,
  check_csrf, is_locked_out, register_failed_login, register_successful_login,
}

pub record Accounts : Type 0 where
  pub users : List User
  pub sessions : List Session
  pub audit : List AuditLog

pub data Answer : Type 0 where
  go : Text → Answer
  go_with_cookie : Text → Text → Answer  -- the target and the token of the session
  form_error : ℕ → Text → Answer
  no_csrf : Answer

pub record Secrets : Type 0 where
  pub hash : Text → Text
  pub verify_password : Text → Text → Bool
  pub needs_rehash : Text → Bool
  pub is_digits : Text → Bool  -- `str.isdigit`
  pub verify_code : Text → Text → Bool  -- `pyotp.TOTP(secret).verify`, false where it raises

pub record LoginSettings : Type 0 where
  pub max_attempts : ℕ
  pub lockout_minutes : ℕ
  pub ttl_hours : ℕ

-- what a request brings: its cookie, and where it comes from
pub record Visitor : Type 0 where
  pub cookie : Option Text
  pub user_agent : Option Text
  pub ip : Option Text

pub data Guarded : Type 0 where
  admitted : User → Session → Guarded
  bounced : Text → Guarded

abbrev pub has_user_id : ℕ → User → Bool
has_user_id id user = user.id == id

abbrev pub save_user : User → List User → List User
save_user user = update_where (has_user_id user.id) (λ u. user)

abbrev pub text_of : Option Text → Text
text_of none = []
text_of (some s) = s

unfoldable pub validate_password_strength : Text → Option Text
validate_password_strength password =
    if ltb (length password) 12
    then some (codes "Password must be at least 12 characters.")
    else if ltb 1024 (length password)
    then some (codes "Password must be at most 1024 characters.")
    else none

-- the raise of a bounce rolls back, also the removal of a session that is over
unfoldable pub require_user : ℕ → Option Text → Accounts → Guarded
require_user now cookie s = elim (load_session now cookie s.sessions).1 [
  | none ↦ bounced (if is_setup_complete s.users then codes "/login" else codes "/setup")
  | some session ↦ elim (find (has_user_id session.user_id) s.users) [
    | none ↦ bounced (codes "/login")
    | some user ↦
        if session.totp_pending then bounced (codes "/login/totp") else admitted user session
  ]
]

abbrev pub clear_pending : Session → Session
clear_pending session = record session { totp_pending = false }

-- the account that the form means
unfoldable pub login_user : Unicode → Text → List User → Option User
login_user u username users =
    if not (is_empty (strip u username))
    then find (λ user. text_eq user.username (strip u username)) users
    else if ltb 1 (length users)
    then none
    else (elim users [ [] ↦ none | user ∷ rest ↦ some user ])

unfoldable pub verify_totp : Secrets → Unicode → Text → Text → Bool
verify_totp secrets u secret code =
    let cleaned = keep (λ c. not (c == b' ') && not (c == b'-')) (strip u code) in
    if secrets.is_digits cleaned then secrets.verify_code secret cleaned else false

-- the account after a password that was accepted: its hash, and its lockout where no code is due
unfoldable pub logged_in : Secrets → ℕ → Text → Session → User → User
logged_in secrets now password session user =
    let rehashed : User =
      if secrets.needs_rehash user.password_hash
      then record user { password_hash = secrets.hash password }
      else user in
    if session.totp_pending then rehashed else register_successful_login now rehashed

module _ (secrets : Secrets) (settings : LoginSettings) where
  module _ (sql : Engine) where
    unfoldable pub setup_submit :
        Text → Text → ℕ → Visitor → Text → Text → Accounts → Accounts × Answer
    setup_submit token csrf now visitor password password_confirm s =
        let user : User = record {
          id = sql.new_id (map (λ u. u.id) s.users);
          username = codes "admin";
          password_hash = secrets.hash password;
          is_admin = true;
          totp_secret = none;
          failed_logins = 0;
          locked_until = none;
          last_login_at = none;
        } in
        let created =
          create_session token csrf settings.ttl_hours now user visitor.user_agent visitor.ip
            s.sessions in
        let entry : AuditLog = record {
          actor = codes "admin";
          action = codes "setup.completed";
          entity = some (codes "user");
          entity_id = some (str user.id);
          detail = none;
        } in
        if is_setup_complete s.users
        then (s, go (codes "/login"))
        else if not (text_eq password password_confirm)
        then (s, form_error 400 (codes "The two passwords do not match."))
        else (elim (validate_password_strength password) [
          | some problem ↦ (s, form_error 400 problem)
          | none ↦ (
            record {
              users = s.users ++ user ∷ [];
              sessions = created.0;
              audit = s.audit ++ entry ∷ [];
            },
            go_with_cookie (codes "/settings?success=Welcome!+Configure+Outlook+and+Discord+below.")
                created.1.id,
          )
        ])

  unfoldable pub accept_password :
      Text → Text → ℕ → Visitor → Text → User → Accounts → Accounts × Answer
  accept_password token csrf now visitor password user s =
      let created =
        create_session token csrf settings.ttl_hours now user visitor.user_agent visitor.ip
          s.sessions in
      (
        record s {
          users = save_user (logged_in secrets now password created.1 user) s.users;
          sessions = created.0;
        },
        go_with_cookie (if created.1.totp_pending then codes "/login/totp" else codes "/")
            created.1.id,
      )

  unfoldable pub login_submit :
      Unicode → Text → Text → ℕ → Visitor → Text → Text → Accounts → Accounts × Answer
  login_submit u token csrf now visitor password username s =
      if not (is_setup_complete s.users)
      then (s, go (codes "/setup"))
      else (elim (login_user u username s.users) [
        | none ↦ (s, form_error 401 (codes "Incorrect username or password."))
        | some user ↦
            if is_locked_out now user
            then (s, form_error 401 (codes "Too many failed attempts."))
            else if not (secrets.verify_password user.password_hash password)
            then (
              record s {
                users =
                    save_user
                      (register_failed_login settings.max_attempts settings.lockout_minutes now
                        user)
                      s.users;
              },
              form_error 401 (codes "Incorrect username or password."),
            )
            else accept_password token csrf now visitor password user s
      ])

  -- the code of an account, against the session that waits for it
  unfoldable pub check_code : Unicode → ℕ → Text → Session → User → Accounts → Accounts × Answer
  check_code u now code session user s =
      if not (verify_totp secrets u (text_of user.totp_secret) code)
      then (
        record s {
          users =
              save_user
                (register_failed_login settings.max_attempts settings.lockout_minutes now user)
                s.users;
        },
        form_error 401 (codes "That code is not valid."),
      )
      else (
        record s {
          sessions = update_where (has_token session.id) clear_pending s.sessions;
          users = save_user (register_successful_login now user) s.users;
        },
        go (codes "/"),
      )

  unfoldable pub totp_submit :
      Unicode → ℕ → Option Text → Text → Text → Accounts → Accounts × Answer
  totp_submit u now cookie code csrf_token s =
      let loaded = load_session now cookie s.sessions in
      let s' : Accounts = record s { sessions = loaded.0 } in
      elim loaded.1 [
        | none ↦ (s', go (codes "/login"))
        | some session ↦
            if not (check_csrf session (some csrf_token))
            then (s, no_csrf)
            else if not session.totp_pending
            then (s', go (codes "/"))
            else (elim (find (has_user_id session.user_id) s.users) [
              | none ↦ (s', go (codes "/login"))
              | some user ↦
                  if truthy user.totp_secret
                  then check_code u now code session user s'
                  else (s', go (codes "/login"))
            ])
      ]

unfoldable pub logout : ℕ → Option Text → Text → Accounts → Accounts × Answer
logout now cookie csrf_token s =
    let loaded = load_session now cookie s.sessions in
    elim loaded.1 [
      | none ↦ (record s { sessions = loaded.0 }, go (codes "/login"))
      | some session ↦ if not (check_csrf session (some csrf_token)) then (s, no_csrf) else (
        record s { sessions = destroy_session (some session.id) loaded.0 },
        go (codes "/login"),
      )
    ]
