-- ===== src/Web/Factors.antt =====
use receipt_manager.Web.Guard.{user_key, saved, guards, loads_live}
use receipt_manager.Web.Login.{
  check_code, accept_password, logged_in, clear_pending, admitted, login_submit, text_of,
  verify_totp, bounced, totp_submit, login_user, require_user, save_user, has_user_id, Accounts,
  Visitor, LoginSettings, Secrets,
}
use receipt_manager.Prelude.{
  ap, text_eq_refl, find-update_where, ◌∙◌, arith, Bool-cases, update_where, ◌*◌, ◌+◌, codes, leb,
  if◌then◌else◌, true, any, some, false, find, is_empty, ◌≡◌, List, ℕ, Text, inl, inr, refl,
}
use receipt_manager.Security.{
  register_failed_login, register_successful_login, create_session, is_locked_out, check_csrf,
  is_setup_complete, has_token, Session, User,
}
use receipt_manager.Security.Sessions.{found}
use receipt_manager.Models.{seconds}
use receipt_manager.MerchantRules.{truthy}
use receipt_manager.Unicode.{Unicode}

-- The password and the code of a login, against the guard of every page.
cleared :
    (token : Text) (sessions : List Session) (session : Session)
    → find (has_token token) sessions ≡ some session
    → find (has_token token) (update_where (has_token session.id) clear_pending sessions)
      ≡ some (clear_pending session)
unfolding has_token
cleared token sessions session e =
    find-update_where (has_token token) (has_token session.id) clear_pending sessions (λ x. refl)
    ∙ rw (e, text_eq_refl session.id) refl

register_failed_login-id :
    (max_attempts lockout_minutes now : ℕ) (user : User)
    → (register_failed_login max_attempts lockout_minutes now user).id ≡ user.id
unfolding register_failed_login
register_failed_login-id max_attempts lockout_minutes now user = ground arith

module _ (secrets : Secrets) (settings : LoginSettings) (u : Unicode) where
  accepted :
      (token csrf : Text) (now : ℕ) (visitor : Visitor) (password username : Text) (user : User)
      (s : Accounts)
      → is_setup_complete s.users ≡ true
      → login_user u username s.users ≡ some user
      → is_locked_out now user ≡ false
      → secrets.verify_password user.password_hash password ≡ true
      → login_submit secrets settings u token csrf now visitor password username s
        ≡ accept_password secrets settings token csrf now visitor password user s
  unfolding login_submit
  accepted token csrf now visitor password username user s c l o v = rw (c, l, o, v) refl

  logged_in-id :
      (now : ℕ) (password : Text) (session : Session) (user : User)
      → (logged_in secrets now password session user).id ≡ user.id
  unfolding logged_in register_successful_login
  logged_in-id now password session user = ground arith

  -- After a right password the new cookie is turned to the code form where the account has a secret, is
  -- admitted where it has none, and is turned to the login once its hours have passed. The account is
  -- the one that the form means and is not locked, and the token is new and not empty.
  pub login_submit-require_user :
      (token csrf : Text) (now later : ℕ) (visitor : Visitor) (password username : Text)
      (user : User) (s : Accounts)
      → is_empty token ≡ false
      → any (has_token token) s.sessions ≡ false
      → is_setup_complete s.users ≡ true
      → login_user u username s.users ≡ some user
      → find (has_user_id user.id) s.users ≡ some user
      → is_locked_out now user ≡ false
      → secrets.verify_password user.password_hash password ≡ true
      → let made =
          create_session token csrf settings.ttl_hours now user visitor.user_agent visitor.ip
            s.sessions in
        require_user later
          (some token)
          (login_submit secrets settings u token csrf now visitor password username s).0
        ≡ (if leb (now + seconds (settings.ttl_hours * 3600)) later
            then bounced (codes "/login")
            else if truthy user.totp_secret
            then bounced (codes "/login/totp")
            else admitted (logged_in secrets now password made.1 user) made.1)
  login_submit-require_user token csrf now later visitor password username user s t h c l f o v =
      rw (accepted token csrf now visitor password username user s c l o v) (
        unfold accept_password create_session in
        guards later token
          (accept_password secrets settings token csrf now visitor password user s).0
          (create_session token csrf settings.ttl_hours now user visitor.user_agent visitor.ip
            s.sessions).1
          (logged_in secrets now password
            (create_session token csrf settings.ttl_hours now user visitor.user_agent visitor.ip
              s.sessions).1
            user)
          t (found s.sessions _ h)
          (saved user.id user _ s.users (logged_in-id now password _ user) f))

  coded :
      (now : ℕ) (token csrf code : Text) (session : Session) (user : User) (s : Accounts)
      → is_empty token ≡ false
      → find (has_token token) s.sessions ≡ some session
      → find (has_user_id session.user_id) s.users ≡ some user
      → check_csrf session (some csrf) ≡ true
      → session.totp_pending ≡ true
      → truthy user.totp_secret ≡ true
      → leb session.expires_at now ≡ false
      → totp_submit secrets settings u now (some token) code csrf s
        ≡ check_code secrets settings u now code session user s
  unfolding totp_submit
  coded now token csrf code session user s t e f c p k b =
      let live = loads_live now token s.sessions session t e b in
      rw (ap (λ r. r.1) live, totp_submit, c) (simp (ap (λ r. r.0) live, p, f, k))

  -- A request with its CSRF token, from a session that is live and waits for the code of an account with a
  -- secret: after a right code the session is admitted until it expires, and after a wrong one it is still
  -- turned to the code form; whether the account is locked makes no difference.
  pub totp_submit-require_user :
      (now later : ℕ) (token csrf code : Text) (session : Session) (user : User) (s : Accounts)
      → is_empty token ≡ false
      → find (has_token token) s.sessions ≡ some session
      → find (has_user_id session.user_id) s.users ≡ some user
      → check_csrf session (some csrf) ≡ true
      → session.totp_pending ≡ true
      → truthy user.totp_secret ≡ true
      → leb session.expires_at now ≡ false
      → leb session.expires_at later ≡ false
      → require_user later
          (some token)
          (totp_submit secrets settings u now (some token) code csrf s).0
        ≡ (if verify_totp secrets u (text_of user.totp_secret) code
            then admitted (register_successful_login now user) (clear_pending session)
            else bounced (codes "/login/totp"))
  unfolding check_code register_successful_login
  totp_submit-require_user now later token csrf code session user s t e f c p k b b' =
      rw (coded now token csrf code session user s t e f c p k b)
        (elim (Bool-cases (verify_totp secrets u (text_of user.totp_secret) code)) [
          | inl r ↦
              rw (r, check_code)
                (guards later token
                    (record s {
                      sessions = update_where (has_token session.id) clear_pending s.sessions;
                      users = save_user (register_successful_login now user) s.users;
                    })
                    (clear_pending session) (register_successful_login now user) t
                    (cleared token s.sessions session e)
                    (saved session.user_id user _ s.users (user_key session.user_id user s.users f)
                      f)
                  ∙ rw b' refl)
          | inr w ↦
              rw (w, check_code)
                (guards later token
                    (record s {
                      users =
                          save_user
                            (register_failed_login settings.max_attempts settings.lockout_minutes
                              now user)
                            s.users;
                    })
                    session
                    (register_failed_login settings.max_attempts settings.lockout_minutes now user)
                    t e
                    (saved session.user_id user _ s.users
                      (register_failed_login-id _ _ now user
                        ∙ user_key session.user_id user s.users f)
                      f)
                  ∙ rw (b', p) refl)
        ])
