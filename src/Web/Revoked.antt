-- ===== src/Web/Revoked.antt =====
-- What a change of the password, the removal of an account and the confirmation of a secret do to those who
-- are logged in.
use receipt_manager.Prelude.{
  length, leb, text_eq_refl, arith, find-keep, some, ◌∷◌, ◌==◌, ◌≡◌, find, not, Bool, List, Option,
  Text, any, keep, ℕ, [], inl, inr, Bool-cases, Option-cases, refl, false, none, true, ◌⊎◌,
}
use receipt_manager.Web.Guard.{saved, readmits, user_key, admission}
use receipt_manager.MerchantRules.{truthy}
use receipt_manager.Web.Account.{
  enrol, password_changed, AccountPage, drop_others, is_other, with_csrf, change_password,
  delete_user, totp_confirm, user_deleted,
}
use receipt_manager.Web.Login.{
  has_user_id, validate_password_strength, verify_totp, text_of, admitted, require_user, Accounts,
  Secrets,
}
use receipt_manager.Security.{check_csrf, has_token, Session, User}
use receipt_manager.Unicode.{Unicode}

none_other :
    (user : User) (session : Session) (sessions : List Session)
    → any (is_other user session) (drop_others user session sessions) ≡ false
unfolding any keep
none_other user session [] = refl
none_other user session (x ∷ sessions) = ground (arith, none_other user session sessions)

abbrev pub is_foreign : ℕ → Session → Bool
is_foreign id session = not (session.user_id == id)

foreign_kept :
    (user : User) (session : Session) (sessions : List Session)
    → keep (is_foreign user.id) (drop_others user session sessions)
      ≡ keep (is_foreign user.id) sessions
unfolding keep is_other
foreign_kept user session [] = refl
foreign_kept user session (x ∷ sessions) = ground (arith, foreign_kept user session sessions)

own_kept :
    (user : User) (session : Session) (token : Text) (sessions : List Session)
    → find (has_token token) sessions ≡ some session
    → find (has_token token) (drop_others user session sessions) ≡ some session
own_kept user session token sessions e =
    find-keep (has_token token) (λ other. not (is_other user session other)) sessions session e
      (unfold is_other has_token in rw (text_eq_refl session.id) (ground arith))

-- After an admitted request with its CSRF token and the current password sets a password of an allowed length, no
-- other session of the account is left, those of other accounts are as before, and the one that
-- changed it stays admitted, to the account with the new hash.
pub change_password-signs_out :
    (secrets : Secrets) (user : User) (session : Session) (now : ℕ) (cookie : Option Text)
    (current new csrf : Text) (s : AccountPage)
    → require_user now cookie s.accounts ≡ admitted user session
    → check_csrf session (some csrf) ≡ true
    → secrets.verify_password user.password_hash current ≡ true
    → validate_password_strength new ≡ none
    → let after = (change_password secrets user session current new new csrf s).0.accounts in
      (any (is_other user session) after.sessions ≡ false)
      × (keep (is_foreign user.id) after.sessions ≡ keep (is_foreign user.id) s.accounts.sessions)
      × (require_user now cookie after
          ≡ admitted (record user { password_hash = secrets.hash new }) session)
unfolding change_password with_csrf
change_password-signs_out secrets user session now cookie current new csrf s h c v p =
    rw (c, v, text_eq_refl new, p, change_password)
      (unfold password_changed in
        let a = admission now cookie s.accounts user session h in
        (
          none_other user session s.accounts.sessions,
          foreign_kept user session s.accounts.sessions,
          readmits now cookie s.accounts
              (password_changed (secrets.hash new) user session s.accounts) user
              (record user { password_hash = secrets.hash new }) session a
              (own_kept user session a.token s.accounts.sessions a.has_session)
              (saved session.user_id user _ s.accounts.users
                (user_key session.user_id user s.accounts.users a.has_user) a.has_user),
        ))

deleted :
    (target user : User) (session : Session) (now : ℕ) (cookie : Option Text) (s : Accounts)
    → require_user now cookie s ≡ admitted user session
    → (target.id == user.id) ≡ false
    → require_user now cookie (user_deleted target user s) ≡ admitted user session
unfolding user_deleted
deleted target user session now cookie s h d =
    let a = admission now cookie s user session h in
    let own : user.id ≡ session.user_id = user_key session.user_id user s.users a.has_user in
    readmits now cookie s (user_deleted target user s) user user session a
      (find-keep (has_token a.token) (λ x. not (x.user_id == target.id)) s.sessions session
        a.has_session (ground (arith, own, d)))
      (find-keep (has_user_id session.user_id) (λ x. not (has_user_id target.id x)) s.users user
        a.has_user (ground (arith, own, d)))

-- Whatever account an admitted request is to delete, with whatever CSRF token, its session stays admitted to its
-- account, which is unchanged.
pub delete_user-keeps_caller :
    (u : Unicode) (user : User) (session : Session) (now : ℕ) (cookie : Option Text) (user_id : ℕ)
    (csrf : Text) (s : AccountPage)
    → require_user now cookie s.accounts ≡ admitted user session
    → require_user now cookie (delete_user u user session user_id csrf s).0.accounts
      ≡ admitted user session
unfolding delete_user with_csrf
delete_user-keeps_caller u user session now cookie user_id csrf s h =
    elim (Bool-cases (check_csrf session (some csrf))) [
      | inr c ↦ simp (c, h)
      | inl c ↦ elim (Bool-cases user.is_admin) [
        | inr m ↦ simp (c, m, h)
        | inl m ↦ elim (Option-cases (find (has_user_id user_id) s.accounts.users)) [
          | inl f ↦ simp (c, m, f, h)
          | inr (target, f) ↦ elim (Bool-cases (target.id == user.id)) [
            | inl d ↦ simp (c, m, f, d, h)
            | inr d ↦
                let gone = deleted target user session now cookie s.accounts h d in
                elim (Bool-cases (leb (length s.accounts.users) 1)) [
                  | inl l ↦ simp (c, m, f, d, l, h)
                  | inr l ↦ simp (c, m, f, d, l, gone)
                ]
          ]
        ]
      ]
    ]

enrolled :
    (secret : Text) (user : User) (session : Session) (now : ℕ) (cookie : Option Text)
    (s : AccountPage)
    → require_user now cookie s.accounts ≡ admitted user session
    → require_user now cookie (enrol secret user s).accounts
      ≡ admitted (record user { totp_secret = some secret }) session
unfolding enrol
enrolled secret user session now cookie s h =
    let a = admission now cookie s.accounts user session h in
    readmits now cookie s.accounts (enrol secret user s).accounts user
      (record user { totp_secret = some secret }) session a a.has_session
      (saved session.user_id user _ s.accounts.users
        (user_key session.user_id user s.accounts.users a.has_user) a.has_user)

-- After a confirmation by an admitted request its session is admitted to the account as it was, or to the account
-- with the secret of its enrolment, of which a right code was given.
pub totp_confirm-needs_code :
    (secrets : Secrets) (u : Unicode) (user : User) (session : Session) (now : ℕ)
    (cookie : Option Text) (code csrf : Text) (s : AccountPage)
    → require_user now cookie s.accounts ≡ admitted user session
    → let after = (totp_confirm secrets u user session code csrf s).0.accounts in
      let secret = text_of (s.pending user.id) in
      (require_user now cookie after ≡ admitted user session)
      ⊎ (require_user now cookie after
          ≡ admitted (record user { totp_secret = some secret }) session)
        × (verify_totp secrets u secret code ≡ true)
unfolding totp_confirm with_csrf
totp_confirm-needs_code secrets u user session now cookie code csrf s h =
    elim (Bool-cases (check_csrf session (some csrf))) [
      | inr c ↦ inl (simp (c, h))
      | inl c ↦ elim (Bool-cases (truthy (s.pending user.id))) [
        | inr t ↦ inl (simp (c, t, h))
        | inl t ↦ elim (Bool-cases (verify_totp secrets u (text_of (s.pending user.id)) code)) [
          | inr v ↦ inl (simp (c, t, v, h))
          | inl v ↦
              let done = enrolled (text_of (s.pending user.id)) user session now cookie s h in
              inr (simp (c, t, v, done), v)
        ]
      ]
    ]
