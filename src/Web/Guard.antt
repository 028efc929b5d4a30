-- ===== src/Web/Guard.antt =====
-- What `require_user` finds in the tables.
use receipt_manager.Prelude.{
  ap, subst, sym, ◌∙◌, codes, find_sound, arith, if◌then◌else◌, leb, ◌∷◌, is_empty, some, ◌≡◌, Bool,
  List, Option, Text, find, ℕ, [], inl, inr, Bool-cases, Option-cases, update_where, refl, false,
  none, true,
}
use receipt_manager.Web.Login.{
  Guarded, bounced, save_user, admitted, has_user_id, Accounts, require_user,
}
use receipt_manager.Security.{has_token, Session, User, is_setup_complete, load_session}

pub saved :
    (id : ℕ) (user after : User) (users : List User)
    → after.id ≡ id
    → find (has_user_id id) users ≡ some user
    → find (has_user_id id) (save_user after users) ≡ some after
unfolding find update_where
saved id user after [] same e = cc
saved id user after (x ∷ users) same e = ground (arith, saved id user after users same)

pub user_key :
    (id : ℕ) (user : User) (users : List User)
    → find (has_user_id id) users ≡ some user
    → user.id ≡ id
user_key id user users e = ground (arith, find_sound (has_user_id id) users user e)

pub loads_live :
    (now : ℕ) (token : Text) (sessions : List Session) (session : Session)
    → is_empty token ≡ false
    → find (has_token token) sessions ≡ some session
    → leb session.expires_at now ≡ false
    → load_session now (some token) sessions ≡ (sessions, some session)
unfolding load_session
loads_live now token sessions session t e b = rw (t, e, b, load_session) refl

pub loads_found :
    (now : ℕ) (token : Text) (sessions : List Session) (session : Session)
    → is_empty token ≡ false
    → find (has_token token) sessions ≡ some session
    → (load_session now (some token) sessions).1
      ≡ (if leb session.expires_at now then none else some session)
unfolding load_session
loads_found now token sessions session t e = elim (Bool-cases (leb session.expires_at now)) [
  | inl b ↦ rw (t, e, b, load_session) refl
  | inr b ↦ rw (t, e, b, load_session) refl
]

pub complete_of_find :
    (p : User → Bool) (users : List User) (user : User)
    → find p users ≡ some user
    → is_setup_complete users ≡ true
unfolding find is_setup_complete
complete_of_find p [] user e = cc
complete_of_find p (x ∷ users) user e = refl

pub guards :
    (now : ℕ) (token : Text) (s : Accounts) (session : Session) (user : User)
    → is_empty token ≡ false
    → find (has_token token) s.sessions ≡ some session
    → find (has_user_id session.user_id) s.users ≡ some user
    → require_user now (some token) s ≡ (
        if leb session.expires_at now
        then bounced (codes "/login")
        else if session.totp_pending
        then bounced (codes "/login/totp")
        else admitted user session)
unfolding require_user
guards now token s session user t e f = elim (Bool-cases (leb session.expires_at now)) [
  | inl b ↦
      rw
        (
          loads_found now token s.sessions session t e,
          require_user,
          b,
          complete_of_find _ s.users user f,
        )
        refl
  | inr b ↦ rw (loads_found now token s.sessions session t e, require_user, b, f) refl
]

-- what the guard knows of a request that it admits
pub record Admission (now : ℕ) (cookie : Option Text) (s : Accounts) (user : User)
    (session : Session) : Type 0 where
  pub token : Text
  pub same_cookie : cookie ≡ some token
  pub not_empty : is_empty token ≡ false
  pub has_session : find (has_token token) s.sessions ≡ some session
  pub has_user : find (has_user_id session.user_id) s.users ≡ some user
  pub live : leb session.expires_at now ≡ false
  pub complete : session.totp_pending ≡ false

unloaded :
    (now : ℕ) (cookie : Option Text) (s : Accounts)
    → (load_session now cookie s.sessions).1 ≡ none
    → require_user now cookie s
      ≡ bounced (if is_setup_complete s.users then codes "/login" else codes "/setup")
unfolding require_user
unloaded now cookie s e = rw (e, require_user) refl

loads_none :
    (now : ℕ) (token : Text) (sessions : List Session)
    → find (has_token token) sessions ≡ none
    → (load_session now (some token) sessions).1 ≡ none
unfolding load_session
loads_none now token sessions e = elim (Bool-cases (is_empty token)) [
  | inl t ↦ rw t refl
  | inr t ↦ rw (t, e, load_session) refl
]

loads_no_token :
    (now : ℕ) (token : Text) (sessions : List Session)
    → is_empty token ≡ true
    → (load_session now (some token) sessions).1 ≡ none
unfolding load_session
loads_no_token now token sessions t = rw t refl

never :
    (now : ℕ) (cookie : Option Text) (s : Accounts) (user : User) (session : Session)
    (target : Text)
    → require_user now cookie s ≡ bounced target
    → require_user now cookie s ≡ admitted user session
    → Admission now cookie s user session
never now cookie s user session target b a = ground (arith, sym b ∙ a)

pairs_of : User → Session → Guarded → User × Session
pairs_of user session (admitted u found) = (u, found)
pairs_of user session (bounced target) = (user, session)

moved :
    (now : ℕ) (cookie : Option Text) (s : Accounts) (user : User) (session : Session) (u : User)
    (found : Session)
    → admitted u found ≡ admitted user session
    → Admission now cookie s u found
    → Admission now cookie s user session
unfolding pairs_of
moved now cookie s user session u found e a =
    subst (λ p. Admission now cookie s p.0 p.1) (ap (pairs_of user session) e) a

live-Admission :
    (now : ℕ) (token : Text) (s : Accounts) (user : User) (session found : Session)
    → is_empty token ≡ false
    → find (has_token token) s.sessions ≡ some found
    → leb found.expires_at now ≡ false
    → require_user now (some token) s ≡ admitted user session
    → Admission now (some token) s user session
unfolding require_user
live-Admission now token s user session found t e b h =
    elim (Option-cases (find (has_user_id found.user_id) s.users)) [
      | inl f ↦
          never now (some token) s user session (codes "/login")
            (rw (loads_live now token s.sessions found t e b, require_user, f) refl) h
      | inr (u, f) ↦
          let g = guards now token s found u t e f in
          elim (Bool-cases found.totp_pending) [
            | inl p ↦
                never now (some token) s user session (codes "/login/totp") (g ∙ rw (b, p) refl) h
            | inr p ↦
                moved now (some token) s user session u found (sym (g ∙ rw (b, p) refl) ∙ h)
                  (record {
                    token = token;
                    same_cookie = refl;
                    not_empty = t;
                    has_session = e;
                    has_user = f;
                    live = b;
                    complete = p;
                  })
          ]
    ]

pub admission :
    (now : ℕ) (cookie : Option Text) (s : Accounts) (user : User) (session : Session)
    → require_user now cookie s ≡ admitted user session
    → Admission now cookie s user session
admission now none s user session h =
    never now none s user session _ (unloaded now none s (unfold load_session in refl)) h
admission now (some token) s user session h = elim (Bool-cases (is_empty token)) [
  | inl t ↦
      never now (some token) s user session _
        (unloaded now (some token) s (loads_no_token now token s.sessions t)) h
  | inr t ↦ elim (Option-cases (find (has_token token) s.sessions)) [
    | inl e ↦
        never now (some token) s user session _
          (unloaded now (some token) s (loads_none now token s.sessions e)) h
    | inr (found, e) ↦ elim (Bool-cases (leb found.expires_at now)) [
      | inl b ↦
          never now (some token) s user session _
            (unloaded now (some token) s (loads_found now token s.sessions found t e ∙ rw b refl)) h
      | inr b ↦ live-Admission now token s user session found t e b h
    ]
  ]
]

-- A request that is admitted is admitted again where the rows of its session and its account are found.
pub readmits :
    (now : ℕ) (cookie : Option Text) (s after : Accounts) (user user' : User) (session : Session)
    → (a : Admission now cookie s user session)
    → find (has_token a.token) after.sessions ≡ some session
    → find (has_user_id session.user_id) after.users ≡ some user'
    → require_user now cookie after ≡ admitted user' session
readmits now cookie s after user user' session a e f =
    ap (λ c. require_user now c after) a.same_cookie
    ∙ guards now a.token after session user' a.not_empty e f
    ∙ rw (a.live, a.complete) refl
