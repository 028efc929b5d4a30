-- ===== src/Security/Sessions.antt =====
-- The life of a session.
use receipt_manager.Prelude.{
  ℕ, ◌+◌, ◌*◌, ◌≡◌, refl, Bool, false, not, none, some, List, [], ◌∷◌, ◌++◌, find, any, keep, Text,
  text_eq_refl, is_empty, leb, find-append_none, find-eq_none_of_any, Bool-cases, Option-cases, ◌∙◌,
  inl, inr, arith, if◌then◌else◌,
}
use receipt_manager.Models.{seconds}
use receipt_manager.Security.{
  User, Session, create_session, has_token, load_session, destroy_session,
}

pub found :
    (sessions : List Session) (session : Session)
    → any (has_token session.id) sessions ≡ false
    → find (has_token session.id) (sessions ++ session ∷ []) ≡ some session
found sessions session h =
    find-append_none (has_token session.id) sessions (session ∷ [])
      (find-eq_none_of_any (has_token session.id) sessions h)
    ∙ (unfold find has_token in rw (text_eq_refl session.id) refl)

gone :
    (p : Session → Bool) (sessions : List Session) → find p (keep (λ s. not (p s)) sessions) ≡ none
unfolding find keep
gone p [] = refl
gone p (session ∷ sessions) = ground (arith, gone p sessions)

loads :
    (later : ℕ) (sessions : List Session) (session : Session)
    → is_empty session.id ≡ false
    → any (has_token session.id) sessions ≡ false
    → (load_session later (some session.id) (sessions ++ session ∷ [])).1
      ≡ (if leb session.expires_at later then none else some session)
unfolding load_session
loads later sessions session t h = elim (Bool-cases (leb session.expires_at later)) [
  | inl e ↦ rw (t, found sessions session h, load_session, e) refl
  | inr e ↦ rw (t, found sessions session h, load_session, e) refl
]

unknown :
    (later : ℕ) (token : Text) (sessions : List Session)
    → find (has_token token) sessions ≡ none
    → (load_session later (some token) sessions).1 ≡ none
unfolding load_session
unknown later token sessions e = elim (Bool-cases (is_empty token)) [
  | inl t ↦ rw t refl
  | inr t ↦ rw (t, e, load_session) refl
]

destroyed :
    (token : Text) (sessions : List Session)
    → is_empty token ≡ false
    → find (has_token token) (destroy_session (some token) sessions) ≡ none
unfolding destroy_session
destroyed token sessions t = elim (Option-cases (find (has_token token) sessions)) [
  | inl e ↦ rw (t, e, destroy_session) e
  | inr (s, e) ↦ rw (t, e, destroy_session) (gone (has_token token) sessions)
]

absent :
    (later : ℕ) (token : Text) (sessions : List Session)
    → is_empty token ≡ false
    → (load_session later (some token) (destroy_session (some token) sessions)).1 ≡ none
absent later token sessions t =
    unknown later token (destroy_session (some token) sessions) (destroyed token sessions t)

-- Where the token is new and not empty, a session that was created is the one that its token loads
-- until its hours have passed, and none from then on; once it is destroyed its token loads none.
session_life :
    (token csrf : Text) (ttl_hours now later : ℕ) (user : User) (sessions : List Session)
    → is_empty token ≡ false
    → any (has_token token) sessions ≡ false
    → let made = create_session token csrf ttl_hours now user none none sessions in
      ((load_session later (some token) made.0).1
        ≡ (if leb (now + seconds (ttl_hours * 3600)) later then none else some made.1))
      × ((load_session later (some token) (destroy_session (some token) made.0)).1 ≡ none)
unfolding create_session
session_life token csrf ttl_hours now later user sessions t h =
    let session : Session = (create_session token csrf ttl_hours now user none none sessions).1 in
    (loads later sessions session t h, absent later token (sessions ++ session ∷ []) t)
