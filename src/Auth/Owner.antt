-- ===== src/Auth/Owner.antt =====
-- Who passes the checks of a request.
use aerosol.Prelude.{
  ℕ, list_eq, nat_eq, ◌==◌, eq_iff, leb, ◌≡◌, refl, ap, ◌∙◌, ◌↔◌, ◌⊎◌, inl, inr, true, Option, none,
  some, List, arith, find?, is_empty, Text, Bool-cases, Option-cases,
}
use aerosol.Db.{App, Db}
use aerosol.Auth.{
  User, Session, ApiToken, AppToken, Tokens, Accessor, authenticated_user, authenticated_api_key,
  authenticated_app, as_user, session_user, api_key, token_app, validate_session_token,
  validate_api_token, validate_app_token, ok,
}
use aerosol.Auth.Requests.{
  Connection, World, get_bearer_token_if_set, get_connection_origin, is_same_origin,
  session_accessor, bearer_accessor, authenticate, is_owner, verify_owner_auth,
}

-- Each kind of token stands for its own kind of accessor.
session_user-user :
    (now : ℕ) (users : List User) (o : Option Session) (a : Accessor)
    → session_user now users o ≡ some a
    → (user_id : ℕ) × ((username : Text) × (a ≡ authenticated_user user_id username))
session_user-user now users none a h = cc
session_user-user now users (some s) a h = elim (Bool-cases (leb now s.expires_at)) [
  | inr ended ↦ cc (rw ended at h)
  | inl lasting ↦ named (find? (λ (u : User). u.user_id == s.user_id) users) (rw lasting at h)
]
  where
    named :
        (o : Option User)
        → as_user o ≡ some a
        → (user_id : ℕ) × ((username : Text) × (a ≡ authenticated_user user_id username))
    named none e = cc
    named (some u) e = (u.user_id, (u.username, ground (arith, e)))

pub session_accessor-user :
    (w : World) (c : Connection) (tokens : Tokens) (a : Accessor)
    → session_accessor w c tokens ≡ some a
    → (user_id : ℕ) × ((username : Text) × (a ≡ authenticated_user user_id username))
unfolding session_accessor validate_session_token
session_accessor-user w c tokens a h = elim (Option-cases c.session_cookie) [
  | inl absent ↦ cc (rw (absent, session_accessor) at h)
  | inr (token, sent) ↦ elim (Bool-cases (is_empty token)) [
    | inl blank ↦ cc (rw blank at (rw (sent, session_accessor) at h))
    | inr given ↦
        session_user-user w.now tokens.users _ a (rw given at (rw (sent, session_accessor) at h))
  ]
]

pub api_key-key :
    (now : ℕ) (o : Option ApiToken) (a : Accessor)
    → api_key now o ≡ some a
    → a ≡ authenticated_api_key
api_key-key now none a h = cc
api_key-key now (some t) a h = ground (arith, h)

pub token_app-app :
    (apps : List App) (o : Option AppToken) (a : Accessor)
    → token_app apps o ≡ some a
    → (app_id : Text) × (a ≡ authenticated_app app_id)
token_app-app apps none a h = cc
token_app-app apps (some t) a h = (t.app_id, ground (arith, h))

-- What makes a request the owner's: a session, on a request that is not from another origin; or,
-- without a session, an API token.
pub data OwnerEvidence (w : World) (c : Connection) (tokens : Tokens) (origin : Option Text)
    : Type 0 where
  by_session :
      (user_id : ℕ) (username : Text)
      → session_accessor w c tokens ≡ some (authenticated_user user_id username)
      → (origin ≡ none) ⊎ (origin ≡ some c.netloc)
      → OwnerEvidence w c tokens origin
  by_api_token :
      (token : Text)
      → session_accessor w c tokens ≡ none
      → get_bearer_token_if_set c ≡ some token
      → validate_api_token w.digest w.now token tokens ≡ some authenticated_api_key
      → OwnerEvidence w c tokens origin

same_origin_iff :
    (origin : Option Text) (netloc : Text)
    → (is_same_origin origin netloc ≡ true) ↔ ((origin ≡ none) ⊎ (origin ≡ some netloc))
unfolding is_same_origin
same_origin_iff none netloc = (λ _. inl refl, λ _. refl)
same_origin_iff (some o) netloc = ground (arith, eq_iff o netloc)

-- A bearer token that makes an owner is an API token.
bearer_key :
    (w : World) (c : Connection) (apps : List App) (tokens : Tokens) (origin : Option Text)
    → is_owner origin c.netloc (bearer_accessor w c apps tokens) ≡ true
    → (token : Text) × (get_bearer_token_if_set c ≡ some token)
      × (validate_api_token w.digest w.now token tokens ≡ some authenticated_api_key)
unfolding is_owner bearer_accessor validate_api_token validate_app_token
bearer_key w c apps tokens origin h = elim (Option-cases (get_bearer_token_if_set c)) [
  | inl absent ↦ cc (rw (absent, bearer_accessor) at h)
  | inr (token, sent) ↦
      let found : Option ApiToken =
        find? (λ (t : ApiToken). t.token_hash == w.digest token) tokens.api_tokens in
      elim (Option-cases (api_key w.now found)) [
        | inr (a, e) ↦ (token, sent, e ∙ ap some (api_key-key w.now found a e))
        | inl no_key ↦ absurd (
            no_app (find? (λ (t : AppToken). t.token_hash == w.digest token) tokens.app_tokens)
              (rw no_key at (rw (sent, bearer_accessor) at h)))
      ]
]
  where
    no_app : (o : Option AppToken) → is_owner origin c.netloc (token_app apps o) ≡ true → ⊥
    no_app o e = elim (Option-cases (token_app apps o)) [
      | inl none_there ↦ cc (rw none_there at e)
      | inr (a, there) ↦
          let (app_id, same) = token_app-app apps o a there in cc (rw same at (rw there at e))
    ]

owner_sound :
    (w : World) (c : Connection) (db : Db) (tokens : Tokens) (origin : Option Text)
    → is_owner origin c.netloc (authenticate w c db.apps tokens) ≡ true
    → OwnerEvidence w c tokens origin
unfolding authenticate
owner_sound w c db tokens origin h = elim (Option-cases (session_accessor w c tokens)) [
  | inl no_session ↦
      let (token, sent, valid) = bearer_key w c db.apps tokens origin (rw no_session at h) in
      by_api_token token no_session sent valid
  | inr (a, e) ↦
      let (user_id, (username, same)) = session_accessor-user w c tokens a e in
      by_session user_id username (e ∙ ap some same)
        ((same_origin_iff origin c.netloc).0 (unfold is_owner in rw same at (rw e at h)))
]

owner_complete :
    (w : World) (c : Connection) (db : Db) (tokens : Tokens) (origin : Option Text)
    → OwnerEvidence w c tokens origin
    → is_owner origin c.netloc (authenticate w c db.apps tokens) ≡ true
unfolding authenticate is_owner
owner_complete w c db tokens origin (by_session user_id username e same) =
    rw e ((same_origin_iff origin c.netloc).1 same)
owner_complete w c db tokens origin (by_api_token token e sent valid) =
    let bearer : bearer_accessor w c db.apps tokens ≡ some authenticated_api_key =
      unfold bearer_accessor in rw (sent, bearer_accessor) (rw valid refl) in
    rw e (rw bearer refl)

-- A request passes as the owner's exactly if it comes with a session and not from another origin, or
-- without a session and with an API token. The origin is one that can be read.
pub verify_owner_auth_iff :
    (w : World) (c : Connection) (db : Db) (tokens : Tokens) (origin : Option Text)
    → get_connection_origin w c ≡ ok origin
    → (verify_owner_auth w c db tokens ≡ ok tt) ↔ OwnerEvidence w c tokens origin
unfolding verify_owner_auth
verify_owner_auth_iff w c db tokens origin read = rw read (
  (λ h. owner_sound w c db tokens origin (ground (arith, h))),
  (λ e. rw (owner_complete w c db tokens origin e) refl),
)
