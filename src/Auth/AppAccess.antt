-- ===== src/Auth/AppAccess.antt =====
-- Who passes the check for apps.
use aerosol.Prelude.{
  ℕ, any, any_sound, eq_iff, leb, ◌≤◌, Elem, find?_sound, is_empty, Bool-cases, list_eq, nat_eq,
  ◌==◌, ◌≡◌, refl, ap, sym, ◌∙◌, ◌≢◌, inl, inr, Option, none, some, List, arith, find?, Text,
  Option-cases,
}
use aerosol.Prelude.Outcome.{answer_same, no_answer}
use aerosol.Db.{App, Db}
use aerosol.Routing.{get_app_from_hostname}
use aerosol.Routing.Hosts.{IsHostOf, get_app_from_hostname_sound}
use aerosol.Auth.{
  User, Session, as_user, session_user, validate_session_token, ApiToken, AppToken, Tokens,
  Accessor, authenticated_user, authenticated_api_key, authenticated_app, api_key, token_app,
  validate_api_token, validate_app_token, ok,
}
use aerosol.Auth.Requests.{
  Connection, World, get_bearer_token_if_set, get_connection_origin, or_else, session_accessor,
  bearer_accessor, authenticate, app_of, or_refused, verify_app_auth,
}
use aerosol.Auth.Owner.{session_accessor-user, api_key-key, token_app-app}

-- The cookie is a session that has not ended, of a user that is there.
pub record HasSession (w : World) (c : Connection) (tokens : Tokens) : Type 0 where
  pub token : Text
  pub session : Session
  pub user : User
  pub sent : c.session_cookie ≡ some token
  pub listed : Elem session tokens.sessions
  pub hashed : session.token_hash ≡ w.digest token
  pub lasting : w.now ≤ session.expires_at
  pub known : Elem user tokens.users
  pub own : user.user_id ≡ session.user_id

-- The bearer token's hash is stored for the app, which is there.
pub record HasAppToken (w : World) (c : Connection) (db : Db) (tokens : Tokens) (app_id : Text)
    : Type 0 where
  pub token : Text
  pub row : AppToken
  pub app : App
  pub sent : get_bearer_token_if_set c ≡ some token
  pub listed : Elem row tokens.app_tokens
  pub hashed : row.token_hash ≡ w.digest token
  pub known : Elem app db.apps
  pub own : (row.app_id ≡ app_id) × (app.app_id ≡ app_id)

-- What makes a request an app's: a page of the app in the user's browser, or the app's token.
pub data AppEvidence (w : World) (c : Connection) (db : Db) (tokens : Tokens) (origin : Option Text)
    (app_id : Text) : Type 0 where
  by_page :
      (host : Text) (a : App)
      → HasSession w c tokens
      → origin ≡ some host
      → IsHostOf db host a
      → a.app_id ≡ app_id
      → AppEvidence w c db tokens origin app_id
  by_app_token : HasAppToken w c db tokens app_id → AppEvidence w c db tokens origin app_id

session_found :
    (w : World) (c : Connection) (tokens : Tokens) (a : Accessor)
    → session_accessor w c tokens ≡ some a
    → HasSession w c tokens
unfolding session_accessor validate_session_token
session_found w c tokens a h = elim (Option-cases c.session_cookie) [
  | inl absent ↦ cc (rw (absent, session_accessor) at h)
  | inr (token, sent) ↦ elim (Bool-cases (is_empty token)) [
    | inl blank ↦ cc (rw blank at (rw (sent, session_accessor) at h))
    | inr given ↦
        by_session token sent
          (find? (λ (s : Session). s.token_hash == w.digest token) tokens.sessions) refl
          (rw given at (rw (sent, session_accessor) at h))
  ]
]
  where
    by_user :
        (token : Text)
        → c.session_cookie ≡ some token
        → (s : Session) → Elem s tokens.sessions
        → s.token_hash ≡ w.digest token
        → w.now ≤ s.expires_at
        → (o : Option User) → find? (λ (u : User). u.user_id == s.user_id) tokens.users ≡ o
        → as_user o ≡ some a
        → HasSession w c tokens
    by_user token sent s listed hashed lasting none e k = cc
    by_user token sent s listed hashed lasting (some u) e k =
        let (known, same) = find?_sound (λ (x : User). x.user_id == s.user_id) u tokens.users e in
        record {
          token = token;
          session = s;
          user = u;
          sent = sent;
          listed = listed;
          hashed = hashed;
          lasting = lasting;
          known = known;
          own = (eq_iff u.user_id s.user_id).0 same;
        }

    by_session :
        (token : Text)
        → c.session_cookie ≡ some token
        → (o : Option Session)
        → find? (λ (s : Session). s.token_hash == w.digest token) tokens.sessions ≡ o
        → session_user w.now tokens.users o ≡ some a
        → HasSession w c tokens
    by_session token sent none e k = cc
    by_session token sent (some s) e k =
        let (listed, same) =
          find?_sound (λ (x : Session). x.token_hash == w.digest token) s tokens.sessions e in
        elim (Bool-cases (leb w.now s.expires_at)) [
          | inr ended ↦ cc (rw ended at k)
          | inl lasting ↦
              by_user token sent s listed ((eq_iff s.token_hash (w.digest token)).0 same)
                (ground arith) (find? (λ (u : User). u.user_id == s.user_id) tokens.users) refl
                (rw lasting at k)
        ]

token_found :
    (w : World) (c : Connection) (db : Db) (tokens : Tokens) (app_id : Text)
    → bearer_accessor w c db.apps tokens ≡ some (authenticated_app app_id)
    → HasAppToken w c db tokens app_id
unfolding bearer_accessor validate_api_token validate_app_token
token_found w c db tokens app_id h = elim (Option-cases (get_bearer_token_if_set c)) [
  | inl absent ↦ cc (rw (absent, bearer_accessor) at h)
  | inr (token, sent) ↦
      by_rows token sent
        (find? (λ (t : ApiToken). t.token_hash == w.digest token) tokens.api_tokens)
        (find? (λ (t : AppToken). t.token_hash == w.digest token) tokens.app_tokens) refl
        (rw (sent, bearer_accessor) at h)
]
  where
    by_token :
        (token : Text)
        → get_bearer_token_if_set c ≡ some token
        → (p : Option AppToken)
        → find? (λ (t : AppToken). t.token_hash == w.digest token) tokens.app_tokens ≡ p
        → token_app db.apps p ≡ some (authenticated_app app_id)
        → HasAppToken w c db tokens app_id
    by_token token sent none e k = cc
    by_token token sent (some t) e k =
        let (listed, same) =
          find?_sound (λ (x : AppToken). x.token_hash == w.digest token) t tokens.app_tokens e in
        elim (Bool-cases (any (λ (a : App). a.app_id == t.app_id) db.apps)) [
          | inr gone ↦ cc (rw gone at k)
          | inl there ↦
              let (app, known, its) = any_sound (λ (a : App). a.app_id == t.app_id) db.apps there in
              let owner : t.app_id ≡ app_id = ground (arith, rw there at k) in
              record {
                token = token;
                row = t;
                app = app;
                sent = sent;
                listed = listed;
                hashed = (eq_iff t.token_hash (w.digest token)).0 same;
                known = known;
                own = (owner, (eq_iff app.app_id t.app_id).0 its ∙ owner);
              }
        ]

    by_rows :
        (token : Text)
        → get_bearer_token_if_set c ≡ some token
        → (o : Option ApiToken) (p : Option AppToken)
        → find? (λ (t : AppToken). t.token_hash == w.digest token) tokens.app_tokens ≡ p
        → or_else (api_key w.now o) (token_app db.apps p) ≡ some (authenticated_app app_id)
        → HasAppToken w c db tokens app_id
    by_rows token sent o p e k = elim (Option-cases (api_key w.now o)) [
      | inr (a, key) ↦ cc (rw key at k, api_key-key w.now o a key)
      | inl no_key ↦ by_token token sent p e (rw no_key at k)
    ]

-- A bearer token never stands for a user.
bearer_accessor-not_user :
    (w : World) (c : Connection) (apps : List App) (tokens : Tokens) (user_id : ℕ) (username : Text)
    → bearer_accessor w c apps tokens ≢ some (authenticated_user user_id username)
unfolding bearer_accessor validate_api_token validate_app_token
bearer_accessor-not_user w c apps tokens user_id username h =
    elim (Option-cases (get_bearer_token_if_set c)) [
      | inl absent ↦ cc (rw (absent, bearer_accessor) at h)
      | inr (token, sent) ↦
          no_user (find? (λ (t : ApiToken). t.token_hash == w.digest token) tokens.api_tokens)
            (find? (λ (t : AppToken). t.token_hash == w.digest token) tokens.app_tokens)
            (rw (sent, bearer_accessor) at h)
    ]
  where
    no_user :
        (o : Option ApiToken) (p : Option AppToken)
        → or_else (api_key w.now o) (token_app apps p) ≡ some (authenticated_user user_id username)
        → ⊥
    no_user o p e = elim (Option-cases (api_key w.now o)) [
      | inr (a, key) ↦ cc (rw (api_key-key w.now o a key) at (rw key at e))
      | inl no_key ↦ let (app_id, same) = token_app-app apps p _ (rw no_key at e) in cc same
    ]

app_of-api_key :
    (db : Db) (origin : Option Text) → app_of db origin (some authenticated_api_key) ≡ none
unfolding app_of
app_of-api_key db none = refl
app_of-api_key db (some host) = refl

app_of-app :
    (db : Db) (origin : Option Text) (app_id : Text)
    → app_of db origin (some (authenticated_app app_id)) ≡ some app_id
unfolding app_of
app_of-app db none app_id = refl
app_of-app db (some host) app_id = refl

app_of-none : (db : Db) (origin : Option Text) → app_of db origin none ≡ none
unfolding app_of
app_of-none db none = refl
app_of-none db (some host) = refl

app_of_sound :
    (w : World) (c : Connection) (db : Db) (tokens : Tokens) (origin : Option Text) (app_id : Text)
    → app_of db origin (authenticate w c db.apps tokens) ≡ some app_id
    → AppEvidence w c db tokens origin app_id
unfolding authenticate app_of
app_of_sound w c db tokens origin app_id h = elim (Option-cases (session_accessor w c tokens)) [
  | inl no_session ↦ by_bearer (bearer_accessor w c db.apps tokens) refl (rw no_session at h)
  | inr (a, e) ↦
      let (user_id, (username, same)) = session_accessor-user w c tokens a e in
      by_origin user_id username (e ∙ ap some same) origin refl (rw same at (rw e at h))
]
  where
    by_bearer :
        (o : Option Accessor)
        → bearer_accessor w c db.apps tokens ≡ o
        → app_of db origin o ≡ some app_id
        → AppEvidence w c db tokens origin app_id
    by_bearer none e k = cc (k, app_of-none db origin)
    by_bearer (some (authenticated_user user_id username)) e k =
        absurd (bearer_accessor-not_user w c db.apps tokens user_id username e)
    by_bearer (some authenticated_api_key) e k = cc (k, app_of-api_key db origin)
    by_bearer (some (authenticated_app id)) e k = by_app_token (
        token_found w c db tokens app_id
          (e ∙ ap (λ x. some (authenticated_app x)) (ground (arith, k, app_of-app db origin id))))

    by_origin :
        (user_id : ℕ) (username : Text)
        → session_accessor w c tokens ≡ some (authenticated_user user_id username)
        → (o : Option Text) → origin ≡ o
        → app_of db o (some (authenticated_user user_id username)) ≡ some app_id
        → AppEvidence w c db tokens origin app_id
    by_origin user_id username e none f k = cc
    by_origin user_id username e (some host) f k =
        elim (Option-cases (get_app_from_hostname db host)) [
          | inl missing ↦ cc (rw missing at k)
          | inr (a, found) ↦
              by_page host a (session_found w c tokens (authenticated_user user_id username) e) f
                (get_app_from_hostname_sound db host a found) (ground (arith, rw found at k))
        ]

-- A request that passes as an app's comes from a page on the app's host, with the cookie of a session that is stored
-- and has not ended, of a user that is there; or with a bearer token whose hash is stored for the app, which is there.
-- The origin is one that can be read.
pub verify_app_auth_sound :
    (w : World) (c : Connection) (db : Db) (tokens : Tokens) (origin : Option Text) (app_id : Text)
    → get_connection_origin w c ≡ ok origin
    → verify_app_auth w c db tokens ≡ ok app_id
    → AppEvidence w c db tokens origin app_id
unfolding verify_app_auth
verify_app_auth_sound w c db tokens origin app_id read h =
    app_of_sound w c db tokens origin app_id
      (or_refused_ok (app_of db origin (authenticate w c db.apps tokens)) (rw read at h))
  where
    or_refused_ok : (o : Option Text) → or_refused o ≡ ok app_id → o ≡ some app_id
    or_refused_ok none e = absurd (no_answer e)
    or_refused_ok (some x) e = ap some (sym (answer_same e))
