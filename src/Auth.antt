-- ===== src/Auth.antt =====
-- compute_space/src/compute_space/core/auth/auth.py: users, sessions and tokens. The hash of a token
-- is a parameter, as are the clock, in microseconds, and the tokens that are drawn. Passwords
-- (bcrypt) are left out.
pub mod Sessions
pub mod Requests
pub mod Owner
pub mod AppAccess
pub mod Proxy
pub mod Guarded
pub mod Tests
use aerosol.Prelude.{
  ℕ, list_eq, nat_eq, ◌==◌, ltb, leb, ◌+◌, ◌*◌, ◌/◌, if◌then◌else◌, Bool, true, false, ◌&&◌, ◌||◌,
  Option, none, some, List, [], ◌∷◌, ◌++◌, any, find?, Text, delete_where,
}
use aerosol.Db.{App}
pub use aerosol.Prelude.Outcome.{Outcome, ok, err, ◌>>=◌}

-- users
pub record User : Type 0 where
  pub user_id : ℕ
  pub username : Text

-- sessions
pub record Session : Type 0 where
  pub token_hash : Text
  pub user_id : ℕ
  pub expires_at : ℕ

-- api_tokens; no expiry is NULL or the empty text.
pub record ApiToken : Type 0 where
  pub token_hash : Text
  pub expires_at : Option ℕ

-- app_tokens
pub record AppToken : Type 0 where
  pub app_id : Text
  pub token_hash : Text

pub record Tokens : Type 0 where
  pub users : List User
  pub sessions : List Session
  pub api_tokens : List ApiToken
  pub app_tokens : List AppToken

pub data Accessor : Type 0 where
  authenticated_user : ℕ → Text → Accessor
  authenticated_api_key : Accessor
  authenticated_app : Text → Accessor

pub data AuthError : Type 0 where
  not_authorized integrity_error value_error : AuthError

abbrev pub microseconds : ℕ
microseconds = 1000000

-- Four weeks.
abbrev pub session_ttl : ℕ
session_ttl = 28 * 24 * 60 * 60 * microseconds

-- `datetime(expires_at) < datetime(?)`, which counts whole seconds.
abbrev pub is_swept : ℕ → Session → Bool
is_swept now s = ltb (s.expires_at / microseconds) (now / microseconds)

abbrev pub has_user : ℕ → List User → Bool
has_user user_id users = any (λ (u : User). u.user_id == user_id) users

abbrev pub swept_sessions : ℕ → Tokens → List Session
swept_sessions now db = delete_where (is_swept now) db.sessions

-- The sweep, then the INSERT: the hash is the key, and the user must be there. The error leaves the
-- transaction to be rolled back.
unfoldable pub create_session : (Text → Text) → ℕ → Text → ℕ → Tokens → Outcome AuthError Tokens
create_session digest now token user_id db =
    if any (λ s. s.token_hash == digest token) (swept_sessions now db)
    then err integrity_error
    else if has_user user_id db.users
    then ok (record db {
      sessions =
          swept_sessions now db
          ++ record { token_hash = digest token; user_id = user_id; expires_at = now + session_ttl }
            ∷ [];
    })
    else err integrity_error

unfoldable pub revoke_session : (Text → Text) → Text → Tokens → Tokens
revoke_session digest token db = record db {
  sessions = delete_where (λ s. s.token_hash == digest token) db.sessions;
}

abbrev pub as_user : Option User → Option Accessor
as_user none = none
as_user (some u) = some (authenticated_user u.user_id u.username)

-- The session's user, if the session has not ended.
abbrev pub session_user : ℕ → List User → Option Session → Option Accessor
session_user now users none = none
session_user now users (some s) =
    if leb now s.expires_at
    then as_user (find? (λ (u : User). u.user_id == s.user_id) users)
    else none

unfoldable pub validate_session_token : (Text → Text) → ℕ → Text → Tokens → Option Accessor
validate_session_token digest now token db =
    session_user now db.users (find? (λ s. s.token_hash == digest token) db.sessions)

abbrev pub api_key : ℕ → Option ApiToken → Option Accessor
api_key now none = none
api_key now (some t) = elim t.expires_at [
  | none ↦ some authenticated_api_key
  | some expires_at ↦ if leb now expires_at then some authenticated_api_key else none
]

unfoldable pub validate_api_token : (Text → Text) → ℕ → Text → Tokens → Option Accessor
validate_api_token digest now token db =
    api_key now (find? (λ t. t.token_hash == digest token) db.api_tokens)

-- The join with `apps`.
abbrev pub token_app : List App → Option AppToken → Option Accessor
token_app apps none = none
token_app apps (some t) =
    if any (λ (a : App). a.app_id == t.app_id) apps then some (authenticated_app t.app_id) else none

unfoldable pub validate_app_token : (Text → Text) → List App → Text → Tokens → Option Accessor
validate_app_token digest apps token db =
    token_app apps (find? (λ t. t.token_hash == digest token) db.app_tokens)
