-- ===== src/Auth/Requests.antt =====
-- compute_space/src/compute_space/web/auth/auth.py: who makes a request, and what it may do. A
-- connection is what the checks read of it. `urlparse` is a parameter: the host and the port of a text, each
-- empty where there is none, or ValueError for a bad port.
use aerosol.Prelude.{
  ℕ, list_eq, nat_eq, ◌==◌, if◌then◌else◌, Bool, true, false, Option, none, some, List, [], ◌∷◌,
  ◌++◌, is_empty, Text, codes, lower, strip, starts_with,
}
use aerosol.Db.{App, Db}
use aerosol.Routing.{get_app_from_hostname}
use aerosol.Auth.{
  Tokens, Accessor, authenticated_user, authenticated_api_key, authenticated_app, AuthError,
  not_authorized, validate_session_token, validate_api_token, validate_app_token, Outcome, ok, err,
  ◌>>=◌,
}

pub record Connection : Type 0 where
  pub session_cookie : Option Text
  pub authorization : Text
  pub origin : Option Text
  pub netloc : Text

-- What the checks take from outside.
pub record World : Type 0 where
  pub digest : Text → Text
  pub now : ℕ
  pub urlparse : Text → Outcome AuthError (Text × Text)

abbrev pub drop_seven : Text → Text
drop_seven (_ ∷ _ ∷ _ ∷ _ ∷ _ ∷ _ ∷ _ ∷ t) = t
drop_seven _ = []

unfoldable pub get_bearer_token_if_set : Connection → Option Text
get_bearer_token_if_set c =
    if starts_with (lower c.authorization) (codes "bearer ")
    then (let token = strip (drop_seven c.authorization) in
        if is_empty token then none else some token)
    else none

abbrev pub or_null : Text → Text
or_null t = if is_empty t then codes "null" else t

-- `f"{host}:{port}" if port else host`, or the literal token where there is no host.
unfoldable pub format_origin : Text → Text × Text → Text
format_origin raw (host, port) =
    if is_empty host
    then or_null (lower (strip raw))
    else if is_empty port
    then host
    else host ++ b':' ∷ port

unfoldable pub get_connection_origin : World → Connection → Outcome AuthError (Option Text)
unfolding format_origin
get_connection_origin w c = elim c.origin [
  | none ↦ ok none
  | some raw ↦ w.urlparse raw >>= λ parsed. ok (some (format_origin raw parsed))
]

-- The origin is not set, or it is the target's.
unfoldable pub is_same_origin : Option Text → Text → Bool
is_same_origin none netloc = true
is_same_origin (some origin) netloc = origin == netloc

unfoldable pub verify_same_origin : World → Connection → Outcome AuthError (Unit {0})
unfolding get_connection_origin is_same_origin
verify_same_origin w c = get_connection_origin w c >>= λ origin.
    if is_same_origin origin c.netloc then ok tt else err not_authorized

abbrev pub or_else : Option Accessor → Option Accessor → Option Accessor
or_else (some a) other = some a
or_else none other = other

-- The accessor of a session cookie; an empty one is none.
unfoldable pub session_accessor : World → Connection → Tokens → Option Accessor
session_accessor w c tokens = elim c.session_cookie [
  | none ↦ none
  | some token ↦ if is_empty token then none else validate_session_token w.digest w.now token tokens
]

unfoldable pub bearer_accessor : World → Connection → List App → Tokens → Option Accessor
unfolding get_bearer_token_if_set
bearer_accessor w c apps tokens = elim (get_bearer_token_if_set c) [
  | none ↦ none
  | some token ↦
      or_else (validate_api_token w.digest w.now token tokens)
        (validate_app_token w.digest apps token tokens)
]

unfoldable pub authenticate : World → Connection → List App → Tokens → Option Accessor
unfolding session_accessor bearer_accessor
authenticate w c apps tokens =
    or_else (session_accessor w c tokens) (bearer_accessor w c apps tokens)

-- What an owner's request needs, by who makes it.
unfoldable pub is_owner : Option Text → Text → Option Accessor → Bool
unfolding is_same_origin
is_owner origin netloc none = false
is_owner origin netloc (some (authenticated_user user_id username)) = is_same_origin origin netloc
is_owner origin netloc (some authenticated_api_key) = true
is_owner origin netloc (some (authenticated_app app_id)) = false

unfoldable pub verify_owner_auth : World → Connection → Db → Tokens → Outcome AuthError (Unit {0})
unfolding authenticate get_connection_origin is_owner
verify_owner_auth w c db tokens = get_connection_origin w c >>= λ origin.
    if is_owner origin c.netloc (authenticate w c db.apps tokens) then ok tt else err not_authorized

abbrev pub id_of : Option App → Option Text
id_of none = none
id_of (some a) = some a.app_id

-- The app that a request comes from: its token's, or the one whose page the user's browser is on.
unfoldable pub app_of : Db → Option Text → Option Accessor → Option Text
app_of db origin none = none
app_of db none (some (authenticated_user user_id username)) = none
app_of db (some origin) (some (authenticated_user user_id username)) =
    id_of (get_app_from_hostname db origin)
app_of db origin (some authenticated_api_key) = none
app_of db origin (some (authenticated_app app_id)) = some app_id

abbrev pub or_refused : Option Text → Outcome AuthError Text
or_refused none = err not_authorized
or_refused (some app_id) = ok app_id

unfoldable pub verify_app_auth : World → Connection → Db → Tokens → Outcome AuthError Text
unfolding authenticate get_connection_origin app_of
verify_app_auth w c db tokens = get_connection_origin w c >>= λ origin.
    or_refused (app_of db origin (authenticate w c db.apps tokens))
