-- ===== src/Auth/Tests.antt =====
-- A user with a session, an API token, and an app with its token.
use aerosol.Prelude.{
  ◌≡◌, refl, ◌↔◌, inl, inr, Option, none, some, List, [], ◌∷◌, nat_eq, list_eq, Distinct, Text,
  codes, evaluation,
}
use aerosol.Domains.Tests.{wiki, space, model as domains_model}
use aerosol.Domains.{is_app_subdomain, scheme}
use aerosol.Routing.{get_app_from_hostname, is_public_path}
use aerosol.Auth.{
  Tokens, not_authorized, create_session, revoke_session, validate_session_token,
  validate_api_token, validate_app_token, ok, err,
}
use aerosol.Auth.Sessions.{hashes_of}
use aerosol.Auth.Requests.{
  Connection, World, get_bearer_token_if_set, format_origin, get_connection_origin, is_same_origin,
  session_accessor, bearer_accessor, authenticate, is_owner, verify_owner_auth, app_of,
  verify_app_auth, verify_same_origin,
}
use aerosol.Auth.Owner.{OwnerEvidence, verify_owner_auth_iff}
use aerosol.Auth.AppAccess.{AppEvidence, verify_app_auth_sound}
use aerosol.Auth.Proxy.{
  http, Header, Request, to_app, login_redirect, is_owner_header, resolve_forwarded_for,
  extra_headers, forward_checked, forward, dispatch,
}
use aerosol.Auth.Guarded.{IsGuarded, dispatch-IsGuarded}

-- What the tests compute with.
model : Unit {0}
unfolding domains_model create_session revoke_session validate_session_token validate_api_token
    validate_app_token get_bearer_token_if_set format_origin get_connection_origin is_same_origin
    session_accessor bearer_accessor authenticate is_owner verify_owner_auth app_of verify_app_auth
    verify_same_origin get_app_from_hostname is_public_path is_app_subdomain scheme
    resolve_forwarded_for extra_headers forward_checked forward dispatch evaluation
model = tt

-- The hash is the token itself, and every origin is a host.
abbrev world : World
world = record { digest = λ t. t; now = 5000000; urlparse = λ t. ok (t, []) }

abbrev tokens : Tokens
tokens = record {
  users = record { user_id = 1; username = codes "ada" } ∷ [];
  sessions =
      record { token_hash = codes "s"; user_id = 1; expires_at = 9000000 }
      ∷ record { token_hash = codes "old"; user_id = 1; expires_at = 10 }
      ∷ [];
  api_tokens = record { token_hash = codes "k"; expires_at = none } ∷ [];
  app_tokens = record { app_id = wiki.app_id; token_hash = codes "w" } ∷ [];
}

abbrev connection : Text → Text → Option Text → Connection
connection cookie authorization origin = record {
  session_cookie = some cookie;
  authorization = authorization;
  origin = origin;
  netloc = codes "wiki.example.com";
}

abbrev request : Connection → Text → Request
request c path = record {
  type = http;
  url_netloc = some (codes "wiki.example.com");
  path = path;
  client = some (codes "127.0.0.1");
  forwarded_for = codes "1.2.3.4";
  connection = c;
}

answers :
    (dispatch world space tokens (request (connection [] [] none) (codes "/private"))
      ≡ login_redirect)
    × (verify_owner_auth world (connection (codes "s") [] (some (codes "evil.org"))) space tokens
        ≡ err not_authorized)
    × (verify_owner_auth world
          (connection (codes "old") (codes "Bearer  k ") (some (codes "evil.org")))
          space
          tokens
        ≡ ok tt)
unfolding model
answers = (refl, refl, refl)

abbrev sent : List Header
sent =
    record { name = codes "X-Forwarded-Host"; value = codes "wiki.example.com" }
    ∷ record { name = codes "X-Forwarded-Proto"; value = codes "https" }
    ∷ record { name = codes "X-Forwarded-For"; value = codes "1.2.3.4" }
    ∷ is_owner_header
    ∷ record { name = codes "Host"; value = codes "wiki.example.com" }
    ∷ []

reaches :
    dispatch world space tokens (request (connection (codes "s") [] none) (codes "/private"))
    ≡ to_app http 9000 sent
unfolding model
reaches = refl

dispatch-IsGuarded_example :
    IsGuarded world space tokens
      (request (connection (codes "s") [] none) (codes "/private"))
      9000
      sent
dispatch-IsGuarded_example =
    dispatch-IsGuarded world space tokens
      (request (connection (codes "s") [] none) (codes "/private")) http 9000 sent reaches

verify_owner_auth_iff_example :
    (verify_owner_auth world (connection (codes "s") [] none) space tokens ≡ ok tt)
    ↔ OwnerEvidence world (connection (codes "s") [] none) tokens none
unfolding model
verify_owner_auth_iff_example =
    verify_owner_auth_iff world (connection (codes "s") [] none) space tokens none refl

verify_app_auth_sound_example :
    AppEvidence world
      (connection (codes "s") [] (some (codes "wiki.example.com")))
      space
      tokens
      (some (codes "wiki.example.com"))
      wiki.app_id
unfolding model
verify_app_auth_sound_example =
    verify_app_auth_sound world (connection (codes "s") [] (some (codes "wiki.example.com"))) space
      tokens (some (codes "wiki.example.com")) wiki.app_id refl refl

abbrev later : Tokens
later = record tokens {
  sessions =
      record { token_hash = codes "s"; user_id = 1; expires_at = 9000000 }
      ∷ record { token_hash = codes "new"; user_id = 1; expires_at = 2419205000000 }
      ∷ [];
}

distinct : Distinct (hashes_of tokens.sessions)
distinct = ((λ m. elim m [ inl e ↦ cc | inr z ↦ z ]), ((λ m. m), tt))
