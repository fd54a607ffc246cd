-- ===== src/Auth/Proxy.antt =====
-- compute_space/src/compute_space/web/middleware/subdomain_proxy.py: where a request goes. The
-- transport is left out: an answer says what is sent, and to which port.
use aerosol.Prelude.{
  ℕ, list_eq, nat_eq, if◌then◌else◌, Option, none, some, List, [], ◌∷◌, ◌++◌, contains, is_empty,
  Text, codes,
}
use aerosol.Db.{App, Db}
use aerosol.Domains.{Domain, match, host_no_port, is_app_subdomain, scheme}
use aerosol.Routing.{get_app_from_hostname, is_public_path}
use aerosol.Auth.{Tokens, AuthError, not_authorized, integrity_error, value_error, Outcome, ok, err}
use aerosol.Auth.Requests.{Connection, World, verify_owner_auth}

pub data ScopeType : Type 0 where
  http websocket other : ScopeType

pub record Header : Type 0 where
  pub name : Text
  pub value : Text

-- What the middleware reads of a request. The netloc is none where the URL cannot be parsed; the
-- peer is its address.
pub record Request : Type 0 where
  pub type : ScopeType
  pub url_netloc : Option Text
  pub path : Text
  pub client : Option Text
  pub forwarded_for : Text
  pub connection : Connection

pub data Answer : Type 0 where
  pass_through bad_request not_found internal_error : Answer
  login_redirect close_unauthenticated : Answer
  to_app : ScopeType → ℕ → List Header → Answer

abbrev pub router_internal_hosts : List Text
router_internal_hosts =
    codes "host.containers.internal" ∷ codes "host.docker.internal" ∷ codes "127.0.0.1" ∷ []

abbrev pub loopback_hosts : List Text
loopback_hosts = codes "127.0.0.1" ∷ codes "::1" ∷ []

abbrev pub owner_header_name : Text
owner_header_name = codes "X-OpenHost-Is-Owner"

abbrev pub is_owner_header : Header
is_owner_header = record { name = owner_header_name; value = codes "true" }

unfoldable pub resolve_forwarded_for : Request → Option Text
resolve_forwarded_for r = elim r.client [
  | none ↦ none
  | some peer ↦
      if contains peer loopback_hosts
      then (if is_empty r.forwarded_for then some peer else some r.forwarded_for)
      else some peer
]

-- `if forwarded_for := …`: an empty value is left out.
abbrev pub forwarded_header : Option Text → List Header
forwarded_header none = []
forwarded_header (some v) =
    if is_empty v then [] else record { name = codes "X-Forwarded-For"; value = v } ∷ []

unfoldable pub extra_headers : Request → Text → Domain → List Header
unfolding resolve_forwarded_for
extra_headers r netloc zone =
    record { name = codes "X-Forwarded-Host"; value = netloc }
    ∷ record { name = codes "X-Forwarded-Proto"; value = scheme zone }
    ∷ forwarded_header (resolve_forwarded_for r)

abbrev pub host_header : ScopeType → Text → List Header
host_header http netloc = record { name = codes "Host"; value = netloc } ∷ []
host_header _ netloc = []

-- The request goes to the app's port; the Host header is rewritten for HTTP alone.
abbrev pub send_to : Request → Text → App → List Header → Answer
send_to r netloc app headers = to_app r.type app.local_port (headers ++ host_header r.type netloc)

abbrev pub refuse : ScopeType → Answer
refuse http = login_redirect
refuse _ = close_unauthenticated

-- What is done with the outcome of the owner's check.
unfoldable pub forward_checked :
    Outcome AuthError (Unit {0}) → Request → Text → App → List Header → Answer
forward_checked (ok u) r netloc app headers = send_to r netloc app (headers ++ is_owner_header ∷ [])
forward_checked (err not_authorized) r netloc app headers =
    if is_public_path app r.path then send_to r netloc app headers else refuse r.type
forward_checked (err integrity_error) r netloc app headers = internal_error
forward_checked (err value_error) r netloc app headers = internal_error

unfoldable pub forward : World → Db → Tokens → Request → Text → Domain → App → Answer
unfolding extra_headers forward_checked
forward w db tokens r netloc zone app =
    forward_checked (verify_owner_auth w r.connection db tokens) r netloc app
      (extra_headers r netloc zone)

-- On a configured domain: to the app, or to the router itself on the bare domain.
unfoldable pub dispatch_on_zone : World → Db → Tokens → Request → Text → Domain → Answer
unfolding forward
dispatch_on_zone w db tokens r netloc zone = elim (get_app_from_hostname db netloc) [
  | some app ↦ forward w db tokens r netloc zone app
  | none ↦ if is_app_subdomain zone netloc then not_found else pass_through
]

unfoldable pub dispatch_netloc : World → Db → Tokens → Request → Text → Answer
unfolding dispatch_on_zone
dispatch_netloc w db tokens r netloc = elim (match db netloc) [
  | some zone ↦ dispatch_on_zone w db tokens r netloc zone
  | none ↦ if contains (host_no_port netloc) router_internal_hosts then pass_through else not_found
]

abbrev pub dispatch_url : World → Db → Tokens → Request → Option Text → Answer
dispatch_url w db tokens r none = bad_request
dispatch_url w db tokens r (some netloc) = dispatch_netloc w db tokens r netloc

unfoldable pub dispatch : World → Db → Tokens → Request → Answer
unfolding dispatch_netloc
dispatch w db tokens r = elim r.type [
  | other ↦ pass_through
  | http ↦ dispatch_url w db tokens r r.url_netloc
  | websocket ↦ dispatch_url w db tokens r r.url_netloc
]
