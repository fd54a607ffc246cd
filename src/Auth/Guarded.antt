-- ===== src/Auth/Guarded.antt =====
-- Which requests reach an app.
use mathlib.Core.Path.{subst}
use aerosol.Prelude.{
  ℕ, list_eq, nat_eq, if◌then◌else◌, ◌≡◌, refl, ◌⊎◌, inl, inr, Bool, true, false, Option, none,
  some, List, [], ◌∷◌, ◌++◌, map, Elem, elem-append, contains, is_empty, Text, codes, Bool-cases,
  Option-cases, if_elim, list_beq,
}
use aerosol.Db.{App, Db}
use aerosol.Domains.{Domain, match, scheme, host_no_port, is_app_subdomain}
use aerosol.Routing.{get_app_from_hostname, is_public_path}
use aerosol.Routing.Hosts.{IsHostOf, get_app_from_hostname_sound}
use aerosol.Routing.Paths.{IsDeclared, is_public_path_iff}
use aerosol.Auth.{Tokens, AuthError, not_authorized, integrity_error, value_error, Outcome, ok, err}
use aerosol.Auth.Requests.{World, verify_owner_auth}
use aerosol.Auth.Proxy.{
  ScopeType, http, websocket, other, Header, Request, Answer, pass_through, to_app,
  owner_header_name, is_owner_header, resolve_forwarded_for, forwarded_header, extra_headers,
  host_header, refuse, forward_checked, forward, dispatch_on_zone, dispatch_netloc, dispatch_url,
  dispatch, router_internal_hosts,
}

abbrev pub names_of : List Header → List Text
names_of headers = map (λ (h : Header). h.name) headers

-- Without the owner's header, none of the headers has its name.
extra_headers-no_owner :
    (r : Request) (netloc : Text) (zone : Domain) (t : ScopeType)
    → contains owner_header_name (names_of (extra_headers r netloc zone ++ host_header t netloc))
      ≡ false
unfolding extra_headers
extra_headers-no_owner r netloc zone t = by_value (resolve_forwarded_for r) t
  where
    by_blank :
        (b : Bool) (v : Text) (s : ScopeType)
        → contains owner_header_name (
            names_of (
              (record { name = codes "X-Forwarded-Host"; value = netloc }
                ∷ record { name = codes "X-Forwarded-Proto"; value = scheme zone }
                ∷ (if b then [] else record { name = codes "X-Forwarded-For"; value = v } ∷ []))
              ++ host_header s netloc))
          ≡ false
    by_blank true v http = unfold contains list_beq in refl
    by_blank true v websocket = unfold contains list_beq in refl
    by_blank true v other = unfold contains list_beq in refl
    by_blank false v http = unfold contains list_beq in refl
    by_blank false v websocket = unfold contains list_beq in refl
    by_blank false v other = unfold contains list_beq in refl

    by_value :
        (o : Option Text) (s : ScopeType)
        → contains owner_header_name (
            names_of (
              (record { name = codes "X-Forwarded-Host"; value = netloc }
                ∷ record { name = codes "X-Forwarded-Proto"; value = scheme zone }
                ∷ forwarded_header o)
              ++ host_header s netloc))
          ≡ false
    by_value none s = by_blank true [] s
    by_value (some v) s = by_blank (is_empty v) v s

-- The request is for an app at its host, and goes to the app's own port. Either it is the owner's, and
-- the headers say so; or its path is one that the app shows to everybody, and the headers do not.
pub record IsGuarded (w : World) (db : Db) (tokens : Tokens) (r : Request) (port : ℕ)
    (headers : List Header) : Type 0 where
  pub app : App
  pub netloc : Text
  pub requested : r.url_netloc ≡ some netloc
  pub at_host : IsHostOf db netloc app
  pub at_port : port ≡ app.local_port
  pub allowed :
      ((verify_owner_auth w r.connection db tokens ≡ ok tt) × Elem is_owner_header headers)
      ⊎ (IsDeclared app.public_paths r.path
          × (contains owner_header_name (names_of headers) ≡ false))

-- What an answer to an app's port shows.
abbrev Sent : World → Db → Tokens → Request → Answer → Type 0
Sent w db tokens r (to_app t port headers) = IsGuarded w db tokens r port headers
Sent w db tokens r _ = Unit

forward_checked-Sent :
    (w : World) (db : Db) (tokens : Tokens) (r : Request) (netloc : Text) (zone : Domain)
    (app : App) (outcome : Outcome AuthError (Unit {0}))
    → r.url_netloc ≡ some netloc
    → IsHostOf db netloc app
    → verify_owner_auth w r.connection db tokens ≡ outcome
    → Sent w db tokens r (forward_checked outcome r netloc app (extra_headers r netloc zone))
unfolding forward_checked
forward_checked-Sent w db tokens r netloc zone app (ok u) requested at_host e = record {
  app = app;
  netloc = netloc;
  requested = requested;
  at_host = at_host;
  at_port = refl;
  allowed = inl (
    e,
    (elem-append is_owner_header (extra_headers r netloc zone ++ is_owner_header ∷ [])
          (host_header r.type netloc)).1
        (inl (
          (elem-append is_owner_header (extra_headers r netloc zone) (is_owner_header ∷ [])).1
            (inr (inl refl)))),
  );
}
forward_checked-Sent w db tokens r netloc zone app (err not_authorized) requested at_host e =
    elim (Bool-cases (is_public_path app r.path)) [
      | inl public ↦ rw public (record {
        app = app;
        netloc = netloc;
        requested = requested;
        at_host = at_host;
        at_port = refl;
        allowed =
            inr (
              (is_public_path_iff app r.path).0 public,
              extra_headers-no_owner r netloc zone r.type,
            );
      })
      | inr private ↦ rw private (refused r.type)
    ]
  where
    refused : (t : ScopeType) → Sent w db tokens r (refuse t)
    refused http = tt
    refused websocket = tt
    refused other = tt
forward_checked-Sent w db tokens r netloc zone app (err integrity_error) requested at_host e = tt
forward_checked-Sent w db tokens r netloc zone app (err value_error) requested at_host e = tt

on_zone-Sent :
    (w : World) (db : Db) (tokens : Tokens) (r : Request) (netloc : Text) (zone : Domain)
    → r.url_netloc ≡ some netloc
    → Sent w db tokens r (dispatch_on_zone w db tokens r netloc zone)
unfolding dispatch_on_zone forward
on_zone-Sent w db tokens r netloc zone requested =
    elim (Option-cases (get_app_from_hostname db netloc)) [
      | inr (app, found) ↦
          rw (found, dispatch_on_zone)
            (forward_checked-Sent w db tokens r netloc zone app
              (verify_owner_auth w r.connection db tokens) requested
              (get_app_from_hostname_sound db netloc app found) refl)
      | inl missing ↦
          rw (missing, dispatch_on_zone)
            (if_elim (Sent w db tokens r) (is_app_subdomain zone netloc) (λ _. tt) (λ _. tt))
    ]

netloc-Sent :
    (w : World) (db : Db) (tokens : Tokens) (r : Request) (netloc : Text)
    → r.url_netloc ≡ some netloc
    → Sent w db tokens r (dispatch_netloc w db tokens r netloc)
unfolding dispatch_netloc
netloc-Sent w db tokens r netloc requested = elim (Option-cases (match db netloc)) [
  | inr (zone, found) ↦
      rw (found, dispatch_netloc) (on_zone-Sent w db tokens r netloc zone requested)
  | inl unknown ↦
      rw (unknown, dispatch_netloc)
        (if_elim (Sent w db tokens r) (contains (host_no_port netloc) router_internal_hosts)
          (λ _. tt) (λ _. tt))
]

url-Sent :
    (w : World) (db : Db) (tokens : Tokens) (r : Request) (o : Option Text)
    → r.url_netloc ≡ o
    → Sent w db tokens r (dispatch_url w db tokens r o)
url-Sent w db tokens r none requested = tt
url-Sent w db tokens r (some netloc) requested = netloc-Sent w db tokens r netloc requested

dispatch-Sent :
    (w : World) (db : Db) (tokens : Tokens) (r : Request)
    → Sent w db tokens r (dispatch w db tokens r)
unfolding dispatch
dispatch-Sent w db tokens r = by_type r.type
  where
    by_type :
        (t : ScopeType)
        → Sent w db tokens r (elim t as (λ _. Answer) [
          | other ↦ pass_through
          | http ↦ dispatch_url w db tokens r r.url_netloc
          | websocket ↦ dispatch_url w db tokens r r.url_netloc
        ])
    by_type other = tt
    by_type http = url-Sent w db tokens r r.url_netloc refl
    by_type websocket = url-Sent w db tokens r r.url_netloc refl

-- A request that reaches an app is for the app's host and goes to its port. It is the owner's and says
-- so, or its path is public and it does not say so: a path that is not public is reached by the
-- owner alone.
pub dispatch-IsGuarded :
    (w : World) (db : Db) (tokens : Tokens) (r : Request) (t : ScopeType) (port : ℕ)
    (headers : List Header)
    → dispatch w db tokens r ≡ to_app t port headers
    → IsGuarded w db tokens r port headers
dispatch-IsGuarded w db tokens r t port headers e =
    subst (Sent w db tokens r) e (dispatch-Sent w db tokens r)
