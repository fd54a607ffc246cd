-- ===== src/Services.antt =====
-- compute_space/src/compute_space/core/service_interface: who provides a service
-- (services.py, builtin_services.py) and who serves a call (resolve.py, provider.py). The library
-- `packaging` is a parameter, and so are the router's own services, of which the source has none
-- yet. The rows of a table come in any order: the list's.
pub mod Calls
pub mod Defaults
pub mod Incumbent
pub mod Resolution
pub mod Registration
pub mod Stability
pub mod Tests
pub use aerosol.Prelude.Outcome.{Outcome, ok, err, ◌>>=◌}
use aerosol.Prelude.{
  ℕ, nat_eq, list_eq, ◌==◌, ltb, leb, if◌then◌else◌, Bool, true, false, not, ◌&&◌, ◌||◌, Option,
  none, some, List, [], ◌∷◌, ◌++◌, map, all, any, is_empty, find?, filter, Text, codes, text_ltb,
  update_where, delete_where,
}
use aerosol.Db.{App, Status, running, status_beq, ProviderRow, DefaultRow, Db}
use aerosol.AppId.{router_app_id, router_app_name}

-- `packaging.version` and `packaging.specifiers`.
pub record Packaging : Type 0 where
  pub is_version : Text → Bool
  pub version_le : Text → Text → Bool
  pub is_specifier : Text → Bool
  pub satisfies : Text → Text → Bool

pub record BuiltinService : Type 0 where
  pub service_url : Text
  pub version : Text

pub data ProxyTarget : Type 0 where
  in_process : ProxyTarget
  at_local_port : ℕ → ProxyTarget

pub record ServiceProvider : Type 0 where
  pub service_url : Text
  pub app_id : Text
  pub app_name : Text
  pub service_version : Text
  pub endpoint : Text
  pub status : Status
  pub is_default : Bool

pub record ResolvedProvider : Type 0 where
  pub service_url : Text
  pub app_id : Text
  pub app_name : Text
  pub service_version : Text
  pub endpoint : Text
  pub target : ProxyTarget

-- What is raised: `LookupError`, packaging's `InvalidVersion`, and the kinds of
-- `ProviderUnavailable`.
pub data Failure : Type 0 where
  lookup_error invalid_version invalid_specifier no_provider provider_not_running version_mismatch :
      Failure

abbrev pub Result : Type 0 → Type 0
Result A = Outcome Failure A

unfoldable pub builtin_by_url : List BuiltinService → Text → Option BuiltinService
builtin_by_url builtins service_url = find? (λ b. b.service_url == service_url) builtins

-- A row of `service_providers_v2` with its app.
pub record Provided : Type 0 where
  pub provider : ProviderRow
  pub app : App

abbrev pub with_app : ProviderRow → Option App → List Provided → List Provided
with_app p none rest = rest
with_app p (some a) rest = record { provider = p; app = a } ∷ rest

-- `JOIN apps a ON a.app_id = sp.app_id`, where `app_id` is unique among the apps.
unfoldable pub join_apps : List App → List ProviderRow → List Provided
join_apps apps [] = []
join_apps apps (p ∷ rows) =
    let rest = join_apps apps rows in with_app p (find? (λ a. a.app_id == p.app_id) apps) rest

-- The rows that provide the service.
unfoldable pub provided_rows : Text → Db → List Provided
unfolding join_apps
provided_rows service_url db =
    filter (λ r. r.provider.service_url == service_url) (join_apps db.apps db.service_providers)

-- `min(r["created_at"] for r in rows)`
unfoldable pub oldest : Provided → List Provided → ℕ
oldest r [] = r.app.created_at
oldest r (s ∷ rows) =
    let rest = oldest s rows in if leb r.app.created_at rest then r.app.created_at else rest

-- `(Version(a), app_id) < (Version(b), app_id)`
unfoldable pub ranks_below : Packaging → Provided → Provided → Bool
ranks_below packaging r s =
    let a = r.provider.service_version in
    let b = s.provider.service_version in
    if packaging.version_le a b && packaging.version_le b a
    then text_ltb r.provider.app_id s.provider.app_id
    else packaging.version_le a b

-- `max`, which keeps the first of the greatest.
unfoldable pub max_row : Packaging → Provided → List Provided → Provided
unfolding ranks_below
max_row packaging best [] = best
max_row packaging best (r ∷ rows) =
    max_row packaging (if ranks_below packaging best r then r else best) rows

-- The greatest of the rows by version; each version is read, and a bad one raises.
unfoldable pub latest : Packaging → List Provided → Result (Option Text)
unfolding max_row
latest packaging [] = ok none
latest packaging (r ∷ tied) =
    if all (λ s. packaging.is_version s.provider.service_version) (r ∷ tied)
    then ok (some (max_row packaging r tied).provider.app_id)
    else err invalid_version

-- The provider among the rows whose app was installed first.
unfoldable pub incumbent : Packaging → List Provided → Result (Option Text)
unfolding oldest latest
incumbent packaging [] = ok none
incumbent packaging (r ∷ rows) =
    latest packaging (filter (λ s. s.app.created_at == oldest r rows) (r ∷ rows))

unfoldable pub incumbent_provider_id : Packaging → Text → Db → Result (Option Text)
unfolding incumbent provided_rows
incumbent_provider_id packaging service_url db = incumbent packaging (provided_rows service_url db)

-- The owner's choice, else the router, else the incumbent.
unfoldable pub default_provider_id_for_service :
    Packaging → List BuiltinService → Text → Db → Result (Option Text)
unfolding builtin_by_url incumbent_provider_id
default_provider_id_for_service packaging builtins service_url db =
    elim (find? (λ d. d.service_url == service_url) db.service_defaults) [
      | some row ↦ ok (some row.app_id)
      | none ↦ elim (builtin_by_url builtins service_url) [
        | some b ↦ ok (some router_app_id)
        | none ↦ incumbent_provider_id packaging service_url db
      ]
    ]

unfoldable pub clear_default : Text → Db → Db
clear_default service_url db = record db {
  service_defaults = delete_where (λ d. d.service_url == service_url) db.service_defaults;
}

-- INSERT OR REPLACE INTO service_defaults
unfoldable pub replace_default : Text → Text → Db → Db
replace_default service_url app_id db = record db {
  service_defaults =
      delete_where (λ d. d.service_url == service_url) db.service_defaults
      ++ record { service_url = service_url; app_id = app_id } ∷ [];
}

-- The database after the call; `LookupError` leaves it as it is.
unfoldable pub set_default : List BuiltinService → Text → Text → Db → Db × Result (Unit {0})
unfolding builtin_by_url clear_default replace_default
set_default builtins service_url app_id db =
    if app_id == router_app_id
    then elim (builtin_by_url builtins service_url) [
      | none ↦ (db, err lookup_error)
      | some b ↦ (clear_default service_url db, ok tt)
    ]
    else if any (λ p. p.service_url == service_url && p.app_id == app_id) db.service_providers
    then (replace_default service_url app_id db, ok tt)
    else (db, err lookup_error)

-- INSERT OR REPLACE INTO service_providers_v2, whose key is the service, the app and the version.
unfoldable pub replace_provider : ProviderRow → List ProviderRow → List ProviderRow
replace_provider row rows =
    delete_where
      (λ p.
        (p.service_url == row.service_url && p.app_id == row.app_id)
        && p.service_version == row.service_version)
      rows
    ++ row ∷ []

unfoldable pub replace_providers : List ProviderRow → List ProviderRow → List ProviderRow
unfolding replace_provider
replace_providers [] rows = rows
replace_providers (row ∷ provided) rows = replace_providers provided (replace_provider row rows)

-- A service of the manifest's `[[services.v2.provides]]`.
pub record ServiceProvides : Type 0 where
  pub service : Text
  pub version : Text
  pub endpoint : Text

abbrev pub as_row : Text → ServiceProvides → ProviderRow
as_row app_id svc = record {
  service_url = svc.service;
  app_id = app_id;
  service_version = svc.version;
  endpoint = svc.endpoint;
}

unfoldable pub register_services_provided_by_app : Text → List ServiceProvides → Db → Db
unfolding replace_providers
register_services_provided_by_app app_id provides db = record db {
  service_providers =
      replace_providers (map (as_row app_id) provides)
        (delete_where (λ p. p.app_id == app_id) db.service_providers);
}

unfoldable pub check_version : Packaging → Text → Text → Result (Unit {0})
check_version packaging provider_version specifier =
    if packaging.is_version provider_version
    then if packaging.satisfies provider_version specifier then ok tt else err version_mismatch
    else err version_mismatch
