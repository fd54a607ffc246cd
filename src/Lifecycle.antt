-- ===== src/Lifecycle.antt =====
-- compute_space/src/compute_space/core/apps.py: how an app is installed, launched, reloaded and
-- removed. Podman, the repository and the network are parameters; the columns are those of `Db`,
-- and a manifest has the parts that they come from.
pub mod Launch
pub mod Rows
pub mod Settled
pub mod Tracked
pub mod Started
pub mod Orphans
pub mod Preserved
pub mod Installed
pub mod Deployed
pub mod Removed
pub mod Reload
pub mod Upserts
pub mod Mapped
pub mod Synced
pub mod Sync
pub mod Keyed
pub mod Claims
pub mod Taken
pub mod Leaving
pub mod Exclusive
pub mod Reloaded
pub mod Retracked
pub mod Reloading
pub mod Reached
pub mod ClaimTests
pub mod Tests
use aerosol.Prelude.{
  ℕ, nat_eq, list_eq, ◌==◌, if◌then◌else◌, Bool, true, false, not, ◌||◌, Option, none, some, List,
  [], ◌∷◌, ◌++◌, map, find?, any, contains, Text, codes, update_where, delete_where,
}
use aerosol.Prelude.Outcome.{Outcome, ok, err}
use aerosol.Db.{App, PortRow, ProviderRow, DefaultRow, Db, Status, building, starting}
use aerosol.AppId.{is_valid_app_name}
use aerosol.Auth.{AppToken}
use aerosol.Domains.Store.{primary_domain_restart_marker}
use aerosol.Ports.{Host, PortMapping, PortError}
use aerosol.Ports.Install.{InstallPorts, install_ports}
use aerosol.Services.{ServiceProvides, register_services_provided_by_app}

pub record AppManifest : Type 0 where
  pub name : Text
  pub port_mappings : List PortMapping
  pub provides : List ServiceProvides
  pub public_paths : List Text
  pub raw_toml : Text

-- RESERVED_PATHS
abbrev pub reserved_paths : List Text
reserved_paths =
    codes "/"
    ∷ codes "/dashboard"
    ∷ codes "/login"
    ∷ codes "/logout"
    ∷ codes "/add_app"
    ∷ codes "/remove_app"
    ∷ codes "/stop_app"
    ∷ codes "/reload_app"
    ∷ codes "/api"
    ∷ codes "/health"
    ∷ codes "/app"
    ∷ codes "/setup"
    ∷ codes "/.well-known"
    ∷ codes "/terminal"
    ∷ codes "/toggle-ssh"
    ∷ codes "/identity"
    ∷ codes "/settings"
    ∷ codes "/system"
    ∷ codes "/docs"
    ∷ []

pub data NameError : Type 0 where
  not_a_name reserved in_use : NameError

-- What is wrong with the name of a new app, if anything is.
unfoldable pub validate_manifest : Text → Db → Option NameError
unfolding is_valid_app_name
validate_manifest app_name db =
    if not (is_valid_app_name app_name)
    then some not_a_name
    else if contains (b'/' ∷ app_name) reserved_paths
    then some reserved
    else if any (λ (a : App). a.name == app_name) db.apps
    then some in_use
    else none

unfoldable pub has_app_id : Db → Text → Bool
has_app_id db app_id = any (λ (a : App). a.app_id == app_id) db.apps

-- The first id drawn that no app has; none where the draws do not reach one.
unfoldable pub mint_unique_app_id : List Text → Db → Option Text
unfolding has_app_id
mint_unique_app_id draws db = find? (λ candidate. not (has_app_id db candidate)) draws

-- The columns of the manifest that the model has.
unfoldable pub with_manifest : AppManifest → App → App
with_manifest manifest a = record a {
  public_paths = manifest.public_paths;
  manifest_raw = some manifest.raw_toml;
}

-- The row of a new app; `created_at` is the time of the insertion.
unfoldable pub new_app : AppManifest → Text → Text → ℕ → ℕ → App
unfolding with_manifest
new_app manifest app_id app_name local_port created_at = with_manifest manifest (record {
  app_id = app_id;
  name = app_name;
  local_port = local_port;
  container_id = none;
  status = building;
  error_message = none;
  public_paths = [];
  manifest_raw = none;
  created_at = created_at;
})

abbrev pub port_row : Text → PortMapping → PortRow
port_row app_id pm = record {
  app_id = app_id;
  label = pm.label;
  container_port = pm.container_port;
  host_port = pm.host_port;
}

pub data InstallError : Type 0 where
  storage_is_low : InstallError
  no_port : PortError → InstallError
  no_id_drawn : InstallError

-- INSERT of the app, its mappings and its services, in one transaction.
unfoldable pub insert_rows_of : AppManifest → Text → Text → ℕ → InstallPorts → Db → Db
unfolding new_app register_services_provided_by_app
insert_rows_of manifest app_id app_name created_at ports db =
    register_services_provided_by_app app_id manifest.provides (record db {
      apps = db.apps ++ new_app manifest app_id app_name ports.local_port created_at ∷ [];
      app_port_mappings = db.app_port_mappings ++ map (port_row app_id) ports.resolved_mappings;
    })

-- `insert_and_deploy` up to the thread that it starts, without the tables of tokens, databases and
-- grants.
unfoldable pub insert_and_deploy :
    Host
    → Bool
    → ℕ
    → ℕ
    → List (Text × ℕ)
    → List Text
    → ℕ
    → AppManifest
    → Text
    → Db
    → Outcome InstallError (Db × Text)
unfolding install_ports mint_unique_app_id insert_rows_of
insert_and_deploy h low range_start range_end port_overrides draws now manifest app_name db =
    if low
    then err storage_is_low
    else elim (install_ports h db range_start range_end port_overrides manifest.port_mappings) [
      | err failure ↦ err (no_port failure)
      | ok ports ↦ elim (mint_unique_app_id draws db) [
        | none ↦ err no_id_drawn
        | some app_id ↦ ok (insert_rows_of manifest app_id app_name now ports db, app_id)
      ]
    ]

-- UPDATE apps … WHERE app_id = ?
unfoldable pub update_app : Text → (App → App) → Db → Db
update_app app_id change db = record db {
  apps = update_where (λ (a : App). a.app_id == app_id) change db.apps;
}

abbrev pub keep_marker : Option Text → Option Text
keep_marker none = none
keep_marker (some message) = if message == primary_domain_restart_marker then some message else none

unfoldable pub mark_app_starting : Text → Db → Db
unfolding update_app
mark_app_starting app_id db =
    update_app app_id
      (λ a. record a { status = starting; error_message = keep_marker a.error_message }) db

-- DELETE FROM apps, with the rows of the other tables that refer to the app.
unfoldable pub delete_app : Text → Db → Db
delete_app app_id db = record db {
  apps = delete_where (λ (a : App). a.app_id == app_id) db.apps;
  app_port_mappings = delete_where (λ (m : PortRow). m.app_id == app_id) db.app_port_mappings;
  service_providers = delete_where (λ (p : ProviderRow). p.app_id == app_id) db.service_providers;
  service_defaults = delete_where (λ (d : DefaultRow). d.app_id == app_id) db.service_defaults;
}
