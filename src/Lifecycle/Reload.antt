-- ===== src/Lifecycle/Reload.antt =====
-- compute_space/src/compute_space/core/apps.py (_sync_port_mappings, reload_app_background): an app takes over
-- a new manifest.
use aerosol.Prelude.{
  ℕ, nat_eq, list_eq, ◌==◌, Bool, not, ◌&&◌, Option, none, some, List, [], ◌∷◌, ◌++◌, map, find?,
  filter, contains, Text, update_where, delete_where,
}
use aerosol.Prelude.Outcome.{Outcome, ok, err}
use aerosol.Db.{PortRow, Db}
use aerosol.Ports.{Host, PortMapping, PortError, resolve_port_mappings}
use aerosol.Ports.Labels.{mapping_labels}
use aerosol.Services.{register_services_provided_by_app}
use aerosol.Lifecycle.{AppManifest, with_manifest, port_row, update_app}
use aerosol.Lifecycle.Launch.{Runtime, Launch, Build, find_app, caught, start_app_process}

-- WHERE app_id = ? AND label = ?
abbrev pub is_mapping : Text → Text → PortRow → Bool
is_mapping app_id label m = m.app_id == app_id && m.label == label

-- `existing[label]`
unfoldable pub existing_row : Text → List PortRow → Text → Option PortRow
existing_row app_id rows label = find? (is_mapping app_id label) rows

-- `old_labels - new_labels`
unfoldable pub removed_labels : Text → List PortMapping → List PortRow → List Text
removed_labels app_id new_mappings rows =
    filter (λ label. not (contains label (mapping_labels new_mappings)))
      (map (λ (m : PortRow). m.label) (filter (λ (m : PortRow). m.app_id == app_id) rows))

unfoldable pub delete_labels : Text → List Text → List PortRow → List PortRow
delete_labels app_id [] rows = rows
delete_labels app_id (removed ∷ labels) rows =
    delete_labels app_id labels (delete_where (is_mapping app_id removed) rows)

abbrev pub with_host_port : PortMapping → Option PortRow → PortMapping
with_host_port pm none = pm
with_host_port pm (some m) = record pm { host_port = m.host_port }

-- A mapping to resolve: it keeps the host port of its label.
unfoldable pub keep_host_port : Text → List PortRow → PortMapping → PortMapping
unfolding existing_row
keep_host_port app_id existing pm = with_host_port pm (existing_row app_id existing pm.label)

unfoldable pub upsert : Text → List PortRow → PortMapping → List PortRow → List PortRow
unfolding existing_row
upsert app_id existing pm rows = elim (existing_row app_id existing pm.label) [
  | none ↦ rows ++ port_row app_id pm ∷ []
  | some old ↦
      update_where (is_mapping app_id pm.label)
        (λ m. record m { container_port = pm.container_port; host_port = pm.host_port }) rows
]

unfoldable pub upsert_all : Text → List PortRow → List PortMapping → List PortRow → List PortRow
unfolding upsert
upsert_all app_id existing [] rows = rows
upsert_all app_id existing (pm ∷ resolved) rows =
    upsert_all app_id existing resolved (upsert app_id existing pm rows)

-- The database with the labels of the new manifest only.
unfoldable pub without_removed : Text → List PortMapping → Db → Db
unfolding removed_labels delete_labels
without_removed app_id new_mappings db = record db {
  app_port_mappings =
      delete_labels app_id (removed_labels app_id new_mappings db.app_port_mappings)
        db.app_port_mappings;
}

-- The second part is the error that `resolve_port_mappings` raises, behind the deletions.
unfoldable pub sync_port_mappings :
    Host → ℕ → ℕ → Text → List PortMapping → Db → Db × Option PortError
unfolding without_removed keep_host_port resolve_port_mappings upsert_all
sync_port_mappings h range_start range_end app_id new_mappings db =
    let existing = db.app_port_mappings in
    let cleared = without_removed app_id new_mappings db in
    elim (resolve_port_mappings h cleared range_start range_end (some app_id)
      (map (keep_host_port app_id existing) new_mappings)) [
        | err e ↦ (cleared, some e)
        | ok resolved ↦ (
          record cleared {
            app_port_mappings = upsert_all app_id existing resolved cleared.app_port_mappings;
          },
          none,
        )
      ]

-- The manifest's columns, ports and providers. The second part is an error of the ports, which ends
-- it before the providers.
unfoldable pub take_manifest : Host → ℕ → ℕ → Text → AppManifest → Db → Db × Option PortError
unfolding with_manifest update_app sync_port_mappings register_services_provided_by_app
take_manifest h range_start range_end app_id manifest db =
    let updated = update_app app_id (with_manifest manifest) db in
    let (synced, failure) =
      sync_port_mappings h range_start range_end app_id manifest.port_mappings updated in
    elim failure [
      | some e ↦ (synced, some e)
      | none ↦ (register_services_provided_by_app app_id manifest.provides synced, none)
    ]

-- The reload from the manifest on; `parsed` is what parse_manifest makes of the checkout, the text of
-- its ValueError where it does not read it, and `describe` the text of an error of the ports. What
-- has been written when an error comes is committed with the status.
unfoldable pub reload_from :
    (Text → Text)
    → (PortError → Text)
    → Host
    → ℕ
    → ℕ
    → Text
    → Outcome Text AppManifest
    → Bool
    → List Build
    → Launch
    → Runtime
    → Runtime
unfolding take_manifest start_app_process caught
reload_from digest describe h range_start range_end app_id parsed low attempts launch rt =
    let start = λ (r : Runtime). start_app_process digest app_id parsed low attempts launch r in
    elim parsed [
      | err message ↦ caught app_id (start rt)
      | ok manifest ↦
          let (taken, failure) = take_manifest h range_start range_end app_id manifest rt.db in
          elim failure [
            | some e ↦ caught app_id (record rt { db = taken }, some (describe e))
            | none ↦ caught app_id (start (record rt { db = taken }))
          ]
    ]

-- `refreshed` is the text raised where the copy of the source fails.
unfoldable pub reload_app_background :
    (Text → Text)
    → (PortError → Text)
    → Host
    → ℕ
    → ℕ
    → Text
    → Option Text
    → Outcome Text AppManifest
    → Bool
    → List Build
    → Launch
    → Runtime
    → Runtime
unfolding find_app reload_from caught
reload_app_background digest describe h range_start range_end app_id refreshed parsed low attempts
      launch rt =
    elim (find_app app_id rt.db) [
      | none ↦ rt
      | some row ↦ elim refreshed [
        | some message ↦ caught app_id (rt, some message)
        | none ↦
            reload_from digest describe h range_start range_end app_id parsed low attempts launch rt
      ]
    ]
