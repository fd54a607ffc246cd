-- ===== src/Lifecycle/Retracked.antt =====
-- compute_space/src/compute_space/core/apps.py (reload_app_background): a reload loses no container.
use aerosol.Prelude.{
  ℕ, nat_eq, list_eq, ◌<◌, ◌≡◌, ◌≢◌, refl, ◌∙◌, Bool, true, false, Option, none, some, List, [],
  map, Elem, Distinct, Text,
}
use aerosol.Prelude.Outcome.{Outcome, ok, err}
use aerosol.Db.{App, Db, starting, error}
use aerosol.Ports.{Host, PortMapping, PortError, resolve_port_mappings}
use aerosol.Ports.Labels.{mapping_labels}
use aerosol.Ports.Resolve.{Shuffles}
use aerosol.Services.{register_services_provided_by_app}
use aerosol.Lifecycle.{AppManifest, with_manifest, update_app, keep_marker, mark_app_starting}
use aerosol.Lifecycle.Launch.{
  Runtime, Launch, Build, find_app, run_app_image, build_image, build_then_run_app, caught,
  start_app_process,
}
use aerosol.Lifecycle.Tracked.{IsTracked}
use aerosol.Lifecycle.Orphans.{Obeys, found_row, run_app_image-obeyed}
use aerosol.Lifecycle.Preserved.{mark_app_starting-Keeps, caught-Keeps}
use aerosol.Lifecycle.Deployed.{steady-IsTracked}
use aerosol.Lifecycle.Reload.{
  keep_host_port, upsert_all, without_removed, sync_port_mappings, take_manifest, reload_from,
  reload_app_background,
}
use aerosol.Lifecycle.Reloaded.{
  IsSteady, IsSteady-IsStable, take_manifest-IsSteady, start_app_process-Keeps,
}

IsTracked-apps :
    (rt : Runtime) (db : Db)
    → db.apps ≡ rt.db.apps
    → IsTracked rt
    → IsTracked (record rt { db = db })
IsTracked-apps rt db same tracked c m =
    let (a, listed, holds) = tracked c m in (a, rw same listed, holds)

sync-apps :
    (h : Host) (range_start range_end : ℕ) (app_id : Text) (new : List PortMapping) (db : Db)
    → (sync_port_mappings h range_start range_end app_id new db).0.apps ≡ db.apps
unfolding sync_port_mappings without_removed
sync-apps h range_start range_end app_id new db = by_answer (
    resolve_port_mappings h (without_removed app_id new db) range_start range_end (some app_id)
      (map (keep_host_port app_id db.app_port_mappings) new))
  where
    by_answer :
        (o : Outcome PortError (List PortMapping))
        → (elim o as (λ _. Db × Option PortError) [
          | err e ↦ (without_removed app_id new db, some e)
          | ok resolved ↦ (
            record (without_removed app_id new db) {
              app_port_mappings =
                  upsert_all app_id db.app_port_mappings resolved
                    (without_removed app_id new db).app_port_mappings;
            },
            none,
          )
        ]).0.apps
          ≡ db.apps
    by_answer (err e) = refl
    by_answer (ok resolved) = refl

take_manifest-apps :
    (h : Host) (range_start range_end : ℕ) (app_id : Text) (manifest : AppManifest) (db : Db)
    → (take_manifest h range_start range_end app_id manifest db).0.apps
      ≡ (update_app app_id (with_manifest manifest) db).apps
unfolding take_manifest register_services_provided_by_app
take_manifest-apps h range_start range_end app_id manifest db =
    by_end (sync_port_mappings h range_start range_end app_id manifest.port_mappings updated)
    ∙ sync-apps h range_start range_end app_id manifest.port_mappings updated
  where
    updated : Db
    updated = update_app app_id (with_manifest manifest) db

    by_end :
        (end : Db × Option PortError)
        → (elim end.1 as (λ _. Db × Option PortError) [
          | some e ↦ (end.0, some e)
          | none ↦ (register_services_provided_by_app app_id manifest.provides end.0, none)
        ]).0.apps
          ≡ end.0.apps
    by_end (after, none) = refl
    by_end (after, some e) = refl

module _ (digest : Text → Text) (app_id : Text) (launch : Launch) (obeys : Obeys launch) where
  caught-IsTracked : (end : Runtime × Option Text) → IsTracked end.0 → IsTracked (caught app_id end)
  unfolding caught
  caught-IsTracked (rt, none) tracked = tracked
  caught-IsTracked (rt, some message) tracked =
      steady-IsTracked app_id (λ a. record a { status = error; error_message = some message }) rt
        (record { same_id = λ a. refl; same_name = λ a. refl; same_port = λ a. refl }) (λ a. refl)
        tracked

  mark-IsTracked :
      (rt : Runtime) → IsTracked rt → IsTracked (record rt { db = mark_app_starting app_id rt.db })
  unfolding mark_app_starting
  mark-IsTracked rt =
      steady-IsTracked app_id
        (λ a. record a { status = starting; error_message = keep_marker a.error_message }) rt
        (record { same_id = λ a. refl; same_name = λ a. refl; same_port = λ a. refl }) (λ a. refl)

  start_app_process-IsTracked :
      (parsed : Outcome Text AppManifest) (low : Bool) (attempts : List Build) (rt : Runtime)
      → IsSteady rt.db
      → IsTracked rt
      → IsTracked (start_app_process digest app_id parsed low attempts launch rt).0
  unfolding start_app_process build_then_run_app
  start_app_process-IsTracked parsed true attempts rt steady tracked = tracked
  start_app_process-IsTracked (err message) false attempts rt steady tracked = tracked
  start_app_process-IsTracked (ok manifest) false attempts rt steady tracked =
      by_build (build_image 1 attempts)
    where
      marked : Runtime
      marked = record rt { db = mark_app_starting app_id rt.db }

      by_build :
          (o : Option Text)
          → IsTracked
              (elim o as (λ _. Runtime × Option Text) [
                | some message ↦ (marked, some message)
                | none ↦ run_app_image digest app_id manifest launch marked
              ]).0
      by_build (some message) = mark-IsTracked rt tracked
      by_build none =
          let kept = mark_app_starting-Keeps IsSteady IsSteady-IsStable app_id rt.db steady in
          run_app_image-obeyed digest app_id manifest launch marked kept.sound.keys obeys
            (mark-IsTracked rt tracked)

-- The keys of the schema hold, and every container is held by a row.
pub record IsWell (rt : Runtime) : Type 0 where
  pub steady : IsSteady rt.db
  pub tracked : IsTracked rt

-- The labels of a manifest that is read are different.
abbrev pub IsLabelled : Outcome Text AppManifest → Type 0
IsLabelled (err message) = Unit {0}
IsLabelled (ok manifest) = Distinct (mapping_labels manifest.port_mappings)

module _ (digest : Text → Text) (describe : PortError → Text) (h : Host) (range_start range_end : ℕ)
    (app_id : Text) (shuffles : Shuffles h) (from_one : 0 < range_start) (named : app_id ≢ [])
    (launch : Launch) (obeys : Obeys launch) where
  caught-IsWell : (end : Runtime × Option Text) → IsWell end.0 → IsWell (caught app_id end)
  caught-IsWell end well = record {
    steady = caught-Keeps IsSteady IsSteady-IsStable app_id end well.steady;
    tracked = caught-IsTracked digest app_id launch obeys end well.tracked;
  }

  start-IsWell :
      (parsed : Outcome Text AppManifest) (low : Bool) (attempts : List Build) (rt : Runtime)
      → IsWell rt
      → IsWell (start_app_process digest app_id parsed low attempts launch rt).0
  start-IsWell parsed low attempts rt well = record {
    steady =
        start_app_process-Keeps IsSteady IsSteady-IsStable digest app_id launch parsed low attempts
          rt well.steady;
    tracked =
        start_app_process-IsTracked digest app_id launch obeys parsed low attempts rt well.steady
          well.tracked;
  }

  reload_from-IsWell :
      (parsed : Outcome Text AppManifest) (low : Bool) (attempts : List Build) (rt : Runtime)
      (own : App)
      → IsLabelled parsed
      → Elem own rt.db.apps
      → own.app_id ≡ app_id
      → IsWell rt
      → IsWell
          (reload_from digest describe h range_start range_end app_id parsed low attempts launch rt)
  unfolding reload_from with_manifest
  reload_from-IsWell (err message) low attempts rt own labelled there its well =
      caught-IsWell (start_app_process digest app_id (err message) low attempts launch rt)
        (start-IsWell (err message) low attempts rt well)
  reload_from-IsWell (ok manifest) low attempts rt own labelled there its well =
      by_end (take_manifest h range_start range_end app_id manifest rt.db) (record {
        steady =
            take_manifest-IsSteady h range_start range_end app_id manifest shuffles from_one
              labelled named rt.db own there its well.steady;
        tracked =
            IsTracked-apps (record rt { db = update_app app_id (with_manifest manifest) rt.db })
              (take_manifest h range_start range_end app_id manifest rt.db).0
              (take_manifest-apps h range_start range_end app_id manifest rt.db)
              (manifest-IsTracked rt well.tracked);
      })
    where
      manifest-IsTracked :
          (r : Runtime)
          → IsTracked r
          → IsTracked (record r { db = update_app app_id (with_manifest manifest) r.db })
      manifest-IsTracked r =
          steady-IsTracked app_id (with_manifest manifest) r
            (record { same_id = λ a. refl; same_name = λ a. refl; same_port = λ a. refl })
            (λ a. refl)

      by_end :
          (end : Db × Option PortError)
          → IsWell (record rt { db = end.0 })
          → IsWell (elim end.1 as (λ _. Runtime) [
            | some e ↦ caught app_id (record rt { db = end.0 }, some (describe e))
            | none ↦ caught app_id (
                start_app_process digest app_id
                  (ok manifest)
                  low
                  attempts
                  launch
                  (record rt { db = end.0 }))
          ])
      by_end (after, none) taken =
          caught-IsWell
            (start_app_process digest app_id (ok manifest) low attempts launch
              (record rt { db = after }))
            (start-IsWell (ok manifest) low attempts (record rt { db = after }) taken)
      by_end (after, some e) taken =
          caught-IsWell (record rt { db = after }, some (describe e)) taken

  pub reload_app_background-IsWell :
      (refreshed : Option Text) (parsed : Outcome Text AppManifest) (low : Bool)
      (attempts : List Build) (rt : Runtime)
      → IsLabelled parsed
      → IsWell rt
      → IsWell (
          reload_app_background digest describe h range_start range_end app_id refreshed parsed low
            attempts launch rt)
  unfolding reload_app_background
  reload_app_background-IsWell refreshed parsed low attempts rt labelled well =
      by_row (find_app app_id rt.db) refl
    where
      by_refresh :
          (row : App)
          → find_app app_id rt.db ≡ some row
          → (o : Option Text)
          → IsWell (elim o as (λ _. Runtime) [
            | some message ↦ caught app_id (rt, some message)
            | none ↦
                reload_from digest describe h range_start range_end app_id parsed low attempts
                  launch rt
          ])
      by_refresh row e (some message) = caught-IsWell (rt, some message) well
      by_refresh row e none =
          let found = found_row app_id rt.db row e in
          reload_from-IsWell parsed low attempts rt row labelled found.0 found.1 well

      by_row :
          (o : Option App)
          → find_app app_id rt.db ≡ o
          → IsWell (elim o as (λ _. Runtime) [
            | none ↦ rt
            | some row ↦ elim refreshed as (λ _. Runtime) [
              | some message ↦ caught app_id (rt, some message)
              | none ↦
                  reload_from digest describe h range_start range_end app_id parsed low attempts
                    launch rt
            ]
          ])
      by_row none e = well
      by_row (some row) e = by_refresh row e refreshed
