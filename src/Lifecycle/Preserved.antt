-- ===== src/Lifecycle/Preserved.antt =====
-- compute_space/src/compute_space/core/apps.py: what changes of single rows and registrations keep, the
-- launches and deployments keep.
use aerosol.Prelude.{
  ◌≡◌, nat_eq, list_eq, if_elim, refl, Bool, true, false, Option, none, some, List, Text,
}
use aerosol.Prelude.Outcome.{Outcome, ok, err}
use aerosol.Db.{App, Db, running, error, starting}
use aerosol.Services.{ServiceProvides, register_services_provided_by_app}
use aerosol.Lifecycle.{AppManifest, update_app, mark_app_starting, keep_marker}
use aerosol.Lifecycle.Launch.{
  StopEnd, gone, still_there, stop_raised, leave_running, remove_stale, Runtime, Launch, Build,
  find_app, as_error, record_failure, prepare, set_container, remove_stale, stop_container,
  clean_up, finish, start, run_app_image, build_image, build_then_run_app, caught,
  deploy_app_background, no_answer_message, no_app_message, low_storage_message,
}
use aerosol.Lifecycle.Rows.{IsChange}

-- A property of the database that single rows may change under.
pub record IsStable (P : Db → Type 0) : Type 0 where
  pub changes :
      (app_id : Text) (change : App → App) (db : Db)
      → IsChange change
      → P db
      → P (update_app app_id change db)
  pub registers :
      (app_id : Text) (provides : List ServiceProvides) (db : Db)
      → P db
      → P (register_services_provided_by_app app_id provides db)

module _ (P : Db → Type 0) (stable : IsStable P) (app_id : Text) where
  abbrev Keeps : Runtime × Option Text → Type 0
  Keeps end = P end.0.db

  fail-Keeps :
      (message : Text) (container_id : Option Text) (rt : Runtime)
      → P rt.db
      → Keeps (record_failure app_id message container_id rt)
  unfolding record_failure
  fail-Keeps message container_id rt h =
      stable.changes app_id (as_error message container_id) rt.db
        (record { same_id = λ a. refl; same_name = λ a. refl; same_port = λ a. refl }) h

  clean_up-Keeps :
      (container_id message : Text) (rt : Runtime)
      → P rt.db
      → (end : StopEnd) → Keeps (clean_up app_id container_id message end rt)
  unfolding clean_up stop_container
  clean_up-Keeps container_id message rt h gone =
      fail-Keeps message none (stop_container container_id rt) h
  clean_up-Keeps container_id message rt h still_there = fail-Keeps message none rt h
  clean_up-Keeps container_id message rt h (stop_raised true) =
      fail-Keeps message (some container_id) (stop_container container_id rt) h
  clean_up-Keeps container_id message rt h (stop_raised false) =
      fail-Keeps message (some container_id) rt h

  finish-Keeps :
      (container_id : Text) (launch : Launch) (rt : Runtime)
      → P rt.db
      → Keeps (finish app_id container_id launch rt)
  unfolding finish
  finish-Keeps container_id launch rt h = by_answer launch.wait_for_ready
    where
      by_answer :
          (o : Outcome Text Bool)
          → Keeps (elim o as (λ _. Runtime × Option Text) [
            | ok true ↦ (
              record rt {
                db =
                    update_app app_id
                      (λ a. record a { status = running; error_message = none })
                      rt.db;
              },
              none,
            )
            | ok false ↦ (
              record rt {
                db =
                    update_app app_id
                      (λ a. record a { status = error; error_message = some no_answer_message })
                      rt.db;
              },
              none,
            )
            | err message ↦ clean_up app_id container_id message launch.stop rt
          ])
      by_answer (ok true) =
          stable.changes app_id (λ a. record a { status = running; error_message = none }) rt.db
            (record { same_id = λ a. refl; same_name = λ a. refl; same_port = λ a. refl }) h
      by_answer (ok false) =
          stable.changes app_id
            (λ a. record a { status = error; error_message = some no_answer_message }) rt.db
            (record { same_id = λ a. refl; same_name = λ a. refl; same_port = λ a. refl }) h
      by_answer (err message) = clean_up-Keeps container_id message rt h launch.stop

  stale_db : (b : Bool) (name : Text) (rt : Runtime) → (remove_stale b name rt).db ≡ rt.db
  unfolding remove_stale
  stale_db true name rt = refl
  stale_db false name rt = refl

  left_db : (o : Option Text) (name : Text) (rt : Runtime) → (leave_running o name rt).db ≡ rt.db
  unfolding leave_running
  left_db none name rt = refl
  left_db (some container_id) name rt = refl

  start-Keeps :
      (app_name : Text) (launch : Launch) (rt : Runtime)
      → P rt.db
      → Keeps (start app_id app_name launch rt)
  unfolding start set_container
  start-Keeps app_name launch rt h = by_run launch.run_container
    where
      cleared : Runtime
      cleared = remove_stale launch.stale_removed app_name rt

      at_start : P cleared.db
      at_start = rw (stale_db launch.stale_removed app_name rt) h

      by_run :
          (o : Outcome Text Text)
          → Keeps (elim o as (λ _. Runtime × Option Text) [
            | err message ↦
                record_failure app_id message none
                  (leave_running launch.left_running app_name cleared)
            | ok container_id ↦
                finish app_id container_id launch
                  (set_container app_id app_name container_id cleared)
          ])
      by_run (err message) =
          fail-Keeps message none (leave_running launch.left_running app_name cleared)
            (rw (left_db launch.left_running app_name cleared) at_start)
      by_run (ok container_id) =
          finish-Keeps container_id launch (set_container app_id app_name container_id cleared) (
            stable.changes app_id (λ a. record a { container_id = some container_id }) cleared.db
              (record { same_id = λ a. refl; same_name = λ a. refl; same_port = λ a. refl })
              at_start)

  pub mark_app_starting-Keeps : (db : Db) → P db → P (mark_app_starting app_id db)
  unfolding mark_app_starting
  mark_app_starting-Keeps db h =
      stable.changes app_id
        (λ a. record a { status = starting; error_message = keep_marker a.error_message }) db
        (record { same_id = λ a. refl; same_name = λ a. refl; same_port = λ a. refl }) h

  pub caught-Keeps : (end : Runtime × Option Text) → P end.0.db → P (caught app_id end).db
  unfolding caught
  caught-Keeps (rt, none) h = h
  caught-Keeps (rt, some message) h =
      stable.changes app_id (λ a. record a { status = error; error_message = some message }) rt.db
        (record { same_id = λ a. refl; same_name = λ a. refl; same_port = λ a. refl }) h

  module _ (digest : Text → Text) (manifest : AppManifest) (launch : Launch) where
    pub run_app_image-Keeps :
        (rt : Runtime) → P rt.db → P (run_app_image digest app_id manifest launch rt).0.db
    unfolding run_app_image prepare
    run_app_image-Keeps rt h = by_row (find_app app_id rt.db)
      where
        by_env :
            (row : App) (o : Outcome Text (Option Text))
            → Keeps (elim o as (λ _. Runtime × Option Text) [
              | err message ↦ record_failure app_id message row.container_id rt
              | ok token ↦ start app_id row.name launch (prepare digest app_id token manifest rt)
            ])
        by_env row (err message) = fail-Keeps message row.container_id rt h
        by_env row (ok token) =
            start-Keeps row.name launch (prepare digest app_id token manifest rt) (
              mark_app_starting-Keeps
                (register_services_provided_by_app app_id manifest.provides rt.db)
                (stable.registers app_id manifest.provides rt.db h))

        by_row :
            (o : Option App)
            → Keeps (elim o as (λ _. Runtime × Option Text) [
              | none ↦ (rt, some no_app_message)
              | some row ↦ elim launch.env_vars as (λ _. Runtime × Option Text) [
                | err message ↦ record_failure app_id message row.container_id rt
                | ok token ↦ start app_id row.name launch (prepare digest app_id token manifest rt)
              ]
            ])
        by_row none = h
        by_row (some row) = by_env row launch.env_vars

    pub deploy_app_background-Keeps :
        (low : Bool) (attempts : List Build) (rt : Runtime)
        → P rt.db
        → P (deploy_app_background digest app_id manifest low attempts launch rt).db
    unfolding deploy_app_background build_then_run_app
    deploy_app_background-Keeps low attempts rt h =
        if_elim (λ (r : Runtime). P r.db) low
          (λ full. caught-Keeps (rt, some low_storage_message) h)
          (λ fits.
            caught-Keeps
              (elim (build_image 3 attempts) as (λ _. Runtime × Option Text) [
                | some message ↦ (rt, some message)
                | none ↦ run_app_image digest app_id manifest launch rt
              ])
              (by_build (build_image 3 attempts)))
      where
        by_build :
            (o : Option Text)
            → P
                (elim o as (λ _. Runtime × Option Text) [
                  | some message ↦ (rt, some message)
                  | none ↦ run_app_image digest app_id manifest launch rt
                ]).0.db
        by_build (some message) = h
        by_build none = run_app_image-Keeps rt h
