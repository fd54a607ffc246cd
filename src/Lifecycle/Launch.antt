-- ===== src/Lifecycle/Launch.antt =====
-- compute_space/src/compute_space/core/apps.py: the launch of an app from its image
-- (run_app_image), the build before it (_build_then_run_app), the three callers, and the removal.
use aerosol.Prelude.{
  ℕ, zero, suc, nat_eq, list_eq, ◌==◌, if◌then◌else◌, Bool, true, false, ◌||◌, Option, none, some,
  List, [], ◌∷◌, ◌++◌, find?, Text, codes, delete_where,
}
use aerosol.Prelude.Outcome.{Outcome, ok, err}
use aerosol.Db.{App, Db, running, error}
use aerosol.Auth.{AppToken}
use aerosol.Services.{register_services_provided_by_app}
use aerosol.Lifecycle.{AppManifest, update_app, mark_app_starting, delete_app}

-- A container of podman: its name is that of the app, with a prefix.
pub record Container : Type 0 where
  pub app_name : Text
  pub container_id : Text

-- The database, and the containers that run.
pub record Runtime : Type 0 where
  pub db : Db
  pub app_tokens : List AppToken
  pub containers : List Container

-- How stop_container ends: the container is gone; or the last `podman rm`, whose exit code is not read, has not
-- removed it; or it raises, with the container gone or not.
pub data StopEnd : Type 0 where
  gone still_there : StopEnd
  stop_raised : Bool → StopEnd

-- What a launch meets outside: the directories and variables with the app's token, podman, and the app's
-- answer. A text is that of the exception raised. `stale_removed` says that run_container comes to `podman rm -f`
-- and that this removes what has the app's name, and `left_running` is the container that a `podman run` leaves which
-- takes more than its 60 seconds, and raises.
pub record Launch : Type 0 where
  pub env_vars : Outcome Text (Option Text)
  pub stale_removed : Bool
  pub run_container : Outcome Text Text
  pub left_running : Option Text
  pub wait_for_ready : Outcome Text Bool
  pub stop : StopEnd

unfoldable pub find_app : Text → Db → Option App
find_app app_id db = find? (λ a. a.app_id == app_id) db.apps

-- INSERT OR REPLACE: a row with the same app or the same hash gives way.
unfoldable pub put_token : (Text → Text) → Text → Option Text → List AppToken → List AppToken
put_token digest app_id none rows = rows
put_token digest app_id (some token) rows =
    delete_where (λ t. t.app_id == app_id || t.token_hash == digest token) rows
    ++ record { app_id = app_id; token_hash = digest token } ∷ []

abbrev pub as_error : Text → Option Text → App → App
as_error message container_id a = record a {
  status = error;
  error_message = some message;
  container_id = container_id;
}

abbrev pub no_answer_message : Text
no_answer_message = codes "App started but not responding to HTTP"

-- The handler of an exception, on the state that the last commit has left.
unfoldable pub record_failure : Text → Text → Option Text → Runtime → Runtime × Option Text
unfolding update_app
record_failure app_id message container_id rt =
    (record rt { db = update_app app_id (as_error message container_id) rt.db }, some message)

-- The token, the services, and the status before the container is started.
unfoldable pub prepare : (Text → Text) → Text → Option Text → AppManifest → Runtime → Runtime
unfolding put_token mark_app_starting register_services_provided_by_app
prepare digest app_id token manifest rt = record rt {
  app_tokens = put_token digest app_id token rt.app_tokens;
  db = mark_app_starting app_id (register_services_provided_by_app app_id manifest.provides rt.db);
}

-- `podman rm -f` of the container that has the app's name, before a new one is started.
unfoldable pub remove_stale : Bool → Text → Runtime → Runtime
remove_stale true app_name rt = record rt {
  containers = delete_where (λ (c : Container). c.app_name == app_name) rt.containers;
}
remove_stale false app_name rt = rt

unfoldable pub leave_running : Option Text → Text → Runtime → Runtime
leave_running none app_name rt = rt
leave_running (some container_id) app_name rt = record rt {
  containers = record { app_name = app_name; container_id = container_id } ∷ rt.containers;
}

unfoldable pub set_container : Text → Text → Text → Runtime → Runtime
unfolding update_app
set_container app_id app_name container_id rt = record rt {
  db = update_app app_id (λ a. record a { container_id = some container_id }) rt.db;
  containers = record { app_name = app_name; container_id = container_id } ∷ rt.containers;
}

unfoldable pub stop_container : Text → Runtime → Runtime
stop_container container_id rt = record rt {
  containers = delete_where (λ (c : Container). c.container_id == container_id) rt.containers;
}

-- The clean-up after a launch that has failed behind its container's start; an exception of it is kept in mind.
unfoldable pub clean_up : Text → Text → Text → StopEnd → Runtime → Runtime × Option Text
unfolding record_failure stop_container
clean_up app_id container_id message gone rt =
    record_failure app_id message none (stop_container container_id rt)
clean_up app_id container_id message still_there rt = record_failure app_id message none rt
clean_up app_id container_id message (stop_raised true) rt =
    record_failure app_id message (some container_id) (stop_container container_id rt)
clean_up app_id container_id message (stop_raised false) rt =
    record_failure app_id message (some container_id) rt

unfoldable pub finish : Text → Text → Launch → Runtime → Runtime × Option Text
unfolding update_app clean_up
finish app_id container_id launch rt = elim launch.wait_for_ready [
  | ok true ↦ (
    record rt {
      db = update_app app_id (λ a. record a { status = running; error_message = none }) rt.db;
    },
    none,
  )
  | ok false ↦ (
    record rt {
      db =
          update_app app_id
            (λ a. record a { status = error; error_message = some no_answer_message }) rt.db;
    },
    none,
  )
  | err message ↦ clean_up app_id container_id message launch.stop rt
]

unfoldable pub start : Text → Text → Launch → Runtime → Runtime × Option Text
unfolding record_failure remove_stale leave_running set_container finish
start app_id app_name launch rt =
    let cleared = remove_stale launch.stale_removed app_name rt in
    elim launch.run_container [
      | err message ↦
          record_failure app_id message none (leave_running launch.left_running app_name cleared)
      | ok container_id ↦
          finish app_id container_id launch (set_container app_id app_name container_id cleared)
    ]

abbrev pub no_app_message : Text
no_app_message = codes "No app found with id"

-- The second part is the text of the exception that is raised, if one is.
unfoldable pub run_app_image :
    (Text → Text) → Text → AppManifest → Launch → Runtime → Runtime × Option Text
unfolding find_app record_failure prepare start
run_app_image digest app_id manifest launch rt = elim (find_app app_id rt.db) [
  | none ↦ (rt, some no_app_message)
  | some row ↦ elim launch.env_vars [
    | err message ↦ record_failure app_id message row.container_id rt
    | ok token ↦ start app_id row.name launch (prepare digest app_id token manifest rt)
  ]
]

-- What an attempt to build has come to; a corrupt cache is not worth another.
pub data Build : Type 0 where
  built : Build
  cache_corrupt : Text → Build
  build_failed : Text → Build

-- The rounds that are left, with the results of the attempts: none for an image, or the text raised. Where
-- the list ends, the attempts raise nothing.
unfoldable pub build_image : ℕ → List Build → Option Text
build_image zero attempts = none
build_image (suc left) [] = none
build_image (suc left) (built ∷ attempts) = none
build_image (suc left) (cache_corrupt message ∷ attempts) = some message
build_image (suc zero) (build_failed message ∷ attempts) = some message
build_image (suc (suc left)) (build_failed message ∷ attempts) = build_image (suc left) attempts

unfoldable pub build_then_run_app :
    (Text → Text) → Text → AppManifest → ℕ → List Build → Launch → Runtime → Runtime × Option Text
unfolding build_image run_app_image
build_then_run_app digest app_id manifest max_build_attempts attempts launch rt =
    elim (build_image max_build_attempts attempts) [
      | some message ↦ (rt, some message)
      | none ↦ run_app_image digest app_id manifest launch rt
    ]

abbrev pub low_storage_message : Text
low_storage_message = codes "Storage too low"

-- `except Exception` of the background threads: the status, and nothing raised.
unfoldable pub caught : Text → Runtime × Option Text → Runtime
unfolding update_app
caught app_id (rt, none) = rt
caught app_id (rt, some message) = record rt {
  db = update_app app_id (λ a. record a { status = error; error_message = some message }) rt.db;
}

unfoldable pub deploy_app_background :
    (Text → Text) → Text → AppManifest → Bool → List Build → Launch → Runtime → Runtime
unfolding caught build_then_run_app
deploy_app_background digest app_id manifest low attempts launch rt =
    if low
    then caught app_id (rt, some low_storage_message)
    else caught app_id (build_then_run_app digest app_id manifest 3 attempts launch rt)

-- `parsed` is what parse_manifest makes of the checkout.
unfoldable pub start_app_process :
    (Text → Text)
    → Text
    → Outcome Text AppManifest
    → Bool
    → List Build
    → Launch
    → Runtime
    → Runtime × Option Text
unfolding mark_app_starting build_then_run_app
start_app_process digest app_id parsed low attempts launch rt =
    if low then (rt, some low_storage_message) else elim parsed [
      | err message ↦ (rt, some message)
      | ok manifest ↦
          build_then_run_app digest app_id manifest 1 attempts launch
            (record rt { db = mark_app_starting app_id rt.db })
    ]

unfoldable pub restart_app_process :
    (Text → Text)
    → Text
    → Outcome Text AppManifest
    → Bool
    → Launch
    → Runtime
    → Runtime × Option Text
unfolding find_app run_app_image
restart_app_process digest app_id parsed low launch rt = elim (find_app app_id rt.db) [
  | none ↦ (rt, some no_app_message)
  | some row ↦ if low then (rt, some low_storage_message) else elim parsed [
    | err message ↦ (rt, some message)
    | ok manifest ↦ run_app_image digest app_id manifest launch rt
  ]
]

-- `stop_ok` says that the container is gone then; no exception leaves it. What a failure of the other steps leaves is not in
-- the database.
unfoldable pub stop_app_process : Bool → App → Runtime → Runtime
unfolding stop_container
stop_app_process stop_ok row rt = elim row.container_id [
  | none ↦ rt
  | some container_id ↦ if stop_ok then stop_container container_id rt else rt
]

unfoldable pub remove_app_background : Text → Bool → Runtime → Runtime
unfolding find_app stop_app_process delete_app
remove_app_background app_id stop_ok rt = elim (find_app app_id rt.db) [
  | none ↦ rt
  | some row ↦
      let stopped = stop_app_process stop_ok row rt in
      record stopped {
        db = delete_app app_id stopped.db;
        app_tokens = delete_where (λ t. t.app_id == app_id) stopped.app_tokens;
      }
]
