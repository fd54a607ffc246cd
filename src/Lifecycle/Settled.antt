-- ===== src/Lifecycle/Settled.antt =====
-- compute_space/src/compute_space/core/apps.py: a deployment leaves the app running or in error.
use aerosol.Prelude.{
  nat_eq, list_eq, ◌==◌, eq_iff, if_elim, ◌≡◌, ◌≢◌, ◌⊎◌, refl, inl, inr, Bool, true, false, Option,
  none, some, List, find?-eq-none_iff, All-elem, Text,
}
use aerosol.Prelude.Outcome.{Outcome, ok, err}
use aerosol.Db.{App, Db, running, error}
use aerosol.Lifecycle.{AppManifest, update_app}
use aerosol.Lifecycle.Launch.{
  StopEnd, gone, still_there, stop_raised, leave_running, Runtime, Launch, Build, find_app,
  as_error, record_failure, prepare, set_container, remove_stale, stop_container, clean_up, finish,
  start, run_app_image, build_image, build_then_run_app, caught, deploy_app_background,
  no_answer_message, no_app_message, low_storage_message,
}
use aerosol.Lifecycle.Rows.{RowsAre, RowsAre-update_app}

-- The variables are there, the container starts, and the app answers.
abbrev pub Answers : Launch → Type 0
Answers launch =
    ((token : Option Text) × (launch.env_vars ≡ ok token))
    × ((container_id : Text) × (launch.run_container ≡ ok container_id))
    × (launch.wait_for_ready ≡ ok true)

-- The app runs, with no message, if `Good` holds, and is in error with a message if not.
abbrev pub Reflects : Type 0 → App → Type 0
Reflects Good a =
    ((a.status ≡ running) × (a.error_message ≡ none) × Good)
    ⊎ ((a.status ≡ error) × (a.error_message ≢ none) × (¬ Good))

-- The same, and an exception tells that `Good` does not hold.
abbrev Observed : Type 0 → Option Text → App → Type 0
Observed Good raised a = Reflects Good a × ((message : Text) → raised ≡ some message → ¬ Good)

in_error :
    {Good : Type 0} {raised : Option Text} (app_id message : Text) (container_id : Option Text)
    (db : Db)
    → ¬ Good
    → RowsAre app_id (Observed Good raised) (update_app app_id (as_error message container_id) db)
in_error app_id message container_id db bad =
    RowsAre-update_app app_id (as_error message container_id)
      (record { same_id = λ a. refl; same_name = λ a. refl; same_port = λ a. refl }) (Observed _ _)
      db (λ a m e. (inr (refl, (λ h. cc), bad), λ text h. bad))

module _ (app_id : Text) (launch : Launch) where
  abbrev Mirrors : Runtime × Option Text → Type 0
  Mirrors end = RowsAre app_id (Observed (Answers launch) end.1) end.0.db

  clean_up-Mirrors :
      (container_id message : Text) (rt : Runtime)
      → launch.wait_for_ready ≡ err message
      → (end : StopEnd) → Mirrors (clean_up app_id container_id message end rt)
  unfolding clean_up record_failure stop_container
  clean_up-Mirrors container_id message rt e gone =
      in_error app_id message none rt.db (λ good. let k = good.2 in cc)
  clean_up-Mirrors container_id message rt e still_there =
      in_error app_id message none rt.db (λ good. let k = good.2 in cc)
  clean_up-Mirrors container_id message rt e (stop_raised true) =
      in_error app_id message (some container_id) rt.db (λ good. let k = good.2 in cc)
  clean_up-Mirrors container_id message rt e (stop_raised false) =
      in_error app_id message (some container_id) rt.db (λ good. let k = good.2 in cc)

  finish-Mirrors :
      (token : Option Text) (container_id : Text) (rt : Runtime)
      → launch.env_vars ≡ ok token
      → launch.run_container ≡ ok container_id
      → Mirrors (finish app_id container_id launch rt)
  unfolding finish
  finish-Mirrors token container_id rt prepared started = by_answer launch.wait_for_ready refl
    where
      by_answer :
          (o : Outcome Text Bool)
          → launch.wait_for_ready ≡ o
          → Mirrors (elim o as (λ _. Runtime × Option Text) [
            | ok true ↦ (
              record rt {
                db =
                    update_app app_id
                      (λ a. record a { status = running; error_message = none })
                      rt.db;
              },
              none,
            )
            | ok false ↦ (
              record rt {
                db =
                    update_app app_id
                      (λ a. record a { status = error; error_message = some no_answer_message })
                      rt.db;
              },
              none,
            )
            | err message ↦ clean_up app_id container_id message launch.stop rt
          ])
      by_answer (ok true) e =
          RowsAre-update_app app_id (λ a. record a { status = running; error_message = none })
            (record { same_id = λ a. refl; same_name = λ a. refl; same_port = λ a. refl })
            (Observed (Answers launch) none) rt.db
            (λ a m same.
              (inl (refl, refl, ((token, prepared), (container_id, started), e)), λ text h. cc))
      by_answer (ok false) e =
          RowsAre-update_app app_id
            (λ a. record a { status = error; error_message = some no_answer_message })
            (record { same_id = λ a. refl; same_name = λ a. refl; same_port = λ a. refl })
            (Observed (Answers launch) none) rt.db
            (λ a m same. (inr (refl, (λ h. cc), (λ good. let k = good.2 in cc)), λ text h. cc))
      by_answer (err message) e = clean_up-Mirrors container_id message rt e launch.stop

  start-Mirrors :
      (app_name : Text) (token : Option Text) (rt : Runtime)
      → launch.env_vars ≡ ok token
      → Mirrors (start app_id app_name launch rt)
  unfolding start record_failure
  start-Mirrors app_name token rt prepared = by_run launch.run_container refl
    where
      by_run :
          (o : Outcome Text Text)
          → launch.run_container ≡ o
          → Mirrors (elim o as (λ _. Runtime × Option Text) [
            | err message ↦ record_failure app_id message none (
                leave_running launch.left_running app_name
                  (remove_stale launch.stale_removed app_name rt))
            | ok container_id ↦ finish app_id container_id launch (
                set_container app_id app_name container_id
                  (remove_stale launch.stale_removed app_name rt))
          ])
      by_run (err message) e =
          in_error app_id message none
            (leave_running launch.left_running app_name
              (remove_stale launch.stale_removed app_name rt)).db
            (λ good. let k = good.1.1 in cc)
      by_run (ok container_id) e = finish-Mirrors token container_id _ prepared e

no_rows :
    (app_id : Text) (db : Db) (P : App → Type 0) → find_app app_id db ≡ none → RowsAre app_id P db
unfolding find_app
no_rows app_id db P missing a m e =
    let none_passes = (find?-eq-none_iff (λ (x : App). x.app_id == app_id) db.apps).0 missing in
    let fails = All-elem (λ (x : App). (x.app_id == app_id) ≡ false) a db.apps none_passes m in
    let passes = (eq_iff a.app_id app_id).1 e in cc

module _ (digest : Text → Text) (app_id : Text) (manifest : AppManifest) (launch : Launch) where
  run_app_image-Mirrors :
      (rt : Runtime) → Mirrors app_id launch (run_app_image digest app_id manifest launch rt)
  unfolding run_app_image
  run_app_image-Mirrors rt = by_row (find_app app_id rt.db) refl
    where
      by_env :
          (row : App)
          → (o : Outcome Text (Option Text)) → launch.env_vars ≡ o
          → Mirrors app_id launch (elim o as (λ _. Runtime × Option Text) [
            | err message ↦ record_failure app_id message row.container_id rt
            | ok token ↦ start app_id row.name launch (prepare digest app_id token manifest rt)
          ])
      by_env row (err message) e =
          unfold record_failure in
          in_error app_id message row.container_id rt.db (λ good. let k = good.0.1 in cc)
      by_env row (ok token) e = start-Mirrors app_id launch row.name token _ e

      by_row :
          (o : Option App)
          → find_app app_id rt.db ≡ o
          → Mirrors app_id launch (elim o as (λ _. Runtime × Option Text) [
            | none ↦ (rt, some no_app_message)
            | some row ↦ elim launch.env_vars as (λ _. Runtime × Option Text) [
              | err message ↦ record_failure app_id message row.container_id rt
              | ok token ↦ start app_id row.name launch (prepare digest app_id token manifest rt)
            ]
          ])
      by_row none e = no_rows app_id rt.db (Observed (Answers launch) (some no_app_message)) e
      by_row (some row) e = by_env row launch.env_vars refl

-- What a deployment needs: free disk space, an image within three attempts, and an app that answers.
abbrev pub Deploys : Bool → List Build → Launch → Type 0
Deploys low attempts launch = (low ≡ false) × (build_image 3 attempts ≡ none) × Answers launch

module _ (digest : Text → Text) (app_id : Text) (manifest : AppManifest) (low : Bool)
    (attempts : List Build) (launch : Launch) where
  abbrev Shows : Runtime → Type 0
  Shows rt = RowsAre app_id (Reflects (Deploys low attempts launch)) rt.db

  caught-Shows :
      (end : Runtime × Option Text)
      → (end.1 ≡ none → Shows end.0)
      → ((message : Text)
          → end.1 ≡ some message
          → RowsAre app_id (λ a. ¬ Deploys low attempts launch) end.0.db)
      → Shows (caught app_id end)
  unfolding caught
  caught-Shows (rt, none) fine bad = fine refl
  caught-Shows (rt, some message) fine bad =
      RowsAre-update_app app_id (λ a. record a { status = error; error_message = some message })
        (record { same_id = λ a. refl; same_name = λ a. refl; same_port = λ a. refl })
        (Reflects (Deploys low attempts launch)) rt.db
        (λ a m e. inr (refl, (λ h. cc), bad message refl a m e))

  run-Shows :
      (rt : Runtime)
      → low ≡ false
      → build_image 3 attempts ≡ none
      → Shows (caught app_id (run_app_image digest app_id manifest launch rt))
  run-Shows rt space_left image =
      let seen = run_app_image-Mirrors digest app_id manifest launch rt in
      caught-Shows (run_app_image digest app_id manifest launch rt)
        (λ quiet a m own. deepen a (seen a m own).0)
        (λ message raised a m own needs. (seen a m own).1 message raised needs.2)
    where
      deepen : (a : App) → Reflects (Answers launch) a → Reflects (Deploys low attempts launch) a
      deepen a (inl (up, clear, good)) = inl (up, clear, (space_left, image, good))
      deepen a (inr (down, message, bad)) = inr (down, message, λ needs. bad needs.2)

  -- However a deployment goes, it ends with the app running and without a message, if there was free
  -- space, an image within three attempts, and a container that answered; and in error with a
  -- message otherwise. It leaves no app building or starting.
  pub deploy_app_background-Reflects :
      (rt : Runtime)
      → RowsAre app_id
          (Reflects (Deploys low attempts launch))
          (deploy_app_background digest app_id manifest low attempts launch rt).db
  unfolding deploy_app_background build_then_run_app
  deploy_app_background-Reflects rt =
      if_elim Shows low
        (λ full.
          caught-Shows (rt, some low_storage_message) (λ h. cc)
            (λ message e a m own needs. let k = needs.0 in cc))
        (λ space_left. by_build space_left (build_image 3 attempts) refl)
    where
      by_build :
          low ≡ false
          → (o : Option Text) → build_image 3 attempts ≡ o
          → Shows (
              caught app_id (elim o as (λ _. Runtime × Option Text) [
                | some message ↦ (rt, some message)
                | none ↦ run_app_image digest app_id manifest launch rt
              ]))
      by_build space_left (some message) e =
          caught-Shows (rt, some message) (λ h. cc) (λ text h a m own needs. let k = needs.1 in cc)
      by_build space_left none e = run-Shows rt space_left e
