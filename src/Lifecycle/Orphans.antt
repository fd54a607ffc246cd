-- ===== src/Lifecycle/Orphans.antt =====
-- compute_space/src/compute_space/core/apps.py (run_app_image): a launch from its start to its end loses
-- no container.
use mathlib.Core.Path.{subst}
use aerosol.Prelude.{
  ◌≢◌, true, false, nat_eq, list_eq, ◌==◌, eq_iff, ◌≡◌, refl, sym, ap, ◌∙◌, inl, inr, Option, none,
  some, map, Elem, same_key, Distinct, find?_sound, Text, Bool-cases,
}
use aerosol.Prelude.Outcome.{Outcome, ok, err}
use aerosol.Db.{App, Db, starting}
use aerosol.Lifecycle.{AppManifest, mark_app_starting, keep_marker}
use aerosol.Services.{register_services_provided_by_app}
use aerosol.Lifecycle.Launch.{
  still_there, Container, Runtime, Launch, find_app, record_failure, prepare, start, run_app_image,
  no_app_message,
}
use aerosol.Lifecycle.Rows.{ids_of}
use aerosol.Lifecycle.Started.{Loses, start-IsTracked}
use aerosol.Lifecycle.Tracked.{
  IsTracked, IsTrackedBut, IsClear, Own, change-IsClear, fail-IsTracked,
}

-- A container that a launch of the app may lose: one of its name that ran before, if `podman rm -f` does not remove it
-- and no other starts; one that a `podman run` leaves which raises; or its own, which has failed and is not removed
-- although nothing is raised.
pub data IsForgotten (app_id : Text) (launch : Launch) (rt : Runtime) (c : Container) : Type 0 where
  not_removed :
      (message : Text)
      → Elem c rt.containers
      → launch.stale_removed ≡ false
      → launch.run_container ≡ err message
      → IsForgotten app_id launch rt c
  left_behind :
      (message : Text)
      → launch.run_container ≡ err message
      → launch.left_running ≡ some c.container_id
      → IsForgotten app_id launch rt c
  not_stopped :
      (message : Text)
      → launch.run_container ≡ ok c.container_id
      → launch.wait_for_ready ≡ err message
      → launch.stop ≡ still_there
      → IsForgotten app_id launch rt c

-- The container has the name of the app, and the launch may lose it.
pub record IsLost (app_id : Text) (launch : Launch) (rt : Runtime) (c : Container) : Type 0 where
  pub app : App
  pub there : Elem app rt.db.apps
  pub own : (app.app_id ≡ app_id) × (app.name ≡ c.app_name)
  pub forgotten : IsForgotten app_id launch rt c

-- `podman run --name` does not start a second container of a name.
pub record OneName (app_id : Text) (launch : Launch) (rt : Runtime) : Type 0 where
  pub refuses :
      launch.stale_removed ≡ false
      → (container_id : Text) → launch.run_container ≡ ok container_id
      → (a : App) → Elem a rt.db.apps
      → a.app_id ≡ app_id
      → (c : Container) → Elem c rt.containers
      → c.app_name ≢ a.name

module _ (row : App) (Lost : Container → Type 0) where
  -- What the schema keeps, and the containers that are tracked, make the launch's start.
  IsTracked-IsClear :
      (rt : Runtime)
      → Distinct (ids_of rt.db)
      → Elem row rt.db.apps
      → IsTracked rt
      → IsClear row Lost rt
  IsTracked-IsClear rt d m tracked = record {
    distinct = d;
    present = (row, m, refl, refl);
    others = λ c n.
        let (a, listed, holds) = tracked c n in
        elim (Bool-cases (a.app_id == row.app_id)) [
          | inl same ↦
              let equal =
                same_key (λ (x : App). x.app_id) a row rt.db.apps d listed m
                  ((eq_iff a.app_id row.app_id).0 same) in
              inl (sym holds.0 ∙ ap (λ (x : App). x.name) equal)
          | inr other ↦
              inr (a, listed, (λ e. let k = (eq_iff a.app_id row.app_id).1 e in cc), holds)
        ];
  }

  IsTracked-Own :
      (rt : Runtime)
      → Distinct (map (λ (a : App). a.name) rt.db.apps)
      → Elem row rt.db.apps
      → IsTracked rt
      → Own row Lost row.container_id rt
  IsTracked-Own rt d m tracked c n mine =
      let (a, listed, holds) = tracked c n in
      let equal = same_key (λ (x : App). x.name) a row rt.db.apps d listed m (holds.0 ∙ mine) in
      inl (ap (λ (x : App). x.container_id) (sym equal) ∙ holds.1)

  prepare-IsClear :
      (digest : Text → Text) (token : Option Text) (manifest : AppManifest) (rt : Runtime)
      → IsClear row Lost rt
      → IsClear row Lost (prepare digest row.app_id token manifest rt)
  unfolding prepare mark_app_starting register_services_provided_by_app
  prepare-IsClear digest token manifest rt k =
      let registered : Runtime = record rt {
        db = register_services_provided_by_app row.app_id manifest.provides rt.db;
      } in
      let same : IsClear row Lost registered = record {
        distinct = k.distinct;
        present = k.present;
        others = k.others;
      } in
      let marked =
        change-IsClear row Lost
          (λ a. record a { status = starting; error_message = keep_marker a.error_message })
          registered (record { same_id = λ a. refl; same_name = λ a. refl; same_port = λ a. refl })
          same in
      record { distinct = marked.distinct; present = marked.present; others = marked.others }

pub found_row :
    (app_id : Text) (db : Db) (row : App)
    → find_app app_id db ≡ some row
    → Elem row db.apps × (row.app_id ≡ app_id)
unfolding find_app
found_row app_id db row e =
    let (m, k) = find?_sound (λ (a : App). a.app_id == app_id) row db.apps e in
    (m, (eq_iff row.app_id app_id).0 k)

-- The ids of the apps are distinct, and so are their names.
pub record HasKeys (db : Db) : Type 0 where
  pub ids : Distinct (ids_of db)
  pub names : Distinct (map (λ (a : App). a.name) db.apps)

-- If every container that runs is held by a row with the name of its app, this is so after a launch as well, whatever
-- the variables, podman and the app do, but for what IsLost names: a container of the app's own name, of a launch that
-- has failed, that podman did not remove, or that a `podman run` over its time has left. A container that has failed and
-- raises when it is stopped is not lost. Podman runs one container of a name.
pub run_app_image-IsTracked :
    (digest : Text → Text) (app_id : Text) (manifest : AppManifest) (launch : Launch) (rt : Runtime)
    → HasKeys rt.db
    → OneName app_id launch rt
    → IsTracked rt
    → IsTrackedBut (IsLost app_id launch rt) (run_app_image digest app_id manifest launch rt).0
unfolding run_app_image prepare
run_app_image-IsTracked digest app_id manifest launch rt keys one tracked =
    by_row (find_app app_id rt.db) refl
  where
    Lost : Container → Type 0
    Lost = IsLost app_id launch rt

    as_lost :
        (row : App)
        → Elem row rt.db.apps
        → row.app_id ≡ app_id
        → (c : Container) → c.app_name ≡ row.name
        → IsForgotten app_id launch rt c
        → Lost c
    as_lost row m own c mine why = record {
      app = row;
      there = m;
      own = (own, sym mine);
      forgotten = why;
    }

    loses :
        (row : App) (token : Option Text)
        → Elem row rt.db.apps
        → row.app_id ≡ app_id
        → Loses row Lost launch (prepare digest row.app_id token manifest rt)
    loses row token m own = record {
      old = λ kept message failed c listed mine.
          as_lost row m own c mine (not_removed message listed kept failed);
      left = λ message failed c is_left mine.
          as_lost row m own c mine (left_behind message failed is_left);
      stuck = λ container_id message started failed stays c mine its.
          as_lost row m own c mine (not_stopped message (started ∙ ap ok (sym its)) failed stays);
      one_name = λ kept container_id started c listed.
          one.refuses kept container_id started row m own c listed;
    }

    by_env :
        (row : App)
        → Elem row rt.db.apps
        → row.app_id ≡ app_id
        → (o : Outcome Text (Option Text))
        → IsTrackedBut Lost
            (elim o as (λ _. Runtime × Option Text) [
              | err message ↦ record_failure row.app_id message row.container_id rt
              | ok token ↦
                  start row.app_id row.name launch (prepare digest row.app_id token manifest rt)
            ]).0
    by_env row m own (err message) =
        fail-IsTracked row Lost message row.container_id rt
          (IsTracked-IsClear row Lost rt keys.ids m tracked)
          (IsTracked-Own row Lost rt keys.names m tracked)
    by_env row m own (ok token) =
        start-IsTracked row Lost launch (prepare digest row.app_id token manifest rt)
          (prepare-IsClear row Lost digest token manifest rt
            (IsTracked-IsClear row Lost rt keys.ids m tracked))
          (loses row token m own)

    end_of : Text → App → Runtime × Option Text
    end_of key row = elim launch.env_vars as (λ _. Runtime × Option Text) [
      | err message ↦ record_failure key message row.container_id rt
      | ok token ↦ start key row.name launch (prepare digest key token manifest rt)
    ]

    by_row :
        (o : Option App)
        → find_app app_id rt.db ≡ o
        → IsTrackedBut Lost
            (elim o as (λ _. Runtime × Option Text) [
              | none ↦ (rt, some no_app_message)
              | some row ↦ elim launch.env_vars as (λ _. Runtime × Option Text) [
                | err message ↦ record_failure app_id message row.container_id rt
                | ok token ↦ start app_id row.name launch (prepare digest app_id token manifest rt)
              ]
            ]).0
    by_row none e = λ c m. inl (tracked c m)
    by_row (some row) e =
        let (m, k) = found_row app_id rt.db row e in
        subst (λ (key : Text). IsTrackedBut Lost (end_of key row).0) k
          (by_env row m k launch.env_vars)

-- Podman does what it is told: it removes what is to be removed, and a run that raises leaves nothing.
pub record Obeys (launch : Launch) : Type 0 where
  pub removes : launch.stale_removed ≡ true
  pub clean : launch.left_running ≡ none
  pub stops : launch.stop ≢ still_there

-- Then no container is lost.
pub run_app_image-obeyed :
    (digest : Text → Text) (app_id : Text) (manifest : AppManifest) (launch : Launch) (rt : Runtime)
    → HasKeys rt.db
    → Obeys launch
    → IsTracked rt
    → IsTracked (run_app_image digest app_id manifest launch rt).0
run_app_image-obeyed digest app_id manifest launch rt keys obeys tracked c m =
    elim (run_app_image-IsTracked digest app_id manifest launch rt keys one tracked c m) [
      | inl held ↦ held
      | inr lost ↦ absurd (impossible lost.forgotten)
    ]
  where
    one : OneName app_id launch rt
    one = record { refuses = λ kept. let k = obeys.removes in cc }

    impossible : IsForgotten app_id launch rt c → ⊥
    impossible (not_removed message listed kept failed) = let k = obeys.removes in cc
    impossible (left_behind message failed is_left) = let k = obeys.clean in cc
    impossible (not_stopped message started failed stays) = obeys.stops stays
