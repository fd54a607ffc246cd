-- ===== src/Lifecycle/Reloading.antt =====
-- compute_space/src/compute_space/web/routes/api/apps.py (_reload_app_impl): a reload from its claim to the end of
-- its worker, where no other request comes between.
use aerosol.Prelude.{
  ℕ, nat_eq, list_eq, ◌==◌, eq_iff, if◌then◌else◌, if_elim, ◌<◌, ◌≡◌, ◌≢◌, refl, ap, Bool, true,
  not, ◌&&◌, Option, none, some, List, [], ◌∷◌, arith, Elem, elem-delete_where, update_where, Text,
}
use aerosol.Prelude.Outcome.{Outcome}
use aerosol.Db.{App, Db}
use aerosol.Ports.{Host, PortError}
use aerosol.Ports.Resolve.{Shuffles}
use aerosol.Lifecycle.{AppManifest, update_app, delete_app}
use aerosol.Lifecycle.Launch.{
  Container, Runtime, Launch, Build, find_app, stop_container, stop_app_process,
}
use aerosol.Lifecycle.Rows.{IsChange, elem-update_app_other}
use aerosol.Lifecycle.Tracked.{IsTracked}
use aerosol.Lifecycle.Orphans.{Obeys, found_row}
use aerosol.Lifecycle.Removed.{others-IsTracked}
use aerosol.Lifecycle.Claims.{is_settled, claim_rows, reloading}
use aerosol.Lifecycle.Reload.{reload_app_background}
use aerosol.Lifecycle.Reloaded.{IsSteady, IsSteady-IsStable}
use aerosol.Lifecycle.Retracked.{IsWell, IsLabelled, reload_app_background-IsWell}

-- The claim, which forgets the container, the stop of the container that the row named before, and the worker. A claim
-- that meets no row changes nothing, and ends the request unless it continues after a login.
unfoldable pub claim_stop_and_reload :
    (Text → Text)
    → (PortError → Text)
    → Host
    → ℕ
    → ℕ
    → Text
    → Bool
    → Bool
    → Option Text
    → Outcome Text AppManifest
    → Bool
    → List Build
    → Launch
    → Runtime
    → Runtime
unfolding find_app claim_rows stop_app_process reload_app_background
claim_stop_and_reload digest describe h range_start range_end app_id continue_oauth stop_ok
      refreshed parsed low attempts launch rt =
    elim (find_app app_id rt.db) [
      | none ↦ rt
      | some row ↦
          let (claimed, rowcount) = claim_rows app_id is_settled reloading rt.db in
          if rowcount == 0 && not continue_oauth
          then rt
          else reload_app_background digest describe h range_start range_end app_id refreshed parsed
              low attempts launch (stop_app_process stop_ok row (record rt { db = claimed }))
    ]

-- A claim is a change of the app's rows.
abbrev claiming : App → App
claiming a = if is_settled a.status then reloading a else a

rows_alike :
    (app_id : Text) (rows : List App)
    → update_where (λ (a : App). a.app_id == app_id && is_settled a.status) reloading rows
      ≡ update_where (λ (a : App). a.app_id == app_id) claiming rows
unfolding update_where
rows_alike app_id [] = refl
rows_alike app_id (a ∷ rows) = ground (arith, rows_alike app_id rows)

claim_rows-update_app :
    (app_id : Text) (db : Db)
    → (claim_rows app_id is_settled reloading db).0 ≡ update_app app_id claiming db
unfolding claim_rows update_app
claim_rows-update_app app_id db =
    ap (λ (rows : List App). record db { apps = rows }) (rows_alike app_id db.apps)

claiming-IsChange : IsChange claiming
claiming-IsChange = record {
  same_id =
      λ a. if_elim (λ (b : App). b.app_id ≡ a.app_id) (is_settled a.status) (λ e. refl) (λ e. refl);
  same_name =
      λ a. if_elim (λ (b : App). b.name ≡ a.name) (is_settled a.status) (λ e. refl) (λ e. refl);
  same_port = λ a.
      if_elim (λ (b : App). b.local_port ≡ a.local_port) (is_settled a.status) (λ e. refl)
        (λ e. refl);
}

module _ (app_id : Text) (rt : Runtime) (well : IsWell rt) (row : App) (there : Elem row rt.db.apps)
    (own : row.app_id ≡ app_id) where
  claimed : Runtime
  claimed = record rt { db = update_app app_id claiming rt.db }

  same_db :
      (o : Option Text)
      → (elim o as (λ _. Runtime) [
        | none ↦ claimed
        | some container_id ↦ stop_container container_id claimed
      ]).db
        ≡ claimed.db
  unfolding stop_container
  same_db none = refl
  same_db (some container_id) = refl

  same_containers :
      (o : Option Text) (c : Container)
      → Elem c
          (elim o as (λ _. Runtime) [
            | none ↦ claimed
            | some container_id ↦ stop_container container_id claimed
          ]).containers
      → Elem c
          (elim o as (λ _. Runtime) [
            | none ↦ rt
            | some container_id ↦ stop_container container_id rt
          ]).containers
  unfolding stop_container claimed
  same_containers none c m = m
  same_containers (some container_id) c m = m

  stopped-IsTracked : IsTracked (stop_app_process true row claimed)
  unfolding stop_app_process delete_app claimed
  stopped-IsTracked c m =
      let (a, listed, holds) =
        others-IsTracked app_id rt well.steady.sound.keys well.tracked row there own
          row.container_id refl c (same_containers row.container_id c m) in
      let (old, other) =
        (elem-delete_where (λ (x : App). x.app_id == app_id) a rt.db.apps).0 listed in
      let apart : a.app_id ≢ app_id = λ e. let k = (eq_iff a.app_id app_id).1 e in cc in
      (
        a,
        rw (ap (λ (d : Db). d.apps) (same_db row.container_id))
            (elem-update_app_other app_id claiming claiming-IsChange rt.db a old apart),
        holds,
      )

  stopped-IsSteady : IsSteady (stop_app_process true row claimed).db
  unfolding stop_app_process claimed
  stopped-IsSteady =
      rw (same_db row.container_id)
        (IsSteady-IsStable.changes app_id claiming rt.db claiming-IsChange well.steady)

module _ (digest : Text → Text) (describe : PortError → Text) (h : Host) (range_start range_end : ℕ)
    (app_id : Text) (shuffles : Shuffles h) (from_one : 0 < range_start) (named : app_id ≢ [])
    (launch : Launch) (obeys : Obeys launch) where
  pub claim_stop_and_reload-IsWell :
      (continue_oauth : Bool) (refreshed : Option Text) (parsed : Outcome Text AppManifest)
      (low : Bool) (attempts : List Build) (rt : Runtime)
      → IsLabelled parsed
      → IsWell rt
      → IsWell (
          claim_stop_and_reload digest describe h range_start range_end app_id continue_oauth true
            refreshed parsed low attempts launch rt)
  unfolding claim_stop_and_reload claimed
  claim_stop_and_reload-IsWell continue_oauth refreshed parsed low attempts rt labelled well =
      by_row (find_app app_id rt.db) refl
    where
      work : Runtime → Runtime
      work =
          reload_app_background digest describe h range_start range_end app_id refreshed parsed low
            attempts launch

      by_row :
          (o : Option App)
          → find_app app_id rt.db ≡ o
          → IsWell (elim o as (λ _. Runtime) [
            | none ↦ rt
            | some row ↦
                if (claim_rows app_id is_settled reloading rt.db).1 == 0 && not continue_oauth
                then rt
                else work (
                    stop_app_process true row
                      (record rt { db = (claim_rows app_id is_settled reloading rt.db).0 }))
          ])
      by_row none e = well
      by_row (some row) e =
          let found = found_row app_id rt.db row e in
          if_elim IsWell
            ((claim_rows app_id is_settled reloading rt.db).1 == 0 && not continue_oauth)
            (λ refused. well)
            (λ started. rw (claim_rows-update_app app_id rt.db) (
              reload_app_background-IsWell digest describe h range_start range_end app_id shuffles
                from_one named launch obeys refreshed parsed low attempts
                (stop_app_process true row (claimed app_id rt well row found.0 found.1)) labelled
                (record {
                  steady = stopped-IsSteady app_id rt well row found.0 found.1;
                  tracked = stopped-IsTracked app_id rt well row found.0 found.1;
                })))
