-- ===== src/Lifecycle/Deployed.antt =====
-- compute_space/src/compute_space/core/apps.py: what deployments keep.
use aerosol.Prelude.{
  nat_eq, list_eq, ◌==◌, eq_iff, if_elim, ◌≡◌, refl, ◌∙◌, inl, inr, Bool, Option, none, some, List,
  Elem, Text, Bool-cases,
}
use aerosol.Db.{App, PortRow, Db, error}
use aerosol.Services.{register_services_provided_by_app}
use aerosol.Lifecycle.{AppManifest, update_app}
use aerosol.Lifecycle.Launch.{
  Runtime, Launch, Build, run_app_image, build_image, build_then_run_app, caught,
  deploy_app_background, low_storage_message,
}
use aerosol.Lifecycle.Rows.{
  IsChange, ids-update_app, names-update_app, ports-update_app, elem-update_app_own,
  elem-update_app_other,
}
use aerosol.Lifecycle.Tracked.{IsTracked}
use aerosol.Lifecycle.Orphans.{HasKeys, Obeys, run_app_image-obeyed}
use aerosol.Lifecycle.Preserved.{IsStable}
use aerosol.Lifecycle.Installed.{IsSound}

-- Changes of rows and registrations keep the keys of the schema.
pub IsSound-IsStable : IsStable IsSound
unfolding register_services_provided_by_app update_app
IsSound-IsStable = record {
  changes = λ app_id change db keeps sound. record {
    keys = record {
      ids = rw (ids-update_app app_id change keeps db) sound.keys.ids;
      names = rw (names-update_app app_id change keeps db) sound.keys.names;
    };
    consistent = record {
      distinct = rw (ports-update_app app_id change keeps db) sound.consistent.distinct;
      linked = λ m n.
          let (a, listed, e) = sound.consistent.linked m n in
          still_linked app_id change db keeps m a listed e;
    };
  };
  registers = λ app_id provides db sound. record {
    keys = record { ids = sound.keys.ids; names = sound.keys.names };
    consistent = record { distinct = sound.consistent.distinct; linked = sound.consistent.linked };
  };
}
  where
    still_linked :
        (app_id : Text) (change : App → App) (db : Db)
        → IsChange change
        → (m : PortRow) (a : App) → Elem a db.apps
        → a.app_id ≡ m.app_id
        → (b : App) × Elem b (update_app app_id change db).apps × (b.app_id ≡ m.app_id)
    still_linked app_id change db keeps m a listed e = elim (Bool-cases (a.app_id == app_id)) [
      | inl own ↦ (
        change a,
        elem-update_app_own app_id change keeps db a listed ((eq_iff a.app_id app_id).0 own),
        keeps.same_id a ∙ e,
      )
      | inr other ↦ (
        a,
        elem-update_app_other app_id change keeps db a listed
            (λ same. let k = (eq_iff a.app_id app_id).1 same in cc),
        e,
      )
    ]

-- A change that leaves the container's id alone keeps the containers tracked.
pub steady-IsTracked :
    (app_id : Text) (change : App → App) (rt : Runtime)
    → IsChange change
    → ((a : App) → (change a).container_id ≡ a.container_id)
    → IsTracked rt
    → IsTracked (record rt { db = update_app app_id change rt.db })
steady-IsTracked app_id change rt keeps steady tracked c m =
    let (a, listed, holds) = tracked c m in
    elim (Bool-cases (a.app_id == app_id)) [
      | inl own ↦ (
        change a,
        elem-update_app_own app_id change keeps rt.db a listed ((eq_iff a.app_id app_id).0 own),
        (keeps.same_name a ∙ holds.0, steady a ∙ holds.1),
      )
      | inr other ↦ (
        a,
        elem-update_app_other app_id change keeps rt.db a listed
            (λ same. let k = (eq_iff a.app_id app_id).1 same in cc),
        holds,
      )
    ]

module _ (digest : Text → Text) (app_id : Text) (manifest : AppManifest) (launch : Launch) where
  pub deploy-IsTracked :
      (low : Bool) (attempts : List Build) (rt : Runtime)
      → HasKeys rt.db
      → Obeys launch
      → IsTracked rt
      → IsTracked (deploy_app_background digest app_id manifest low attempts launch rt)
  unfolding deploy_app_background build_then_run_app caught
  deploy-IsTracked low attempts rt keys obeys tracked =
      if_elim IsTracked low (λ full. in_error (rt, some low_storage_message) tracked)
        (λ fits. by_build (build_image 3 attempts))
    where
      in_error : (end : Runtime × Option Text) → IsTracked end.0 → IsTracked (caught app_id end)
      in_error (after, none) t = t
      in_error (after, some message) t =
          steady-IsTracked app_id (λ a. record a { status = error; error_message = some message })
            after (record { same_id = λ a. refl; same_name = λ a. refl; same_port = λ a. refl })
            (λ a. refl) t

      by_build :
          (o : Option Text)
          → IsTracked (
              caught app_id (elim o as (λ _. Runtime × Option Text) [
                | some message ↦ (rt, some message)
                | none ↦ run_app_image digest app_id manifest launch rt
              ]))
      by_build (some message) = in_error (rt, some message) tracked
      by_build none =
          in_error (run_app_image digest app_id manifest launch rt)
            (run_app_image-obeyed digest app_id manifest launch rt keys obeys tracked)
