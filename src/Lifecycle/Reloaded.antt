-- ===== src/Lifecycle/Reloaded.antt =====
-- compute_space/src/compute_space/core/apps.py (reload_app_background): what a reload keeps.
use aerosol.Prelude.{
  ℕ, nat_eq, list_eq, ◌==◌, eq_iff, ◌<◌, ◌≡◌, ◌≢◌, refl, sym, ◌∙◌, inl, inr, Bool, true, false,
  Option, none, some, List, [], Elem, Distinct, elem-delete_where, Text, Bool-cases,
}
use aerosol.Prelude.Outcome.{Outcome, ok, err}
use aerosol.Db.{App, PortRow, Db}
use aerosol.Ports.{Host, PortError}
use aerosol.Ports.Labels.{mapping_labels}
use aerosol.Ports.Resolve.{Shuffles}
use aerosol.Services.{register_services_provided_by_app}
use aerosol.Lifecycle.{AppManifest, with_manifest, update_app, mark_app_starting, delete_app}
use aerosol.Lifecycle.Launch.{
  Runtime, Launch, Build, run_app_image, build_image, build_then_run_app, start_app_process,
}
use aerosol.Lifecycle.Rows.{IsChange, elem-update_app_own}
use aerosol.Lifecycle.Preserved.{IsStable, mark_app_starting-Keeps, run_app_image-Keeps}
use aerosol.Lifecycle.Installed.{IsSound}
use aerosol.Lifecycle.Deployed.{IsSound-IsStable}
use aerosol.Lifecycle.Removed.{delete_app-IsSound}
use aerosol.Lifecycle.Reload.{sync_port_mappings, take_manifest}
use aerosol.Lifecycle.Mapped.{IsKeyed}
use aerosol.Lifecycle.Sync.{SyncResult, sync_port_mappings-SyncResult}

-- The keys of the apps and of the port mappings.
pub record IsSteady (db : Db) : Type 0 where
  pub sound : IsSound db
  pub keyed : IsKeyed db.app_port_mappings

pub IsSteady-IsStable : IsStable IsSteady
unfolding update_app register_services_provided_by_app
IsSteady-IsStable = record {
  changes = λ app_id change db keeps h. record {
    sound = IsSound-IsStable.changes app_id change db keeps h.sound;
    keyed = h.keyed;
  };
  registers = λ app_id provides db h. record {
    sound = IsSound-IsStable.registers app_id provides db h.sound;
    keyed = h.keyed;
  };
}

-- Fewer rows keep the keys.
IsKeyed-fewer :
    (rows fewer : List PortRow)
    → ((m : PortRow) → Elem m fewer → Elem m rows)
    → IsKeyed rows
    → IsKeyed fewer
IsKeyed-fewer rows fewer within keyed = record {
  labels = λ m n p q. keyed.labels m n (within m p) (within n q);
  ports = λ m n p q. keyed.ports m n (within m p) (within n q);
  positive = λ m p. keyed.positive m (within m p);
}

pub delete_app-IsSteady : (app_id : Text) (db : Db) → IsSteady db → IsSteady (delete_app app_id db)
unfolding delete_app
delete_app-IsSteady app_id db steady = record {
  sound = delete_app-IsSound app_id db steady.sound;
  keyed =
      IsKeyed-fewer db.app_port_mappings (delete_app app_id db).app_port_mappings
        (λ m n.
          ((elem-delete_where (λ (x : PortRow). x.app_id == app_id) m db.app_port_mappings).0 n).0)
        steady.keyed;
}

-- The apps are the same, and each row is of an app that is there.
IsSound-rows :
    (db after : Db)
    → after.apps ≡ db.apps
    → ((m : PortRow)
        → Elem m after.app_port_mappings
        → (a : App) × Elem a db.apps × (a.app_id ≡ m.app_id))
    → IsSound db
    → IsSound after
IsSound-rows db after same linked sound = record {
  keys = record { ids = rw same sound.keys.ids; names = rw same sound.keys.names };
  consistent = record {
    distinct = rw same sound.consistent.distinct;
    linked = λ m n. let (a, listed, e) = linked m n in (a, rw same listed, e);
  };
}

module _ (h : Host) (range_start range_end : ℕ) (app_id : Text) (manifest : AppManifest)
    (shuffles : Shuffles h) (from_one : 0 < range_start)
    (labelled : Distinct (mapping_labels manifest.port_mappings)) (named : app_id ≢ []) where
  synced-IsSteady :
      (db : Db)
      → (own : App) → Elem own db.apps
      → own.app_id ≡ app_id
      → IsSteady db
      → IsSteady (sync_port_mappings h range_start range_end app_id manifest.port_mappings db).0
  synced-IsSteady db own there its steady =
      by_end (sync_port_mappings h range_start range_end app_id manifest.port_mappings db) (
        sync_port_mappings-SyncResult h range_start range_end app_id manifest.port_mappings db
          shuffles steady.sound.consistent named steady.keyed from_one labelled)
    where
      by_end :
          (end : Db × Option PortError)
          → SyncResult h range_start range_end app_id manifest.port_mappings db shuffles
              steady.sound.consistent named steady.keyed from_one labelled end
          → IsSteady end.0
      by_end (after, none) synced = record {
        sound =
            IsSound-rows db after synced.apps
              (λ m n. elim (Bool-cases (m.app_id == app_id)) [
                | inl same ↦ (own, there, its ∙ sym ((eq_iff m.app_id app_id).0 same))
                | inr apart ↦
                    steady.sound.consistent.linked m
                      ((synced.others m (λ e. let k = (eq_iff m.app_id app_id).1 e in cc)).0 n)
              ])
              steady.sound;
        keyed = synced.keyed;
      }
      by_end (after, some e) (rows, apps) = record {
        sound =
            IsSound-rows db after apps (λ m n. steady.sound.consistent.linked m ((rows m).0 n).0)
              steady.sound;
        keyed =
            IsKeyed-fewer db.app_port_mappings after.app_port_mappings (λ m n. ((rows m).0 n).0)
              steady.keyed;
      }

  pub take_manifest-IsSteady :
      (db : Db)
      → (own : App) → Elem own db.apps
      → own.app_id ≡ app_id
      → IsSteady db
      → IsSteady (take_manifest h range_start range_end app_id manifest db).0
  unfolding take_manifest with_manifest
  take_manifest-IsSteady db own there its steady =
      by_end (sync_port_mappings h range_start range_end app_id manifest.port_mappings updated) (
        synced-IsSteady updated (with_manifest manifest own)
          (elem-update_app_own app_id (with_manifest manifest) changes db own there its) its
          (IsSteady-IsStable.changes app_id (with_manifest manifest) db changes steady))
    where
      changes : IsChange (with_manifest manifest)
      changes = record { same_id = λ a. refl; same_name = λ a. refl; same_port = λ a. refl }

      updated : Db
      updated = update_app app_id (with_manifest manifest) db

      by_end :
          (end : Db × Option PortError)
          → IsSteady end.0
          → IsSteady
              (elim end.1 as (λ _. Db × Option PortError) [
                | some e ↦ (end.0, some e)
                | none ↦ (register_services_provided_by_app app_id manifest.provides end.0, none)
              ]).0
      by_end (after, none) good = IsSteady-IsStable.registers app_id manifest.provides after good
      by_end (after, some e) good = good

module _ (P : Db → Type 0) (stable : IsStable P) (digest : Text → Text) (app_id : Text)
    (launch : Launch) where
  pub start_app_process-Keeps :
      (parsed : Outcome Text AppManifest) (low : Bool) (attempts : List Build) (rt : Runtime)
      → P rt.db
      → P (start_app_process digest app_id parsed low attempts launch rt).0.db
  unfolding start_app_process build_then_run_app
  start_app_process-Keeps parsed true attempts rt h = h
  start_app_process-Keeps (err message) false attempts rt h = h
  start_app_process-Keeps (ok manifest) false attempts rt h = by_build (build_image 1 attempts)
    where
      marked : Runtime
      marked = record rt { db = mark_app_starting app_id rt.db }

      by_build :
          (o : Option Text)
          → P
              (elim o as (λ _. Runtime × Option Text) [
                | some message ↦ (marked, some message)
                | none ↦ run_app_image digest app_id manifest launch marked
              ]).0.db
      by_build (some message) = mark_app_starting-Keeps P stable app_id rt.db h
      by_build none =
          run_app_image-Keeps P stable app_id digest manifest launch marked
            (mark_app_starting-Keeps P stable app_id rt.db h)
