-- ===== src/Lifecycle/Sync.antt =====
-- compute_space/src/compute_space/core/apps.py (_sync_port_mappings): what a sync does on each of its ends.
use aerosol.Prelude.{
  ℕ, nat_eq, list_eq, ◌<◌, ◌≡◌, ◌≢◌, ◌↔◌, ◌⊎◌, refl, Option, none, some, List, [], map, arith, Elem,
  Distinct, Text,
}
use aerosol.Prelude.Outcome.{Outcome, ok, err}
use aerosol.Db.{PortRow, Db}
use aerosol.Ports.{Host, PortMapping, PortError, resolve_port_mappings}
use aerosol.Ports.Free.{IsConsistent}
use aerosol.Ports.Labels.{mapping_labels}
use aerosol.Ports.Resolve.{Shuffles, resolve_port_mappings-IsResolved}
use aerosol.Lifecycle.Reload.{keep_host_port, upsert_all, without_removed, sync_port_mappings}
use aerosol.Lifecycle.Upserts.{elem-cleared}
use aerosol.Lifecycle.Mapped.{IsKeyed, IsSynced}
use aerosol.Lifecycle.Synced.{synced}

module _ (h : Host) (range_start range_end : ℕ) (app_id : Text) (new : List PortMapping) (db : Db)
    (shuffles : Shuffles h) (consistent : IsConsistent db) (named : app_id ≢ [])
    (keyed : IsKeyed db.app_port_mappings) (from_one : 0 < range_start)
    (labelled : Distinct (mapping_labels new)) where
  IsConsistent-cleared : IsConsistent (without_removed app_id new db)
  unfolding without_removed
  IsConsistent-cleared = record {
    distinct = consistent.distinct;
    linked = λ m listed.
        consistent.linked m ((elem-cleared app_id new m db.app_port_mappings).0 listed).0;
  }

  cleared_rows :
      ((m : PortRow)
        → Elem m (without_removed app_id new db).app_port_mappings ↔ (
            Elem m db.app_port_mappings
            × ((m.app_id ≢ app_id) ⊎ Elem m.label (mapping_labels new))))
      × ((without_removed app_id new db).apps ≡ db.apps)
  unfolding without_removed
  cleared_rows = ((λ m. elem-cleared app_id new m db.app_port_mappings), refl)

  -- What the sync has done: all of it, or the deletions alone.
  abbrev pub SyncResult : Db × Option PortError → Type 0
  SyncResult (after, none) = IsSynced app_id range_start range_end new db after
  SyncResult (after, some e) =
      ((m : PortRow)
        → Elem m after.app_port_mappings ↔ (
            Elem m db.app_port_mappings
            × ((m.app_id ≢ app_id) ⊎ Elem m.label (mapping_labels new))))
      × (after.apps ≡ db.apps)

  -- The sync gives the app one mapping for each of its new manifest and no other: a label that was there keeps its host
  -- port, whatever the manifest asks for, another gets the port that it asks for or one from the range. The mappings of the
  -- other apps stay, and the keys of the table hold, so no statement can meet a constraint. Where the ports cannot be
  -- resolved, the labels that the manifest has no more are deleted nevertheless, and no other row is changed.
  pub sync_port_mappings-SyncResult :
      SyncResult (sync_port_mappings h range_start range_end app_id new db)
  unfolding sync_port_mappings
  sync_port_mappings-SyncResult =
      by_answer
        (resolve_port_mappings h (without_removed app_id new db) range_start range_end (some app_id)
          (map (keep_host_port app_id db.app_port_mappings) new))
        refl
    where
      by_answer :
          (o : Outcome PortError (List PortMapping))
          → resolve_port_mappings h
              (without_removed app_id new db)
              range_start
              range_end
              (some app_id)
              (map (keep_host_port app_id db.app_port_mappings) new)
            ≡ o
          → SyncResult (elim o as (λ _. Db × Option PortError) [
            | err e ↦ (without_removed app_id new db, some e)
            | ok resolved ↦ (
              record (without_removed app_id new db) {
                app_port_mappings =
                    upsert_all app_id db.app_port_mappings resolved
                      (without_removed app_id new db).app_port_mappings;
              },
              none,
            )
          ])
      by_answer (err e) failed = cleared_rows
      by_answer (ok resolved) answered =
          synced h range_start range_end app_id new db keyed from_one labelled resolved (
            resolve_port_mappings-IsResolved h (without_removed app_id new db) (some app_id)
              range_start range_end (map (keep_host_port app_id db.app_port_mappings) new) resolved
              shuffles IsConsistent-cleared (λ e. named (ground arith)) answered)
