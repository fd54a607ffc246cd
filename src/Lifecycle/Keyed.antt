-- ===== src/Lifecycle/Keyed.antt =====
-- compute_space/src/compute_space/core/apps.py (insert_and_deploy): a new app keeps the keys of the port
-- mappings.
use aerosol.Prelude.{
  ℕ, nat_eq, list_eq, ◌<◌, ◌≡◌, ◌≢◌, refl, sym, ap, ◌∙◌, inl, inr, Bool, none, some, List, [], ◌∷◌,
  map, arith, Elem, Distinct, elem-map, elem-map_inv, elem-append, Text,
}
use aerosol.Prelude.Outcome.{ok, both_answer, answer_same}
use aerosol.Db.{App, PortRow, Db}
use aerosol.Ports.{Host, PortMapping, allocate_port, resolve_port_mappings}
use aerosol.Ports.Free.{IsConsistent}
use aerosol.Ports.Install.{InstallPorts, install_ports, apply_overrides}
use aerosol.Ports.Labels.{mapping_labels, labels-Distinct, resolved-positive}
use aerosol.Ports.Resolve.{Shuffles, IsResolved, resolve_port_mappings-IsResolved}
use aerosol.Services.{register_services_provided_by_app}
use aerosol.Lifecycle.{AppManifest, port_row, mint_unique_app_id, insert_rows_of, insert_and_deploy}
use aerosol.Lifecycle.Rows.{ids_of}
use aerosol.Lifecycle.Installed.{id-fresh}
use aerosol.Lifecycle.Mapped.{IsKeyed, Origin, IsKeyed-made}

labels-apply_overrides :
    (overrides : List (Text × ℕ)) (mappings : List PortMapping)
    → mapping_labels (apply_overrides overrides mappings) ≡ mapping_labels mappings
unfolding apply_overrides
labels-apply_overrides overrides [] = refl
labels-apply_overrides overrides (pm ∷ mappings) =
    ap (λ (l : List Text). pm.label ∷ l) (labels-apply_overrides overrides mappings)

module _ (h : Host) (low : Bool) (range_start range_end : ℕ) (overrides : List (Text × ℕ))
    (draws : List Text) (now : ℕ) (manifest : AppManifest) (app_name : Text) (db after : Db)
    (app_id : Text) where
  -- What an installation has gone through.
  insert_and_deploy_ok :
      insert_and_deploy h low range_start range_end overrides draws now manifest app_name db
        ≡ ok (after, app_id)
      → (ports : InstallPorts) × (install_ports h db range_start range_end overrides
            manifest.port_mappings
          ≡ ok ports)
        × (mint_unique_app_id draws db ≡ some app_id)
        × (insert_rows_of manifest app_id app_name now ports db ≡ after)
  unfolding insert_and_deploy
  insert_and_deploy_ok e = ground arith

module _ (h : Host) (range_start range_end : ℕ) (overrides : List (Text × ℕ))
    (mappings : List PortMapping) (db : Db) (shuffles : Shuffles h)
    (consistent : IsConsistent db) where
  install_ports-IsResolved :
      (ports : InstallPorts)
      → install_ports h db range_start range_end overrides mappings ≡ ok ports
      → IsResolved h db none range_start range_end
          (apply_overrides overrides mappings)
          ports.resolved_mappings
  unfolding install_ports
  install_ports-IsResolved ports e =
      let (port, allocated, rest) = both_answer (allocate_port h db range_start range_end) _ e in
      let (resolved, r, made) =
        both_answer
          (resolve_port_mappings h db range_start range_end none
            (apply_overrides overrides mappings))
          _ rest in
      let same : resolved ≡ ports.resolved_mappings =
        ap (λ (p : InstallPorts). p.resolved_mappings) (sym (answer_same made)) in
      rw (← same) (
        resolve_port_mappings-IsResolved h db none range_start range_end
          (apply_overrides overrides mappings) resolved shuffles consistent (λ k. cc) r)

module _ (manifest : AppManifest) (app_id app_name : Text) (now : ℕ) (ports : InstallPorts)
    (db : Db) (consistent : IsConsistent db) (new_id : ¬ Elem app_id (ids_of db)) where
  -- No mapping is of an app that is not there yet.
  other_app : (m : PortRow) → Elem m db.app_port_mappings → m.app_id ≢ app_id
  other_app m listed own =
      let (a, there, e) = consistent.linked m listed in
      new_id (rw (sym (e ∙ own)) (elem-map (λ (x : App). x.app_id) a db.apps there))

  added-Origin :
      (b : PortRow)
      → Elem b (insert_rows_of manifest app_id app_name now ports db).app_port_mappings
      → Origin app_id ports.resolved_mappings db.app_port_mappings b
  unfolding insert_rows_of register_services_provided_by_app
  added-Origin b m =
      elim ((elem-append b db.app_port_mappings (map (port_row app_id) ports.resolved_mappings)).0
        m) [
          | inl old ↦ inl (other_app b old, old)
          | inr made ↦
              let (pm, listed, e) = elem-map_inv (port_row app_id) b ports.resolved_mappings made in
              inr (pm, listed, sym e)
        ]

-- An installation keeps the keys of the port mappings. The labels of the manifest are different, and the range starts
-- above 0.
pub insert_and_deploy-IsKeyed :
    (h : Host) (low : Bool) (range_start range_end : ℕ) (overrides : List (Text × ℕ))
    (draws : List Text) (now : ℕ) (manifest : AppManifest) (app_name : Text) (db after : Db)
    (app_id : Text)
    → Shuffles h
    → 0 < range_start
    → Distinct (mapping_labels manifest.port_mappings)
    → IsConsistent db
    → IsKeyed db.app_port_mappings
    → insert_and_deploy h low range_start range_end overrides draws now manifest app_name db
      ≡ ok (after, app_id)
    → IsKeyed after.app_port_mappings
insert_and_deploy-IsKeyed h low range_start range_end overrides draws now manifest app_name db after
      app_id shuffles from_one labelled consistent keyed e =
    let (ports, taken, minted, made) =
      insert_and_deploy_ok h low range_start range_end overrides draws now manifest app_name db
        after app_id e in
    let mappings = apply_overrides overrides manifest.port_mappings in
    let good =
      install_ports-IsResolved h range_start range_end overrides manifest.port_mappings db shuffles
        consistent ports taken in
    let rows = db.app_port_mappings in
    rw (← made) (
      IsKeyed-made app_id ports.resolved_mappings rows
        (insert_rows_of manifest app_id app_name now ports db).app_port_mappings keyed
        (added-Origin manifest app_id app_name now ports db consistent
          (id-fresh draws db app_id minted))
        (labels-Distinct h db none range_start range_end mappings ports.resolved_mappings good
          (rw labels-apply_overrides labelled))
        good.distinct
        (λ pm m there other listed same.
          let taken_by = (good.free pm there).no_mapping m listed same in cc)
        (resolved-positive h db none range_start range_end mappings ports.resolved_mappings good
          from_one))
