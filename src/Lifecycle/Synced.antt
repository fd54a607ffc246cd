-- ===== src/Lifecycle/Synced.antt =====
-- compute_space/src/compute_space/core/apps.py (_sync_port_mappings): the mappings of an app that has taken
-- over a new manifest.
use aerosol.Prelude.{
  ℕ, nat_eq, list_eq, ◌<◌, ◌≡◌, ◌≢◌, ◌↔◌, ◌⊎◌, refl, sym, ap, ◌∙◌, inl, inr, Option, none, some,
  List, map, arith, Elem, Distinct, elem-map, elem-map_inv, Text,
}
use aerosol.Db.{PortRow, Db}
use aerosol.Ports.{Host, PortMapping}
use aerosol.Ports.Labels.{
  mapping_labels, IsAnswer, labels-Distinct, elem-labels, resolved-positive, answer,
}
use aerosol.Ports.Resolve.{IsResolved}
use aerosol.Lifecycle.{port_row}
use aerosol.Lifecycle.Reload.{
  existing_row, with_host_port, keep_host_port, upsert_all, without_removed,
}
use aerosol.Lifecycle.Upserts.{Fits, elem-cleared, elem-upsert_all}
use aerosol.Lifecycle.Mapped.{
  Origin, IsKeyed-made, IsKeyed, HasItsPort, IsSynced, existing_row_found, existing_row-Has,
  labels-keep,
}

module _ (h : Host) (range_start range_end : ℕ) (app_id : Text) (new : List PortMapping) (db : Db)
    (keyed : IsKeyed db.app_port_mappings) (from_one : 0 < range_start)
    (labelled : Distinct (mapping_labels new)) (resolved : List PortMapping)
    (good : IsResolved h
      (without_removed app_id new db)
      (some app_id)
      range_start
      range_end
      (map (keep_host_port app_id db.app_port_mappings) new)
      resolved) where
  abbrev asked_for : List PortMapping
  asked_for = map (keep_host_port app_id db.app_port_mappings) new

  abbrev cleared : List PortRow
  cleared = (without_removed app_id new db).app_port_mappings

  abbrev after_rows : List PortRow
  after_rows = upsert_all app_id db.app_port_mappings resolved cleared

  abbrev goal : Db
  goal = record (without_removed app_id new db) { app_port_mappings = after_rows }

  in_cleared :
      (m : PortRow)
      → Elem m cleared
        ↔ (Elem m db.app_port_mappings × ((m.app_id ≢ app_id) ⊎ Elem m.label (mapping_labels new)))
  unfolding without_removed
  in_cleared m = elem-cleared app_id new m db.app_port_mappings

  resolved_of :
      (pm : PortMapping)
      → Elem pm new
      → (r : PortMapping) × Elem r resolved
        × IsAnswer range_start range_end (keep_host_port app_id db.app_port_mappings pm) r
  resolved_of pm m =
      answer h (without_removed app_id new db) (some app_id) range_start range_end asked_for
        resolved good (keep_host_port app_id db.app_port_mappings pm)
        (elem-map (keep_host_port app_id db.app_port_mappings) pm new m)

  keeps_label :
      (pm : PortMapping) → (keep_host_port app_id db.app_port_mappings pm).label ≡ pm.label
  unfolding keep_host_port
  keeps_label pm = by_row (existing_row app_id db.app_port_mappings pm.label)
    where
      by_row : (o : Option PortRow) → (with_host_port pm o).label ≡ pm.label
      by_row none = refl
      by_row (some old) = refl

  label_of_new : (r : PortMapping) → Elem r resolved → Elem r.label (mapping_labels new)
  label_of_new r m = rw labels-keep at (
      elem-labels h (without_removed app_id new db) (some app_id) range_start range_end asked_for
        resolved good r.label (elem-map (λ (q : PortMapping). q.label) r resolved m))

  label_resolved :
      (label : Text) → Elem label (mapping_labels new) → Elem label (mapping_labels resolved)
  label_resolved label m =
      let (pm, listed, e) = elem-map_inv (λ (q : PortMapping). q.label) label new m in
      let (r, there, a) = resolved_of pm listed in
      rw (sym e ∙ sym (a.label ∙ keeps_label pm))
        (elem-map (λ (q : PortMapping). q.label) r resolved there)

  Fits-cleared :
      (o : Option PortRow) (label : Text)
      → Elem label (mapping_labels new)
      → Fits app_id o db.app_port_mappings label
      → Fits app_id o cleared label
  Fits-cleared none label m absent =
      λ (r, listed, own). absent (r, ((in_cleared r).0 listed).0, own)
  Fits-cleared (some old) label m (r, listed, own) =
      (r, (in_cleared r).1 (listed, inr (rw (own.1) m)), own)

  in_after :
      (b : PortRow)
      → Elem b after_rows ↔ (
          (Elem b cleared × (¬ ((b.app_id ≡ app_id) × Elem b.label (mapping_labels resolved))))
          ⊎ ((pm : PortMapping) × Elem pm resolved × (b ≡ port_row app_id pm)))
  in_after b =
      elem-upsert_all app_id db.app_port_mappings resolved cleared b
        (labels-Distinct h (without_removed app_id new db) (some app_id) range_start range_end
          asked_for resolved good (rw labels-keep labelled))
        (λ pm m.
          Fits-cleared (existing_row app_id db.app_port_mappings pm.label) pm.label
            (label_of_new pm m) (existing_row-Has app_id db.app_port_mappings pm.label))

  -- A row after the sync is another app's, or that of a resolved mapping.
  origin : (b : PortRow) → Elem b after_rows → Origin app_id resolved db.app_port_mappings b
  origin b m = elim ((in_after b).0 m) [
    | inl (there, apart) ↦
        let (listed, why) = (in_cleared b).0 there in
        elim why [
          | inl other ↦ inl (other, listed)
          | inr label ↦ inl ((λ own. apart (own, label_resolved b.label label)), listed)
        ]
    | inr made ↦ inr made
  ]

  answer-HasItsPort :
      (pm r : PortMapping)
      → IsAnswer range_start range_end (keep_host_port app_id db.app_port_mappings pm) r
      → HasItsPort app_id range_start range_end db pm (port_row app_id r)
  unfolding keep_host_port
  answer-HasItsPort pm r =
      by_row (existing_row app_id db.app_port_mappings pm.label) refl
        (existing_row-Has app_id db.app_port_mappings pm.label)
    where
      by_row :
          (o : Option PortRow)
          → existing_row app_id db.app_port_mappings pm.label ≡ o
          → Fits app_id o db.app_port_mappings pm.label
          → IsAnswer range_start range_end (with_host_port pm o) r
          → HasItsPort app_id range_start range_end db pm (port_row app_id r)
      by_row none e absent a = record {
        own = (refl, a.label);
        container_port = a.container_port;
        kept = λ old listed own. absurd (absent (old, listed, own));
        asked = λ gone other. a.own other;
        found = λ gone z. a.found z;
      }
      by_row (some known) e present a = record {
        own = (refl, a.label);
        container_port = a.container_port;
        kept = λ old listed own.
            let (there, its) = existing_row_found app_id db.app_port_mappings pm.label known e in
            let same =
              keyed.labels known old there listed (its.0 ∙ sym own.0) (its.1 ∙ sym own.1) in
            a.own (keyed.positive known there) ∙ ap (λ (m : PortRow). m.host_port) same;
        asked = λ gone other. absurd (gone present);
        found = λ gone z. absurd (gone present);
      }

  -- The ports of the resolved mappings are of no row of another app.
  resolved_free :
      (pm : PortMapping) (m : PortRow)
      → Elem pm resolved
      → m.app_id ≢ app_id
      → Elem m db.app_port_mappings
      → m.host_port ≢ pm.host_port
  resolved_free pm m there other listed e =
      let taken = (good.free pm there).no_mapping m ((in_cleared m).1 (listed, inl other)) e in
      other (ground arith)

  resolved_positive : (pm : PortMapping) → Elem pm resolved → pm.host_port ≢ 0
  resolved_positive pm m =
      resolved-positive h (without_removed app_id new db) (some app_id) range_start range_end
        asked_for resolved good from_one pm m

  labels_differ : Distinct (mapping_labels resolved)
  labels_differ =
      labels-Distinct h (without_removed app_id new db) (some app_id) range_start range_end
        asked_for resolved good (rw labels-keep labelled)

  IsKeyed-after : IsKeyed after_rows
  IsKeyed-after =
      IsKeyed-made app_id resolved db.app_port_mappings after_rows keyed origin labels_differ
        good.distinct resolved_free resolved_positive

  pub synced : IsSynced app_id range_start range_end new db goal
  unfolding without_removed
  synced = record {
    others = λ m other. (
      (λ n. elim (origin m n) [
        | inl (apart, listed) ↦ listed
        | inr (pm, listed, e) ↦ absurd (other (ap (λ (r : PortRow). r.app_id) e))
      ]),
      (λ n. (in_after m).1 (inl ((in_cleared m).1 (n, inl other), λ g. other g.0))),
    );
    each = λ pm m.
        let (r, there, a) = resolved_of pm m in
        (
          port_row app_id r,
          (in_after (port_row app_id r)).1 (inr (r, there, refl)),
          answer-HasItsPort pm r a,
        );
    only = λ m n own. elim (origin m n) [
      | inl (other, listed) ↦ absurd (other own)
      | inr (pm, listed, e) ↦
          let (q, there, f) =
            elem-map_inv (λ (x : PortMapping). x.label) pm.label new (label_of_new pm listed) in
          (q, there, f ∙ sym (ap (λ (r : PortRow). r.label) e))
    ];
    keyed = IsKeyed-after;
    apps = refl;
  }
