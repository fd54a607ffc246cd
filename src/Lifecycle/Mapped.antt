-- ===== src/Lifecycle/Mapped.antt =====
-- compute_space/src/compute_space/core/apps.py (_sync_port_mappings): the keys of the port mappings, and what
-- a sync is to do to them.
use aerosol.Prelude.{
  ℕ, nat_eq, list_eq, ◌≤◌, ◌≡◌, ◌≢◌, ◌↔◌, ◌⊎◌, refl, sym, ap, ◌∙◌, inl, inr, false, Option, none,
  some, List, [], ◌∷◌, map, Elem, Distinct, same_key, find?_sound, find?-eq-none_iff, All-elem,
  Text,
}
use aerosol.Db.{PortRow, Db}
use aerosol.Ports.{PortMapping}
use aerosol.Ports.Labels.{mapping_labels}
use aerosol.Ports.Resolve.{ports_of}
use aerosol.Lifecycle.{port_row}
use aerosol.Lifecycle.Reload.{is_mapping, existing_row, with_host_port, keep_host_port}
use aerosol.Lifecycle.Upserts.{IsOwn, is_mapping_iff, Has, Fits}

-- The keys of app_port_mappings: a label names one row of an app, and a host port one row of all; no port is 0.
pub record IsKeyed (rows : List PortRow) : Type 0 where
  pub labels :
      (m n : PortRow) → Elem m rows → Elem n rows → m.app_id ≡ n.app_id → m.label ≡ n.label → m ≡ n
  pub ports : (m n : PortRow) → Elem m rows → Elem n rows → m.host_port ≡ n.host_port → m ≡ n
  pub positive : (m : PortRow) → Elem m rows → m.host_port ≢ 0

-- The port of a mapping after the sync: that of its label, else its own, else one from the range.
pub record HasItsPort (app_id : Text) (range_start range_end : ℕ) (db : Db) (pm : PortMapping)
    (m : PortRow) : Type 0 where
  pub own : IsOwn app_id pm.label m
  pub container_port : m.container_port ≡ pm.container_port
  pub kept :
      (old : PortRow)
      → Elem old db.app_port_mappings
      → IsOwn app_id pm.label old
      → m.host_port ≡ old.host_port
  pub asked :
      (¬ Has app_id db.app_port_mappings pm.label) → pm.host_port ≢ 0 → m.host_port ≡ pm.host_port
  pub found :
      (¬ Has app_id db.app_port_mappings pm.label)
      → pm.host_port ≡ 0
      → (range_start ≤ m.host_port) × (m.host_port ≤ range_end)

pub record IsSynced (app_id : Text) (range_start range_end : ℕ) (new : List PortMapping)
    (db after : Db) : Type 0 where
  pub others :
      (m : PortRow)
      → m.app_id ≢ app_id
      → Elem m after.app_port_mappings ↔ Elem m db.app_port_mappings
  pub each :
      (pm : PortMapping)
      → Elem pm new
      → (m : PortRow) × Elem m after.app_port_mappings
        × HasItsPort app_id range_start range_end db pm m
  pub only :
      (m : PortRow)
      → Elem m after.app_port_mappings
      → m.app_id ≡ app_id
      → (pm : PortMapping) × Elem pm new × (pm.label ≡ m.label)
  pub keyed : IsKeyed after.app_port_mappings
  pub apps : after.apps ≡ db.apps

pub existing_row_found :
    (app_id : Text) (rows : List PortRow) (label : Text) (old : PortRow)
    → existing_row app_id rows label ≡ some old
    → Elem old rows × IsOwn app_id label old
unfolding existing_row
existing_row_found app_id rows label old e =
    let found = find?_sound (is_mapping app_id label) old rows e in
    (found.0, (is_mapping_iff app_id label old).0 found.1)

pub existing_row-Has :
    (app_id : Text) (rows : List PortRow) (label : Text)
    → Fits app_id (existing_row app_id rows label) rows label
unfolding existing_row
existing_row-Has app_id rows label = by_row (existing_row app_id rows label) refl
  where
    by_row : (o : Option PortRow) → existing_row app_id rows label ≡ o → Fits app_id o rows label
    by_row none e = λ (m, listed, own).
        let k =
          All-elem (λ r. is_mapping app_id label r ≡ false) m rows
            ((find?-eq-none_iff (is_mapping app_id label) rows).0 e) listed in
        let l = (is_mapping_iff app_id label m).1 own in cc
    by_row (some old) e =
        let found = existing_row_found app_id rows label old e in (old, found.0, found.1)

pub labels-keep :
    (app_id : Text) (rows : List PortRow) (new : List PortMapping)
    → mapping_labels (map (keep_host_port app_id rows) new) ≡ mapping_labels new
unfolding keep_host_port
labels-keep app_id rows [] = refl
labels-keep app_id rows (pm ∷ new) =
    rw (labels-keep app_id rows new) (rw (same (existing_row app_id rows pm.label)) refl)
  where
    same : (o : Option PortRow) → (with_host_port pm o).label ≡ pm.label
    same none = refl
    same (some old) = refl

-- Where a row comes from: it was there for another app, or it is that of a resolved mapping.
abbrev pub Origin : Text → List PortMapping → List PortRow → PortRow → Type 0
Origin app_id resolved rows b =
    ((b.app_id ≢ app_id) × Elem b rows)
    ⊎ ((pm : PortMapping) × Elem pm resolved × (b ≡ port_row app_id pm))

module _ (app_id : Text) (resolved : List PortMapping) (rows after : List PortRow)
    (keyed : IsKeyed rows) (origin : (b : PortRow) → Elem b after → Origin app_id resolved rows b)
    (labels_differ : Distinct (mapping_labels resolved))
    (ports_differ : Distinct (ports_of resolved))
    (resolved_free : (pm : PortMapping) (m : PortRow)
      → Elem pm resolved
      → m.app_id ≢ app_id
      → Elem m rows
      → m.host_port ≢ pm.host_port)
    (resolved_positive : (pm : PortMapping) → Elem pm resolved → pm.host_port ≢ 0) where
  -- Mappings with different labels and ports, which no other app has, keep the keys.
  pub IsKeyed-made : IsKeyed after
  IsKeyed-made = record {
    labels = λ m n p q same label. elim (origin m p) [
      | inl (other, listed) ↦ elim (origin n q) [
        | inl (apart, there) ↦ keyed.labels m n listed there same label
        | inr (pn, there, e) ↦ absurd (other (same ∙ ap (λ (r : PortRow). r.app_id) e))
      ]
      | inr (pm, listed, e) ↦ elim (origin n q) [
        | inl (apart, there) ↦ absurd (apart (sym same ∙ ap (λ (r : PortRow). r.app_id) e))
        | inr (pn, there, f) ↦
            let one : pm.label ≡ pn.label =
              sym (ap (λ (r : PortRow). r.label) e) ∙ label ∙ ap (λ (r : PortRow). r.label) f in
            let alike =
              same_key (λ (r : PortMapping). r.label) pm pn resolved labels_differ listed there
                one in
            e ∙ ap (port_row app_id) alike ∙ sym f
      ]
    ];
    ports = λ m n p q port. elim (origin m p) [
      | inl (other, listed) ↦ elim (origin n q) [
        | inl (apart, there) ↦ keyed.ports m n listed there port
        | inr (pn, there, e) ↦
            absurd
              (resolved_free pn m there other listed (port ∙ ap (λ (r : PortRow). r.host_port) e))
      ]
      | inr (pm, listed, e) ↦ elim (origin n q) [
        | inl (apart, there) ↦
            absurd (
              resolved_free pm n listed apart there
                (sym port ∙ ap (λ (r : PortRow). r.host_port) e))
        | inr (pn, there, f) ↦
            let one : pm.host_port ≡ pn.host_port =
              sym (ap (λ (r : PortRow). r.host_port) e)
              ∙ port
              ∙ ap (λ (r : PortRow). r.host_port) f in
            let alike =
              same_key (λ (r : PortMapping). r.host_port) pm pn resolved ports_differ listed there
                one in
            e ∙ ap (port_row app_id) alike ∙ sym f
      ]
    ];
    positive = λ m p. elim (origin m p) [
      | inl (other, listed) ↦ keyed.positive m listed
      | inr (pm, listed, e) ↦
          λ z. resolved_positive pm listed (sym (ap (λ (r : PortRow). r.host_port) e) ∙ z)
    ];
  }
