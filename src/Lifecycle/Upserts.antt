-- ===== src/Lifecycle/Upserts.antt =====
-- compute_space/src/compute_space/core/apps.py (_sync_port_mappings): the rows that its deletions leave, and
-- what its updates and insertions do to them.
use aerosol.Prelude.{
  nat_eq, list_eq, ◌==◌, eq_iff, if◌then◌else◌, ◌≡◌, ◌≢◌, ◌↔◌, ◌⊎◌, refl, sym, ap, ◌∙◌, inl, inr,
  true, false, not, Option, none, some, List, [], ◌∷◌, ◌++◌, map, arith, Elem, Distinct, elem-map,
  elem-append, elem-filter, filter, elem-delete_where, elem-update_where, contains, contains_iff,
  Elem-dec, Text, update_where, delete_where, Bool-cases,
}
use aerosol.Db.{PortRow}
use aerosol.Ports.{PortMapping}
use aerosol.Ports.Labels.{mapping_labels}
use aerosol.Lifecycle.{port_row}
use aerosol.Lifecycle.Reload.{
  is_mapping, existing_row, removed_labels, delete_labels, upsert, upsert_all,
}

-- The row is the app's, for the label.
abbrev pub IsOwn : Text → Text → PortRow → Type 0
IsOwn app_id label m = (m.app_id ≡ app_id) × (m.label ≡ label)

module _ (app_id : Text) where
  pub is_mapping_iff :
      (label : Text) (m : PortRow) → (is_mapping app_id label m ≡ true) ↔ IsOwn app_id label m
  is_mapping_iff label m = ground (arith, eq_iff m.app_id app_id, eq_iff m.label label)

  elem-delete_labels :
      (labels : List Text) (m : PortRow) (rows : List PortRow)
      → Elem m (delete_labels app_id labels rows)
        ↔ (Elem m rows × (¬ ((m.app_id ≡ app_id) × Elem m.label labels)))
  unfolding delete_labels
  elem-delete_labels [] m rows = ground arith
  elem-delete_labels (l ∷ labels) m rows = ground (
    arith,
    elem-delete_labels labels m (delete_where (is_mapping app_id l) rows),
    elem-delete_where (is_mapping app_id l) m rows,
    eq_iff m.app_id app_id,
    eq_iff m.label l,
  )

  elem-removed_labels :
      (new : List PortMapping) (m : PortRow) (rows : List PortRow)
      → Elem m rows
      → m.app_id ≡ app_id
      → Elem m.label (removed_labels app_id new rows) ↔ (¬ Elem m.label (mapping_labels new))
  unfolding removed_labels
  elem-removed_labels new m rows listed own =
      let mine : Elem m (filter (λ (r : PortRow). r.app_id == app_id) rows) =
        (elem-filter (λ (r : PortRow). r.app_id == app_id) m rows).1
          (listed, (eq_iff m.app_id app_id).1 own) in
      let label : Elem m.label
          (map (λ (r : PortRow). r.label) (filter (λ (r : PortRow). r.app_id == app_id) rows)) =
        elem-map (λ (r : PortRow). r.label) m (filter (λ (r : PortRow). r.app_id == app_id) rows)
          mine in
      let kept =
        elem-filter (λ l. not (contains l (mapping_labels new))) m.label
          (map (λ (r : PortRow). r.label) (filter (λ (r : PortRow). r.app_id == app_id) rows)) in
      ground (arith, contains_iff m.label (mapping_labels new))

  -- The deletions leave the rows of the other apps, and those of the labels of the new manifest.
  pub elem-cleared :
      (new : List PortMapping) (m : PortRow) (rows : List PortRow)
      → Elem m (delete_labels app_id (removed_labels app_id new rows) rows)
        ↔ (Elem m rows × ((m.app_id ≢ app_id) ⊎ Elem m.label (mapping_labels new)))
  elem-cleared new m rows =
      let deleted = elem-delete_labels (removed_labels app_id new rows) m rows in
      let removed = elem-removed_labels new m rows in
      elim (Bool-cases (m.app_id == app_id)) [
        | inl own ↦
            let same = (eq_iff m.app_id app_id).0 own in
            elim (Elem-dec m.label (mapping_labels new)) [
              | inl there ↦ (
                (λ h. ((deleted.0 h).0, inr there)),
                (λ h. deleted.1 (h.0, λ g. (removed h.0 same).0 g.1 there)),
              )
              | inr gone ↦ (
                (λ h. absurd ((deleted.0 h).1 (same, (removed (deleted.0 h).0 same).1 gone))),
                (λ h. elim h.1 [
                  | inl other ↦ absurd (other same)
                  | inr there ↦ absurd (gone there)
                ]),
              )
            ]
        | inr other ↦
            let apart : m.app_id ≢ app_id = ground (arith, eq_iff m.app_id app_id) in
            ((λ h. ((deleted.0 h).0, inl apart)), (λ h. deleted.1 (h.0, λ g. apart g.0)))
      ]

  abbrev pub Has : List PortRow → Text → Type 0
  Has rows label = (m : PortRow) × Elem m rows × IsOwn app_id label m

  -- The rows agree with the answer that the code has from the rows it has read first.
  abbrev pub Fits : Option PortRow → List PortRow → Text → Type 0
  Fits none rows label = ¬ Has rows label
  Fits (some old) rows label = Has rows label

  -- What an UPDATE of a mapping makes of a row.
  abbrev changed : PortMapping → PortRow → PortRow
  changed pm m = record m { container_port = pm.container_port; host_port = pm.host_port }

  changed-own :
      (pm : PortMapping) (m : PortRow) → IsOwn app_id pm.label m → changed pm m ≡ port_row app_id pm
  changed-own pm m (own, label) = rw own (rw label refl)

  elem-update_row :
      (pm : PortMapping) (a : PortRow) (rows : List PortRow)
      → Elem a rows
      → Elem
          (if is_mapping app_id pm.label a then changed pm a else a)
          (update_where (is_mapping app_id pm.label) (changed pm) rows)
  unfolding update_where
  elem-update_row pm a [] m = elim m [ ]
  elem-update_row pm a (x ∷ rows) (inl e) = inl (rw e refl)
  elem-update_row pm a (x ∷ rows) (inr m) = inr (elem-update_row pm a rows m)

  elem-updated :
      (pm : PortMapping) (b : PortRow) (rows : List PortRow)
      → Has rows pm.label
      → Elem b (update_where (is_mapping app_id pm.label) (changed pm) rows)
        ↔ ((Elem b rows × (¬ IsOwn app_id pm.label b)) ⊎ (b ≡ port_row app_id pm))
  elem-updated pm b rows (row, listed, own) = (
    (λ m.
        let (a, there, e) = elem-update_where (is_mapping app_id pm.label) (changed pm) b rows m in
        elim (Bool-cases (is_mapping app_id pm.label a)) [
          | inl mine ↦ inr ((rw mine at e) ∙ changed-own pm a ((is_mapping_iff pm.label a).0 mine))
          | inr other ↦
              let same : b ≡ a = rw other at e in
              inl (rw same (there, λ h. let k = (is_mapping_iff pm.label a).1 h in cc))
        ]),
    (λ h. elim h [
      | inl (there, apart) ↦
          let other : is_mapping app_id pm.label b ≡ false =
            ground (arith, is_mapping_iff pm.label b) in
          rw other at (elem-update_row pm b rows there)
      | inr e ↦
          let mine = (is_mapping_iff pm.label row).1 own in
          rw (e ∙ sym (changed-own pm row own)) (rw mine at (elem-update_row pm row rows listed))
    ]),
  )

  elem-upsert :
      (pm : PortMapping) (existing rows : List PortRow) (b : PortRow)
      → Fits (existing_row app_id existing pm.label) rows pm.label
      → Elem b (upsert app_id existing pm rows)
        ↔ ((Elem b rows × (¬ IsOwn app_id pm.label b)) ⊎ (b ≡ port_row app_id pm))
  unfolding upsert
  elem-upsert pm existing rows b fits = at_old (existing_row app_id existing pm.label) fits
    where
      at_old :
          (o : Option PortRow)
          → Fits o rows pm.label
          → Elem b (elim o as (λ _. List PortRow) [
            | none ↦ rows ++ port_row app_id pm ∷ []
            | some old ↦
                update_where
                  (is_mapping app_id pm.label)
                  (λ m. record m { container_port = pm.container_port; host_port = pm.host_port })
                  rows
          ])
            ↔ ((Elem b rows × (¬ IsOwn app_id pm.label b)) ⊎ (b ≡ port_row app_id pm))
      at_old none absent =
          let split = elem-append b rows (port_row app_id pm ∷ []) in
          (
            (λ m. elim (split.0 m) [
              | inl old ↦ inl (old, λ h. absent (b, old, h))
              | inr (inl e) ↦ inr (sym e)
              | inr (inr z) ↦ absurd z
            ]),
            (λ h. elim h [
              | inl (old, apart) ↦ split.1 (inl old)
              | inr e ↦ split.1 (inr (inl (sym e)))
            ]),
          )
      at_old (some old) present = elem-updated pm b rows present

  Fits-upsert :
      (pm : PortMapping) (existing rows : List PortRow) (label : Text) (o : Option PortRow)
      → Fits (existing_row app_id existing pm.label) rows pm.label
      → label ≢ pm.label
      → Fits o rows label
      → Fits o (upsert app_id existing pm rows) label
  Fits-upsert pm existing rows label none fits apart absent = λ (m, listed, own).
      elim ((elem-upsert pm existing rows m fits).0 listed) [
        | inl (old, h) ↦ absent (m, old, own)
        | inr e ↦ apart (sym own.1 ∙ ap (λ (r : PortRow). r.label) e)
      ]
  Fits-upsert pm existing rows label (some old) fits apart (m, listed, own) =
      (m, (elem-upsert pm existing rows m fits).1 (inl (listed, λ h. apart (sym own.1 ∙ h.1))), own)

  -- The rows after all of them: those of other apps and of other labels, and one for each mapping.
  pub elem-upsert_all :
      (existing : List PortRow) (resolved : List PortMapping) (rows : List PortRow) (b : PortRow)
      → Distinct (mapping_labels resolved)
      → ((pm : PortMapping)
          → Elem pm resolved
          → Fits (existing_row app_id existing pm.label) rows pm.label)
      → Elem b (upsert_all app_id existing resolved rows) ↔ (
          (Elem b rows × (¬ ((b.app_id ≡ app_id) × Elem b.label (mapping_labels resolved))))
          ⊎ ((pm : PortMapping) × Elem pm resolved × (b ≡ port_row app_id pm)))
  unfolding upsert_all
  elem-upsert_all existing [] rows b d fits =
      ((λ m. inl (m, λ h. h.1)), (λ h. elim h [ inl (m, g) ↦ m | inr z ↦ absurd z.1 ]))
  elem-upsert_all existing (pm ∷ resolved) rows b d fits =
      let here = fits pm (inl refl) in
      let one = elem-upsert pm existing rows b here in
      let later = elem-upsert_all existing resolved (upsert app_id existing pm rows) b d.1 (λ q m.
        Fits-upsert pm existing rows q.label (existing_row app_id existing q.label) here
          (λ e. d.0 (rw (← e) (elem-map (λ (r : PortMapping). r.label) q resolved m)))
          (fits q (inr m))) in
      (
        (λ m. elim (later.0 m) [
          | inl (listed, apart) ↦ elim (one.0 listed) [
            | inl (old, other) ↦
                inl (old, λ h. elim h.1 [ inl e ↦ other (h.0, sym e) | inr n ↦ apart (h.0, n) ])
            | inr e ↦ inr (pm, inl refl, e)
          ]
          | inr (q, n, e) ↦ inr (q, inr n, e)
        ]),
        (λ h. elim h [
          | inl (old, apart) ↦
              later.1 (
                inl (one.1 (inl (old, λ g. apart (g.0, inl (sym g.1)))), λ g. apart (g.0, inr g.1)))
          | inr (q, inl e, same) ↦
              let first : b ≡ port_row app_id pm = same ∙ ap (port_row app_id) (sym e) in
              later.1 (
                inl (one.1 (inr first), λ g. d.0 (rw (ap (λ (r : PortRow). r.label) first) at g.1)))
          | inr (q, inr n, same) ↦ later.1 (inr (q, n, same))
        ]),
      )
