-- ===== src/Lifecycle/Rows.antt =====
-- compute_space/src/compute_space/core/apps.py: what an UPDATE of one app does to the rows of `apps`.
use mathlib.Core.Path.{subst}
use aerosol.Prelude.{
  nat_eq, list_eq, ◌==◌, eq_iff, if◌then◌else◌, ◌≡◌, ◌≢◌, ◌⊎◌, refl, sym, ap, ◌∙◌, inl, inr, true,
  false, List, [], ◌∷◌, map, arith, Elem, elem-update_where, Text, update_where, Bool-cases,
  map-update_where,
}
use aerosol.Db.{App, Db}
use aerosol.Ports.{main_ports}
use aerosol.Lifecycle.{update_app}

abbrev pub ids_of : Db → List Text
ids_of db = map (λ (a : App). a.app_id) db.apps

-- Every row of the app is as `P` says.
abbrev pub RowsAre {κ} : Text → (App → Type κ) → Db → Type κ
RowsAre app_id P db = (a : App) → Elem a db.apps → a.app_id ≡ app_id → P a

-- A change of a row that keeps its id, its name and its port.
pub record IsChange (change : App → App) : Type 0 where
  pub same_id : (a : App) → (change a).app_id ≡ a.app_id
  pub same_name : (a : App) → (change a).name ≡ a.name
  pub same_port : (a : App) → (change a).local_port ≡ a.local_port

module _ (app_id : Text) (change : App → App) (keeps : IsChange change) where
  changed_row :
      (a b : App)
      → b ≡ (if a.app_id == app_id then change a else a)
      → ((a.app_id ≡ app_id) × (b ≡ change a)) ⊎ ((a.app_id ≢ app_id) × (b ≡ a))
  changed_row a b e = elim (Bool-cases (a.app_id == app_id)) [
    | inl own ↦ inl ((eq_iff a.app_id app_id).0 own, rw own at e)
    | inr other ↦ inr (λ same. let k = (eq_iff a.app_id app_id).1 same in cc, rw other at e)
  ]

  -- A row after the update is the change of an old one, or an old one of another app.
  pub elem-update_app :
      (db : Db) (b : App)
      → Elem b (update_app app_id change db).apps
      → (a : App) × Elem a db.apps
        × (((a.app_id ≡ app_id) × (b ≡ change a)) ⊎ ((a.app_id ≢ app_id) × (b ≡ a)))
  unfolding update_app
  elem-update_app db b m =
      let (a, listed, e) = elem-update_where (λ (x : App). x.app_id == app_id) change b db.apps m in
      (a, listed, changed_row a b e)

  pub RowsAre-update_app {κ} :
      (P : App → Type κ) (db : Db)
      → ((a : App) → Elem a db.apps → a.app_id ≡ app_id → P (change a))
      → RowsAre app_id P (update_app app_id change db)
  RowsAre-update_app P db makes b m same =
      let (a, listed, how) = elem-update_app db b m in
      elim how [
        | inl (own, e) ↦ subst P (sym e) (makes a listed own)
        | inr (other, e) ↦ absurd (other (ap (λ (x : App). x.app_id) (sym e) ∙ same))
      ]

  pub ids-update_app : (db : Db) → ids_of (update_app app_id change db) ≡ ids_of db
  unfolding update_app
  ids-update_app db =
      map-update_where (λ (a : App). a.app_id) (λ a. a.app_id == app_id) change db.apps
        keeps.same_id

  pub names-update_app :
      (db : Db)
      → map (λ (a : App). a.name) (update_app app_id change db).apps
        ≡ map (λ (a : App). a.name) db.apps
  unfolding update_app
  names-update_app db =
      map-update_where (λ (a : App). a.name) (λ a. a.app_id == app_id) change db.apps
        keeps.same_name

  pub ports-update_app : (db : Db) → main_ports (update_app app_id change db) ≡ main_ports db
  unfolding update_app
  ports-update_app db =
      map-update_where (λ (a : App). a.local_port) (λ a. a.app_id == app_id) change db.apps
        keeps.same_port

  kept_by :
      (a : App) (rows : List App)
      → Elem a rows
      → Elem
          (if a.app_id == app_id then change a else a)
          (update_where (λ (x : App). x.app_id == app_id) change rows)
  unfolding update_where
  kept_by a [] m = elim m [ ]
  kept_by a (x ∷ rows) (inl e) = inl (rw e refl)
  kept_by a (x ∷ rows) (inr m) = inr (kept_by a rows m)

  -- A row of another app stays.
  pub elem-update_app_other :
      (db : Db) (a : App)
      → Elem a db.apps
      → a.app_id ≢ app_id
      → Elem a (update_app app_id change db).apps
  unfolding update_app
  elem-update_app_other db a m other =
      let apart : (a.app_id == app_id) ≡ false = ground (arith, eq_iff a.app_id app_id) in
      rw apart at (kept_by a db.apps m)

  -- The row of the app itself is changed.
  pub elem-update_app_own :
      (db : Db) (a : App)
      → Elem a db.apps
      → a.app_id ≡ app_id
      → Elem (change a) (update_app app_id change db).apps
  unfolding update_app
  elem-update_app_own db a m own =
      let same : (a.app_id == app_id) ≡ true = (eq_iff a.app_id app_id).1 own in
      rw same at (kept_by a db.apps m)
