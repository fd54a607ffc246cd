-- ===== src/Lifecycle/Tracked.antt =====
-- compute_space/src/compute_space/core/apps.py: no container is lost by a launch.
use aerosol.Prelude.{
  nat_eq, list_eq, ◌≡◌, ◌≢◌, ◌⊎◌, refl, sym, ◌∙◌, inl, inr, Bool, Option, some, Elem, Distinct,
  elem-delete_where, delete_where, Text,
}
use aerosol.Db.{App}
use aerosol.Lifecycle.{update_app}
use aerosol.Lifecycle.Launch.{Container, Runtime, as_error, record_failure}
use aerosol.Lifecycle.Rows.{
  RowsAre, ids_of, IsChange, elem-update_app_other, elem-update_app_own, ids-update_app,
}

-- The row holds the container's id, and its app has the container's name.
abbrev pub Holds : Container → App → Type 0
Holds c a = (a.name ≡ c.app_name) × (a.container_id ≡ some c.container_id)

-- Every container that runs can be reached from a row of the database.
abbrev pub IsTracked : Runtime → Type 0
IsTracked rt = (c : Container) → Elem c rt.containers → (a : App) × Elem a rt.db.apps × Holds c a

-- The same of all but some containers.
abbrev pub IsTrackedBut : (Container → Type 0) → Runtime → Type 0
IsTrackedBut Lost rt =
    (c : Container) → Elem c rt.containers → ((a : App) × Elem a rt.db.apps × Holds c a) ⊎ Lost c

module _ (row : App) (Lost : Container → Type 0) where
  -- The containers of other apps are tracked by other rows, and the row is there under its id and name.
  pub record IsClear (rt : Runtime) : Type 0 where
    pub distinct : Distinct (ids_of rt.db)
    pub present : (a : App) × Elem a rt.db.apps × (a.app_id ≡ row.app_id) × (a.name ≡ row.name)
    pub others :
        (c : Container)
        → Elem c rt.containers
        → (c.app_name ≡ row.name)
          ⊎ ((a : App) × Elem a rt.db.apps × (a.app_id ≢ row.app_id) × Holds c a)

  -- The containers with the app's name have the given id, or are lost.
  abbrev pub Own : Option Text → Runtime → Type 0
  Own container_id rt =
      (c : Container)
      → Elem c rt.containers
      → c.app_name ≡ row.name
      → (container_id ≡ some c.container_id) ⊎ Lost c

  -- A change of the app's row keeps what is clear.
  pub change-IsClear :
      (change : App → App) (rt : Runtime)
      → IsChange change
      → IsClear rt
      → IsClear (record rt { db = update_app row.app_id change rt.db })
  change-IsClear change rt keeps k = record {
    distinct = rw (ids-update_app row.app_id change keeps rt.db) k.distinct;
    present =
        let (a, m, e, n) = k.present in
        (
          change a,
          elem-update_app_own row.app_id change keeps rt.db a m e,
          keeps.same_id a ∙ e,
          keeps.same_name a ∙ n,
        );
    others = λ c m. elim (k.others c m) [
      | inl own ↦ inl own
      | inr (a, listed, other, holds) ↦
          inr (a, elem-update_app_other row.app_id change keeps rt.db a listed other, other, holds)
    ];
  }

  -- A change that gives the row the id that its containers have makes all tracked.
  pub change-IsTracked :
      (change : App → App) (container_id : Option Text) (rt : Runtime)
      → IsChange change
      → RowsAre row.app_id (λ a. (change a).container_id ≡ container_id) rt.db
      → IsClear rt
      → Own container_id rt
      → IsTrackedBut Lost (record rt { db = update_app row.app_id change rt.db })
  change-IsTracked change container_id rt keeps sets k own c m = elim (k.others c m) [
    | inl mine ↦
        let (a, listed, e, n) = k.present in
        elim (own c m mine) [
          | inl its ↦ inl (
            change a,
            elem-update_app_own row.app_id change keeps rt.db a listed e,
            (keeps.same_name a ∙ n ∙ sym mine, sets a listed e ∙ its),
          )
          | inr lost ↦ inr lost
        ]
    | inr (a, listed, other, holds) ↦
        inl (a, elem-update_app_other row.app_id change keeps rt.db a listed other, holds)
  ]

  -- Fewer containers stay clear.
  pub fewer-IsClear :
      (p : Container → Bool) (rt : Runtime)
      → IsClear rt
      → IsClear (record rt { containers = delete_where p rt.containers })
  fewer-IsClear p rt k = record {
    distinct = k.distinct;
    present = k.present;
    others = λ c m. k.others c ((elem-delete_where p c rt.containers).0 m).0;
  }

  pub fail-IsTracked :
      (message : Text) (container_id : Option Text) (rt : Runtime)
      → IsClear rt
      → Own container_id rt
      → IsTrackedBut Lost (record_failure row.app_id message container_id rt).0
  unfolding record_failure
  fail-IsTracked message container_id rt k own =
      change-IsTracked (as_error message container_id) container_id rt
        (record { same_id = λ a. refl; same_name = λ a. refl; same_port = λ a. refl })
        (λ a m e. refl) k own
