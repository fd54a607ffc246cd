-- ===== src/Lifecycle/Removed.antt =====
-- compute_space/src/compute_space/core/apps.py (remove_app_background): what removals keep.
use aerosol.Prelude.{
  nat_eq, list_eq, ◌==◌, eq_iff, ◌≡◌, refl, sym, ap, ◌∙◌, inl, inr, Bool, true, false, Option, none,
  some, arith, Elem, same_key, Distinct-map-delete_where, elem-delete_where, delete_where, Text,
  Bool-cases,
}
use aerosol.Db.{App, PortRow, Db}
use aerosol.Lifecycle.{delete_app}
use aerosol.Lifecycle.Launch.{
  Container, Runtime, find_app, stop_container, stop_app_process, remove_app_background,
}
use aerosol.Lifecycle.Tracked.{Holds, IsTracked}
use aerosol.Lifecycle.Orphans.{HasKeys, found_row}
use aerosol.Lifecycle.Installed.{IsSound}

pub delete_app-IsSound : (app_id : Text) (db : Db) → IsSound db → IsSound (delete_app app_id db)
unfolding delete_app
delete_app-IsSound app_id db sound =
    let own : App → Bool = λ a. a.app_id == app_id in
    record {
      keys = record {
        ids = Distinct-map-delete_where (λ (a : App). a.app_id) own db.apps sound.keys.ids;
        names = Distinct-map-delete_where (λ (a : App). a.name) own db.apps sound.keys.names;
      };
      consistent = record {
        distinct =
            Distinct-map-delete_where (λ (a : App). a.local_port) own db.apps
              sound.consistent.distinct;
        linked = λ m n.
            let (listed, other) =
              (elem-delete_where (λ (x : PortRow). x.app_id == app_id) m db.app_port_mappings).0
                n in
            let (a, there, e) = sound.consistent.linked m listed in
            let apart : (a.app_id == app_id) ≡ false = rw e other in
            (a, (elem-delete_where own a db.apps).1 (there, apart), e);
      };
    }

-- A removal whose container could be stopped keeps the containers of the other apps tracked.
module _ (app_id : Text) (rt : Runtime) (keys : HasKeys rt.db) (tracked : IsTracked rt) where
  pub others-IsTracked :
      (row : App)
      → Elem row rt.db.apps
      → row.app_id ≡ app_id
      → (o : Option Text) → row.container_id ≡ o
      → (c : Container)
      → Elem c
          (elim o as (λ _. Runtime) [
            | none ↦ rt
            | some container_id ↦ stop_container container_id rt
          ]).containers
      → (a : App) × Elem a (delete_app app_id rt.db).apps × Holds c a
  unfolding delete_app stop_container
  others-IsTracked row there named o held c m =
      let (a, listed, holds) = tracked c (still_there o m) in
      elim (Bool-cases (a.app_id == app_id)) [
        | inr other ↦ (
          a,
          (elem-delete_where (λ (x : App). x.app_id == app_id) a rt.db.apps).1 (listed, other),
          holds,
        )
        | inl own ↦
            let equal =
              same_key (λ (x : App). x.app_id) a row rt.db.apps keys.ids listed there
                ((eq_iff a.app_id app_id).0 own ∙ sym named) in
            absurd (stopped o (sym held ∙ ap (λ (x : App). x.container_id) (sym equal) ∙ holds.1) m)
      ]
    where
      still_there :
          (k : Option Text)
          → Elem c
              (elim k as (λ _. Runtime) [
                | none ↦ rt
                | some container_id ↦ stop_container container_id rt
              ]).containers
          → Elem c rt.containers
      still_there none n = n
      still_there (some container_id) n =
          ((elem-delete_where (λ (x : Container). x.container_id == container_id) c rt.containers).0
            n).0

      stopped :
          (k : Option Text)
          → k ≡ some c.container_id
          → Elem c
              (elim k as (λ _. Runtime) [
                | none ↦ rt
                | some container_id ↦ stop_container container_id rt
              ]).containers
          → ⊥
      stopped none e n = cc
      stopped (some container_id) e n =
          let (listed, kept) =
            (elem-delete_where (λ (x : Container). x.container_id == container_id) c
                rt.containers).0
              n in
          let same : c.container_id ≡ container_id = ground arith in
          let gone = (eq_iff c.container_id container_id).1 same in cc

  stopped_db :
      (o : Option Text)
      → (elim o as (λ _. Runtime) [
        | none ↦ rt
        | some container_id ↦ stop_container container_id rt
      ]).db
        ≡ rt.db
  unfolding stop_container
  stopped_db none = refl
  stopped_db (some container_id) = refl

  pub remove-IsTracked : IsTracked (remove_app_background app_id true rt)
  unfolding remove_app_background stop_app_process
  remove-IsTracked = by_row (find_app app_id rt.db) refl
    where
      by_row :
          (o : Option App)
          → find_app app_id rt.db ≡ o
          → IsTracked (elim o as (λ _. Runtime) [
            | none ↦ rt
            | some row ↦
                let stopped = stop_app_process true row rt in
                record stopped {
                  db = delete_app app_id stopped.db;
                  app_tokens = delete_where (λ t. t.app_id == app_id) stopped.app_tokens;
                }
          ])
      by_row none e = tracked
      by_row (some row) e =
          let (there, named) = found_row app_id rt.db row e in
          rw (stopped_db row.container_id) (others-IsTracked row there named row.container_id refl)

  -- What holds of the database, and of it without the app, holds after the removal.
  pub remove-Keeps :
      (P : Db → Type 0)
      → P rt.db
      → P (delete_app app_id rt.db)
      → P (remove_app_background app_id true rt).db
  unfolding remove_app_background stop_app_process
  remove-Keeps P before after = by_row (find_app app_id rt.db)
    where
      by_row :
          (o : Option App)
          → P
              (elim o as (λ _. Runtime) [
                | none ↦ rt
                | some row ↦
                    let stopped = stop_app_process true row rt in
                    record stopped {
                      db = delete_app app_id stopped.db;
                      app_tokens = delete_where (λ t. t.app_id == app_id) stopped.app_tokens;
                    }
              ]).db
      by_row none = before
      by_row (some row) = rw (stopped_db row.container_id) after
