-- ===== src/Lifecycle/Installed.antt =====
-- compute_space/src/compute_space/core/apps.py (insert_and_deploy): the rows of a new app keep the
-- keys of the schema.
use aerosol.Prelude.Outcome.{Outcome, ok, err, both_answer, answer_same}
use aerosol.Prelude.{
  ℕ, nat_eq, list_eq, ◌==◌, eq_iff, if◌then◌else◌, ◌≡◌, refl, sym, ap, inl, inr, Bool, true, false,
  not, Option, none, some, List, [], ◌∷◌, ◌++◌, map, map-append_lem, arith, Elem, elem-append,
  elem-map_inv, Distinct, Distinct-append_one, any, any_complete, find?_sound, Text, Bool-cases,
}
use aerosol.Db.{App, PortRow, Db, building}
use aerosol.Ports.{Host, PortMapping, Result, allocate_port, resolve_port_mappings, main_ports}
use aerosol.Ports.Free.{IsConsistent}
use aerosol.Ports.Search.{allocate_port_lowest}
use aerosol.Ports.Install.{InstallPorts, install_ports, apply_overrides}
use aerosol.Services.{register_services_provided_by_app}
use aerosol.Lifecycle.{
  AppManifest, validate_manifest, has_app_id, mint_unique_app_id, with_manifest, new_app, port_row,
  InstallError, storage_is_low, no_port, no_id_drawn, insert_rows_of, insert_and_deploy,
}
use aerosol.Lifecycle.Rows.{ids_of}
use aerosol.Lifecycle.Orphans.{HasKeys}

-- The keys of the schema: ids, names and ports of the apps are distinct, and every mapping has its app.
pub record IsSound (db : Db) : Type 0 where
  pub keys : HasKeys db
  pub consistent : IsConsistent db

-- The database after an installation.
pub record IsInstalled (app_id app_name : Text) (manifest : AppManifest) (db after : Db)
    : Type 0 where
  pub row :
      (a : App) × Elem a after.apps
      × (a.app_id ≡ app_id)
      × (a.name ≡ app_name)
      × (a.status ≡ building)
      × (¬ Elem a.local_port (main_ports db))
  pub unused : ¬ Elem app_id (ids_of db)
  pub others : (a : App) → Elem a db.apps → Elem a after.apps
  pub sound : IsSound after

any-eq-false :
    {A : Type 0} (p : A → Bool) (a : A) (xs : List A) → any p xs ≡ false → Elem a xs → p a ≡ false
any-eq-false p a xs h m = elim (Bool-cases (p a)) [
  | inl e ↦ let k = any_complete p a xs m e in cc
  | inr e ↦ e
]

fresh_key :
    (key : App → Text) (value : Text) (rows : List App)
    → any (λ a. key a == value) rows ≡ false
    → ¬ Elem value (map key rows)
fresh_key key value rows h m =
    let (a, listed, e) = elem-map_inv key value rows m in
    let other = any-eq-false (λ a. key a == value) a rows h listed in
    let same = (eq_iff (key a) value).1 e in cc

name-fresh :
    (app_name : Text) (db : Db)
    → validate_manifest app_name db ≡ none
    → ¬ Elem app_name (map (λ (a : App). a.name) db.apps)
unfolding validate_manifest
name-fresh app_name db e = fresh_key (λ a. a.name) app_name db.apps (ground arith)

pub id-fresh :
    (draws : List Text) (db : Db) (app_id : Text)
    → mint_unique_app_id draws db ≡ some app_id
    → ¬ Elem app_id (ids_of db)
unfolding mint_unique_app_id has_app_id
id-fresh draws db app_id e =
    let (m, k) = find?_sound (λ c. not (has_app_id db c)) app_id draws e in
    fresh_key (λ a. a.app_id) app_id db.apps (ground arith)

port-fresh :
    (h : Host) (db : Db) (range_start range_end port : ℕ)
    → allocate_port h db range_start range_end ≡ ok port
    → ¬ Elem port (main_ports db)
port-fresh h db range_start range_end port e m =
    let free = ((allocate_port_lowest h db range_start range_end).0 port e).free in
    let (a, listed, same) = elem-map_inv (λ (a : App). a.local_port) port db.apps m in
    let none_at_all = free.no_main a listed same in cc

allocated-fresh :
    (h : Host) (db : Db) (range_start range_end : ℕ) (overrides : List (Text × ℕ))
    (mappings : List PortMapping) (ports : InstallPorts)
    → install_ports h db range_start range_end overrides mappings ≡ ok ports
    → ¬ Elem ports.local_port (main_ports db)
unfolding install_ports
allocated-fresh h db range_start range_end overrides mappings ports e =
    let (port, allocated, rest) = both_answer (allocate_port h db range_start range_end) _ e in
    let (resolved, r, made) =
      both_answer
        (resolve_port_mappings h db range_start range_end none (apply_overrides overrides mappings))
        _ rest in
    let same : port ≡ ports.local_port =
      ap (λ (p : InstallPorts). p.local_port) (sym (answer_same made)) in
    rw (← same) (port-fresh h db range_start range_end port allocated)

module _ (manifest : AppManifest) (app_id app_name : Text) (now : ℕ) (ports : InstallPorts)
    (db : Db) (sound : IsSound db) (new_id : ¬ Elem app_id (ids_of db))
    (new_name : ¬ Elem app_name (map (λ (a : App). a.name) db.apps))
    (new_port : ¬ Elem ports.local_port (main_ports db)) where
  abbrev added : App
  added = new_app manifest app_id app_name ports.local_port now

  one_more :
      {A : Type 0} (key : App → A) (a : App)
      → Distinct (map key db.apps)
      → ¬ Elem (key a) (map key db.apps)
      → Distinct (map key (db.apps ++ a ∷ []))
  one_more key a d fresh = rw map-append_lem (Distinct-append_one (key a) (map key db.apps) d fresh)

  linked :
      (m : PortRow)
      → Elem m (db.app_port_mappings ++ map (port_row app_id) ports.resolved_mappings)
      → (a : App) × Elem a (db.apps ++ added ∷ []) × (a.app_id ≡ m.app_id)
  unfolding new_app with_manifest
  linked m n =
      elim ((elem-append m db.app_port_mappings (map (port_row app_id) ports.resolved_mappings)).0
        n) [
          | inl old ↦
              let (a, listed, e) = sound.consistent.linked m old in
              (a, (elem-append a db.apps (added ∷ [])).1 (inl listed), e)
          | inr fresh ↦
              let (pm, listed, e) =
                elem-map_inv (port_row app_id) m ports.resolved_mappings fresh in
              (
                added,
                (elem-append added db.apps (added ∷ [])).1 (inr (inl refl)),
                ap (λ (x : PortRow). x.app_id) e,
              )
        ]

  insert_rows_of-IsInstalled :
      IsInstalled app_id app_name manifest db (insert_rows_of manifest app_id app_name now ports db)
  unfolding insert_rows_of register_services_provided_by_app new_app with_manifest
  insert_rows_of-IsInstalled = record {
    row = (
      added,
      (elem-append added db.apps (added ∷ [])).1 (inr (inl refl)),
      refl,
      refl,
      refl,
      new_port,
    );
    unused = new_id;
    others = λ a m. (elem-append a db.apps (added ∷ [])).1 (inl m);
    sound = record {
      keys = record {
        ids = one_more (λ (a : App). a.app_id) added sound.keys.ids new_id;
        names = one_more (λ (a : App). a.name) added sound.keys.names new_name;
      };
      consistent = record {
        distinct = one_more (λ (a : App). a.local_port) added sound.consistent.distinct new_port;
        linked = linked;
      };
    };
  }

module _ (h : Host) (low : Bool) (range_start range_end : ℕ) (overrides : List (Text × ℕ))
    (draws : List Text) (now : ℕ) (manifest : AppManifest) (app_name : Text) (db : Db) where
  -- What an installation answers: a failure, or the new database with the id.
  abbrev pub InstallsWell : Outcome InstallError (Db × Text) → Type 0
  InstallsWell answer = elim answer [
    | err failure ↦ Unit {0}
    | ok (after, app_id) ↦ IsInstalled app_id app_name manifest db after
  ]

  -- After the test of its name an app is installed with an id, a name and a port of its own that no app had, and in
  -- status building; the other apps stay, and the keys of the schema hold as before.
  pub insert_and_deploy-InstallsWell :
      IsSound db
      → validate_manifest app_name db ≡ none
      → InstallsWell
          (insert_and_deploy h low range_start range_end overrides draws now manifest app_name db)
  unfolding insert_and_deploy
  insert_and_deploy-InstallsWell sound named = by_space low
    where
      by_id :
          (ports : InstallPorts)
          → ¬ Elem ports.local_port (main_ports db)
          → (o : Option Text) → mint_unique_app_id draws db ≡ o
          → InstallsWell (elim o as (λ _. Outcome InstallError (Db × Text)) [
            | none ↦ err no_id_drawn
            | some app_id ↦ ok (insert_rows_of manifest app_id app_name now ports db, app_id)
          ])
      by_id ports fresh none e = tt
      by_id ports fresh (some app_id) e =
          insert_rows_of-IsInstalled manifest app_id app_name now ports db sound
            (id-fresh draws db app_id e) (name-fresh app_name db named) fresh

      by_ports :
          (o : Result InstallPorts)
          → install_ports h db range_start range_end overrides manifest.port_mappings ≡ o
          → InstallsWell (elim o as (λ _. Outcome InstallError (Db × Text)) [
            | err failure ↦ err (no_port failure)
            | ok ports ↦
                elim (mint_unique_app_id draws db) as (λ _. Outcome InstallError (Db × Text)) [
                  | none ↦ err no_id_drawn
                  | some app_id ↦ ok (insert_rows_of manifest app_id app_name now ports db, app_id)
                ]
          ])
      by_ports (err failure) e = tt
      by_ports (ok ports) e =
          by_id ports
            (allocated-fresh h db range_start range_end overrides manifest.port_mappings ports e)
            (mint_unique_app_id draws db) refl

      by_space :
          (b : Bool)
          → InstallsWell (
              if b
              then err storage_is_low
              else elim (install_ports h db range_start range_end overrides manifest.port_mappings)
                  as (λ _. Outcome InstallError (Db × Text)) [
                    | err failure ↦ err (no_port failure)
                    | ok ports ↦
                        elim (mint_unique_app_id draws db)
                          as (λ _. Outcome InstallError (Db × Text)) [
                            | none ↦ err no_id_drawn
                            | some app_id ↦
                                ok (insert_rows_of manifest app_id app_name now ports db, app_id)
                          ]
                  ])
      by_space true = tt
      by_space false =
          by_ports (install_ports h db range_start range_end overrides manifest.port_mappings) refl
