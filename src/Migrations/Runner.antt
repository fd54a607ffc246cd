-- ===== src/Migrations/Runner.antt =====
-- What a run of the migrations does to the database.
use aerosol.Prelude.{
  ℕ, suc, nat_eq, list_eq, eq_iff, leb, ◌+◌, ◌≤◌, ◌≡◌, refl, ap, ◌≢◌, inl, inr, true, false, Option,
  none, some, List, [], ◌∷◌, length, arith, Elem, Bool-cases, Option-cases,
}
use aerosol.Migrations.{
  Migration, Database, migration_failed, Result, done, err, versions_from, versions,
  validate_registry, last_version, highest_registered_version, read_version, apply, init_fresh,
  apply_pending, initialized, apply_under_lock, apply_migrations,
}

module _ {S : Type 0} where
  -- The versions count up by one.
  abbrev pub Contiguous : ℕ → List (Migration S) → Type 0
  Contiguous first [] = Unit
  Contiguous first (m ∷ registry) = (m.version ≡ first) × Contiguous (suc first) registry

  versions-Contiguous :
      (first : ℕ) (registry : List (Migration S))
      → versions registry ≡ versions_from first (length registry)
      → Contiguous first registry
  unfolding versions_from
  versions-Contiguous first [] e = tt
  versions-Contiguous first (m ∷ registry) e = (cc, versions-Contiguous (suc first) registry (cc))

  pub validate_registry-Contiguous :
      (registry : List (Migration S)) → validate_registry registry ≡ none → Contiguous 2 registry
  unfolding validate_registry
  validate_registry-Contiguous [] e = tt
  validate_registry-Contiguous (m ∷ registry) e =
      versions-Contiguous 2 (m ∷ registry)
        (ground (arith, eq_iff (versions (m ∷ registry)) (versions_from 2 (length (m ∷ registry)))))

  last_version-Contiguous :
      (first : ℕ) (registry : List (Migration S))
      → Contiguous first registry
      → (version : ℕ) → suc version ≡ first
      → suc (last_version version registry) ≡ first + length registry
  unfolding last_version
  last_version-Contiguous first [] c version e = ground arith
  last_version-Contiguous first (m ∷ registry) (c, cs) version e =
      ground (arith, last_version-Contiguous (suc first) registry cs m.version (ap suc c))

  -- One migration of the registry takes the database to the next version.
  pub record Upgrade (registry : List (Migration S)) (db next : Database S) : Type 0 where
    pub migration : Migration S
    pub listed : Elem migration registry
    pub follows : migration.version ≡ suc (read_version db)
    pub performs : migration.up db.tables ≡ some next.tables
    pub stamped : next.schema_version ≡ some migration.version
    pub has_tables : next.has_any_tables ≡ true

  -- Migrations one after the other, each for the version that the one before it has left.
  pub data Upgrades (registry : List (Migration S)) : Database S → Database S → Type 0 where
    here : (db : Database S) → Upgrades registry db db
    next :
        (db mid last : Database S)
        → Upgrade registry db mid
        → Upgrades registry mid last
        → Upgrades registry db last

  -- What a run of the loop has come to: it is through with the registry, or the body of the
  -- migration for the next version has raised.
  pub data Outcome (registry : List (Migration S)) (last : Database S) : Result → Type 0 where
    complete : read_version last ≡ highest_registered_version registry → Outcome registry last done
    stopped :
        (m : Migration S)
        → Elem m registry
        → m.version ≡ suc (read_version last)
        → m.up last.tables ≡ none
        → Outcome registry last (err (migration_failed (read_version last) m.version))

  -- A run's final database is reached by migrations, and its result says why it has ended.
  abbrev pub Runs : List (Migration S) → Database S → Database S × Result → Type 0
  Runs registry db (last, result) = Upgrades registry db last × Outcome registry last result

  apply-Upgrade :
      (registry : List (Migration S)) (m : Migration S) (db : Database S)
      → Elem m registry
      → m.version ≡ suc (read_version db)
      → (apply m db).1 ≡ true
      → Upgrade registry db (apply m db).0 × (read_version (apply m db).0 ≡ m.version)
  unfolding apply read_version
  apply-Upgrade registry m db listed follows e = elim (Option-cases (m.up db.tables)) [
    | inl raised ↦ cc
    | inr (tables, performed) ↦
        rw (performed, apply)
          (
            record {
              migration = m;
              listed = listed;
              follows = follows;
              performs = performed;
              stamped = refl;
              has_tables = refl;
            },
            refl,
          )
  ]

  apply-stopped :
      (m : Migration S) (db : Database S)
      → (apply m db).1 ≡ false
      → ((apply m db).0 ≡ db) × (m.up db.tables ≡ none)
  unfolding apply
  apply-stopped m db e = elim (Option-cases (m.up db.tables)) [
    | inl raised ↦ rw (raised, apply) (refl, refl)
    | inr (tables, performed) ↦ cc
  ]

  pub apply_pending-Runs :
      (registry rest : List (Migration S)) (first current : ℕ) (db : Database S)
      → Contiguous first rest
      → ((m : Migration S) → Elem m rest → Elem m registry)
      → suc (highest_registered_version registry) ≡ first + length rest
      → read_version db ≡ current
      → first ≤ suc current
      → current ≤ highest_registered_version registry
      → Runs registry db (apply_pending rest current db)
  unfolding apply_pending
  apply_pending-Runs registry [] first current db c sub top at lo hi =
      (here db, complete (omega arith))
  apply_pending-Runs registry (m ∷ rest) first current db (c, cs) sub top at lo hi =
      elim (Bool-cases (leb m.version current)) [
        | inl skip ↦ rw skip (
            apply_pending-Runs registry rest (suc first) current db cs (λ x e. sub x (inr e))
              (omega arith) at (ground arith) hi)
        | inr due ↦ elim (Bool-cases (apply m db).1) [
          | inl applied ↦
              let follows : m.version ≡ suc (read_version db) = ground arith in
              let (step, stamped) =
                apply-Upgrade registry m db (sub m (inl refl)) follows applied in
              let (later, outcome) =
                apply_pending-Runs registry rest (suc first) m.version (apply m db).0 cs
                  (λ x e. sub x (inr e)) (omega arith) stamped (omega arith) (omega arith) in
              rw due (rw applied (next db (apply m db).0 _ step later, outcome))
          | inr raised ↦
              let (same, none_left) = apply-stopped m db raised in
              let follows : m.version ≡ suc (read_version db) = ground arith in
              rw due (
                rw raised
                  (rw same (here db, rw at at (stopped m (sub m (inl refl)) follows none_left))))
        ]
      ]

  pub highest-Contiguous :
      (registry : List (Migration S))
      → Contiguous 2 registry
      → suc (highest_registered_version registry) ≡ 2 + length registry
  unfolding highest_registered_version
  highest-Contiguous registry c = last_version-Contiguous 2 registry c 1 refl

  -- The run under the lock, in each of its cases.
  pub apply_under_lock-pending :
      (schema_sql : S → Option S) (registry : List (Migration S)) (highest : ℕ) (db : Database S)
      → read_version db ≤ highest
      → db.has_any_tables ≡ true
      → read_version db ≢ 0
      → apply_under_lock schema_sql registry highest db
        ≡ apply_pending registry (read_version db) db
  unfolding apply_under_lock
  apply_under_lock-pending schema_sql registry highest db known tables versioned = ground arith

  pub apply_under_lock-fresh :
      (schema_sql : S → Option S) (registry : List (Migration S)) (highest : ℕ) (db : Database S)
      → read_version db ≤ highest
      → db.has_any_tables ≡ false
      → apply_under_lock schema_sql registry highest db
        ≡ initialized (init_fresh schema_sql highest db)
  unfolding apply_under_lock
  apply_under_lock-fresh schema_sql registry highest db known fresh = ground arith

  -- The database has tables and a version.
  pub record IsVersioned (db : Database S) : Type 0 where
    pub tables : db.has_any_tables ≡ true
    pub version : read_version db ≢ 0

  -- A run on a database that has a version, which the code knows: migrations are applied in the
  -- order of their versions, each from the version before it, and the run ends with the highest
  -- version, or with the database as it was before the first migration whose body raises. The
  -- registry passes its validation.
  pub apply_migrations-Runs :
      (schema_sql : S → Option S) (registry : List (Migration S)) (db : Database S)
      → validate_registry registry ≡ none
      → IsVersioned db
      → read_version db ≤ highest_registered_version registry
      → Upgrades registry db (apply_migrations schema_sql registry db).0
        × Outcome registry
            (apply_migrations schema_sql registry db).0
            (apply_migrations schema_sql registry db).1
  unfolding apply_migrations
  apply_migrations-Runs schema_sql registry db valid versioned known =
      let c = validate_registry-Contiguous registry valid in
      let top : suc (highest_registered_version registry) ≡ 2 + length registry =
        highest-Contiguous registry c in
      let runs =
        apply_pending-Runs registry registry 2 (read_version db) db c (λ m e. e) top refl
          (omega arith) known in
      let under_lock =
        apply_under_lock-pending schema_sql registry (highest_registered_version registry) db known
          versioned.tables versioned.version in
      rw (valid, apply_migrations) (rw under_lock runs)
