-- ===== src/Migrations.antt =====
-- compute_space/src/compute_space/db/versioned: the runner (runner.py) and the transaction of one
-- migration (base.py). The tables themselves are a parameter `S`: a migration's body `up` and
-- schema.sql are functions on it, and a body that raises leaves what it had written by then to the
-- ROLLBACK. A migration's log lines and timing are left out.
pub mod Runner
pub mod Again
pub mod Tests
use aerosol.Prelude.{
  ℕ, zero, suc, nat_eq, list_eq, ◌==◌, ltb, leb, if◌then◌else◌, Bool, true, false, not, Option,
  none, some, List, [], ◌∷◌, map, length, is_empty,
}

module _ (S : Type 0) where
  -- A migration of either kind. `up` answers with the tables that it leaves, or with none where it
  -- raises; for a .sql file it is the file's statements.
  pub record Migration : Type 0 where
    pub version : ℕ
    pub up : S → Option S

  -- The database file: `schema_version` has at most one row, and there are user tables or not.
  pub record Database : Type 0 where
    pub schema_version : Option ℕ
    pub has_any_tables : Bool
    pub tables : S

pub data Failure : Type 0 where
  bad_registry : List ℕ → Failure
  newer_than_code : ℕ → ℕ → Failure
  legacy_database : Failure
  migration_failed : ℕ → ℕ → Failure
  schema_failed : Failure

pub data Result : Type 0 where
  done : Result
  err : Failure → Result

-- `list(range(first, first + n))`
unfoldable pub versions_from : ℕ → ℕ → List ℕ
versions_from first zero = []
versions_from first (suc n) = first ∷ versions_from (suc first) n

abbrev pub or_zero : Option ℕ → ℕ
or_zero none = 0
or_zero (some version) = version

module _ {S : Type 0} where
  abbrev pub versions : List (Migration S) → List ℕ
  versions registry = map (λ (m : Migration S). m.version) registry

  -- What is wrong with the registry, if anything is.
  unfoldable pub validate_registry : List (Migration S) → Option Failure
  unfolding versions_from
  validate_registry registry =
      if is_empty registry
      then none
      else if versions registry == versions_from 2 (length registry)
      then none
      else some (bad_registry (versions registry))

  -- `registry[-1].version`
  unfoldable pub last_version : ℕ → List (Migration S) → ℕ
  last_version version [] = version
  last_version version (m ∷ registry) = last_version m.version registry

  unfoldable pub highest_registered_version : List (Migration S) → ℕ
  unfolding last_version
  highest_registered_version registry = last_version 1 registry

  unfoldable pub read_version : Database S → ℕ
  read_version db = or_zero db.schema_version

  -- BEGIN EXCLUSIVE, the body, the new version, COMMIT; ROLLBACK where the body raises.
  unfoldable pub apply : Migration S → Database S → Database S × Bool
  apply m db = elim (m.up db.tables) [
    | none ↦ (db, false)
    | some tables ↦
        (record { schema_version = some m.version; has_any_tables = true; tables = tables }, true)
  ]

  -- The schema's statements and the version, in one transaction.
  unfoldable pub init_fresh : (S → Option S) → ℕ → Database S → Database S × Bool
  init_fresh schema_sql highest db = elim (schema_sql db.tables) [
    | none ↦ (db, false)
    | some tables ↦
        (record { schema_version = some highest; has_any_tables = true; tables = tables }, true)
  ]

  -- The loop over the registry, from the version that the database has by now.
  unfoldable pub apply_pending : List (Migration S) → ℕ → Database S → Database S × Result
  apply_pending [] current db = (db, done)
  apply_pending (m ∷ registry) current db =
      let skipped = apply_pending registry current db in
      let applied = apply_pending registry m.version (apply m db).0 in
      if leb m.version current
      then skipped
      else if (apply m db).1
      then applied
      else ((apply m db).0, err (migration_failed current m.version))

  -- A failure of schema.sql is raised.
  abbrev pub initialized : Database S × Bool → Database S × Result
  initialized (db, true) = (db, done)
  initialized (db, false) = (db, err schema_failed)

  unfoldable pub apply_under_lock :
      (S → Option S) → List (Migration S) → ℕ → Database S → Database S × Result
  apply_under_lock schema_sql registry highest db =
      let current = read_version db in
      if ltb highest current
      then (db, err (newer_than_code current highest))
      else if not db.has_any_tables
      then initialized (init_fresh schema_sql highest db)
      else if current == 0
      then (db, err legacy_database)
      else apply_pending registry current db

  unfoldable pub apply_migrations :
      (S → Option S) → List (Migration S) → Database S → Database S × Result
  apply_migrations schema_sql registry db = elim (validate_registry registry) [
    | some e ↦ (db, err e)
    | none ↦ apply_under_lock schema_sql registry (highest_registered_version registry) db
  ]
