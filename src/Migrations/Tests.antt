-- ===== src/Migrations/Tests.antt =====
-- Three migrations on a number for the tables, the last of which raises at 7.
use aerosol.Prelude.{
  ℕ, ◌≡◌, refl, true, Option, none, some, List, [], ◌∷◌, ◌++◌, ◌+◌, nat_eq, ◌==◌, arith,
  if◌then◌else◌, evaluation,
}
use aerosol.Migrations.{
  Migration, Database, migration_failed, done, err, versions_from, validate_registry, last_version,
  highest_registered_version, read_version, apply, init_fresh, apply_pending, apply_under_lock,
  apply_migrations,
}
use aerosol.Migrations.Runner.{IsVersioned, Upgrades, Outcome, apply_migrations-Runs}
use aerosol.Migrations.Again.{apply_migrations_idempotent, apply_migrations_in_two}

-- What the tests compute with.
model : Unit {0}
unfolding versions_from validate_registry last_version highest_registered_version read_version apply
    init_fresh apply_pending apply_under_lock apply_migrations evaluation
model = tt

abbrev bump : ℕ → Migration ℕ
bump version = record { version = version; up = λ n. some (n + 1) }

abbrev picky : ℕ → Migration ℕ
picky version = record { version = version; up = λ n. if n == 7 then none else some (n + 10) }

abbrev at_version : ℕ → ℕ → Database ℕ
at_version version tables = record {
  schema_version = some version;
  has_any_tables = true;
  tables = tables;
}

abbrev registry : List (Migration ℕ)
registry = bump 2 ∷ bump 3 ∷ picky 4 ∷ []

abbrev schema : ℕ → Option ℕ
schema n = some 100

runs :
    (apply_migrations schema registry (at_version 1 0) ≡ (at_version 4 12, done))
    × (apply_migrations schema registry (at_version 2 6)
        ≡ (at_version 3 7, err (migration_failed 3 4)))
unfolding model
runs = (refl, refl)

versioned : IsVersioned (at_version 1 0)
unfolding model
versioned = record { tables = refl; version = λ e. cc }

apply_migrations-Runs_example :
    Upgrades registry (at_version 1 0) (apply_migrations schema registry (at_version 1 0)).0
    × Outcome registry
        (apply_migrations schema registry (at_version 1 0)).0
        (apply_migrations schema registry (at_version 1 0)).1
unfolding model
apply_migrations-Runs_example =
    apply_migrations-Runs schema registry (at_version 1 0) refl versioned (omega arith)

apply_migrations_idempotent_example :
    apply_migrations schema registry (at_version 4 12) ≡ (at_version 4 12, done)
unfolding model
apply_migrations_idempotent_example =
    apply_migrations_idempotent schema registry (at_version 1 0) (at_version 4 12) refl

apply_migrations_in_two_example :
    apply_migrations schema ((bump 2 ∷ bump 3 ∷ []) ++ picky 4 ∷ []) (at_version 3 2)
    ≡ apply_migrations schema ((bump 2 ∷ bump 3 ∷ []) ++ picky 4 ∷ []) (at_version 1 0)
unfolding model
apply_migrations_in_two_example =
    apply_migrations_in_two schema (bump 2 ∷ bump 3 ∷ []) (picky 4 ∷ []) (at_version 1 0)
      (at_version 3 2) versioned refl refl
