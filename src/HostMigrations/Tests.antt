-- ===== src/HostMigrations/Tests.antt =====
-- Two migrations of a number, the second of which raises from 7 on.
use mathlib.Core.Path.{subst}
use aerosol.Prelude.{
  ℕ, nat_eq, list_eq, ◌==◌, ◌+◌, leb, if◌then◌else◌, ◌≡◌, refl, inl, inr, Bool, true, false, none,
  some, List, [], ◌∷◌, ◌++◌, Text, codes, evaluation,
}
use aerosol.Migrations.{versions_from}
use aerosol.HostMigrations.{
  MigrationLogEntry, entry, malformed, JsonCodec, is_break, lines_from, splitlines, entries_of,
  read_log, append_entry, first_success, current_host_version, SystemMigration, System, Result,
  applied_all, err, migration_failed, entry_for, is_valid_registry, last_version,
  latest_registry_version, logged, apply_pending, apply_system_migrations, get_migration_status,
}
use aerosol.HostMigrations.Log.{IsOneLine, read_log-append_entry}
use aerosol.HostMigrations.Runs.{WritesLines, Called, apply_system_migrations-Called}
use aerosol.HostMigrations.Status.{Reports, get_migration_status-Reports}

-- What the tests compute with.
model : Unit {0}
unfolding versions_from is_break lines_from splitlines entries_of read_log append_entry
    first_success current_host_version is_valid_registry last_version latest_registry_version logged
    apply_pending apply_system_migrations get_migration_status evaluation
model = tt

abbrev now : ℕ → Text
now version = codes "noon"

abbrev done_1 : MigrationLogEntry
done_1 = entry_for now 1 none

abbrev done_2 : MigrationLogEntry
done_2 = entry_for now 2 none

abbrev done_3 : MigrationLogEntry
done_3 = entry_for now 3 none

abbrev failed_3 : MigrationLogEntry
failed_3 = entry_for now 3 (some (codes "full"))

-- json for the entries that these migrations make.
abbrev json : JsonCodec
json = record {
  dumps = λ e.
      if e.version == 1
      then codes "{1}"
      else if e.version == 2
      then codes "{2}"
      else if e.success
      then codes "{3}"
      else codes "{3!}";
  loads = λ line.
      if line == codes "{1}"
      then entry done_1
      else if line == codes "{2}"
      then entry done_2
      else if line == codes "{3}"
      then entry done_3
      else if line == codes "{3!}"
      then entry failed_3
      else malformed;
}

abbrev second : SystemMigration ℕ
second = record { version = 2; up = λ n. (n + 1, none) }

abbrev third : SystemMigration ℕ
third = record {
  version = 3;
  up = λ n. if leb 7 n then (n, some (codes "full")) else (n + 1, none);
}

abbrev registry : List (SystemMigration ℕ)
registry = second ∷ third ∷ []

-- The log of a fresh host, whose last line is not ended.
abbrev fresh : ℕ → System ℕ
fresh n = record { log = some (codes "{1}"); host = n }

abbrev run : ℕ → System ℕ × Result
run n = apply_system_migrations json now registry 0 (fresh n)

runs :
    ((run 5).1 ≡ applied_all (2 ∷ 3 ∷ []))
    × ((run 6).1 ≡ err (migration_failed 3 (codes "full")))
    × (read_log json (run 6).0.log ≡ done_1 ∷ done_2 ∷ failed_3 ∷ [])
    × ((run 5).0.host ≡ 7)
unfolding model
runs = (refl, refl, refl, refl)

done_2-IsOneLine : IsOneLine json done_2
unfolding model
done_2-IsOneLine = record { unbroken = refl; trimmed = refl; written = refl; loaded = refl }

third_writes : (n : ℕ) (b : Bool) → leb 7 n ≡ b → IsOneLine json (entry_for now 3 (third.up n).1)
unfolding model
third_writes n true e =
    rw e (record { unbroken = refl; trimmed = refl; written = refl; loaded = refl })
third_writes n false e =
    rw e (record { unbroken = refl; trimmed = refl; written = refl; loaded = refl })

writes : WritesLines json now registry
writes m (inl e) =
    subst (λ (k : SystemMigration ℕ). (n : ℕ) → IsOneLine json (entry_for now k.version (k.up n).1))
      e (λ n. done_2-IsOneLine)
writes m (inr (inl e)) =
    subst (λ (k : SystemMigration ℕ). (n : ℕ) → IsOneLine json (entry_for now k.version (k.up n).1))
      e (λ n. third_writes n (leb 7 n) refl)
writes m (inr (inr l)) = elim l [ ]

read_log-append_entry_example :
    read_log json (some (append_entry json done_2 (some (codes "{1}"))))
    ≡ read_log json (some (codes "{1}")) ++ done_2 ∷ []
read_log-append_entry_example =
    read_log-append_entry json done_2 (some (codes "{1}")) done_2-IsOneLine

apply_system_migrations-Called_example : Called json now registry 0 (fresh 6) (run 6)
apply_system_migrations-Called_example =
    apply_system_migrations-Called json now registry 0 (fresh 6) writes

get_migration_status-Reports_example : Reports json now registry (run 6)
get_migration_status-Reports_example =
    get_migration_status-Reports json now registry 0 (fresh 6) writes
