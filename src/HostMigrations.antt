-- ===== src/HostMigrations.antt =====
-- openhost_system_agent/src/openhost_system_agent/migrations: the migrations of the host (runner.py,
-- registry.py) and their log (migration_log.py), with what status.py tells of it. The host is a
-- parameter `H`, on which a migration's `up` works; json is one as well. The log is the text of its
-- file, which is there or not.
pub mod Log
pub mod Runs
pub mod Status
pub mod Tests
use aerosol.Prelude.{
  ℕ, zero, suc, ◌+◌, nat_eq, list_eq, ◌==◌, ltb, leb, if◌then◌else◌, Bool, true, false, not, ◌&&◌,
  ◌||◌, Option, none, some, List, [], ◌∷◌, ◌++◌, map, length, is_empty, Text, codes, strip,
  ends_with, onto_first,
}
use mathlib.Core.List.{reverse}
use aerosol.Migrations.{versions_from}

pub record MigrationLogEntry : Type 0 where
  pub version : ℕ
  pub timestamp : Text
  pub success : Bool
  pub error : Option Text

-- What json.loads makes of a line: an object with the fields of an entry, one that lacks the version or
-- the success, or nothing. JSON of another kind, on which `raw["version"]` raises, is left out.
pub data Loaded : Type 0 where
  entry : MigrationLogEntry → Loaded
  incomplete : Loaded
  malformed : Loaded

-- json.dumps with its compact separators, and json.loads.
pub record JsonCodec : Type 0 where
  pub dumps : MigrationLogEntry → Text
  pub loads : Text → Loaded

-- The characters that end a line for `str.splitlines`.
unfoldable pub is_break : ℕ → Bool
is_break c = (leb 10 c && leb c 13) || (leb 28 c && leb c 30) || c == 133 || c == 8232 || c == 8233

-- `text.splitlines()`; `cr` says that a carriage return stands in front, with which a line feed
-- makes one break.
unfoldable pub lines_from : Bool → Text → List Text
unfolding is_break
lines_from cr [] = []
lines_from cr (c ∷ s) =
    let rest = lines_from (c == 13) s in
    if cr && c == 10 then rest else if is_break c then [] ∷ rest else onto_first c rest

unfoldable pub splitlines : Text → List Text
unfolding lines_from
splitlines text = lines_from false text

module _ (json : JsonCodec) where
  -- Blank and malformed lines are skipped.
  unfoldable pub entries_of : List Text → List MigrationLogEntry
  unfolding strip
  entries_of [] = []
  entries_of (line ∷ lines) =
      let rest = entries_of lines in
      if is_empty (strip line) then rest else elim (json.loads (strip line)) [
        | entry e ↦ e ∷ rest
        | incomplete ↦ rest
        | malformed ↦ rest
      ]

  unfoldable pub read_log : Option Text → List MigrationLogEntry
  unfolding entries_of splitlines
  read_log none = []
  read_log (some text) = entries_of (splitlines text)

  -- A file that does not end in a line feed gets one first.
  unfoldable pub append_entry : MigrationLogEntry → Option Text → Text
  unfolding ends_with
  append_entry e none = json.dumps e ++ 10 ∷ []
  append_entry e (some existing) =
      if not (is_empty existing) && not (ends_with existing (10 ∷ []))
      then existing ++ 10 ∷ (json.dumps e ++ 10 ∷ [])
      else existing ++ (json.dumps e ++ 10 ∷ [])

unfoldable pub first_success : List MigrationLogEntry → ℕ
first_success [] = 0
first_success (e ∷ entries) =
    let rest = first_success entries in if e.success then e.version else rest

unfoldable pub current_host_version : List MigrationLogEntry → ℕ
unfolding first_success
current_host_version entries = first_success (reverse entries)

module _ (H : Type 0) where
  -- `up` leaves the host as it is by then, and the text of the exception where it raises one.
  pub record SystemMigration : Type 0 where
    pub version : ℕ
    pub up : H → H × Option Text

  pub record System : Type 0 where
    pub log : Option Text
    pub host : H

pub data Failure : Type 0 where
  bad_registry : Failure
  not_root : Failure
  no_history : Failure
  newer_than_code : ℕ → ℕ → Failure
  migration_failed : ℕ → Text → Failure

pub data Result : Type 0 where
  applied_all : List ℕ → Result
  err : Failure → Result

-- The entry of a migration: its version, and the error if it has raised one. `now` is the time at
-- which the entry of a version is made.
abbrev pub entry_for : (ℕ → Text) → ℕ → Option Text → MigrationLogEntry
entry_for now version error = record {
  version = version;
  timestamp = now version;
  success = elim error [ none ↦ true | some e ↦ false ];
  error = error;
}

module _ {H : Type 0} where
  abbrev pub versions : List (SystemMigration H) → List ℕ
  versions registry = map (λ (m : SystemMigration H). m.version) registry

  unfoldable pub is_valid_registry : List (SystemMigration H) → Bool
  unfolding versions_from
  is_valid_registry registry =
      is_empty registry || versions registry == versions_from 2 (length registry)

  unfoldable pub last_version : ℕ → List (SystemMigration H) → ℕ
  last_version version [] = version
  last_version version (m ∷ registry) = last_version m.version registry

  unfoldable pub latest_registry_version : List (SystemMigration H) → ℕ
  unfolding last_version
  latest_registry_version registry = last_version 1 registry

  abbrev pub onto_applied : ℕ → System H × Result → System H × Result
  onto_applied version (system, applied_all applied) = (system, applied_all (version ∷ applied))
  onto_applied version (system, err failure) = (system, err failure)

  module _ (json : JsonCodec) (now : ℕ → Text) where
    unfoldable pub logged : SystemMigration H → System H → System H
    unfolding append_entry
    logged m system = record {
      log = some (append_entry json (entry_for now m.version (m.up system.host).1) system.log);
      host = (m.up system.host).0;
    }

    -- The loop over the registry, from the version that the host has by then.
    unfoldable pub apply_pending : List (SystemMigration H) → ℕ → System H → System H × Result
    unfolding logged
    apply_pending [] current system = (system, applied_all [])
    apply_pending (m ∷ registry) current system =
        let skipped = apply_pending registry current system in
        let applied = apply_pending registry m.version (logged m system) in
        if leb m.version current then skipped else elim (m.up system.host).1 [
          | none ↦ onto_applied m.version applied
          | some error ↦ (logged m system, err (migration_failed m.version error))
        ]

    unfoldable pub apply_system_migrations :
        List (SystemMigration H) → ℕ → System H → System H × Result
    unfolding is_valid_registry latest_registry_version current_host_version read_log apply_pending
    apply_system_migrations registry euid system =
        let highest = latest_registry_version registry in
        let current = current_host_version (read_log json system.log) in
        if not (is_valid_registry registry)
        then (system, err bad_registry)
        else if not (euid == 0)
        then (system, err not_root)
        else if current == 0
        then (system, err no_history)
        else if ltb highest current
        then (system, err (newer_than_code current highest))
        else apply_pending registry current system

-- What the dashboard is told (status.py); the messages are left out.
pub data Reason : Type 0 where
  missing behind ahead up_to_date : Reason

pub record MigrationStatus : Type 0 where
  pub is_ok : Bool
  pub reason : Reason
  pub host_version : ℕ
  pub expected_version : ℕ

module _ {H : Type 0} (json : JsonCodec) where
  unfoldable pub get_migration_status : List (SystemMigration H) → Option Text → MigrationStatus
  unfolding latest_registry_version current_host_version read_log
  get_migration_status registry log =
      let expected = latest_registry_version registry in
      let current = current_host_version (read_log json log) in
      let status : Bool → Reason → MigrationStatus = λ is_ok reason. record {
        is_ok = is_ok;
        reason = reason;
        host_version = current;
        expected_version = expected;
      } in
      if current == 0
      then status false missing
      else if ltb current expected
      then status false behind
      else if ltb expected current
      then status false ahead
      else status true up_to_date
