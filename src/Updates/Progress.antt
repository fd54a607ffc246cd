-- ===== src/Updates/Progress.antt =====
-- openhost_system_agent/src/openhost_system_agent/updater/progress.py: the log of an update, which the
-- page of the update polls until an entry ends it. Timestamps and messages are left out, and
-- so is the owner of the file; `writable` says whether the file takes an append.
use aerosol.Prelude.{
  list_eq, nat_eq, ◌==◌, if◌then◌else◌, Bool, true, false, ◌||◌, Option, none, some, List, [], ◌∷◌,
  ◌++◌, is_empty, Text, codes,
}

-- One object of the log. What another program writes may lack the phase.
pub record ProgressEntry : Type 0 where
  pub phase : Option Text
  pub ref : Option Text

-- A line of the file, as json.loads takes it.
pub data Line : Type 0 where
  blank : Line
  broken : Line
  other_json : Line
  object : ProgressEntry → Line

abbrev pub done_phase : Text
done_phase = codes "done"

abbrev pub failed_phase : Text
failed_phase = codes "failed"

abbrev pub restarting_phase : Text
restarting_phase = codes "restarting"

unfoldable pub read_entries : List Line → List ProgressEntry
read_entries [] = []
read_entries (object entry ∷ text) = entry ∷ read_entries text
read_entries (blank ∷ text) = read_entries text
read_entries (broken ∷ text) = read_entries text
read_entries (other_json ∷ text) = read_entries text

-- `entries[-1].get("phase")`
unfoldable pub last_phase : List ProgressEntry → Option Text
last_phase [] = none
last_phase (entry ∷ []) = entry.phase
last_phase (entry ∷ next ∷ entries) = last_phase (next ∷ entries)

abbrev pub has_phase : Text → Option Text → Bool
has_phase phase none = false
has_phase phase (some other) = other == phase

unfoldable pub is_terminal : List ProgressEntry → Bool
unfolding last_phase
is_terminal entries =
    has_phase done_phase (last_phase entries) || has_phase failed_phase (last_phase entries)

unfoldable pub is_restarting : List ProgressEntry → Bool
unfolding last_phase
is_restarting entries = has_phase restarting_phase (last_phase entries)

-- Append an entry; false where the file does not take it.
unfoldable pub record_entry : Bool → Text → Option Text → List Line → List Line × Bool
record_entry writable phase ref log =
    if writable
    then (log ++ object (record { phase = some phase; ref = ref }) ∷ [], true)
    else (log, false)

unfoldable pub reset_progress : Bool → List Line → List Line
reset_progress writable log = if writable then [] else log

unfoldable pub mark_boot_complete : Bool → Bool → List Line → List Line × Bool
unfolding read_entries is_terminal is_restarting record_entry
mark_boot_complete writable apply_is_running log =
    let entries = read_entries log in
    if is_empty entries || is_terminal entries
    then (log, true)
    else if is_restarting entries
    then record_entry writable done_phase none log
    else if apply_is_running
    then (log, true)
    else record_entry writable failed_phase none log

unfoldable pub record_failure_if_not_terminal : Bool → List Line → List Line × Bool
unfolding read_entries is_terminal is_restarting record_entry
record_failure_if_not_terminal writable log =
    let entries = read_entries log in
    if is_terminal entries || is_restarting entries
    then (log, true)
    else record_entry writable failed_phase none log
