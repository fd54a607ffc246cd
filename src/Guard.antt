-- ===== src/Guard.antt =====
-- compute_space/src/compute_space/core/storage.py: the threshold of free disk space, and the guard
-- that stops apps below it. The free space is a parameter; stopping a container has no effect on
-- the database.
pub mod Enforced
pub mod Tests
use aerosol.Prelude.{
  ℕ, zero, suc, list_eq, nat_eq, ◌==◌, ltb, ◌*◌, if◌then◌else◌, Bool, true, false, ◌||◌, Option,
  none, some, List, [], ◌∷◌, filter, is_some, Text, codes, update_where,
}
use aerosol.Db.{App, Db, status_beq, running, starting, error}
use aerosol.Manifest.{ℤ, pos, negsuc}

abbrev pub mib : ℕ
mib = 1024 * 1024

-- No threshold where the configured one is not positive.
unfoldable pub storage_min_free_bytes : ℤ → Option ℕ
storage_min_free_bytes (pos zero) = none
storage_min_free_bytes (pos (suc n)) = some (suc n * mib)
storage_min_free_bytes (negsuc n) = none

-- The free space and the threshold, where the first is below the second.
unfoldable pub check_min_free : ℤ → ℕ → Option (ℕ × ℕ)
unfolding storage_min_free_bytes
check_min_free storage_min_free_mb free = elim (storage_min_free_bytes storage_min_free_mb) [
  | none ↦ none
  | some min_free ↦ if ltb free min_free then some (free, min_free) else none
]

unfoldable pub storage_low : ℤ → ℕ → Bool
unfolding check_min_free
storage_low storage_min_free_mb free = is_some (check_min_free storage_min_free_mb free)

-- status IN ('running', 'starting')
abbrev pub is_up : App → Bool
is_up a = status_beq a.status running || status_beq a.status starting

abbrev pub low_message : Text
low_message = codes "Storage too low. Free space by removing app data or resizing disks."

abbrev pub to_low : App → App
to_low a = record a { status = error; error_message = some low_message; container_id = none }

-- The loop over the rows, one UPDATE for each.
unfoldable pub stop_rows : List App → List App → List App
stop_rows [] apps = apps
stop_rows (row ∷ rows) apps =
    stop_rows rows (update_where (λ a. a.app_id == row.app_id) to_low apps)

unfoldable pub enforce_storage_guard : ℤ → ℕ → Bool → Db → Db
unfolding storage_low stop_rows
enforce_storage_guard storage_min_free_mb free paused db =
    if storage_low storage_min_free_mb free
    then (if paused then db else record db { apps = stop_rows (filter is_up db.apps) db.apps })
    else db
