-- ===== src/Guards.antt =====
-- compute_space/src/compute_space/core/memory_guard.py and image_pruner.py: the warnings about apps that
-- near their memory limit or are killed, and the sweep of images that no app has any more. What
-- podman measures and lists is a parameter.
pub mod Pressure
pub mod Loop
pub mod Sweep
pub mod Tests
use aerosol.Prelude.{
  ℕ, zero, suc, ◌+◌, nat_eq, list_eq, ◌==◌, ltb, leb, if◌then◌else◌, Bool, true, false, not, ◌&&◌,
  ◌||◌, Option, none, some, List, [], ◌∷◌, ◌++◌, map, contains, Text, delete_where, find?,
}
use aerosol.Db.{App, Db}
use aerosol.Manifest.{ℤ, pos, negsuc}

-- A use of memory in hundredths of a percent of the app's limit, none where podman has no answer.
abbrev pub Reading : Type 0
Reading = Text × Option ℕ

abbrev pub memory_warn_percent : ℕ
memory_warn_percent = 9000

abbrev pub memory_clear_percent : ℕ
memory_clear_percent = 8000

-- The apps that the owner has been warned about, and the warnings so far, each with what was measured.
pub record MemoryGuard : Type 0 where
  pub pressure_notified : List Text
  pub warnings : List (Text × ℕ)

unfoldable pub check_memory_pressure : Reading → MemoryGuard → MemoryGuard
check_memory_pressure (app_id, none) guard = guard
check_memory_pressure (app_id, some percent) guard =
    if ltb percent memory_clear_percent
    then record guard {
      pressure_notified = delete_where (λ a. a == app_id) guard.pressure_notified;
    }
    else if leb memory_warn_percent percent && not (contains app_id guard.pressure_notified)
    then record {
      pressure_notified = app_id ∷ guard.pressure_notified;
      warnings = guard.warnings ++ (app_id, percent) ∷ [];
    }
    else guard

-- The rounds of the pressure loop, one reading after the other.
unfoldable pub check_pressure : List Reading → MemoryGuard → MemoryGuard
unfolding check_memory_pressure
check_pressure [] guard = guard
check_pressure (r ∷ readings) guard = check_pressure readings (check_memory_pressure r guard)

-- A container that the kernel has killed, and the app or the container that the owner is told of.
pub record ContainerOomKill : Type 0 where
  pub container_id : Text
  pub container_name : Text

pub data OomWarning : Type 0 where
  app_killed : Text → OomWarning
  container_killed : Text → OomWarning

abbrev pub has_container : Text → Option Text → Bool
has_container container_id none = false
has_container container_id (some other) = other == container_id

-- `by_container[container_id]`, where the last row with the id counts.
unfoldable pub by_container : Text → List App → Option App
by_container container_id [] = none
by_container container_id (a ∷ rows) =
    let later = by_container container_id rows in
    elim later [
      | some b ↦ some b
      | none ↦ if has_container container_id a.container_id then some a else none
    ]

unfoldable pub report_container_ooms : List ContainerOomKill → List App → List OomWarning
unfolding by_container
report_container_ooms [] rows = []
report_container_ooms (kill ∷ kills) rows =
    elim (by_container kill.container_id rows) [
      | some a ↦ app_killed a.name
      | none ↦ container_killed kill.container_name
    ]
    ∷ report_container_ooms kills rows

-- A configured number of seconds, where nothing positive means off.
unfoldable pub positive_seconds : ℤ → Option ℕ
positive_seconds (pos zero) = none
positive_seconds (pos (suc n)) = some (suc n)
positive_seconds (negsuc n) = none

-- An image `openhost-{app_name}:latest`.
pub record OpenHostImage : Type 0 where
  pub image_id : Text
  pub app_name : Text
  pub created_epoch : ℕ

abbrev pub app_names : Db → List Text
app_names db = map (λ (a : App). a.name) db.apps

-- The image is of no app, and old enough.
unfoldable pub is_orphan : List Text → ℕ → ℕ → OpenHostImage → Bool
is_orphan names max_age now image =
    not (contains image.app_name names) && not (ltb now (image.created_epoch + max_age))

-- How `podman rmi --force` ends: it removes the image, answers with a failure, or takes more than its 30 seconds, when
-- the image may be gone all the same.
pub data Removal : Type 0 where
  removed refused : Removal
  timed_out : Bool → Removal

-- The image's id, which other tags may have as well: podman takes them all.
abbrev pub without_id : Text → List OpenHostImage → List OpenHostImage
without_id image_id images = delete_where (λ (i : OpenHostImage). i.image_id == image_id) images

-- The tags that podman has after a sweep, the ids that were removed, and the id whose removal raised TimeoutExpired, which
-- ends the sweep without an answer.
pub record Sweeping : Type 0 where
  pub left : List OpenHostImage
  pub ids : List Text
  pub raised : Option Text

-- The loop over the tags that were listed, on those that podman has by then.
unfoldable pub sweep_images :
    (Text → Removal) → List Text → ℕ → ℕ → List OpenHostImage → List OpenHostImage → Sweeping
unfolding is_orphan
sweep_images remove_image_by_id names max_age now [] left = record {
  left = left;
  ids = [];
  raised = none;
}
sweep_images remove_image_by_id names max_age now (image ∷ images) left =
    let without = without_id image.image_id left in
    let gone = sweep_images remove_image_by_id names max_age now images without in
    let kept = sweep_images remove_image_by_id names max_age now images left in
    if not (is_orphan names max_age now image)
    then kept
    else elim (remove_image_by_id image.image_id) [
      | removed ↦ record gone { ids = image.image_id ∷ gone.ids }
      | refused ↦ kept
      | timed_out lost ↦ record {
        left = if lost then without else left;
        ids = [];
        raised = some image.image_id;
      }
    ]

-- `images` is what list_openhost_images finds, none where podman does not answer.
unfoldable pub sweep_orphaned_images : (Text → Removal) → ℤ → Db → ℕ → List OpenHostImage → Sweeping
unfolding positive_seconds sweep_images
sweep_orphaned_images remove_image_by_id max_age_seconds db now images =
    elim (positive_seconds max_age_seconds) [
      | none ↦ record { left = images; ids = []; raised = none }
      | some max_age ↦ sweep_images remove_image_by_id (app_names db) max_age now images images
    ]
