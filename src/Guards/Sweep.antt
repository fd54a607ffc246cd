-- ===== src/Guards/Sweep.antt =====
-- compute_space/src/compute_space/core/image_pruner.py: which images a sweep removes.
use mathlib.Core.Path.{subst}
use aerosol.Prelude.{
  ℕ, zero, suc, ◌<◌, nat_eq, list_eq, ◌≡◌, ◌↔◌, refl, Bool, none, some, List, [], arith, Elem, Text,
}
use aerosol.Db.{Db}
use aerosol.Manifest.{ℤ, pos, negsuc}
use aerosol.Guards.{
  Removal, removed, timed_out, Sweeping, OpenHostImage, positive_seconds, app_names, sweep_images,
  sweep_orphaned_images,
}
use aerosol.Guards.Loop.{IsOrphan, IsLost, HasOrphan, sweep_images-Swept}

-- The number of seconds that a configuration stands for.
abbrev pub IsAge : ℤ → ℕ → Type 0
IsAge configured max_age = (configured ≡ pos max_age) × (0 < max_age)

-- What a sweep has done to the tags that podman had, and what it answers with.
pub record IsSwept (remove_image_by_id : Text → Removal) (configured : ℤ) (db : Db) (now : ℕ)
    (images : List OpenHostImage) (sweep : Sweeping) : Type 0 where
  pub kept :
      (image : OpenHostImage)
      → Elem image sweep.left ↔ (
          Elem image images
          × (¬ Elem image.image_id sweep.ids)
          × (¬ IsLost remove_image_by_id sweep image.image_id))
  pub taken :
      (id : Text)
      → Elem id sweep.ids
      → (max_age : ℕ) × IsAge configured max_age
        × HasOrphan db max_age now images id
        × (remove_image_by_id id ≡ removed)
  pub thorough :
      (max_age : ℕ)
      → IsAge configured max_age
      → sweep.raised ≡ none
      → (image : OpenHostImage) → Elem image images
      → IsOrphan db max_age now image
      → remove_image_by_id image.image_id ≡ removed
      → Elem image.image_id sweep.ids
  pub broken_off :
      (id : Text)
      → sweep.raised ≡ some id
      → (max_age : ℕ) × IsAge configured max_age
        × HasOrphan db max_age now images id
        × ((lost : Bool) × (remove_image_by_id id ≡ timed_out lost))

module _ (remove : Text → Removal) (configured : ℤ) (db : Db) (now : ℕ)
    (images : List OpenHostImage) where
  off-IsSwept :
      ((max_age : ℕ) → ¬ IsAge configured max_age)
      → IsSwept remove configured db now images (record { left = images; ids = []; raised = none })
  off-IsSwept off = record {
    kept = λ image. ((λ m. (m, (λ n. absurd n), (λ l. let k = l.0 in cc))), (λ h. h.0));
    taken = λ id m. absurd m;
    thorough = λ max_age age fine image m o d. absurd (off max_age age);
    broken_off = λ id e. cc;
  }

  on-IsSwept :
      (n : ℕ)
      → IsAge configured n
      → IsSwept remove configured db now images
          (sweep_images remove (app_names db) n now images images)
  on-IsSwept n age =
      let swept = sweep_images-Swept remove db n now images images in
      record {
        kept = swept.kept;
        taken = λ id m. let (found, done) = swept.taken id m in (n, age, found, done);
        thorough = λ max_age other fine image m o d.
            let same : max_age ≡ n = ground (arith, age, other) in
            swept.thorough fine image m (subst (λ (k : ℕ). IsOrphan db k now image) same o) d;
        broken_off = λ id e. let (found, end) = swept.broken_off id e in (n, age, found, end);
      }

-- A sweep takes the ids of orphans: images that have the name of no app, whatever its status, and at least the configured
-- age. An image stays exactly if its id is none of those that the sweep answers with, nor the one whose removal has
-- taken too long and gone through all the same: what else has the id of an orphan goes with it, an app's image too.
-- A sweep that no such removal breaks off removes every orphan that podman removes. Without a positive age it
-- removes nothing.
pub sweep_orphaned_images-IsSwept :
    (remove_image_by_id : Text → Removal) (configured : ℤ) (db : Db) (now : ℕ)
    (images : List OpenHostImage)
    → IsSwept remove_image_by_id configured db now images
        (sweep_orphaned_images remove_image_by_id configured db now images)
unfolding sweep_orphaned_images positive_seconds
sweep_orphaned_images-IsSwept remove (pos zero) db now images =
    off-IsSwept remove (pos zero) db now images (λ max_age h. ground (arith, h))
sweep_orphaned_images-IsSwept remove (pos (suc n)) db now images =
    on-IsSwept remove (pos (suc n)) db now images (suc n) (refl, omega arith)
sweep_orphaned_images-IsSwept remove (negsuc n) db now images =
    off-IsSwept remove (negsuc n) db now images (λ max_age h. ground (arith, h))
