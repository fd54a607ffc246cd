-- ===== src/Guards/Tests.antt =====
-- The readings of two apps, and images of an app that is there and of one that is gone.
use aerosol.Prelude.{
  ℕ, nat_eq, list_eq, ◌≡◌, refl, none, some, List, [], ◌∷◌, Text, codes, evaluation,
}
use aerosol.Domains.Tests.{space}
use aerosol.Manifest.{pos}
use aerosol.Guards.{
  Reading, MemoryGuard, check_memory_pressure, check_pressure, by_container, report_container_ooms,
  app_killed, container_killed, removed, OpenHostImage, positive_seconds, is_orphan, sweep_images,
  sweep_orphaned_images,
}
use aerosol.Guards.Pressure.{
  alarm_step, alarm_run, readings_of, warnings_of, view, view-check_pressure,
}
use aerosol.Guards.Sweep.{IsSwept, sweep_orphaned_images-IsSwept}

-- What the tests compute with.
model : Unit {0}
unfolding check_memory_pressure check_pressure by_container report_container_ooms positive_seconds
    is_orphan sweep_images sweep_orphaned_images alarm_step alarm_run readings_of warnings_of view
    evaluation
model = tt

abbrev blog : Text
blog = codes "blog"

abbrev notes : Text
notes = codes "notes"

abbrev readings : List Reading
readings =
    (blog, some 9100)
    ∷ (notes, some 9900)
    ∷ (blog, some 8500)
    ∷ (blog, some 9200)
    ∷ (notes, none)
    ∷ (blog, some 7000)
    ∷ (blog, some 9000)
    ∷ []

abbrev quiet : MemoryGuard
quiet = record { pressure_notified = []; warnings = [] }

abbrev image : Text → Text → ℕ → OpenHostImage
image id name created = record { image_id = id; app_name = name; created_epoch = created }

abbrev images : List OpenHostImage
images =
    image (codes "1") (codes "wiki") 0
    ∷ image (codes "2") (codes "gone") 0
    ∷ image (codes "3") (codes "gone") 95
    ∷ []

runs :
    ((check_pressure readings quiet).warnings ≡ (blog, 9100) ∷ (notes, 9900) ∷ (blog, 9000) ∷ [])
    × ((sweep_orphaned_images (λ id. removed) (pos 10) space 100 images).ids ≡ codes "2" ∷ [])
    × (report_container_ooms
          (record { container_id = codes "c1"; container_name = codes "openhost-wiki" }
            ∷ record { container_id = codes "c9"; container_name = codes "openhost-old" }
            ∷ [])
          space.apps
        ≡ app_killed (codes "wiki") ∷ container_killed (codes "openhost-old") ∷ [])
unfolding model
runs = (refl, refl, refl)

-- Two apps with one image: the one that is gone takes the other's with it.
shared :
    (sweep_orphaned_images
      (λ id. removed)
      (pos 10)
      space
      100
      (image (codes "7") (codes "wiki") 0 ∷ image (codes "7") (codes "gone") 0 ∷ [])).left
    ≡ []
unfolding model
shared = refl

view-check_pressure_example :
    view blog (check_pressure readings quiet)
    ≡ alarm_run (readings_of blog readings) (view blog quiet)
view-check_pressure_example = view-check_pressure blog readings quiet

sweep_orphaned_images-IsSwept_example :
    IsSwept
      (λ id. removed)
      (pos 10)
      space
      100
      images
      (sweep_orphaned_images (λ id. removed) (pos 10) space 100 images)
sweep_orphaned_images-IsSwept_example =
    sweep_orphaned_images-IsSwept (λ id. removed) (pos 10) space 100 images
