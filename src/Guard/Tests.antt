-- ===== src/Guard/Tests.antt =====
-- A running app on a full disk.
use aerosol.Prelude.{◌≡◌, refl, false, [], ◌∷◌, evaluation}
use aerosol.Db.{status_beq}
use aerosol.Domains.Tests.{wiki, space}
use aerosol.Manifest.{pos}
use aerosol.Guard.{
  storage_min_free_bytes, check_min_free, storage_low, to_low, stop_rows, enforce_storage_guard,
}

-- What the tests compute with.
model : Unit {0}
unfolding status_beq storage_min_free_bytes check_min_free storage_low stop_rows
    enforce_storage_guard evaluation
model = tt

stops : (enforce_storage_guard (pos 1) 1048575 false space).apps ≡ to_low wiki ∷ []
unfolding model
stops = refl

spares : enforce_storage_guard (pos 1) 1048576 false space ≡ space
unfolding model
spares = refl
