-- ===== src/Lifecycle/Leaving.antt =====
-- compute_space/src/compute_space/web/routes/api/apps.py: what one request does to an app in removal.
use aerosol.Prelude.{
  nat_eq, list_eq, ◌==◌, eq_iff, if◌then◌else◌, if_elim, ◌≡◌, ◌≢◌, ◌⊎◌, refl, inl, inr, Bool, true,
  false, not, ◌&&◌, ◌||◌, Option, none, some, arith, Text,
}
use aerosol.Db.{App, Db, removing, status_beq}
use aerosol.Lifecycle.{update_app}
use aerosol.Lifecycle.Launch.{find_app}
use aerosol.Lifecycle.Orphans.{found_row}
use aerosol.Lifecycle.Claims.{
  AppRequest, to_reload, to_stop, to_remove, Fetch, fetched, postponed, fetch_failed, Reply,
  reload_started, already_reloading, update_failed, not_yet, app_stopped, stop_broken_off,
  removal_started, removal_not_started, being_removed, archive_is_down, no_such_app, is_settled,
  is_not_removing, claim_rows, reloading, in_removal, halted, as_failed, claim_reload,
  fetch_and_claim, reload_app_impl, claim_removal, remove_app, stop_app, respond,
}
use aerosol.Lifecycle.Taken.{
  IsLeaving, IsLeaving-IsTaken, claim_rows-count, claim_rows-leaves, claim_rows-unmet,
}

module _ (app_id : Text) where
  -- A removal starts, of an app that was in none; or an update has failed; or neither, and an app in removal
  -- stays so.
  abbrev pub Leaves : Db → Db × Reply → Type 0
  Leaves db (next, reply) =
      ((reply ≡ removal_started) × (¬ IsLeaving app_id db) × IsLeaving app_id next)
      ⊎ (reply ≡ update_failed)
      ⊎ ((reply ≢ removal_started) × (IsLeaving app_id db → IsLeaving app_id next))

  same : (db : Db) (reply : Reply) → reply ≢ removal_started → Leaves db (db, reply)
  same db reply other = inr (inr (other, λ h. h))

  claim_reload-Leaves : (continued : Bool) (db : Db) → Leaves db (claim_reload continued app_id db)
  unfolding claim_reload
  claim_reload-Leaves continued db =
      by_reply ((claim_rows app_id is_settled reloading db).1 == 0 && not continued)
    where
      stays : IsLeaving app_id db → IsLeaving app_id (claim_rows app_id is_settled reloading db).0
      stays h a m own =
          h a
            (rw (claim_rows-unmet app_id is_settled reloading db (IsLeaving-IsTaken app_id db h)) at
              m)
            own

      by_reply :
          (b : Bool)
          → Leaves db (
            (claim_rows app_id is_settled reloading db).0,
            if b then already_reloading else reload_started,
          )
      by_reply true = inr (inr ((λ k. cc), stays))
      by_reply false = inr (inr ((λ k. cc), stays))

  fetch_and_claim-Leaves :
      (continued : Bool) (fetch : Fetch) (db : Db)
      → Leaves db (fetch_and_claim continued fetch app_id db)
  unfolding fetch_and_claim
  fetch_and_claim-Leaves continued fetched db = claim_reload-Leaves continued db
  fetch_and_claim-Leaves continued postponed db = same db not_yet (λ k. cc)
  fetch_and_claim-Leaves continued (fetch_failed message) db = inr (inl refl)

  reload-Leaves :
      (update continued archive_down : Bool) (fetch : Fetch) (seen : Option App) (db : Db)
      → Leaves db (reload_app_impl update continued archive_down fetch seen app_id db)
  unfolding reload_app_impl
  reload-Leaves update continued archive_down fetch none db = same db no_such_app (λ k. cc)
  reload-Leaves update continued archive_down fetch (some seen) db =
      if_elim (Leaves db) (status_beq seen.status removing)
        (λ going. same db being_removed (λ k. cc))
        (λ stays.
          if_elim (Leaves db) archive_down (λ down. same db archive_is_down (λ k. cc))
            (λ up.
              if_elim (Leaves db) (update || continued)
                (λ asked. fetch_and_claim-Leaves continued fetch db)
                (λ plain. claim_reload-Leaves false db)))

  claim_removal-Leaves :
      (no_worker : Option Text) (db : Db) → Leaves db (claim_removal no_worker app_id db)
  unfolding claim_removal status_beq
  claim_removal-Leaves no_worker db =
      if_elim (Leaves db) ((claim_rows app_id is_not_removing in_removal db).1 == 0)
        (λ unclaimed. inr (inr ((λ k. cc), (λ h. leaves)))) (λ claimed. by_worker claimed no_worker)
    where
      leaves : IsLeaving app_id (claim_rows app_id is_not_removing in_removal db).0
      leaves = claim_rows-leaves app_id is_not_removing in_removal db (λ a. refl) (λ a. refl)

      free :
          ((claim_rows app_id is_not_removing in_removal db).1 == 0) ≡ false → ¬ IsLeaving app_id db
      free claimed h =
          let k =
            (eq_iff (claim_rows app_id is_not_removing in_removal db).1 0).1
              (claim_rows-count app_id is_not_removing in_removal db h) in
          cc

      by_worker :
          ((claim_rows app_id is_not_removing in_removal db).1 == 0) ≡ false
          → (o : Option Text)
          → Leaves db (elim o as (λ _. Db × Reply) [
            | none ↦ ((claim_rows app_id is_not_removing in_removal db).0, removal_started)
            | some message ↦ (
              update_app app_id
                  (as_failed message)
                  (claim_rows app_id is_not_removing in_removal db).0,
              removal_not_started,
            )
          ])
      by_worker claimed none = inl (refl, free claimed, leaves)
      by_worker claimed (some message) = inr (inr ((λ k. cc), (λ h. absurd (free claimed h))))

  remove-Leaves :
      (archive_down : Bool) (no_worker : Option Text) (db : Db)
      → Leaves db (remove_app archive_down no_worker app_id db)
  unfolding remove_app
  remove-Leaves archive_down no_worker db = by_row (find_app app_id db)
    where
      by_row :
          (o : Option App)
          → Leaves db (elim o as (λ _. Db × Reply) [
            | none ↦ (db, no_such_app)
            | some row ↦
                if archive_down then (db, archive_is_down) else claim_removal no_worker app_id db
          ])
      by_row none = same db no_such_app (λ k. cc)
      by_row (some row) =
          if_elim (Leaves db) archive_down (λ down. same db archive_is_down (λ k. cc))
            (λ up. claim_removal-Leaves no_worker db)

  stop-Leaves : (raises : Bool) (db : Db) → Leaves db (stop_app raises app_id db)
  unfolding stop_app
  stop-Leaves raises db = by_row (find_app app_id db) refl
    where
      by_row :
          (o : Option App)
          → find_app app_id db ≡ o
          → Leaves db (elim o as (λ _. Db × Reply) [
            | none ↦ (db, no_such_app)
            | some row ↦
                if status_beq row.status removing
                then (db, being_removed)
                else if raises
                then (db, stop_broken_off)
                else (update_app app_id halted db, app_stopped)
          ])
      by_row none e = same db no_such_app (λ k. cc)
      by_row (some row) e =
          let (there, own) = found_row app_id db row e in
          if_elim (Leaves db) (status_beq row.status removing)
            (λ going. same db being_removed (λ k. cc))
            (λ stays.
              if_elim (Leaves db) raises (λ broken. same db stop_broken_off (λ k. cc))
                (λ done.
                  inr (inr ((λ k. cc), (λ h. let k = h row there own in absurd (ground arith))))))

  pub respond-Leaves : (request : AppRequest) (db : Db) → Leaves db (respond app_id request db)
  unfolding respond
  respond-Leaves (to_reload update continued archive_down fetch seen) db =
      reload-Leaves update continued archive_down fetch seen db
  respond-Leaves (to_stop raises) db = stop-Leaves raises db
  respond-Leaves (to_remove archive_down no_worker) db = remove-Leaves archive_down no_worker db
