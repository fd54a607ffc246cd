-- ===== src/Lifecycle/Taken.antt =====
-- compute_space/src/compute_space/web/routes/api/apps.py: what one request for an app claims.
use mathlib.Core.Path.{subst}
use aerosol.Prelude.{
  nat_eq, list_eq, ◌==◌, eq_iff, if◌then◌else◌, if_elim, ◌≡◌, ◌≢◌, ◌⊎◌, refl, sym, ap, ◌∙◌, inl,
  inr, Bool, true, false, not, ◌&&◌, ◌||◌, Option, none, some, List, [], ◌∷◌, arith, Elem,
  elem-update_where, count_where, update_where, Text, Bool-cases,
}
use aerosol.Db.{App, Db, Status, building, starting, running, stopped, error, removing, status_beq}
use aerosol.Lifecycle.{update_app}
use aerosol.Lifecycle.Launch.{find_app}
use aerosol.Lifecycle.Rows.{RowsAre}
use aerosol.Lifecycle.Claims.{
  AppRequest, to_reload, to_stop, to_remove, Fetch, fetched, postponed, fetch_failed, Reply,
  reload_started, already_reloading, update_failed, not_yet, app_stopped, stop_broken_off,
  removal_started, removal_not_started, being_removed, archive_is_down, no_such_app, is_settled,
  is_not_removing, claim_rows, reloading, in_removal, halted, as_failed, claim_reload,
  fetch_and_claim, reload_app_impl, claim_removal, remove_app, stop_app, respond,
}

-- The request is a reload that continues after a login.
abbrev pub continues : AppRequest → Bool
continues (to_reload update continue_oauth archive_down fetch seen) = continue_oauth
continues (to_stop raises) = false
continues (to_remove archive_down no_worker) = false

-- The reply tells of a status that no claim stands for.
abbrev pub IsRelease : Reply → Type 0
IsRelease reply = (reply ≡ app_stopped) ⊎ (reply ≡ update_failed) ⊎ (reply ≡ removal_not_started)

module _ (app_id : Text) where
  -- The app is claimed against a reload, or for its removal.
  abbrev pub IsTaken : Db → Type 0
  IsTaken db = RowsAre app_id (λ a. is_settled a.status ≡ false) db

  abbrev pub IsLeaving : Db → Type 0
  IsLeaving db = RowsAre app_id (λ a. is_not_removing a.status ≡ false) db

  unmet :
      (p : App → Bool) (change : App → App) (rows : List App)
      → ((a : App) → Elem a rows → p a ≡ false)
      → (update_where p change rows ≡ rows) × (count_where p rows ≡ 0)
  unfolding update_where count_where
  unmet p change [] h = (refl, refl)
  unmet p change (a ∷ rows) h =
      let (same, zero_rows) = unmet p change rows (λ b m. h b (inr m)) in
      rw (h a (inl refl)) (ap (λ (l : List App). a ∷ l) same, zero_rows)

  -- A claim meets no row that is as it leaves them.
  pub claim_rows-count :
      (p : Status → Bool) (change : App → App) (db : Db)
      → RowsAre app_id (λ a. p a.status ≡ false) db
      → (claim_rows app_id p change db).1 ≡ 0
  unfolding claim_rows
  claim_rows-count p change db free =
      (unmet (λ a. a.app_id == app_id && p a.status) change db.apps
        (λ a m. ground (arith, free a m, eq_iff a.app_id app_id))).1

  pub claim_rows-leaves :
      (p : Status → Bool) (change : App → App) (db : Db)
      → ((a : App) → (change a).app_id ≡ a.app_id)
      → ((a : App) → p (change a).status ≡ false)
      → RowsAre app_id (λ a. p a.status ≡ false) (claim_rows app_id p change db).0
  unfolding claim_rows
  claim_rows-leaves p change db same_id claimed b m own =
      let (a, listed, e) =
        elem-update_where (λ (x : App). x.app_id == app_id && p x.status) change b db.apps m in
      elim (Bool-cases (a.app_id == app_id && p a.status)) [
        | inl met ↦
            let made : b ≡ change a = rw met at e in
            subst (λ (x : App). p x.status ≡ false) (sym made) (claimed a)
        | inr unmet_row ↦
            let same : b ≡ a = rw unmet_row at e in
            let its : a.app_id ≡ app_id = ap (λ (x : App). x.app_id) (sym same) ∙ own in
            subst (λ (x : App). p x.status ≡ false) (sym same)
              (ground (arith, (eq_iff a.app_id app_id).1 its))
      ]

  pub claim_rows-unmet :
      (p : Status → Bool) (change : App → App) (db : Db)
      → RowsAre app_id (λ a. p a.status ≡ false) db
      → (claim_rows app_id p change db).0.apps ≡ db.apps
  unfolding claim_rows
  claim_rows-unmet p change db free =
      (unmet (λ a. a.app_id == app_id && p a.status) change db.apps
        (λ a m. ground (arith, free a m, eq_iff a.app_id app_id))).0

  -- An app in removal is not settled.
  pub IsLeaving-IsTaken : (db : Db) → IsLeaving db → IsTaken db
  unfolding status_beq
  IsLeaving-IsTaken db leaving a m own = unsettled a.status (leaving a m own)
    where
      unsettled : (s : Status) → is_not_removing s ≡ false → is_settled s ≡ false
      unsettled building e = refl
      unsettled starting e = refl
      unsettled running e = cc
      unsettled stopped e = cc
      unsettled error e = cc
      unsettled removing e = refl

  -- What one request does: a reload starts, of an app that is free or after a login; or a claim is released; or neither,
  -- and an app that was taken stays so.
  abbrev pub Moves : Bool → Db → Db × Reply → Type 0
  Moves continued db (next, reply) =
      ((reply ≡ reload_started) × ((continued ≡ true) ⊎ (¬ IsTaken db)) × IsTaken next)
      ⊎ IsRelease reply
      ⊎ ((reply ≢ reload_started) × (IsTaken db → IsTaken next))

  idle :
      (continued : Bool) (db : Db) (reply : Reply)
      → reply ≢ reload_started
      → Moves continued db (db, reply)
  idle continued db reply other = inr (inr (other, λ h. h))

  claim_reload-Moves :
      (continued : Bool) (db : Db) → Moves continued db (claim_reload continued app_id db)
  unfolding claim_reload status_beq
  claim_reload-Moves continued db =
      by_count continued ((claim_rows app_id is_settled reloading db).1 == 0) refl
    where
      taken : IsTaken (claim_rows app_id is_settled reloading db).0
      taken = claim_rows-leaves is_settled reloading db (λ a. refl) (λ a. refl)

      by_count :
          (c b : Bool)
          → ((claim_rows app_id is_settled reloading db).1 == 0) ≡ b
          → Moves c db (
            (claim_rows app_id is_settled reloading db).0,
            if b && not c then already_reloading else reload_started,
          )
      by_count true b e = inl (ground arith, inl refl, taken)
      by_count false true e = inr (inr ((λ k. cc), (λ h. taken)))
      by_count false false e = inl (
        refl,
        inr (λ h.
            let k =
              (eq_iff (claim_rows app_id is_settled reloading db).1 0).1
                (claim_rows-count is_settled reloading db h) in
            cc),
        taken,
      )

  fetch_and_claim-Moves :
      (continued : Bool) (fetch : Fetch) (db : Db)
      → Moves continued db (fetch_and_claim continued fetch app_id db)
  unfolding fetch_and_claim
  fetch_and_claim-Moves continued fetched db = claim_reload-Moves continued db
  fetch_and_claim-Moves continued postponed db = idle continued db not_yet (λ k. cc)
  fetch_and_claim-Moves continued (fetch_failed message) db = inr (inl (inr (inl refl)))

  plain-Moves : (continued : Bool) (db : Db) → Moves continued db (claim_reload false app_id db)
  plain-Moves continued db = weaker (claim_reload false app_id db) (claim_reload-Moves false db)
    where
      weaker : (end : Db × Reply) → Moves false db end → Moves continued db end
      weaker (next, reply) (inl (e, inl k, t)) = cc
      weaker (next, reply) (inl (e, inr free, t)) = inl (e, inr free, t)
      weaker (next, reply) (inr other) = inr other

  reload-Moves :
      (update continued archive_down : Bool) (fetch : Fetch) (seen : Option App) (db : Db)
      → Moves continued db (reload_app_impl update continued archive_down fetch seen app_id db)
  unfolding reload_app_impl
  reload-Moves update continued archive_down fetch none db = idle continued db no_such_app (λ k. cc)
  reload-Moves update continued archive_down fetch (some seen) db =
      if_elim (Moves continued db) (status_beq seen.status removing)
        (λ going. idle continued db being_removed (λ k. cc))
        (λ stays.
          if_elim (Moves continued db) archive_down
            (λ down. idle continued db archive_is_down (λ k. cc))
            (λ up.
              if_elim (Moves continued db) (update || continued)
                (λ asked. fetch_and_claim-Moves continued fetch db)
                (λ plain. plain-Moves continued db)))

  claim_removal-Moves :
      (no_worker : Option Text) (db : Db) → Moves false db (claim_removal no_worker app_id db)
  unfolding claim_removal status_beq
  claim_removal-Moves no_worker db =
      if_elim (Moves false db) ((claim_rows app_id is_not_removing in_removal db).1 == 0)
        (λ unclaimed. inr (inr ((λ k. cc), (λ h. leaves)))) (λ claimed. by_worker no_worker)
    where
      leaves : IsTaken (claim_rows app_id is_not_removing in_removal db).0
      leaves =
          IsLeaving-IsTaken (claim_rows app_id is_not_removing in_removal db).0
            (claim_rows-leaves is_not_removing in_removal db (λ a. refl) (λ a. refl))

      by_worker :
          (o : Option Text)
          → Moves false db (elim o as (λ _. Db × Reply) [
            | none ↦ ((claim_rows app_id is_not_removing in_removal db).0, removal_started)
            | some message ↦ (
              update_app app_id
                  (as_failed message)
                  (claim_rows app_id is_not_removing in_removal db).0,
              removal_not_started,
            )
          ])
      by_worker none = inr (inr ((λ k. cc), (λ h. leaves)))
      by_worker (some message) = inr (inl (inr (inr refl)))

  remove-Moves :
      (archive_down : Bool) (no_worker : Option Text) (db : Db)
      → Moves false db (remove_app archive_down no_worker app_id db)
  unfolding remove_app
  remove-Moves archive_down no_worker db = by_row (find_app app_id db)
    where
      by_row :
          (o : Option App)
          → Moves false db (elim o as (λ _. Db × Reply) [
            | none ↦ (db, no_such_app)
            | some row ↦
                if archive_down then (db, archive_is_down) else claim_removal no_worker app_id db
          ])
      by_row none = idle false db no_such_app (λ k. cc)
      by_row (some row) =
          if_elim (Moves false db) archive_down (λ down. idle false db archive_is_down (λ k. cc))
            (λ up. claim_removal-Moves no_worker db)

  stop-Moves : (raises : Bool) (db : Db) → Moves false db (stop_app raises app_id db)
  unfolding stop_app
  stop-Moves raises db = by_row (find_app app_id db)
    where
      by_row :
          (o : Option App)
          → Moves false db (elim o as (λ _. Db × Reply) [
            | none ↦ (db, no_such_app)
            | some row ↦
                if status_beq row.status removing
                then (db, being_removed)
                else if raises
                then (db, stop_broken_off)
                else (update_app app_id halted db, app_stopped)
          ])
      by_row none = idle false db no_such_app (λ k. cc)
      by_row (some row) =
          if_elim (Moves false db) (status_beq row.status removing)
            (λ going. idle false db being_removed (λ k. cc))
            (λ stays.
              if_elim (Moves false db) raises (λ broken. idle false db stop_broken_off (λ k. cc))
                (λ done. inr (inl (inl refl))))

  pub respond-Moves :
      (request : AppRequest) (db : Db) → Moves (continues request) db (respond app_id request db)
  unfolding respond
  respond-Moves (to_reload update continued archive_down fetch seen) db =
      reload-Moves update continued archive_down fetch seen db
  respond-Moves (to_stop raises) db = stop-Moves raises db
  respond-Moves (to_remove archive_down no_worker) db = remove-Moves archive_down no_worker db
