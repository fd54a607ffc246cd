-- ===== src/Updates/FirstStep.antt =====
-- openhost_system_agent/src/openhost_system_agent/update.py (apply_update): the first step of an
-- update, which stops the router, and the whole of an update.
use aerosol.Prelude.{
  ℕ, ◌+◌, ◌≤◌, ◌<◌, if◌then◌else◌, ◌≡◌, ◌⊎◌, refl, inl, inr, true, false, ◌&&◌, not, is_some,
  is_empty, Option, none, some, arith, Text, length, if_elim, codes, length-filter,
}
use aerosol.Prelude.Outcome.{Outcome, ok, err}
use aerosol.Updates.{
  Git, Clone, Failure, unresolved_ref, checkout_failed, clean_failed, uncommitted_changes, no_tags,
  stop_failed, fetch_failed, get_target_ref, get_sorted_tags, resolve_ref_sha, base_tag, is_later,
  next_step,
}
use aerosol.Updates.Progress.{failed_phase, restarting_phase, record_entry}
use aerosol.Updates.Page.{shown_phase, shown_phase-append}
use aerosol.Updates.Apply.{
  Machine, Programs, StepEnd, arrived, handed_over, raised, note, fail, check_out, launch_updater,
  leave_service, preflight, apply_update, walk, update,
}
use aerosol.Updates.Walk.{TagsStandAlone, Ends, at_destination, failed, ahead, walk-Ends}
use aerosol.Updates.Steps.{AtDestination}

-- What the first step comes to, for a host that it starts from.
pub data FirstStep (programs : Programs) (host : Machine) : Machine × StepEnd → Type 0 where
  refused :
      (last : Machine) (failure : Failure)
      → last.repo ≡ host.repo
      → last.router_up ≡ host.router_up
      → shown_phase last.log ≡ some failed_phase
      → FirstStep programs host (last, raised failure)
  broken_off :
      (last : Machine) (failure : Failure)
      → (failure ≡ checkout_failed)
        ⊎ (failure ≡ clean_failed)
        ⊎ ((ref : Text) × (failure ≡ unresolved_ref ref))
      → programs.stop_ok ≡ true
      → host.repo.is_dirty ≡ false
      → shown_phase last.log ≡ some failed_phase
      → FirstStep programs host (last, raised failure)
  under_way :
      (git : Git) (next : Machine)
      → host.repo.is_dirty ≡ false
      → programs.fetch host.git ≡ some git
      → programs.stop_ok ≡ true
      → next.git ≡ git
      → next.router_up ≡ false
      → next.updater_up ≡ programs.launch_ok
      → FirstStep programs host (next, handed_over)

shown_phase-fail :
    (failure : Failure) (host : Machine) → shown_phase (fail failure host).0.log ≡ some failed_phase
unfolding fail note record_entry
shown_phase-fail failure host =
    shown_phase-append host.log (record { phase = some failed_phase; ref = none })

module _ (programs : Programs) (host : Machine) (clean : host.repo.is_dirty ≡ false) (git : Git)
    (fetched : programs.fetch host.git ≡ some git) where
  -- The host after the fetch, with what the log has got since.
  abbrev At : Machine → Type 0
  At now = (now.git ≡ git) × (now.repo ≡ host.repo) × (now.router_up ≡ host.router_up)

  fail-FirstStep :
      (failure : Failure) (now : Machine) → At now → FirstStep programs host (fail failure now)
  unfolding fail note
  fail-FirstStep failure now h = refused _ failure h.1 h.2 (shown_phase-fail failure now)

  check_out-FirstStep :
      (ref : Text) (now : Machine)
      → programs.stop_ok ≡ true
      → now.git ≡ git
      → now.router_up ≡ false
      → now.updater_up ≡ programs.launch_ok
      → FirstStep programs host (check_out programs ref now)
  unfolding check_out note
  check_out-FirstStep ref now stops same down up = by_sha (resolve_ref_sha now.git ref)
    where
      by_sha :
          (o : Option Text)
          → FirstStep programs host (elim o as (λ _. Machine × StepEnd) [
            | none ↦ fail (unresolved_ref ref) (note (codes "checkout") (some ref) now)
            | some sha ↦
                if not (programs.checkout_ok sha)
                then fail checkout_failed (note (codes "checkout") (some ref) now)
                else if programs.clean_ok
                then (
                  record (note (codes "checkout") (some ref) now) {
                    repo = record now.repo { head = sha };
                  },
                  handed_over,
                )
                else fail clean_failed (record (note (codes "checkout") (some ref) now) {
                  repo = record now.repo { head = sha };
                })
          ])
      by_sha none =
          unfold fail in
          broken_off _ _ (inr (inr (ref, refl))) stops clean
            (shown_phase-fail (unresolved_ref ref) (note (codes "checkout") (some ref) now))
      by_sha (some sha) =
          if_elim (FirstStep programs host) (not (programs.checkout_ok sha))
            (λ kept.
              unfold fail in
              broken_off _ _ (inl refl) stops clean
                (shown_phase-fail checkout_failed (note (codes "checkout") (some ref) now)))
            (λ there.
              if_elim (FirstStep programs host) programs.clean_ok
                (λ cleaned. under_way git _ clean fetched stops same down up)
                (λ stuck.
                  unfold fail in
                  broken_off _ _ (inr (inl refl)) stops clean (
                    shown_phase-fail clean_failed (record (note (codes "checkout") (some ref) now) {
                      repo = record now.repo { head = sha };
                    }))))

  leave_service-FirstStep :
      (step : Option Text) (now : Machine)
      → At now
      → FirstStep programs host (leave_service programs step now)
  unfolding leave_service launch_updater
  leave_service-FirstStep step now h =
      if_elim (FirstStep programs host) programs.stop_ok (λ stops. by_step step stops)
        (λ stuck. fail-FirstStep stop_failed _ h)
    where
      by_step :
          (o : Option Text)
          → programs.stop_ok ≡ true
          → FirstStep programs host (elim o as (λ _. Machine × StepEnd) [
            | none ↦
                (record now { updater_up = programs.launch_ok; router_up = false }, handed_over)
            | some ref ↦
                check_out programs ref
                  (record now { updater_up = programs.launch_ok; router_up = false })
          ])
      by_step none stops = under_way git _ clean fetched stops h.0 refl refl
      by_step (some ref) stops = check_out-FirstStep ref _ stops h.0 refl refl

  preflight-FirstStep : (now : Machine) → At now → FirstStep programs host (preflight programs now)
  unfolding preflight
  preflight-FirstStep now h =
      if_elim (FirstStep programs host)
        (is_empty (get_sorted_tags now.git) && not (is_some (get_target_ref now.repo)))
        (λ nowhere. fail-FirstStep no_tags now h)
        (λ somewhere. by_answer (next_step now.git now.repo))
    where
      by_answer :
          (answer : Outcome Failure (Option Text))
          → FirstStep programs host (elim answer as (λ _. Machine × StepEnd) [
            | err failure ↦ fail failure now
            | ok step ↦ leave_service programs step now
          ])
      by_answer (err failure) = fail-FirstStep failure now h
      by_answer (ok step) = leave_service-FirstStep step now h

-- A first step that raises leaves the router and the working tree as they were and says "failed" in
-- the log; only a checkout that fails, after the router has stopped, is different. Otherwise the router
-- is down, the updater stands in for it if it could be launched, and git has been fetched.
pub apply_update-FirstStep :
    (programs : Programs) (host : Machine) → FirstStep programs host (apply_update programs host)
unfolding apply_update
apply_update-FirstStep programs host =
    if_elim (FirstStep programs host) host.repo.is_dirty
      (λ dirty.
        unfold fail note in
        refused _ uncommitted_changes refl refl (shown_phase-fail uncommitted_changes host))
      (λ clean. by_fetch clean (programs.fetch host.git) refl)
  where
    by_fetch :
        host.repo.is_dirty ≡ false
        → (o : Option Git) → programs.fetch host.git ≡ o
        → FirstStep programs host (elim o as (λ _. Machine × StepEnd) [
          | none ↦ fail fetch_failed (note (codes "fetch") none host)
          | some git ↦ preflight programs (record (note (codes "fetch") none host) { git = git })
        ])
    by_fetch clean none e =
        unfold fail note in
        refused _ fetch_failed refl refl
          (shown_phase-fail fetch_failed (note (codes "fetch") none host))
    by_fetch clean (some git) e =
        preflight-FirstStep programs host clean git e _ (unfold note in (refl, refl, refl))

pub ahead-le : (git : Git) (repo : Clone) → ahead git repo ≤ length (get_sorted_tags git)
ahead-le git repo = length-filter (is_later git (base_tag git repo)) (get_sorted_tags git)

-- The releases are tagged as the walk needs it, and the fuel reaches over all of them.
abbrev pub IsWalkable : ℕ → Git → Type 0
IsWalkable fuel git = TagsStandAlone git × (length (get_sorted_tags git) + 1 < fuel)

-- What an update comes to.
pub data Finished : Machine × Option StepEnd → Type 0 where
  on_destination :
      (last : Machine)
      → AtDestination last.git last.repo
      → last.router_up ≡ true
      → shown_phase last.log ≡ some restarting_phase
      → Finished (last, some arrived)
  with_failure :
      (last : Machine) (failure : Failure)
      → shown_phase last.log ≡ some failed_phase
      → Finished (last, some (raised failure))

-- If every release tag stands alone on its commit, an update comes to its end in no more steps than
-- there are releases, and two: on its destination, with the router up again and the log waiting
-- for "done", or with an entry "failed" as the last of the log.
pub update-Finished :
    (programs : Programs) (fuel : ℕ) (host : Machine)
    → ((git : Git) → programs.fetch host.git ≡ some git → IsWalkable fuel git)
    → Finished (update programs fuel host)
unfolding update
update-Finished programs fuel host walkable = go (apply_update-FirstStep programs host)
  where
    of_walk : {end : Machine × Option StepEnd} → Ends programs end → Finished end
    of_walk (at_destination last there up shown) = on_destination last there up shown
    of_walk (failed last failure shown cause) = with_failure last failure shown

    go :
        {step : Machine × StepEnd}
        → FirstStep programs host step
        → Finished (elim step.1 as (λ _. Machine × Option StepEnd) [
          | handed_over ↦ walk programs fuel step.0
          | arrived ↦ (step.0, some arrived)
          | raised failure ↦ (step.0, some (raised failure))
        ])
    go (refused last failure tree router shown) = with_failure last failure shown
    go (broken_off last failure late stops clean shown) = with_failure last failure shown
    go (under_way git next clean fetched stops same down up) =
        let (alone, enough) = walkable git fetched in
        of_walk (
          walk-Ends programs fuel next (rw same alone)
            (rw same (omega (arith, ahead-le git next.repo))))
