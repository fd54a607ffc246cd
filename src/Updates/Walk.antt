-- ===== src/Updates/Walk.antt =====
-- openhost_system_agent/src/openhost_system_agent: the walk of an update comes to its end.
use aerosol.Prelude.{
  ℕ, zero, suc, ◌+◌, ◌≤◌, ◌<◌, nat_eq, list_eq, eq_iff, if◌then◌else◌, ◌≡◌, ◌≢◌, ◌⊎◌, refl, inl,
  inr, true, not, Option, none, some, arith, Elem, Text, length, if_elim, codes,
}
use aerosol.Prelude.Outcome.{Outcome, ok, err}
use aerosol.Updates.{
  Git, Clone, Failure, unresolved_ref, checkout_failed, clean_failed, get_target_ref,
  resolve_ref_sha, base_tag, later_tags, step_to_target, release, next_step,
}
use aerosol.Updates.Order.{IsReleaseOf, later_tags-lt, elem-later_tags}
use aerosol.Updates.Steps.{
  Step, stone, to_target, stay, StepResult, step_to, unresolved, next_step-StepResult,
  AtDestination, IsStone, at_target,
}
use aerosol.Updates.Progress.{failed_phase, restarting_phase, record_entry}
use aerosol.Updates.Page.{shown_phase, shown_phase-append}
use aerosol.Updates.Apply.{
  Machine, Programs, StepEnd, arrived, handed_over, raised, note, fail, check_out, start_openhost,
  go_on, apply_checkout, walk,
}

-- Every release tag resolves to a commit that git describes by that tag: no branch of the remote
-- has its name, and no other tag stands on its commit.
abbrev pub TagsStandAlone : Git → Type 0
TagsStandAlone git =
    (t : Text)
    → IsReleaseOf git t
    → (sha : Text) × (resolve_ref_sha git t ≡ some sha) × (git.describe_exact sha ≡ some t)

-- The programs that a walk calls do their work.
pub record IsSmooth (programs : Programs) : Type 0 where
  pub checks_out : (sha : Text) → programs.checkout_ok sha ≡ true
  pub cleans : programs.clean_ok ≡ true
  pub restarts : programs.restart_ok ≡ true
  pub migrates : (sha : Text) → programs.migrate_ok sha ≡ true
  pub installs : (sha : Text) → programs.install_ok sha ≡ true

-- Why a walk breaks off: one of those programs, or a pinned ref that does not resolve.
abbrev pub HasCause : Programs → Machine → Type 0
HasCause programs last =
    (¬ IsSmooth programs)
    ⊎ ((target : Text) × (get_target_ref last.repo ≡ some target)
        × (resolve_ref_sha last.git target ≡ none))

-- What a walk comes to.
pub data Ends (programs : Programs) : Machine × Option StepEnd → Type 0 where
  at_destination :
      (last : Machine)
      → AtDestination last.git last.repo
      → last.router_up ≡ true
      → shown_phase last.log ≡ some restarting_phase
      → Ends programs (last, some arrived)
  failed :
      (last : Machine) (failure : Failure)
      → shown_phase last.log ≡ some failed_phase
      → HasCause programs last
      → Ends programs (last, some (raised failure))

-- The repository after a step: on a later release, or on the pinned commit.
data Closer (git : Git) (repo next : Clone) : Type 0 where
  on_stone :
      (t : Text)
      → Elem t (later_tags git (base_tag git repo))
      → base_tag git next ≡ some t
      → Closer git repo next
  on_target :
      (target sha : Text)
      → get_target_ref next ≡ some target
      → resolve_ref_sha git target ≡ some sha
      → next.head ≡ sha
      → Closer git repo next

data Stepped (programs : Programs) (git : Git) (repo : Clone) : Machine × StepEnd → Type 0 where
  now_there :
      (last : Machine)
      → AtDestination last.git last.repo
      → last.router_up ≡ true
      → shown_phase last.log ≡ some restarting_phase
      → Stepped programs git repo (last, arrived)
  moved :
      (next : Machine)
      → next.git ≡ git
      → Closer git repo next.repo
      → Stepped programs git repo (next, handed_over)
  broken_off :
      (last : Machine) (failure : Failure)
      → shown_phase last.log ≡ some failed_phase
      → HasCause programs last
      → Stepped programs git repo (last, raised failure)

fail-Stepped :
    (programs : Programs) (git : Git) (repo : Clone) (failure : Failure) (host : Machine)
    → HasCause programs host
    → Stepped programs git repo (fail failure host)
unfolding fail record_entry
fail-Stepped programs git repo failure host cause =
    broken_off _ failure
      (shown_phase-append host.log (record { phase = some failed_phase; ref = none })) cause

module _ (programs : Programs) (host : Machine) where
  check_out-Stepped :
      (ref : Text)
      → resolve_ref_sha host.git ref ≢ none
      → ((sha : Text)
          → resolve_ref_sha host.git ref ≡ some sha
          → Closer host.git host.repo (record host.repo { head = sha }))
      → Stepped programs host.git host.repo (check_out programs ref host)
  unfolding check_out note
  check_out-Stepped ref resolves closer = by_sha (resolve_ref_sha host.git ref) refl
    where
      by_sha :
          (o : Option Text)
          → resolve_ref_sha host.git ref ≡ o
          → Stepped programs host.git host.repo (elim o as (λ _. Machine × StepEnd) [
            | none ↦ fail (unresolved_ref ref) (note (codes "checkout") (some ref) host)
            | some sha ↦
                if not (programs.checkout_ok sha)
                then fail checkout_failed (note (codes "checkout") (some ref) host)
                else if programs.clean_ok
                then (
                  record (note (codes "checkout") (some ref) host) {
                    repo = record host.repo { head = sha };
                  },
                  handed_over,
                )
                else fail clean_failed (record (note (codes "checkout") (some ref) host) {
                  repo = record host.repo { head = sha };
                })
          ])
      by_sha none e = absurd (resolves e)
      by_sha (some sha) e =
          if_elim (Stepped programs host.git host.repo) (not (programs.checkout_ok sha))
            (λ kept.
              fail-Stepped programs host.git host.repo _ _
                (inl (λ w. let k = w.checks_out sha in ground arith)))
            (λ there.
              if_elim (Stepped programs host.git host.repo) programs.clean_ok
                (λ clean. moved _ refl (closer sha e))
                (λ stuck.
                  fail-Stepped programs host.git host.repo _ _ (inl (λ w. let k = w.cleans in cc))))

  start-Stepped :
      AtDestination host.git host.repo
      → Stepped programs host.git host.repo (start_openhost programs host)
  unfolding start_openhost note record_entry
  start-Stepped there =
      if_elim (Stepped programs host.git host.repo) programs.restart_ok
        (λ starts.
          now_there _ there refl
            (shown_phase-append host.log (record { phase = some restarting_phase; ref = none })))
        (λ stuck.
          fail-Stepped programs host.git host.repo _ _ (inl (λ w. let k = w.restarts in cc)))

  stone-Closer :
      (t sha : Text)
      → TagsStandAlone host.git
      → IsStone host.git host.repo t
      → resolve_ref_sha host.git t ≡ some sha
      → Closer host.git host.repo (record host.repo { head = sha })
  unfolding base_tag release
  stone-Closer t sha alone s e =
      let (sha', resolved, described) = alone t s.released in
      let same : sha' ≡ sha = ground arith in
      let here : host.git.describe_exact sha ≡ some t = rw same at described in
      on_stone t
        ((elem-later_tags host.git (base_tag host.git host.repo) t).1 (s.released, s.later))
        (rw (here, base_tag) (rw s.released.1 refl))

  go_to-Stepped :
      TagsStandAlone host.git
      → {o : Option Text} → Step host.git host.repo o
      → Stepped programs host.git host.repo (elim o as (λ _. Machine × StepEnd) [
        | some ref ↦ check_out programs ref host
        | none ↦ start_openhost programs host
      ])
  unfolding get_target_ref
  go_to-Stepped alone (stone t away s least) =
      check_out-Stepped t (λ none_left. let (sha, e, d) = alone t s.released in cc)
        (λ sha e. stone-Closer t sha alone s e)
  go_to-Stepped alone (to_target target sha pin resolved away bare) =
      check_out-Stepped target (λ none_left. cc) (λ sha' e. on_target target sha' pin e refl)
  go_to-Stepped alone (stay there) = start-Stepped there

  go_on-Stepped :
      TagsStandAlone host.git → Stepped programs host.git host.repo (go_on programs host)
  unfolding go_on
  go_on-Stepped alone = by_result (next_step-StepResult host.git host.repo)
    where
      by_result :
          {answer : Outcome Failure (Option Text)}
          → StepResult host.git host.repo answer
          → Stepped programs host.git host.repo (elim answer as (λ _. Machine × StepEnd) [
            | err failure ↦ fail failure host
            | ok (some ref) ↦ check_out programs ref host
            | ok none ↦ start_openhost programs host
          ])
      by_result (unresolved target pin e) =
          fail-Stepped programs host.git host.repo _ host (inr (target, pin, e))
      by_result (step_to none s) = go_to-Stepped alone s
      by_result (step_to (some ref) s) = go_to-Stepped alone s

module _ (programs : Programs) (host : Machine) where
  apply_checkout-Stepped :
      TagsStandAlone host.git → Stepped programs host.git host.repo (apply_checkout programs host)
  unfolding apply_checkout note
  apply_checkout-Stepped alone =
      if_elim (Stepped programs host.git host.repo) (programs.migrate_ok host.repo.head)
        (λ migrated.
          if_elim (Stepped programs host.git host.repo) (programs.install_ok host.repo.head)
            (λ installed.
              go_on-Stepped programs
                (note (codes "install") none (note (codes "migrate") none host)) alone)
            (λ stuck.
              fail-Stepped programs host.git host.repo _ _
                (inl (λ w. let k = w.installs host.repo.head in cc))))
        (λ stuck.
          fail-Stepped programs host.git host.repo _ _
            (inl (λ w. let k = w.migrates host.repo.head in cc)))

-- The end of a step, as the walk's.
abbrev EndsWith : Programs → Machine × StepEnd → Type 0
EndsWith programs step = Ends programs (step.0, some step.1)

fail-Ends :
    (programs : Programs) (failure : Failure) (host : Machine)
    → HasCause programs host
    → EndsWith programs (fail failure host)
unfolding fail note record_entry
fail-Ends programs failure host cause =
    failed _ failure
      (shown_phase-append host.log (record { phase = some failed_phase; ref = none })) cause

start-Ends :
    (programs : Programs) (host : Machine)
    → AtDestination host.git host.repo
    → EndsWith programs (start_openhost programs host)
unfolding start_openhost note record_entry
start-Ends programs host there =
    if_elim (EndsWith programs) programs.restart_ok
      (λ starts.
        at_destination _ there refl
          (shown_phase-append host.log (record { phase = some restarting_phase; ref = none })))
      (λ stuck. fail-Ends programs _ _ (inl (λ w. let k = w.restarts in cc)))

next_step-at_target :
    (git : Git) (repo : Clone) (target sha : Text)
    → get_target_ref repo ≡ some target
    → resolve_ref_sha git target ≡ some sha
    → repo.head ≡ sha
    → next_step git repo ≡ ok none
unfolding next_step step_to_target
next_step-at_target git repo target sha pin resolved there =
    rw (pin, next_step) (rw (resolved, next_step) (ground (arith, eq_iff repo.head sha)))

module _ (programs : Programs) (host : Machine) where
  -- At the pinned commit the walk has no step left.
  at_target-Ends :
      (target sha : Text)
      → get_target_ref host.repo ≡ some target
      → resolve_ref_sha host.git target ≡ some sha
      → host.repo.head ≡ sha
      → EndsWith programs (apply_checkout programs host)
  unfolding apply_checkout note go_on
  at_target-Ends target sha pin resolved there =
      if_elim (EndsWith programs) (programs.migrate_ok host.repo.head)
        (λ migrated.
          if_elim (EndsWith programs) (programs.install_ok host.repo.head)
            (λ installed.
              rw (next_step-at_target host.git host.repo target sha pin resolved there, go_on)
                (start-Ends programs
                  (note (codes "install") none (note (codes "migrate") none host))
                  (at_target target sha pin resolved there)))
            (λ stuck. fail-Ends programs _ _ (inl (λ w. let k = w.installs host.repo.head in cc))))
        (λ stuck. fail-Ends programs _ _ (inl (λ w. let k = w.migrates host.repo.head in cc)))

-- The releases that are still ahead.
abbrev pub ahead : Git → Clone → ℕ
ahead git repo = length (later_tags git (base_tag git repo))

Ends-over :
    {programs : Programs} {end : Machine × Option StepEnd}
    → Ends programs end
    → end.1 ≢ some handed_over
Ends-over (at_destination last there up shown) e = cc
Ends-over (failed last failure shown cause) e = cc

walk_over :
    (programs : Programs) (fuel : ℕ) (step : Machine × StepEnd)
    → EndsWith programs step
    → Ends programs (elim step.1 as (λ _. Machine × Option StepEnd) [
      | handed_over ↦ walk programs fuel step.0
      | arrived ↦ (step.0, some arrived)
      | raised failure ↦ (step.0, some (raised failure))
    ])
walk_over programs fuel (last, arrived) e = e
walk_over programs fuel (last, raised failure) e = e
walk_over programs fuel (last, handed_over) e = absurd (Ends-over e refl)

-- The walk ends, with as many steps as there are later releases and two more: on its destination,
-- with the router up and the log waiting for its "done", or with a failure that the log shows. It never
-- runs on, whatever migrations and installations do, if each release tag stands alone on its commit.
pub walk-Ends :
    (programs : Programs) (fuel : ℕ) (host : Machine)
    → TagsStandAlone host.git
    → ahead host.git host.repo + 1 < fuel
    → Ends programs (walk programs fuel host)
unfolding walk
walk-Ends programs zero host alone enough = absurd (omega arith)
walk-Ends programs (suc fuel) host alone enough =
    go (walk-Ends programs fuel) (apply_checkout-Stepped programs host alone)
  where
    from_target :
        (n : ℕ) (next : Machine) (target sha : Text)
        → get_target_ref next.repo ≡ some target
        → resolve_ref_sha next.git target ≡ some sha
        → next.repo.head ≡ sha
        → 1 ≤ n
        → Ends programs (walk programs n next)
    from_target zero next target sha pin resolved there some_left = absurd (omega arith)
    from_target (suc n) next target sha pin resolved there some_left =
        walk_over programs n (apply_checkout programs next)
          (at_target-Ends programs next target sha pin resolved there)

    go :
        {step : Machine × StepEnd}
        → ((next : Machine)
            → TagsStandAlone next.git
            → ahead next.git next.repo + 1 < fuel
            → Ends programs (walk programs fuel next))
        → Stepped programs host.git host.repo step
        → Ends programs (elim step.1 as (λ _. Machine × Option StepEnd) [
          | handed_over ↦ walk programs fuel step.0
          | arrived ↦ (step.0, some arrived)
          | raised failure ↦ (step.0, some (raised failure))
        ])
    go later (now_there last there up shown) = at_destination last there up shown
    go later (broken_off last failure shown cause) = failed last failure shown cause
    go later (moved next same (on_stone t m based)) =
        let fewer = later_tags-lt host.git (base_tag host.git host.repo) t m in
        later next (rw same alone) (rw same (rw based (omega (arith, fewer))))
    go later (moved next same (on_target target sha pin resolved there)) =
        from_target fuel next target sha pin (rw same resolved) there (omega arith)
