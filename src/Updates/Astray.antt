-- ===== src/Updates/Astray.antt =====
-- openhost_system_agent/src/openhost_system_agent: the walk where git describes the commit of the
-- newest release by a tag that is none of a release.
use aerosol.Prelude.{
  ℕ, zero, suc, ◌≡◌, ◌⊎◌, refl, inl, inr, true, false, Option, none, some, arith, Text, codes,
}
use aerosol.Prelude.Outcome.{Outcome, ok, err}
use aerosol.Updates.{
  Git, Clone, Failure, is_release_tag, version_ltb, is_later, get_target_ref, resolve_ref_sha,
  base_tag, release,
}
use aerosol.Updates.Order.{IsReleaseOf}
use aerosol.Updates.Steps.{
  stone, to_target, stay, StepResult, step_to, unresolved, next_step-StepResult, at_target,
  at_latest,
}
use aerosol.Updates.Apply.{
  Machine, Programs, StepEnd, arrived, handed_over, raised, note, check_out, fail, start_openhost,
  go_on, apply_checkout, walk,
}
use aerosol.Updates.Walk.{IsSmooth}

-- The commit of the newest release has a further tag, which git prefers and which is no release, such as
-- v2.0-rc1. Every other release stands alone on its commit.
pub record IsOvershadowed (git : Git) (newest : Text) : Type 0 where
  pub released : IsReleaseOf git newest
  pub last_one : (t : Text) → IsReleaseOf git t → (t ≡ newest) ⊎ (version_ltb t newest ≡ true)
  pub alone :
      (t : Text)
      → IsReleaseOf git t
      → version_ltb t newest ≡ true
      → (sha : Text) × (resolve_ref_sha git t ≡ some sha) × (git.describe_exact sha ≡ some t)
  pub shadow :
      (sha : Text) × (other : Text) × (resolve_ref_sha git newest ≡ some sha)
      × (is_release_tag other ≡ false)
      × (git.describe_exact sha ≡ some other)
      × (git.describe_nearest sha ≡ some other)

-- HEAD is known as an earlier release, or as none.
data IsLost (git : Git) (newest : Text) (repo : Clone) : Type 0 where
  nameless : base_tag git repo ≡ none → IsLost git newest repo
  earlier :
      (t : Text) → base_tag git repo ≡ some t → version_ltb t newest ≡ true → IsLost git newest repo

module _ (git : Git) (newest : Text) (overshadowed : IsOvershadowed git newest) where
  later_newest :
      (repo : Clone) → IsLost git newest repo → is_later git (base_tag git repo) newest ≡ true
  unfolding is_later
  later_newest repo (nameless e) = rw e refl
  later_newest repo (earlier t e l) = rw e l

  checked_out-IsLost :
      (repo : Clone) (t sha : Text)
      → IsReleaseOf git t
      → resolve_ref_sha git t ≡ some sha
      → IsLost git newest (record repo { head = sha })
  unfolding base_tag release
  checked_out-IsLost repo t sha released resolved = elim (overshadowed.last_one t released) [
    | inl same ↦
        let (sha', other, e, bad, exact, nearest) = overshadowed.shadow in
        let r : resolve_ref_sha git t ≡ some sha' = rw same e in
        let equal : sha' ≡ sha = ground (arith, r, resolved) in
        let x : git.describe_exact sha ≡ some other = rw equal at exact in
        let n : git.describe_nearest sha ≡ some other = rw equal at nearest in
        nameless (rw (x, base_tag) (rw (n, base_tag) (rw bad refl)))
    | inr before ↦
        let (sha', e, exact) = overshadowed.alone t released before in
        let equal : sha' ≡ sha = ground (arith, e, resolved) in
        let x : git.describe_exact sha ≡ some t = rw equal at exact in
        earlier t (rw (x, base_tag) (rw released.1 refl)) before
  ]

  -- Every step leads to a release.
  data Onward (repo : Clone) : Outcome Failure (Option Text) → Type 0 where
    onward :
        (t sha : Text)
        → IsReleaseOf git t
        → resolve_ref_sha git t ≡ some sha
        → Onward repo (ok (some t))

  resolves : (t : Text) → IsReleaseOf git t → (sha : Text) × (resolve_ref_sha git t ≡ some sha)
  resolves t released = elim (overshadowed.last_one t released) [
    | inl same ↦ let (sha, other, e, bad, exact, nearest) = overshadowed.shadow in (sha, rw same e)
    | inr before ↦ let (sha, e, exact) = overshadowed.alone t released before in (sha, e)
  ]

  next_step-Onward :
      (repo : Clone)
      → get_target_ref repo ≡ none
      → IsLost git newest repo
      → {answer : Outcome Failure (Option Text)} → StepResult git repo answer
      → Onward repo answer
  next_step-Onward repo no_pin lost (unresolved target pin e) = cc
  next_step-Onward repo no_pin lost (step_to _ (stone t away s least)) =
      let (sha, e) = resolves t s.released in onward t sha s.released e
  next_step-Onward repo no_pin lost (step_to _ (to_target target sha pin e away bare)) = cc
  next_step-Onward repo no_pin lost (step_to _ (stay (at_target target sha pin e there))) = cc
  next_step-Onward repo no_pin lost (step_to _ (stay (at_latest unpinned nothing))) =
      let later = later_newest repo lost in let late = nothing newest overshadowed.released in cc

module _ (programs : Programs) (smooth : IsSmooth programs) (newest : Text) where
  -- The host of an unpinned walk that is lost.
  abbrev Wanders : Machine → Type 0
  Wanders host =
      IsOvershadowed host.git newest
      × (get_target_ref host.repo ≡ none)
      × IsLost host.git newest host.repo

  -- A step of it that hands over again, to a host of the same kind.
  data Goes : Machine × StepEnd → Type 0 where
    goes : (next : Machine) → Wanders next → Goes (next, handed_over)

  check_out-Goes :
      (host : Machine) (t sha : Text)
      → Wanders host
      → IsReleaseOf host.git t
      → resolve_ref_sha host.git t ≡ some sha
      → Goes (check_out programs t host)
  unfolding check_out note get_target_ref
  check_out-Goes host t sha (over, no_pin, lost) released resolved =
      rw (resolved, check_out)
        (rw (smooth.checks_out sha, smooth.cleans)
          (goes _ (
            over,
            no_pin,
            checked_out-IsLost host.git newest over host.repo t sha released resolved,
          )))

  apply_checkout-Goes : (host : Machine) → Wanders host → Goes (apply_checkout programs host)
  unfolding apply_checkout note go_on
  apply_checkout-Goes host (over, no_pin, lost) = rw (smooth.migrates host.repo.head) (
      rw (smooth.installs host.repo.head) (
        by_answer (
          next_step-Onward host.git newest over host.repo no_pin lost
            (next_step-StepResult host.git host.repo))))
    where
      by_answer :
          {answer : Outcome Failure (Option Text)}
          → Onward host.git newest over host.repo answer
          → Goes (elim answer as (λ _. Machine × StepEnd) [
            | err failure ↦
                fail failure (note (codes "install") none (note (codes "migrate") none host))
            | ok (some ref) ↦
                check_out programs ref
                  (note (codes "install") none (note (codes "migrate") none host))
            | ok none ↦
                start_openhost programs
                  (note (codes "install") none (note (codes "migrate") none host))
          ])
      by_answer (onward t sha released resolved) =
          check_out-Goes (note (codes "install") none (note (codes "migrate") none host)) t sha
            (over, no_pin, lost) released resolved

  walk_lost : (fuel : ℕ) (host : Machine) → Wanders host → (walk programs fuel host).1 ≡ none
  unfolding walk
  walk_lost zero host lost = refl
  walk_lost (suc fuel) host lost = go (walk_lost fuel) (apply_checkout-Goes host lost)
    where
      go :
          {step : Machine × StepEnd}
          → ((next : Machine) → Wanders next → (walk programs fuel next).1 ≡ none)
          → Goes step
          → (elim step.1 as (λ _. Machine × Option StepEnd) [
            | handed_over ↦ walk programs fuel step.0
            | arrived ↦ (step.0, some arrived)
            | raised failure ↦ (step.0, some (raised failure))
          ]).1
            ≡ none
      go later (goes next lost) = later next lost

-- The commit of the newest release has a further tag, which git prefers and which is no release:
-- then an unpinned walk that stands on a release does not come to an end after any number of steps, though
-- every program that it calls succeeds. The other releases stand alone on their commits.
pub walk_astray :
    (programs : Programs) (newest at : Text) (host : Machine)
    → IsSmooth programs
    → IsOvershadowed host.git newest
    → get_target_ref host.repo ≡ none
    → IsReleaseOf host.git at
    → resolve_ref_sha host.git at ≡ some host.repo.head
    → (fuel : ℕ) → (walk programs fuel host).1 ≡ none
walk_astray programs newest at host smooth over no_pin released there fuel =
    walk_lost programs smooth newest fuel host (
      over,
      no_pin,
      checked_out-IsLost host.git newest over host.repo at host.repo.head released there,
    )
