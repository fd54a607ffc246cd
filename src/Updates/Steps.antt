-- ===== src/Updates/Steps.antt =====
-- openhost_system_agent/src/openhost_system_agent/update.py (_next_step): where a step leads.
use aerosol.Prelude.{
  nat_eq, list_eq, ◌==◌, ◌&&◌, ◌↔◌, eq_iff, ◌≡◌, refl, ◌≢◌, inl, inr, Bool, true, false, Option,
  none, some, arith, Elem, filter-filter, Text, Bool-cases,
}
use aerosol.Prelude.Outcome.{Outcome, ok, err}
use aerosol.Updates.{
  Git, Clone, Failure, get_sorted_tags, get_target_ref, resolve_ref_sha, is_ancestor, is_later,
  base_tag, step_to_target, step_to_latest, next_step, unresolved_target, version_ltb,
}
use aerosol.Updates.Order.{
  IsReleaseOf, elem-get_sorted_tags, First, first, no_one, first_or-First,
  get_sorted_tags-IsSortedBy,
}

-- The walk is at its end: HEAD is the pinned commit, or without a pin no release is later.
pub data AtDestination (git : Git) (repo : Clone) : Type 0 where
  at_target :
      (target sha : Text)
      → get_target_ref repo ≡ some target
      → resolve_ref_sha git target ≡ some sha
      → repo.head ≡ sha
      → AtDestination git repo
  at_latest :
      get_target_ref repo ≡ none
      → ((t : Text) → IsReleaseOf git t → is_later git (base_tag git repo) t ≡ false)
      → AtDestination git repo

-- A stepping stone: a release later than the one of HEAD, contained in the pinned commit if there
-- is a pin.
pub record IsStone (git : Git) (repo : Clone) (t : Text) : Type 0 where
  pub released : IsReleaseOf git t
  pub later : is_later git (base_tag git repo) t ≡ true
  pub contained :
      (target sha : Text)
      → get_target_ref repo ≡ some target
      → resolve_ref_sha git target ≡ some sha
      → is_ancestor git t sha ≡ true

-- HEAD is not at the pinned commit.
abbrev pub IsAway : Git → Clone → Type 0
IsAway git repo =
    (target sha : Text)
    → get_target_ref repo ≡ some target
    → resolve_ref_sha git target ≡ some sha
    → repo.head ≢ sha

-- Where the next step leads.
pub data Step (git : Git) (repo : Clone) : Option Text → Type 0 where
  stone :
      (t : Text)
      → IsAway git repo
      → IsStone git repo t
      → ((u : Text) → IsStone git repo u → version_ltb u t ≡ false)
      → Step git repo (some t)
  to_target :
      (target sha : Text)
      → get_target_ref repo ≡ some target
      → resolve_ref_sha git target ≡ some sha
      → repo.head ≢ sha
      → ((u : Text) → ¬ IsStone git repo u)
      → Step git repo (some target)
  stay : AtDestination git repo → Step git repo none

module _ (git : Git) (repo : Clone) where
  unpinned-IsStone :
      (t : Text)
      → get_target_ref repo ≡ none
      → Elem t (get_sorted_tags git)
      → is_later git (base_tag git repo) t ≡ true
      → IsStone git repo t
  unpinned-IsStone t no_pin m later = record {
    released = (elem-get_sorted_tags git t).0 m;
    later = later;
    contained = λ target sha pin r. cc;
  }

  step_to_latest-Step : get_target_ref repo ≡ none → Step git repo (step_to_latest git repo)
  unfolding step_to_latest
  step_to_latest-Step no_pin = leads (
      first_or-First (is_later git (base_tag git repo)) none (get_sorted_tags git)
        (get_sorted_tags-IsSortedBy git))
    where
      leads :
          {o : Option Text}
          → First (is_later git (base_tag git repo)) none (get_sorted_tags git) o
          → Step git repo o
      leads (first t m later least) =
          stone t (λ target sha pin r. cc) (unpinned-IsStone t no_pin m later)
            (λ u s. least u ((elem-get_sorted_tags git u).1 s.released) s.later)
      leads (no_one nobody) =
          stay (at_latest no_pin (λ t released. nobody t ((elem-get_sorted_tags git t).1 released)))

  module _ (target sha : Text) (pin : get_target_ref repo ≡ some target)
      (resolved : resolve_ref_sha git target ≡ some sha) where
    abbrev on_the_way : Text → Bool
    on_the_way t = is_later git (base_tag git repo) t && is_ancestor git t sha

    IsStone-iff :
        (t : Text) → IsStone git repo t ↔ (Elem t (get_sorted_tags git) × (on_the_way t ≡ true))
    IsStone-iff t = (to, from)
      where
        to : IsStone git repo t → Elem t (get_sorted_tags git) × (on_the_way t ≡ true)
        to s = (
          (elem-get_sorted_tags git t).1 s.released,
          rw s.later (s.contained target sha pin resolved),
        )

        same :
            (other sha' : Text)
            → get_target_ref repo ≡ some other
            → resolve_ref_sha git other ≡ some sha'
            → is_ancestor git t sha ≡ true
            → is_ancestor git t sha' ≡ true
        same other sha' pin' resolved' a =
            let equal : other ≡ target = ground (arith, pin, pin') in
            let r : resolve_ref_sha git target ≡ some sha' = rw equal at resolved' in
            let equal_sha : sha' ≡ sha = ground (arith, resolved, r) in rw equal_sha a

        from : Elem t (get_sorted_tags git) × (on_the_way t ≡ true) → IsStone git repo t
        from h = record {
          released = (elem-get_sorted_tags git t).0 h.0;
          later = ground (arith, h.1);
          contained =
              λ other sha' pin' resolved'. same other sha' pin' resolved' (ground (arith, h.1));
        }

    away-IsAway_lem : repo.head ≢ sha → IsAway git repo
    away-IsAway_lem away other sha' pin' resolved' =
        let equal : other ≡ target = ground (arith, pin, pin') in
        let r : resolve_ref_sha git target ≡ some sha' = rw equal at resolved' in
        let equal_sha : sha' ≡ sha = ground (arith, resolved, r) in rw equal_sha away

    leads :
        {o : Option Text}
        → repo.head ≢ sha
        → First on_the_way (some target) (get_sorted_tags git) o
        → Step git repo o
    leads away (first t m k least) =
        stone t (away-IsAway_lem away) ((IsStone-iff t).1 (m, k))
          (λ u s. let (m', k') = (IsStone-iff u).0 s in least u m' k')
    leads away (no_one nobody) =
        to_target target sha pin resolved away
          (λ u s. let (m, k) = (IsStone-iff u).0 s in let n = nobody u m in cc)

    step_to_target-Step : Step git repo (step_to_target git target sha repo)
    unfolding step_to_target
    step_to_target-Step = elim (Bool-cases (repo.head == sha)) [
      | inl there ↦
          rw there (stay (at_target target sha pin resolved ((eq_iff repo.head sha).0 there)))
      | inr away ↦
          let at_both =
            filter-filter (λ t. is_ancestor git t sha) (is_later git (base_tag git repo))
              (get_sorted_tags git) in
          rw away (
            rw at_both (
              leads (λ e. let k = (eq_iff repo.head sha).1 e in cc)
                (first_or-First on_the_way (some target) (get_sorted_tags git)
                  (get_sorted_tags-IsSortedBy git))))
    ]

-- What `next_step` answers.
pub data StepResult (git : Git) (repo : Clone) : Outcome Failure (Option Text) → Type 0 where
  step_to : (o : Option Text) → Step git repo o → StepResult git repo (ok o)
  unresolved :
      (target : Text)
      → get_target_ref repo ≡ some target
      → resolve_ref_sha git target ≡ none
      → StepResult git repo (err (unresolved_target target))

-- A step goes to the earliest release that is later than the one of HEAD and that a pinned commit,
-- if there is one, contains; if there is none such, to the pinned ref, unless HEAD is there; and it
-- stays only at the destination. The only failure is a pinned ref that does not resolve.
pub next_step-StepResult : (git : Git) (repo : Clone) → StepResult git repo (next_step git repo)
unfolding next_step
next_step-StepResult git repo = by_target (get_target_ref repo) refl
  where
    by_sha :
        (target : Text) (sha : Option Text)
        → get_target_ref repo ≡ some target
        → resolve_ref_sha git target ≡ sha
        → StepResult git repo (elim sha as (λ _. Outcome Failure (Option Text)) [
          | none ↦ err (unresolved_target target)
          | some target_sha ↦ ok (step_to_target git target target_sha repo)
        ])
    by_sha target none pin e = unresolved target pin e
    by_sha target (some sha) pin e = step_to _ (step_to_target-Step git repo target sha pin e)

    by_target :
        (o : Option Text)
        → get_target_ref repo ≡ o
        → StepResult git repo (elim o as (λ _. Outcome Failure (Option Text)) [
          | none ↦ ok (step_to_latest git repo)
          | some target ↦
              elim (resolve_ref_sha git target) as (λ _. Outcome Failure (Option Text)) [
                | none ↦ err (unresolved_target target)
                | some target_sha ↦ ok (step_to_target git target target_sha repo)
              ]
        ])
    by_target none e = step_to _ (step_to_latest-Step git repo e)
    by_target (some target) e = by_sha target (resolve_ref_sha git target) e refl
