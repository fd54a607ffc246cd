-- ===== src/Updates/Agreement.antt =====
-- openhost_system_agent/src/openhost_system_agent/update.py: fetch_updates tells the dashboard what
-- _next_step will do.
use aerosol.Prelude.{
  nat_eq, list_eq, ◌==◌, if◌then◌else◌, ◌≡◌, refl, inl, inr, false, Option, none, some, List, [],
  ◌∷◌, Elem, Text, All, All-elem, Bool-cases, IsSortedBy,
}
use aerosol.Prelude.Outcome.{Outcome, ok, err}
use aerosol.Updates.{
  Git, Clone, Failure, get_sorted_tags, get_target_ref, resolve_ref_sha, is_later, base_tag,
  first_or, step_to_target, step_to_latest, next_step, unresolved_target, version_ltb,
}
use aerosol.Updates.Fetch.{
  FetchState, up_to_date, behind_remote, fetched_state, last_tag, is_behind,
}
use aerosol.Updates.Order.{
  First, first, no_one, first_or-First, get_sorted_tags-IsSortedBy, version_ltb-IsWeakOrder,
}

-- The state that is shown, and the step that is taken.
pub data Agree : Outcome Failure FetchState → Outcome Failure (Option Text) → Type 0 where
  both_done : Agree (ok up_to_date) (ok none)
  both_behind : (ref : Text) → Agree (ok behind_remote) (ok (some ref))
  both_fail : (failure : Failure) → Agree (err failure) (err failure)

-- The last tag of a sorted list stands in it, and none is greater.
data Last (xs : List Text) : Option Text → Type 0 where
  last :
      (t : Text) → Elem t xs → ((u : Text) → Elem u xs → version_ltb t u ≡ false) → Last xs (some t)
  nothing : ((u : Text) → ¬ Elem u xs) → Last xs none

Last-behind :
    (x : Text) (xs : List Text) {o : Option Text}
    → All (λ y. version_ltb y x ≡ false) xs
    → ¬ (xs ≡ [])
    → Last xs o
    → Last (x ∷ xs) o
Last-behind x xs least full (last t m most) = last t (inr m) (λ u m'. elim m' [
  | inl equal ↦ rw equal at (All-elem (λ y. version_ltb y x ≡ false) t xs least m)
  | inr below ↦ most u below
])
Last-behind x [] least full (nothing empty) = absurd (full refl)
Last-behind x (y ∷ xs) least full (nothing empty) = absurd (empty y (inl refl))

last_tag-Last : (xs : List Text) → IsSortedBy version_ltb xs → Last xs (last_tag xs)
unfolding last_tag
last_tag-Last [] s = nothing (λ u m. m)
last_tag-Last (x ∷ []) s = last x (inl refl) (λ u m. elim m [
  | inl equal ↦ rw equal (version_ltb-IsWeakOrder.irrefl u)
  | inr below ↦ elim below [ ]
])
last_tag-Last (x ∷ y ∷ xs) s = Last-behind x (y ∷ xs) s.0 (λ e. cc) (last_tag-Last (y ∷ xs) s.1)

module _ (git : Git) (repo : Clone) where
  abbrev shown : Option Text → Outcome Failure FetchState
  shown tag = elim tag [
    | none ↦ ok up_to_date
    | some latest ↦ ok (if is_behind (base_tag git repo) latest then behind_remote else up_to_date)
  ]

  is_behind-is_later :
      (base : Option Text) (latest : Text) → is_behind base latest ≡ is_later git base latest
  unfolding is_behind is_later
  is_behind-is_later none latest = refl
  is_behind-is_later (some base) latest = refl

  is_later_le :
      (base : Option Text) (t u : Text)
      → is_later git base t ≡ false
      → version_ltb t u ≡ false
      → is_later git base u ≡ false
  unfolding is_later
  is_later_le none t u h k = h
  is_later_le (some base) t u h k = version_ltb-IsWeakOrder.co_trans base t u h k

  latest-Agree :
      {tag step : Option Text}
      → Last (get_sorted_tags git) tag
      → First (is_later git (base_tag git repo)) none (get_sorted_tags git) step
      → Agree (shown tag) (ok step)
  latest-Agree (nothing empty) (first t m later least) = absurd (empty t m)
  latest-Agree (nothing empty) (no_one nobody) = both_done
  latest-Agree (last latest m most) (first t m' later least) =
      elim (Bool-cases (is_later git (base_tag git repo) latest)) [
        | inl behind ↦
            rw (is_behind-is_later (base_tag git repo) latest) (rw behind (both_behind t))
        | inr even ↦
            let none_later = is_later_le (base_tag git repo) latest t even (most t m') in cc
      ]
  latest-Agree (last latest m most) (no_one nobody) =
      rw (is_behind-is_later (base_tag git repo) latest) (rw (nobody latest m) both_done)

  target-Agree :
      (target sha : Text)
      → Agree
          (ok (if repo.head == sha then up_to_date else behind_remote))
          (ok (step_to_target git target sha repo))
  unfolding step_to_target
  target-Agree target sha = elim (Bool-cases (repo.head == sha)) [
    | inl there ↦ rw there both_done
    | inr away ↦ rw away (of_list _)
  ]
    where
      of_list : (xs : List Text) → Agree (ok behind_remote) (ok (first_or (some target) xs))
      of_list [] = both_behind target
      of_list (t ∷ xs) = both_behind t

  -- For a clean clone the dashboard is told "up to date" exactly when the walk has no step to take,
  -- "behind" exactly when it has one, and an unresolved pin fails both with the same error.
  pub fetched_state-Agree :
      repo.is_dirty ≡ false → Agree (fetched_state git repo) (next_step git repo)
  unfolding fetched_state next_step step_to_latest
  fetched_state-Agree clean = rw (clean, fetched_state) (by_target (get_target_ref repo))
    where
      by_sha :
          (target : Text) (sha : Option Text)
          → Agree
              (elim sha as (λ _. Outcome Failure FetchState) [
                | none ↦ err (unresolved_target target)
                | some sha ↦ ok (if repo.head == sha then up_to_date else behind_remote)
              ])
              (elim sha as (λ _. Outcome Failure (Option Text)) [
                | none ↦ err (unresolved_target target)
                | some sha ↦ ok (step_to_target git target sha repo)
              ])
      by_sha target none = both_fail (unresolved_target target)
      by_sha target (some sha) = target-Agree target sha

      by_target :
          (o : Option Text)
          → Agree
              (elim o as (λ _. Outcome Failure FetchState) [
                | some target ↦
                    elim (resolve_ref_sha git target) as (λ _. Outcome Failure FetchState) [
                      | none ↦ err (unresolved_target target)
                      | some sha ↦ ok (if repo.head == sha then up_to_date else behind_remote)
                    ]
                | none ↦ shown (last_tag (get_sorted_tags git))
              ])
              (elim o as (λ _. Outcome Failure (Option Text)) [
                | none ↦ ok (step_to_latest git repo)
                | some target ↦
                    elim (resolve_ref_sha git target) as (λ _. Outcome Failure (Option Text)) [
                      | none ↦ err (unresolved_target target)
                      | some target_sha ↦ ok (step_to_target git target target_sha repo)
                    ]
              ])
      by_target none =
          latest-Agree (last_tag-Last (get_sorted_tags git) (get_sorted_tags-IsSortedBy git)) (
            first_or-First (is_later git (base_tag git repo)) none (get_sorted_tags git)
              (get_sorted_tags-IsSortedBy git))
      by_target (some target) = by_sha target (resolve_ref_sha git target)
