-- ===== src/Updates/Tests.antt =====
-- A repository with three releases, a host on the first, and the same with a pre-release on the last.
use mathlib.Core.Path.{subst}
use aerosol.Prelude.{
  nat_eq, list_eq, ◌==◌, if◌then◌else◌, ◌≡◌, refl, ap, sym, ◌∙◌, ◌⊎◌, inl, inr, true, false, Option,
  none, some, List, [], ◌∷◌, arith, Text, codes, evaluation,
}
use aerosol.Prelude.Outcome.{ok}
use aerosol.Updates.{
  Git, Clone, is_digit, is_number, is_release_tag, int_from, lstrip_v, ints, version_key,
  version_ltb, release, stripped, get_target_ref, set_target_ref, commit_of, get_sorted_tags,
  current_tag, latest_ancestor_tag, resolve_ref_sha, is_ancestor, base_tag, is_later,
  step_to_target, step_to_latest, next_step,
}
use aerosol.Updates.Progress.{
  Line, object, read_entries, last_phase, is_terminal, is_restarting, record_entry,
  mark_boot_complete, restarting_phase,
}
use aerosol.Updates.Fetch.{behind_remote, get_remote, last_tag, is_behind, fetched_state}
use aerosol.Updates.Apply.{
  Machine, Programs, arrived, note, fail, check_out, launch_updater, leave_service, preflight,
  apply_update, start_openhost, go_on, apply_checkout, walk, update,
}
use aerosol.Updates.Order.{IsReleaseOf}
use aerosol.Updates.Steps.{StepResult, next_step-StepResult}
use aerosol.Updates.Agreement.{Agree, fetched_state-Agree}
use aerosol.Updates.Page.{BootLog, mark_boot_complete-BootLog}
use aerosol.Updates.Walk.{TagsStandAlone, IsSmooth}
use aerosol.Updates.FirstStep.{
  FirstStep, apply_update-FirstStep, Finished, update-Finished, IsWalkable,
}
use aerosol.Updates.Astray.{IsOvershadowed, walk_astray}

-- What the tests compute with.
model : Unit {0}
unfolding is_digit is_number is_release_tag int_from lstrip_v ints version_key version_ltb release
    stripped get_target_ref set_target_ref get_sorted_tags current_tag latest_ancestor_tag
    resolve_ref_sha is_ancestor base_tag is_later step_to_target step_to_latest next_step
    read_entries last_phase is_terminal is_restarting record_entry mark_boot_complete get_remote
    last_tag is_behind fetched_state note fail check_out launch_updater leave_service preflight
    apply_update start_openhost go_on apply_checkout walk update evaluation
model = tt

abbrev look_up : Text → List (Text × Text) → Option Text
look_up key [] = none
look_up key ((k, v) ∷ rest) = let later = look_up key rest in if k == key then some v else later

abbrev v1_2 : Text
v1_2 = codes "v1.2"

abbrev v1_10 : Text
v1_10 = codes "v1.10"

abbrev v2 : Text
v2 = codes "v2"

abbrev rc : Text
rc = codes "v2-rc1"

abbrev commits : List (Text × Text)
commits =
    (commit_of v1_2, codes "a") ∷ (commit_of v1_10, codes "b") ∷ (commit_of v2, codes "c") ∷ []

-- `last` is how git describes the commit of v2.
abbrev releases : Text → Git
releases last =
    let described : List (Text × Text) =
      (codes "a", v1_2) ∷ (codes "b", v1_10) ∷ (codes "c", last) ∷ [] in
    record {
      tags = v2 ∷ v1_10 ∷ rc ∷ v1_2 ∷ [];
      describe_exact = λ sha. look_up sha described;
      describe_nearest = λ sha. look_up sha described;
      rev_parse = λ name. look_up name commits;
      merge_base_is_ancestor = λ s t. true;
    }

abbrev clone : Clone
clone = record {
  head = codes "a";
  origin = some (codes "https://g/r");
  target_config = none;
  is_dirty = false;
}

abbrev host : Text → Machine
host last = record {
  git = releases last;
  repo = clone;
  log = [];
  router_up = true;
  updater_up = false;
}

abbrev programs : Programs
programs = record {
  fetch = λ git. some git;
  checkout_ok = λ sha. true;
  clean_ok = true;
  launch_ok = true;
  stop_ok = true;
  restart_ok = true;
  migrate_ok = λ sha. true;
  install_ok = λ sha. true;
}

runs :
    (get_sorted_tags (releases v2) ≡ v1_2 ∷ v1_10 ∷ v2 ∷ [])
    × (next_step (releases v2) clone ≡ ok (some v1_10))
    × (fetched_state (releases v2) clone ≡ ok behind_remote)
    × ((update programs 5 (host v2)).1 ≡ some arrived)
    × ((update programs 5 (host v2)).0.repo.head ≡ codes "c")
    × ((update programs 9 (host rc)).1 ≡ none)
unfolding model
runs = (refl, refl, refl, refl, refl, refl)

next_step-StepResult_example : StepResult (releases v2) clone (next_step (releases v2) clone)
next_step-StepResult_example = next_step-StepResult (releases v2) clone

fetched_state-Agree_example :
    Agree (fetched_state (releases v2) clone) (next_step (releases v2) clone)
fetched_state-Agree_example = fetched_state-Agree (releases v2) clone refl

abbrev left_over : List Line
left_over = object (record { phase = some restarting_phase; ref = none }) ∷ []

mark_boot_complete-BootLog_example :
    BootLog false true left_over (mark_boot_complete true false left_over)
mark_boot_complete-BootLog_example = mark_boot_complete-BootLog false true left_over

apply_update-FirstStep_example : FirstStep programs (host v2) (apply_update programs (host v2))
apply_update-FirstStep_example = apply_update-FirstStep programs (host v2)

stand_alone : TagsStandAlone (releases v2)
unfolding model
stand_alone t (inl e, k) = (codes "c", rw (← e) refl, rw (← e) refl)
stand_alone t (inr (inl e), k) = (codes "b", rw (← e) refl, rw (← e) refl)
stand_alone t (inr (inr (inl e)), k) =
    let bad : is_release_tag rc ≡ true = ap is_release_tag e ∙ k in cc
stand_alone t (inr (inr (inr (inl e))), k) = (codes "a", rw (← e) refl, rw (← e) refl)
stand_alone t (inr (inr (inr (inr m))), k) = elim m [ ]

walkable : (git : Git) → programs.fetch (host v2).git ≡ some git → IsWalkable 5 git
unfolding model
walkable git e =
    let same : releases v2 ≡ git = ground arith in
    subst (λ g. IsWalkable 5 g) same (stand_alone, omega arith)

update-Finished_example : Finished (update programs 5 (host v2))
update-Finished_example = update-Finished programs 5 (host v2) walkable

overshadowed : IsOvershadowed (releases rc) v2
unfolding model
overshadowed = record {
  released = (inl refl, refl);
  last_one = last_one;
  alone = alone;
  shadow = (codes "c", rc, refl, refl, refl, refl);
}
  where
    last_one : (t : Text) → IsReleaseOf (releases rc) t → (t ≡ v2) ⊎ (version_ltb t v2 ≡ true)
    last_one t (inl e, k) = inl (sym e)
    last_one t (inr (inl e), k) = inr (rw (← e) refl)
    last_one t (inr (inr (inl e)), k) =
        let bad : is_release_tag rc ≡ true = ap is_release_tag e ∙ k in cc
    last_one t (inr (inr (inr (inl e))), k) = inr (rw (← e) refl)
    last_one t (inr (inr (inr (inr m))), k) = elim m [ ]

    alone :
        (t : Text)
        → IsReleaseOf (releases rc) t
        → version_ltb t v2 ≡ true
        → (sha : Text) × (resolve_ref_sha (releases rc) t ≡ some sha)
          × ((releases rc).describe_exact sha ≡ some t)
    alone t (inl e, k) l =
        let bad : version_ltb v2 v2 ≡ true = ap (λ s. version_ltb s v2) e ∙ l in cc
    alone t (inr (inl e), k) l = (codes "b", rw (← e) refl, rw (← e) refl)
    alone t (inr (inr (inl e)), k) l =
        let bad : is_release_tag rc ≡ true = ap is_release_tag e ∙ k in cc
    alone t (inr (inr (inr (inl e))), k) l = (codes "a", rw (← e) refl, rw (← e) refl)
    alone t (inr (inr (inr (inr m))), k) l = elim m [ ]

smooth : IsSmooth programs
smooth = record {
  checks_out = λ sha. refl;
  cleans = refl;
  restarts = refl;
  migrates = λ sha. refl;
  installs = λ sha. refl;
}

first_release : IsReleaseOf (releases rc) v1_2
unfolding model
first_release = (inr (inr (inr (inl refl))), refl)

resolved : resolve_ref_sha (releases rc) v1_2 ≡ some (codes "a")
unfolding model
resolved = refl

no_pin : get_target_ref clone ≡ none
unfolding model
no_pin = refl

walk_astray_example : (walk programs 50 (host rc)).1 ≡ none
walk_astray_example =
    walk_astray programs v2 v1_2 (host rc) smooth overshadowed no_pin first_release resolved 50
