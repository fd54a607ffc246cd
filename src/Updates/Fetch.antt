-- ===== src/Updates/Fetch.antt =====
-- openhost_system_agent/src/openhost_system_agent/update.py: what the dashboard is told about an
-- update (fetch_updates, show_diff). `fetched` is git after `git fetch`, none where that raises.
use aerosol.Prelude.{
  nat_eq, list_eq, ◌==◌, if◌then◌else◌, Bool, true, Option, none, some, List, [], ◌∷◌, Text, take,
  before, strip,
}
use aerosol.Prelude.Outcome.{Outcome, ok, err, ◌>>=◌}
use aerosol.Updates.{
  Git, Clone, Failure, no_remote, fetch_failed, unresolved_target, get_target_ref, resolve_ref_sha,
  get_sorted_tags, base_tag, version_ltb,
}

pub data FetchState : Type 0 where
  dirty up_to_date behind_remote : FetchState

unfoldable pub get_remote : Clone → Outcome Failure Text
get_remote repo = elim repo.origin [ none ↦ err no_remote | some url ↦ ok url ]

abbrev pub fetched_or_raise : Option Git → Outcome Failure Git
fetched_or_raise none = err fetch_failed
fetched_or_raise (some git) = ok git

-- `tags[-1]`
unfoldable pub last_tag : List Text → Option Text
last_tag [] = none
last_tag (t ∷ []) = some t
last_tag (t ∷ u ∷ tags) = last_tag (u ∷ tags)

-- There is no current tag, or the latest one comes after it.
unfoldable pub is_behind : Option Text → Text → Bool
unfolding version_ltb
is_behind none latest = true
is_behind (some current) latest = version_ltb current latest

module _ (git : Git) where
  unfoldable pub fetched_state : Clone → Outcome Failure FetchState
  unfolding get_target_ref resolve_ref_sha get_sorted_tags last_tag base_tag is_behind
  fetched_state repo = if repo.is_dirty then ok dirty else elim (get_target_ref repo) [
    | some target ↦ elim (resolve_ref_sha git target) [
      | none ↦ err (unresolved_target target)
      | some sha ↦ ok (if repo.head == sha then up_to_date else behind_remote)
    ]
    | none ↦ elim (last_tag (get_sorted_tags git)) [
      | none ↦ ok up_to_date
      | some latest ↦
          ok (if is_behind (base_tag git repo) latest then behind_remote else up_to_date)
    ]
  ]

  -- Where the difference of `show_diff` ends, and how it is called.
  unfoldable pub diff_destination : Clone → Option Text × Option Text
  unfolding get_target_ref resolve_ref_sha get_sorted_tags last_tag
  diff_destination repo = elim (get_target_ref repo) [
    | some target ↦ (resolve_ref_sha git target, some target)
    | none ↦ (last_tag (get_sorted_tags git), last_tag (get_sorted_tags git))
  ]

  -- `_current_tag(repo) or _latest_ancestor_tag(repo) or repo.head.commit.hexsha[:8]`
  unfoldable pub current_ref : Clone → Text
  unfolding base_tag
  current_ref repo = elim (base_tag git repo) [ none ↦ take 8 repo.head | some tag ↦ tag ]

unfoldable pub fetch_updates : Option Git → Clone → Outcome Failure FetchState
unfolding get_remote fetched_state
fetch_updates fetched repo =
    get_remote repo >>= λ url. fetched_or_raise fetched >>= λ git. fetched_state git repo

pub record DiffResult : Type 0 where
  pub commits : List (Text × Text)
  pub current : Text
  pub remote_ref : Option Text

-- The first eight signs of each commit, and the first line of its message.
unfoldable pub short_commits : List (Text × Text) → List (Text × Text)
unfolding before strip
short_commits [] = []
short_commits ((hexsha, message) ∷ commits) =
    (take 8 hexsha, before 10 (strip message)) ∷ short_commits commits

-- `iter_commits` lists the commits between two refs.
unfoldable pub show_diff : (Text → Text → List (Text × Text)) → Git → Clone → DiffResult
unfolding diff_destination current_ref short_commits
show_diff iter_commits git repo =
    let current = current_ref git repo in
    let (dest, dest_label) = diff_destination git repo in
    elim dest [
      | none ↦ record { commits = []; current = current; remote_ref = none }
      | some dest ↦ record {
        commits = short_commits (iter_commits current dest);
        current = current;
        remote_ref = dest_label;
      }
    ]
