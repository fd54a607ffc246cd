-- ===== src/Updates.antt =====
-- openhost_system_agent/src/openhost_system_agent/update.py: the release tags, the pinned target ref,
-- and the next step of an update. Git is a parameter: what its commands answer, with none where
-- GitPython raises GitCommandError. Versions are read in ASCII digits.
pub mod Progress
pub mod Fetch
pub mod Apply
pub mod Order
pub mod Steps
pub mod Agreement
pub mod Page
pub mod Walk
pub mod FirstStep
pub mod Astray
pub mod Tests
use aerosol.Prelude.{
  ℕ, ◌+◌, ◌-◌, ◌*◌, nat_eq, list_eq, ◌==◌, leb, if◌then◌else◌, Bool, true, false, not, ◌&&◌, ◌||◌,
  Option, none, some, List, [], ◌∷◌, ◌++◌, is_empty, filter, all, Text, codes, split, strip,
  text_ltb, sort_by,
}
use aerosol.Prelude.Outcome.{Outcome, ok, err}

-- What git answers on the repository. `describe_exact` and `describe_nearest` are asked at HEAD, and take
-- the commit that it is on.
pub record Git : Type 0 where
  pub tags : List Text
  pub describe_exact : Text → Option Text
  pub describe_nearest : Text → Option Text
  pub rev_parse : Text → Option Text
  pub merge_base_is_ancestor : Text → Text → Bool

-- The clone on the host: the commit of HEAD, the URL of the remote origin, and what git config has under
-- openhost.target-ref.
pub record Clone : Type 0 where
  pub head : Text
  pub origin : Option Text
  pub target_config : Option Text
  pub is_dirty : Bool

pub data Failure : Type 0 where
  no_remote : Failure
  fetch_failed : Failure
  unresolved_target : Text → Failure
  unresolved_ref : Text → Failure
  uncommitted_changes : Failure
  no_tags : Failure
  stop_failed : Failure
  checkout_failed : Failure
  clean_failed : Failure
  migrations_failed : Failure
  install_failed : Failure
  start_failed : Failure

-- \d+
unfoldable pub is_digit : ℕ → Bool
is_digit c = leb b'0' c && leb c b'9'

unfoldable pub is_number : Text → Bool
unfolding is_digit
is_number x = not (is_empty x) && all is_digit x

-- _RELEASE_TAG.fullmatch: a "v", and numbers with dots between them.
unfoldable pub is_release_tag : Text → Bool
unfolding is_number
is_release_tag [] = false
is_release_tag (c ∷ s) = c == b'v' && all is_number (split b'.' s)

-- `int(x)` of digits.
unfoldable pub int_from : ℕ → Text → ℕ
int_from acc [] = acc
int_from acc (c ∷ s) = int_from (acc * 10 + (c - b'0')) s

unfoldable pub lstrip_v : Text → Text
lstrip_v [] = []
lstrip_v (c ∷ s) = let rest = lstrip_v s in if c == b'v' then rest else c ∷ s

unfoldable pub ints : List Text → List ℕ
unfolding int_from
ints [] = []
ints (x ∷ xs) = int_from 0 x ∷ ints xs

unfoldable pub version_key : Text → List ℕ
unfolding lstrip_v ints
version_key tag_name = ints (split b'.' (lstrip_v tag_name))

-- Tuples of numbers are compared as texts of code points are.
unfoldable pub version_ltb : Text → Text → Bool
unfolding version_key
version_ltb s t = text_ltb (version_key s) (version_key t)

-- An answer of git describe, where it is a release tag.
unfoldable pub release : Option Text → Option Text
unfolding is_release_tag
release none = none
release (some tag) = if is_release_tag tag then some tag else none

-- `a or b` of two tags, which are no empty texts.
abbrev pub or_tag : Option Text → Option Text → Option Text
or_tag (some tag) other = some tag
or_tag none other = other

-- `value.strip() or None`
unfoldable pub stripped : Option Text → Option Text
stripped none = none
stripped (some value) = if is_empty (strip value) then none else some (strip value)

unfoldable pub get_target_ref : Clone → Option Text
unfolding stripped
get_target_ref repo = stripped repo.target_config

-- `if ref:` sets it, otherwise it is taken out of the config, where a missing entry does not matter.
unfoldable pub set_target_ref : Option Text → Clone → Clone
set_target_ref none repo = record repo { target_config = none }
set_target_ref (some ref) repo = record repo {
  target_config = if is_empty ref then none else some ref;
}

abbrev pub commit_of : Text → Text
commit_of candidate = candidate ++ codes "^{commit}"

-- `later[0]`, or else what is left to go to.
abbrev pub first_or : Option Text → List Text → Option Text
first_or last [] = last
first_or last (t ∷ later) = some t

module _ (git : Git) where
  unfoldable pub get_sorted_tags : List Text
  unfolding version_ltb is_release_tag
  get_sorted_tags = sort_by version_ltb (filter is_release_tag git.tags)

  unfoldable pub current_tag : Clone → Option Text
  unfolding release
  current_tag repo = release (git.describe_exact repo.head)

  unfoldable pub latest_ancestor_tag : Clone → Option Text
  unfolding release
  latest_ancestor_tag repo = release (git.describe_nearest repo.head)

  -- The branch of the remote comes first.
  unfoldable pub resolve_ref_sha : Text → Option Text
  resolve_ref_sha ref =
      or_tag (git.rev_parse (commit_of (codes "origin/" ++ ref))) (git.rev_parse (commit_of ref))

  unfoldable pub is_ancestor : Text → Text → Bool
  is_ancestor ancestor descendant = git.merge_base_is_ancestor ancestor descendant

  -- `_current_tag(repo) or _latest_ancestor_tag(repo)`
  unfoldable pub base_tag : Clone → Option Text
  unfolding current_tag latest_ancestor_tag
  base_tag repo = or_tag (current_tag repo) (latest_ancestor_tag repo)

  -- The tag comes after the base, if there is one.
  unfoldable pub is_later : Option Text → Text → Bool
  unfolding version_ltb
  is_later none t = true
  is_later (some base) t = version_ltb base t

  abbrev pub later_tags : Option Text → List Text
  later_tags base = filter (is_later base) get_sorted_tags

  -- The walk toward a pinned ref that resolves.
  unfoldable pub step_to_target : Text → Text → Clone → Option Text
  unfolding base_tag is_later get_sorted_tags is_ancestor
  step_to_target target target_sha repo =
      if repo.head == target_sha
      then none
      else first_or (some target)
          (filter (λ t. is_ancestor t target_sha) (later_tags (base_tag repo)))

  -- The walk to the latest release.
  unfoldable pub step_to_latest : Clone → Option Text
  unfolding base_tag is_later get_sorted_tags
  step_to_latest repo = first_or none (later_tags (base_tag repo))

  unfoldable pub next_step : Clone → Outcome Failure (Option Text)
  unfolding step_to_target step_to_latest get_target_ref resolve_ref_sha
  next_step repo = elim (get_target_ref repo) [
    | none ↦ ok (step_to_latest repo)
    | some target ↦ elim (resolve_ref_sha target) [
      | none ↦ err (unresolved_target target)
      | some target_sha ↦ ok (step_to_target target target_sha repo)
    ]
  ]
