-- ===== src/Updates/Order.antt =====
-- openhost_system_agent/src/openhost_system_agent/update.py: the order of the release tags.
use aerosol.Prelude.{
  ◌<◌, nat_eq, list_eq, ◌↔◌, ◌≡◌, refl, inl, inr, Bool, true, false, Option, none, some, List, [],
  ◌∷◌, arith, Elem, elem-filter, filter, length, length-filter_lt, Text, All-elem, Bool-cases,
  elem-sort_by, sort_by-IsSortedBy, IsSortedBy, IsWeakOrder, on_key-IsWeakOrder,
}
use aerosol.Updates.{
  Git, is_release_tag, version_ltb, version_key, get_sorted_tags, is_later, later_tags, first_or,
}

-- The tag stands in the repository, and is one of a release.
abbrev pub IsReleaseOf : Git → Text → Type 0
IsReleaseOf git t = Elem t git.tags × (is_release_tag t ≡ true)

pub version_ltb-IsWeakOrder : IsWeakOrder version_ltb
unfolding version_ltb
version_ltb-IsWeakOrder = on_key-IsWeakOrder version_key

pub elem-get_sorted_tags : (git : Git) (t : Text) → Elem t (get_sorted_tags git) ↔ IsReleaseOf git t
unfolding get_sorted_tags
elem-get_sorted_tags git t = ground (
  arith,
  elem-sort_by version_ltb t (filter is_release_tag git.tags),
  elem-filter is_release_tag t git.tags,
)

pub get_sorted_tags-IsSortedBy : (git : Git) → IsSortedBy version_ltb (get_sorted_tags git)
unfolding get_sorted_tags
get_sorted_tags-IsSortedBy git =
    sort_by-IsSortedBy version_ltb version_ltb-IsWeakOrder (filter is_release_tag git.tags)

pub is_later_trans :
    (git : Git) (base : Option Text) (t u : Text)
    → is_later git base t ≡ true
    → is_later git (some t) u ≡ true
    → is_later git base u ≡ true
unfolding is_later
is_later_trans git none t u h k = refl
is_later_trans git (some base) t u h k = version_ltb-IsWeakOrder.trans base t u h k

pub elem-later_tags :
    (git : Git) (base : Option Text) (t : Text)
    → Elem t (later_tags git base) ↔ (IsReleaseOf git t × (is_later git base t ≡ true))
elem-later_tags git base t =
    ground
      (arith, elem-filter (is_later git base) t (get_sorted_tags git), elem-get_sorted_tags git t)

-- From a later tag there are fewer tags left.
pub later_tags-lt :
    (git : Git) (base : Option Text) (t : Text)
    → Elem t (later_tags git base)
    → length (later_tags git (some t)) < length (later_tags git base)
unfolding is_later
later_tags-lt git base t m =
    let (listed, later) = (elem-filter (is_later git base) t (get_sorted_tags git)).0 m in
    length-filter_lt (is_later git base) (is_later git (some t)) t (get_sorted_tags git)
      (λ u k. is_later_trans git base t u later k) listed later (version_ltb-IsWeakOrder.irrefl t)

-- What the first element that passes a test is, in a sorted list.
pub data First (p : Text → Bool) (last : Option Text) (xs : List Text) : Option Text → Type 0 where
  first :
      (t : Text)
      → Elem t xs
      → p t ≡ true
      → ((u : Text) → Elem u xs → p u ≡ true → version_ltb u t ≡ false)
      → First p last xs (some t)
  no_one : ((u : Text) → Elem u xs → p u ≡ false) → First p last xs last

First-behind :
    {p : Text → Bool} {last o : Option Text} {x : Text} {xs : List Text}
    → p x ≡ false
    → First p last xs o
    → First p last (x ∷ xs) o
First-behind other (first t m k least) =
    first t (inr m) k
      (λ u m' k'. elim m' [ inl equal ↦ ground arith | inr below ↦ least u below k' ])
First-behind {p} other (no_one nobody) =
    no_one (λ u m. elim m [ inl equal ↦ rw equal at other | inr below ↦ nobody u below ])

pub first_or-First :
    (p : Text → Bool) (last : Option Text) (xs : List Text)
    → IsSortedBy version_ltb xs
    → First p last xs (first_or last (filter p xs))
unfolding filter
first_or-First p last [] s = no_one (λ u m. elim m [ ])
first_or-First p last (x ∷ xs) s = elim (Bool-cases (p x)) [
  | inl here ↦ rw here (
      first x (inl refl) here (λ u m k. elim m [
        | inl equal ↦ rw equal (version_ltb-IsWeakOrder.irrefl u)
        | inr below ↦ All-elem (λ y. version_ltb y x ≡ false) u xs s.0 below
      ]))
  | inr other ↦ rw other (First-behind other (first_or-First p last xs s.1))
]
