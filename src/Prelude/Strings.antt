-- ===== src/Prelude/Strings.antt =====
-- Python's `str` as a list of code points, with the methods that the program calls. The case
-- methods change ASCII letters alone: the names that the program compares are ASCII.
use Prim.Native.Nat.{ℕ, ◌+◌, ◌-◌}
use Prim.Native.Char.{code}
use Prim.Native.String.{String}
use mathlib.Core.Path.{◌≡◌, refl, ap}
use mathlib.Core.Logic.{◌↔◌, ◌⊎◌, inl, inr}
use mathlib.Core.Bool.{Bool, true, false, ◌&&◌, ◌||◌}
use mathlib.Core.List.{List, [], ◌∷◌, ◌++◌, map, reverse}
use native.Mathlib.Omega.{arith}
use aerosol.Prelude.Tests.{nat_eq, list_eq, ◌==◌, eq_iff, eq_refl, leb, if◌then◌else◌, Bool-cases}
use aerosol.Prelude.Lists.{Elem}

abbrev pub Text : Type 0
Text = List ℕ

-- A literal of the source. `String` has its own `[]` and `∷`.
abbrev pub codes : String → Text
codes String.[] = []
codes (String.◌∷◌ c s) = code c ∷ codes s

-- One character of `str.lower` and of `str.upper`.
unfoldable pub to_lower : ℕ → ℕ
to_lower c = if leb b'A' c && leb c b'Z' then c + 32 else c

unfoldable pub to_upper : ℕ → ℕ
to_upper c = if leb b'a' c && leb c b'z' then c - 32 else c

unfoldable pub lower : Text → Text
unfolding to_lower
lower = map to_lower

unfoldable pub upper : Text → Text
unfolding to_upper
upper = map to_upper

to_lower_idem : (c : ℕ) → to_lower (to_lower c) ≡ to_lower c
unfolding to_lower
to_lower_idem c = ground arith

pub lower_idem : (s : Text) → lower (lower s) ≡ lower s
unfolding lower
lower_idem [] = refl
lower_idem (c ∷ s) = cc (to_lower_idem c, lower_idem s)

-- `s.split(sep, 1)[0]`: what stands in front of the first separator.
unfoldable pub before : ℕ → Text → Text
before sep [] = []
before sep (c ∷ s) = let rest = before sep s in if c == sep then [] else c ∷ rest

pub before-lacks : (sep : ℕ) (s : Text) → ¬ Elem sep (before sep s)
unfolding before
before-lacks sep [] = ground arith
before-lacks sep (c ∷ s) = ground (arith, before-lacks sep s)

pub before_of_lacks : (sep : ℕ) (s : Text) → ¬ Elem sep s → before sep s ≡ s
unfolding before
before_of_lacks sep [] h = refl
before_of_lacks sep (c ∷ s) h = ground (arith, before_of_lacks sep s)

pub before-append_sep : (sep : ℕ) (s t : Text) → ¬ Elem sep s → before sep (s ++ sep ∷ t) ≡ s
unfolding before
before-append_sep sep [] t h = ground arith
before-append_sep sep (c ∷ s) t h = ground (arith, before-append_sep sep s t)

-- `s.split(sep)`: the parts between the separators, one for the empty text.
abbrev pub onto_first : ℕ → List Text → List Text
onto_first c [] = (c ∷ []) ∷ []
onto_first c (part ∷ parts) = (c ∷ part) ∷ parts

unfoldable pub split : ℕ → Text → List Text
split sep [] = [] ∷ []
split sep (c ∷ s) = let rest = split sep s in if c == sep then [] ∷ rest else onto_first c rest

-- `s.startswith(p)`.
unfoldable pub starts_with : Text → Text → Bool
starts_with s [] = true
starts_with [] (d ∷ p) = false
starts_with (c ∷ s) (d ∷ p) = c == d && starts_with s p

pub starts_with_sound : (s p : Text) → starts_with s p ≡ true → (t : Text) × (s ≡ p ++ t)
unfolding starts_with
starts_with_sound s [] h = (s, refl)
starts_with_sound [] (d ∷ p) h = cc
starts_with_sound (c ∷ s) (d ∷ p) h =
    let (t, e) = starts_with_sound s p (ground arith) in (t, ground arith)

pub starts_with-append : (p t : Text) → starts_with (p ++ t) p ≡ true
unfolding starts_with
starts_with-append [] t = refl
starts_with-append (c ∷ p) t = ground (arith, starts_with-append p t)

-- `s.endswith(p)`.
unfoldable pub ends_with : Text → Text → Bool
ends_with [] p = [] == p
ends_with (c ∷ s) p = (c ∷ s) == p || ends_with s p

pub ends_with_sound : (s p : Text) → ends_with s p ≡ true → (t : Text) × (s ≡ t ++ p)
unfolding ends_with
ends_with_sound [] p h = ([], (eq_iff [] p).0 h)
ends_with_sound (c ∷ s) p h = elim (Bool-cases ((c ∷ s) == p)) [
  | inl same ↦ ([], (eq_iff (c ∷ s) p).0 same)
  | inr other ↦
      let (t, e) = ends_with_sound s p (ground arith) in (c ∷ t, ap (λ (l : Text). c ∷ l) e)
]

pub ends_with-append : (t p : Text) → ends_with (t ++ p) p ≡ true
unfolding ends_with
ends_with-append [] [] = eq_refl {A = Text} []
ends_with-append [] (c ∷ p) = ground (arith, eq_refl (c ∷ p))
ends_with-append (c ∷ t) p = ground (arith, ends_with-append t p)

-- `s.rstrip(c)` for one character.
unfoldable pub rstrip : ℕ → Text → Text
rstrip c [] = []
rstrip c (d ∷ s) = let rest = rstrip c s in if rest == [] && d == c then [] else d ∷ rest

-- `s.strip()` over the ASCII blanks.
unfoldable pub is_blank : ℕ → Bool
is_blank c = c == 32 || (leb 9 c && leb c 13) || (leb 28 c && leb c 31)

unfoldable pub lstrip_blank : Text → Text
lstrip_blank [] = []
lstrip_blank (c ∷ s) = let rest = lstrip_blank s in if is_blank c then rest else c ∷ s

unfoldable pub strip : Text → Text
unfolding lstrip_blank is_blank
strip s = reverse (lstrip_blank (reverse (lstrip_blank s)))

-- One newline at the end is taken off.
unfoldable pub drop_newline : Text → Text
drop_newline [] = []
drop_newline (c ∷ s) = let rest = drop_newline s in if s == [] && c == 10 then [] else c ∷ rest

pub drop_newline-append : (t : Text) → drop_newline (t ++ 10 ∷ []) ≡ t
unfolding drop_newline
drop_newline-append [] = ground (arith, eq_refl {A = Text} [])
drop_newline-append (c ∷ t) = ground (arith, drop_newline-append t, eq_iff (t ++ 10 ∷ []) [])

pub drop_newline-cases :
    (s : Text) → ((t : Text) × (s ≡ t ++ 10 ∷ []) × (drop_newline s ≡ t)) ⊎ (drop_newline s ≡ s)
unfolding drop_newline
drop_newline-cases [] = inr refl
drop_newline-cases (c ∷ s) = elim (Bool-cases (s == [] && c == 10)) [
  | inl here ↦ inl ([], ground (arith, eq_iff s []), ground arith)
  | inr other ↦ elim (drop_newline-cases s) [
    | inl (t, e, d) ↦ inl (c ∷ t, ap (λ (l : Text). c ∷ l) e, ground arith)
    | inr same ↦ inr (ground arith)
  ]
]

-- `$` of Python's `re`: it matches at the end, and in front of a newline at the end.
unfoldable pub at_dollar : (Text → Bool) → Text → Bool
unfolding drop_newline
at_dollar matches s = matches s || matches (drop_newline s)

-- What `$` lets through, if the expression in front of it accepts what `P` describes.
pub at_dollar_iff :
    (P : Text → Type 0) (matches : Text → Bool)
    → ((s : Text) → (matches s ≡ true) ↔ P s)
    → (s : Text) → (at_dollar matches s ≡ true) ↔ (P s ⊎ ((t : Text) × (s ≡ t ++ 10 ∷ []) × P t))
unfolding at_dollar
at_dollar_iff P matches iff s = (to, from)
  where
    to :
        (matches s || matches (drop_newline s)) ≡ true
        → P s ⊎ ((t : Text) × (s ≡ t ++ 10 ∷ []) × P t)
    to h = elim (Bool-cases (matches s)) [
      | inl here ↦ inl ((iff s).0 here)
      | inr other ↦
          let later : matches (drop_newline s) ≡ true = ground arith in
          elim (drop_newline-cases s) [
            | inl (t, e, d) ↦ inr (t, e, (iff t).0 (rw d at later))
            | inr same ↦ inl ((iff s).0 (rw same at later))
          ]
    ]

    from :
        P s ⊎ ((t : Text) × (s ≡ t ++ 10 ∷ []) × P t)
        → (matches s || matches (drop_newline s)) ≡ true
    from (inl n) = rw ((iff s).1 n)
    from (inr (t, e, n)) =
        let later : matches (drop_newline s) ≡ true = rw (e, drop_newline-append t) ((iff t).1 n) in
        ground arith
