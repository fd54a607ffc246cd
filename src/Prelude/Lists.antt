-- ===== src/Prelude/Lists.antt =====
-- Lists measured by native numbers, and membership as a predicate by recursion.
use Prim.Native.Nat.{ℕ, zero, suc, ◌+◌, ◌≤◌, ◌<◌}
use mathlib.Core.Path.{◌≡◌, refl, ap, subst, sym, ◌∙◌}
use mathlib.Core.Logic.{◌↔◌, ◌⊎◌, inl, inr}
use mathlib.Core.Bool.{Bool, true, false, ◌&&◌, ◌||◌}
use mathlib.Core.Option.{Option, none, some}
use mathlib.Core.List.{List, [], ◌∷◌, ◌++◌, map, reverse, reverse-cons, reverse-reverse}
use native.Mathlib.Omega.{arith}
use aerosol.Prelude.Tests.{Eq, ◌==◌, eq_iff, if◌then◌else◌, Bool-cases}

module _ {ℓ} {A : Type ℓ} where
  abbrev pub length : List A → ℕ
  length [] = 0
  length (x ∷ xs) = suc (length xs)

  abbrev pub is_empty : List A → Bool
  is_empty [] = true
  is_empty (x ∷ xs) = false

  abbrev pub is_some : Option A → Bool
  is_some none = false
  is_some (some a) = true

  pub length-append : (xs ys : List A) → length (xs ++ ys) ≡ length xs + length ys
  length-append [] ys = omega arith
  length-append (x ∷ xs) ys = omega (arith, length-append xs ys)

  abbrev pub take : ℕ → List A → List A
  take zero xs = []
  take (suc n) [] = []
  take (suc n) (x ∷ xs) = x ∷ take n xs

  pub take-append_length : (xs ys : List A) → take (length xs) (xs ++ ys) ≡ xs
  take-append_length [] ys = refl
  take-append_length (x ∷ xs) ys = ap (λ (l : List A). x ∷ l) (take-append_length xs ys)

  abbrev pub All {κ} : (A → Type κ) → List A → Type κ
  All P [] = Unit
  All P (x ∷ xs) = P x × All P xs

  unfoldable pub filter : (A → Bool) → List A → List A
  filter p [] = []
  filter p (x ∷ xs) = let rest = filter p xs in if p x then x ∷ rest else rest

  unfoldable pub find? : (A → Bool) → List A → Option A
  find? p [] = none
  find? p (x ∷ xs) = let rest = find? p xs in if p x then some x else rest

  unfoldable pub all : (A → Bool) → List A → Bool
  all p [] = true
  all p (x ∷ xs) = p x && all p xs

  unfoldable pub any : (A → Bool) → List A → Bool
  any p [] = false
  any p (x ∷ xs) = p x || any p xs

module _ {ℓ} {A : Type ℓ} where
  pub length-reverse : (xs : List A) → length (reverse xs) ≡ length xs
  length-reverse [] = refl
  length-reverse (x ∷ xs) = rw (reverse-cons, length-append) (omega (arith, length-reverse xs))

  pub all-append : (p : A → Bool) (xs ys : List A) → all p (xs ++ ys) ≡ (all p xs && all p ys)
  unfolding all
  all-append p [] ys = refl
  all-append p (x ∷ xs) ys = ground (arith, all-append p xs ys)

  pub all-reverse : (p : A → Bool) (xs : List A) → all p (reverse xs) ≡ all p xs
  unfolding all
  all-reverse p [] = refl
  all-reverse p (x ∷ xs) =
      rw reverse-cons (ground (arith, all-append p (reverse xs) (x ∷ []), all-reverse p xs))

  pub reverse_injective : {xs ys : List A} → reverse xs ≡ reverse ys → xs ≡ ys
  reverse_injective {xs} {ys} e = sym (reverse-reverse xs) ∙ ap reverse e ∙ reverse-reverse ys

module _ {A : Type 0} where
  -- `a` stands in the list.
  abbrev pub Elem : A → List A → Type 0
  Elem a [] = ⊥
  Elem a (x ∷ xs) = (x ≡ a) ⊎ Elem a xs

  -- No element stands twice.
  abbrev pub Distinct : List A → Type 0
  Distinct [] = Unit
  Distinct (x ∷ xs) = (¬ Elem x xs) × Distinct xs

  pub elem-append : (a : A) (xs ys : List A) → Elem a (xs ++ ys) ↔ (Elem a xs ⊎ Elem a ys)
  elem-append a [] ys = ground arith
  elem-append a (x ∷ xs) ys = ground (arith, elem-append a xs ys)

  pub Distinct-append_one :
      (a : A) (xs : List A) → Distinct xs → ¬ Elem a xs → Distinct (xs ++ a ∷ [])
  Distinct-append_one a [] d h = (h, tt)
  Distinct-append_one a (x ∷ xs) d h =
      (ground (arith, elem-append x xs (a ∷ [])), Distinct-append_one a xs d.1 (λ m. h (inr m)))

  pub Distinct-append :
      (xs ys : List A)
      → Distinct xs
      → Distinct ys
      → ((a : A) → Elem a xs → ¬ Elem a ys)
      → Distinct (xs ++ ys)
  Distinct-append [] ys d e apart = e
  Distinct-append (x ∷ xs) ys d e apart = (
    ground (arith, elem-append x xs ys, d.0, apart x (inl refl)),
    Distinct-append xs ys d.1 e (λ a m. apart a (inr m)),
  )

  pub elem-filter :
      (p : A → Bool) (a : A) (xs : List A) → Elem a (filter p xs) ↔ (Elem a xs × (p a ≡ true))
  unfolding filter
  elem-filter p a [] = ground arith
  elem-filter p a (x ∷ xs) = ground (arith, elem-filter p a xs)

  pub All-elem {κ} : (P : A → Type κ) (a : A) (xs : List A) → All P xs → Elem a xs → P a
  All-elem P a [] h m = elim m [ ]
  All-elem P a (x ∷ xs) h (inl e) = subst P e h.0
  All-elem P a (x ∷ xs) h (inr e) = All-elem P a xs h.1 e

  pub filter-filter :
      (q p : A → Bool) (xs : List A) → filter q (filter p xs) ≡ filter (λ x. p x && q x) xs
  unfolding filter
  filter-filter q p [] = refl
  filter-filter q p (x ∷ xs) = ground (arith, filter-filter q p xs)

  pub length-filter : (p : A → Bool) (xs : List A) → length (filter p xs) ≤ length xs
  unfolding filter
  length-filter p [] = omega arith
  length-filter p (x ∷ xs) = ground (arith, length-filter p xs)

  pub length-filter_le :
      (p q : A → Bool) (xs : List A)
      → ((x : A) → q x ≡ true → p x ≡ true)
      → length (filter q xs) ≤ length (filter p xs)
  unfolding filter
  length-filter_le p q [] h = omega arith
  length-filter_le p q (x ∷ xs) h = ground (arith, h x, length-filter_le p q xs h)

  -- A stronger test that leaves out an element keeps fewer.
  pub length-filter_lt :
      (p q : A → Bool) (a : A) (xs : List A)
      → ((x : A) → q x ≡ true → p x ≡ true)
      → Elem a xs
      → p a ≡ true
      → q a ≡ false
      → length (filter q xs) < length (filter p xs)
  unfolding filter
  length-filter_lt p q a [] h m e f = elim m [ ]
  length-filter_lt p q a (x ∷ xs) h (inl same) e f =
      let px : p x ≡ true = rw same e in
      let qx : q x ≡ false = rw same f in ground (arith, length-filter_le p q xs h)
  length-filter_lt p q a (x ∷ xs) h (inr m) e f =
      ground (arith, h x, length-filter_lt p q a xs h m e f)

  pub find?-eq-none_iff :
      (p : A → Bool) (xs : List A) → (find? p xs ≡ none) ↔ All (λ x. p x ≡ false) xs
  unfolding find?
  find?-eq-none_iff p [] = ground arith
  find?-eq-none_iff p (x ∷ xs) = ground (arith, find?-eq-none_iff p xs)

  pub find?_sound :
      (p : A → Bool) (a : A) (xs : List A) → find? p xs ≡ some a → Elem a xs × (p a ≡ true)
  unfolding find?
  find?_sound p a (x ∷ xs) h = ground (arith, find?_sound p a xs)
  find?_sound p a [] h = cc

  pub all_iff : (p : A → Bool) (xs : List A) → (all p xs ≡ true) ↔ All (λ x. p x ≡ true) xs
  unfolding all
  all_iff p [] = ground arith
  all_iff p (x ∷ xs) = ground (arith, all_iff p xs)

  pub any_complete : (p : A → Bool) (a : A) (xs : List A) → Elem a xs → p a ≡ true → any p xs ≡ true
  unfolding any
  any_complete p a [] m h = elim m [ ]
  any_complete p a (x ∷ xs) m h = ground (arith, any_complete p a xs)

  pub any_sound :
      (p : A → Bool) (xs : List A) → any p xs ≡ true → (a : A) × Elem a xs × (p a ≡ true)
  unfolding any
  any_sound p (x ∷ xs) h = elim (Bool-cases (p x)) [
    | inl here ↦ (x, inl refl, here)
    | inr other ↦ let (a, m, e) = any_sound p xs (ground arith) in (a, inr m, e)
  ]
  any_sound p [] h = cc

module _ {A : Type 0} ⦃e : Eq A⦄ where
  -- The test `a in xs`.
  unfoldable pub contains : A → List A → Bool
  contains a [] = false
  contains a (x ∷ xs) = x == a || contains a xs

  pub contains_iff : (a : A) (xs : List A) → (contains a xs ≡ true) ↔ Elem a xs
  unfolding contains
  contains_iff a [] = ground arith
  contains_iff a (x ∷ xs) = ground (arith, eq_iff x a, contains_iff a xs)

  pub Elem-dec : (a : A) (xs : List A) → Elem a xs ⊎ (¬ Elem a xs)
  Elem-dec a xs = ground (arith, contains_iff a xs)

module _ {A B : Type 0} where
  pub elem-map : (f : A → B) (a : A) (xs : List A) → Elem a xs → Elem (f a) (map f xs)
  elem-map f a [] m = elim m [ ]
  elem-map f a (x ∷ xs) (inl e) = inl (ap f e)
  elem-map f a (x ∷ xs) (inr h) = inr (elem-map f a xs h)

  pub elem-map_inv :
      (f : A → B) (b : B) (xs : List A) → Elem b (map f xs) → (a : A) × Elem a xs × (f a ≡ b)
  elem-map_inv f b [] m = elim m [ ]
  elem-map_inv f b (x ∷ xs) (inl e) = (x, inl refl, e)
  elem-map_inv f b (x ∷ xs) (inr h) = let (a, m, e) = elem-map_inv f b xs h in (a, inr m, e)

  -- A key that is distinct names its row.
  pub same_key :
      (key : A → B) (a b : A) (rows : List A)
      → Distinct (map key rows)
      → Elem a rows
      → Elem b rows
      → key a ≡ key b
      → a ≡ b
  same_key key a b [] d m n e = elim m [ ]
  same_key key a b (x ∷ rows) d (inl p) (inl q) e = sym p ∙ q
  same_key key a b (x ∷ rows) d (inl p) (inr n) e =
      absurd (d.0 (rw (ap key p ∙ e) (elem-map key b rows n)))
  same_key key a b (x ∷ rows) d (inr m) (inl q) e =
      absurd (d.0 (rw (ap key q ∙ sym e) (elem-map key a rows m)))
  same_key key a b (x ∷ rows) d (inr m) (inr n) e = same_key key a b rows d.1 m n e

  pub elem-map-filter :
      (f : A → B) (p : A → Bool) (b : B) (xs : List A)
      → Elem b (map f (filter p xs))
      → Elem b (map f xs)
  unfolding filter
  elem-map-filter f p b [] m = m
  elem-map-filter f p b (x ∷ xs) m = ground (arith, elem-map-filter f p b xs)

  pub Distinct-map-filter :
      (f : A → B) (p : A → Bool) (xs : List A)
      → Distinct (map f xs)
      → Distinct (map f (filter p xs))
  unfolding filter
  Distinct-map-filter f p [] d = d
  Distinct-map-filter f p (x ∷ xs) d =
      ground (arith, elem-map-filter f p (f x) xs, Distinct-map-filter f p xs d.1, d.0)

  pub map-append_lem : (f : A → B) (xs ys : List A) → map f (xs ++ ys) ≡ map f xs ++ map f ys
  map-append_lem f [] ys = refl
  map-append_lem f (x ∷ xs) ys = ap (λ (l : List B). f x ∷ l) (map-append_lem f xs ys)
