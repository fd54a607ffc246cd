-- ===== src/Prelude/Sorting.antt =====
-- `sorted` and ORDER BY as a stable insertion sort, and the order of texts.
use mathlib.Core.Path.{◌≡◌, refl}
use mathlib.Core.Logic.{◌↔◌, ◌⊎◌, inl, inr}
use mathlib.Core.Bool.{Bool, true, false, ◌&&◌, ◌||◌}
use mathlib.Core.List.{List, [], ◌∷◌}
use native.Mathlib.Omega.{arith}
use aerosol.Prelude.Tests.{nat_eq, ◌==◌, ltb, if◌then◌else◌, Bool-cases}
use aerosol.Prelude.Lists.{Elem, All}
use aerosol.Prelude.Strings.{Text}

-- The order of texts by their code points.
unfoldable pub text_ltb : Text → Text → Bool
text_ltb [] [] = false
text_ltb [] (d ∷ t) = true
text_ltb (c ∷ s) [] = false
text_ltb (c ∷ s) (d ∷ t) = ltb c d || (c == d && text_ltb s t)

module _ {ℓ} {A : Type ℓ} where
  unfoldable pub insert_by : (A → A → Bool) → A → List A → List A
  insert_by less a [] = a ∷ []
  insert_by less a (x ∷ xs) =
      let rest = insert_by less a xs in if less x a then x ∷ rest else a ∷ x ∷ xs

  -- An element goes behind those that are less.
  unfoldable pub sort_by : (A → A → Bool) → List A → List A
  unfolding insert_by
  sort_by less [] = []
  sort_by less (x ∷ xs) = insert_by less x (sort_by less xs)

module _ {A : Type 0} where
  elem-insert_by :
      (less : A → A → Bool) (a b : A) (xs : List A)
      → Elem b (insert_by less a xs) ↔ ((a ≡ b) ⊎ Elem b xs)
  unfolding insert_by
  elem-insert_by less a b [] = ground arith
  elem-insert_by less a b (x ∷ xs) = ground (arith, elem-insert_by less a b xs)

  -- Sorting keeps the elements.
  pub elem-sort_by :
      (less : A → A → Bool) (b : A) (xs : List A) → Elem b (sort_by less xs) ↔ Elem b xs
  unfolding sort_by
  elem-sort_by less b [] = ground arith
  elem-sort_by less b (x ∷ xs) =
      ground (arith, elem-insert_by less x b (sort_by less xs), elem-sort_by less b xs)

  -- No element is less than one before it.
  abbrev pub IsSortedBy : (A → A → Bool) → List A → Type 0
  IsSortedBy less [] = Unit
  IsSortedBy less (x ∷ xs) = All (λ y. less y x ≡ false) xs × IsSortedBy less xs

  -- What a comparison by a key has.
  pub record IsWeakOrder (less : A → A → Bool) : Type 0 where
    pub irrefl : (a : A) → less a a ≡ false
    pub trans : (a b c : A) → less a b ≡ true → less b c ≡ true → less a c ≡ true
    pub co_trans : (a b c : A) → less a b ≡ false → less b c ≡ false → less a c ≡ false

  All-insert_by :
      (less : A → A → Bool) (P : A → Type 0) (a : A) (xs : List A)
      → P a
      → All P xs
      → All P (insert_by less a xs)
  unfolding insert_by
  All-insert_by less P a [] h k = (h, tt)
  All-insert_by less P a (x ∷ xs) h k = elim (Bool-cases (less x a)) [
    | inl e ↦ rw e (k.0, All-insert_by less P a xs h k.1)
    | inr e ↦ rw e (h, k)
  ]

  All-weaken : {P Q : A → Type 0} → ((a : A) → P a → Q a) → (xs : List A) → All P xs → All Q xs
  All-weaken f [] h = tt
  All-weaken f (x ∷ xs) h = (f x h.0, All-weaken f xs h.1)

  insert_by-IsSortedBy :
      (less : A → A → Bool)
      → IsWeakOrder less
      → (a : A) (xs : List A) → IsSortedBy less xs
      → IsSortedBy less (insert_by less a xs)
  unfolding insert_by
  insert_by-IsSortedBy less o a [] h = (tt, tt)
  insert_by-IsSortedBy less o a (x ∷ xs) h = elim (Bool-cases (less x a)) [
    | inl e ↦
        let back : less a x ≡ false = elim (Bool-cases (less a x)) [
          | inl f ↦ let g = o.trans a x a f e in let k = o.irrefl a in cc
          | inr f ↦ f
        ] in
        rw e (
          All-insert_by less (λ y. less y x ≡ false) a xs back h.0,
          insert_by-IsSortedBy less o a xs h.1,
        )
    | inr e ↦ rw e ((e, All-weaken (λ y k. o.co_trans y x a k e) xs h.0), h)
  ]

  pub sort_by-IsSortedBy :
      (less : A → A → Bool) → IsWeakOrder less → (xs : List A) → IsSortedBy less (sort_by less xs)
  unfolding sort_by
  sort_by-IsSortedBy less o [] = tt
  sort_by-IsSortedBy less o (x ∷ xs) =
      insert_by-IsSortedBy less o x (sort_by less xs) (sort_by-IsSortedBy less o xs)

-- The order of texts is a strict linear order.
pub text_ltb_irrefl : (s : Text) → text_ltb s s ≡ false
unfolding text_ltb
text_ltb_irrefl [] = refl
text_ltb_irrefl (c ∷ s) = ground (arith, text_ltb_irrefl s)

pub text_ltb_trans :
    (s t u : Text) → text_ltb s t ≡ true → text_ltb t u ≡ true → text_ltb s u ≡ true
unfolding text_ltb
text_ltb_trans [] [] u h k = cc
text_ltb_trans [] (d ∷ t) [] h k = cc
text_ltb_trans [] (d ∷ t) (e ∷ u) h k = refl
text_ltb_trans (c ∷ s) [] u h k = cc
text_ltb_trans (c ∷ s) (d ∷ t) [] h k = cc
text_ltb_trans (c ∷ s) (d ∷ t) (e ∷ u) h k = ground (arith, text_ltb_trans s t u)

pub text_ltb_co_trans :
    (s t u : Text) → text_ltb s t ≡ false → text_ltb t u ≡ false → text_ltb s u ≡ false
unfolding text_ltb
text_ltb_co_trans [] [] u h k = k
text_ltb_co_trans [] (d ∷ t) u h k = cc
text_ltb_co_trans (c ∷ s) [] [] h k = refl
text_ltb_co_trans (c ∷ s) [] (e ∷ u) h k = cc
text_ltb_co_trans (c ∷ s) (d ∷ t) [] h k = refl
text_ltb_co_trans (c ∷ s) (d ∷ t) (e ∷ u) h k = ground (arith, text_ltb_co_trans s t u)

pub text_ltb-IsWeakOrder : IsWeakOrder text_ltb
text_ltb-IsWeakOrder = record {
  irrefl = text_ltb_irrefl;
  trans = text_ltb_trans;
  co_trans = text_ltb_co_trans;
}

pub on_key-IsWeakOrder :
    {A : Type 0} (key : A → Text) → IsWeakOrder {A = A} (λ a b. text_ltb (key a) (key b))
on_key-IsWeakOrder key = record {
  irrefl = λ a. text_ltb_irrefl (key a);
  trans = λ a b c. text_ltb_trans (key a) (key b) (key c);
  co_trans = λ a b c. text_ltb_co_trans (key a) (key b) (key c);
}
