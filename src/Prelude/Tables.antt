-- ===== src/Prelude/Tables.antt =====
-- A table of the database as the list of its rows, with the statements that the program sends.
use Prim.Native.Nat.{ℕ, suc, ◌+◌, ◌≤◌}
use mathlib.Core.Path.{◌≡◌, refl}
use mathlib.Core.Logic.{◌↔◌, inl, inr}
use mathlib.Core.Bool.{Bool, true, false}
use mathlib.Core.List.{List, [], ◌∷◌, ◌++◌, map}
use native.Mathlib.Omega.{arith}
use aerosol.Prelude.Tests.{if◌then◌else◌, Bool-cases}
use aerosol.Prelude.Lists.{Elem, Distinct}

module _ {ℓ} {A : Type ℓ} where
  -- UPDATE … WHERE
  unfoldable pub update_where : (A → Bool) → (A → A) → List A → List A
  update_where p f [] = []
  update_where p f (x ∷ xs) = (if p x then f x else x) ∷ update_where p f xs

  -- DELETE … WHERE
  unfoldable pub delete_where : (A → Bool) → List A → List A
  delete_where p [] = []
  delete_where p (x ∷ xs) = let rest = delete_where p xs in if p x then rest else x ∷ rest

  -- The number of rows that a statement meets: `rowcount`.
  unfoldable pub count_where : (A → Bool) → List A → ℕ
  count_where p [] = 0
  count_where p (x ∷ xs) = let rest = count_where p xs in if p x then suc rest else rest

  pub count_where-append :
      (p : A → Bool) (xs ys : List A)
      → count_where p (xs ++ ys) ≡ count_where p xs + count_where p ys
  unfolding count_where
  count_where-append p [] ys = omega arith
  count_where-append p (x ∷ xs) ys = ground (arith, count_where-append p xs ys)

  -- An update that keeps `q` keeps the number of rows that `q` meets.
  pub count_where-update_where :
      (q p : A → Bool) (f : A → A) (xs : List A)
      → ((x : A) → q (f x) ≡ q x)
      → count_where q (update_where p f xs) ≡ count_where q xs
  unfolding count_where update_where
  count_where-update_where q p f [] h = refl
  count_where-update_where q p f (x ∷ xs) h =
      ground (arith, h x, count_where-update_where q p f xs h)

  pub count_where-delete_where-le :
      (q p : A → Bool) (xs : List A) → count_where q (delete_where p xs) ≤ count_where q xs
  unfolding count_where delete_where
  count_where-delete_where-le q p [] = omega arith
  count_where-delete_where-le q p (x ∷ xs) = ground (arith, count_where-delete_where-le q p xs)

  pub count_where-delete_where :
      (q p : A → Bool) (xs : List A)
      → ((x : A) → p x ≡ true → q x ≡ false)
      → count_where q (delete_where p xs) ≡ count_where q xs
  unfolding count_where delete_where
  count_where-delete_where q p [] h = refl
  count_where-delete_where q p (x ∷ xs) h = ground (arith, h x, count_where-delete_where q p xs h)

module _ {A : Type 0} where
  pub elem-update_where :
      (p : A → Bool) (f : A → A) (b : A) (xs : List A)
      → Elem b (update_where p f xs)
      → (a : A) × Elem a xs × (b ≡ (if p a then f a else a))
  unfolding update_where
  elem-update_where p f b [] m = elim m [ ]
  elem-update_where p f b (x ∷ xs) (inl e) = (x, inl refl, ground arith)
  elem-update_where p f b (x ∷ xs) (inr m) =
      let (a, h, e) = elem-update_where p f b xs m in (a, inr h, e)

  pub elem-delete_where :
      (p : A → Bool) (a : A) (xs : List A)
      → Elem a (delete_where p xs) ↔ (Elem a xs × (p a ≡ false))
  unfolding delete_where
  elem-delete_where p a [] = ground arith
  elem-delete_where p a (x ∷ xs) = ground (arith, elem-delete_where p a xs)

  pub count_where-zero :
      (p : A → Bool) (a : A) (xs : List A) → count_where p xs ≡ 0 → Elem a xs → p a ≡ false
  unfolding count_where
  count_where-zero p a [] h m = elim m [ ]
  count_where-zero p a (x ∷ xs) h m = ground (arith, count_where-zero p a xs)

module _ {A B : Type 0} where
  -- An update that keeps a column keeps the list of its values.
  pub map-update_where :
      (g : A → B) (p : A → Bool) (f : A → A) (xs : List A)
      → ((x : A) → g (f x) ≡ g x)
      → map g (update_where p f xs) ≡ map g xs
  unfolding update_where
  map-update_where g p f [] h = refl
  map-update_where g p f (x ∷ xs) h = ground (arith, h x, map-update_where g p f xs h)

  pub elem-map-delete_where :
      (g : A → B) (p : A → Bool) (b : B) (xs : List A)
      → Elem b (map g (delete_where p xs))
      → Elem b (map g xs)
  unfolding delete_where
  elem-map-delete_where g p b [] m = elim m [ ]
  elem-map-delete_where g p b (x ∷ xs) m = ground (arith, elem-map-delete_where g p b xs)

  pub Distinct-map-delete_where :
      (g : A → B) (p : A → Bool) (xs : List A)
      → Distinct (map g xs)
      → Distinct (map g (delete_where p xs))
  unfolding delete_where
  Distinct-map-delete_where g p [] h = h
  Distinct-map-delete_where g p (x ∷ xs) h = elim (Bool-cases (p x)) [
    | inl gone ↦ rw gone (Distinct-map-delete_where g p xs h.1)
    | inr kept ↦
        rw kept
          (λ m. h.0 (elem-map-delete_where g p (g x) xs m), Distinct-map-delete_where g p xs h.1)
  ]
