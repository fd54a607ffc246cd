-- ===== src/AppId/Base58.antt =====
-- The app ids that `new_app_id` mints: they are valid, and distinct for distinct small numbers.
use Prim.Native.Nat.{ℕ, zero, suc, ◌+◌, ◌*◌, ◌/◌, ◌%◌, ◌^◌, ◌<◌}
use native.Mathlib.Nat.{pow-suc}
use aerosol.Prelude.{
  ◌≡◌, refl, ap, Bool, true, ◌&&◌, [], ◌∷◌, arith, nat_eq, ◌==◌, eq_iff, if◌then◌else◌, length, all,
  contains, Text, length-reverse, all-reverse, reverse_injective,
}
use aerosol.AppId.{
  base58_alphabet, char_at, base58_chars, encode_base58_padded, new_app_id, is_valid_app_id,
}

-- The place of a character in the alphabet, and the number that the characters spell, the last
-- significant one first.
position : ℕ → Text → ℕ
position c [] = 0
position c (d ∷ s) = if d == c then 0 else suc (position c s)

spelled : Text → ℕ
spelled [] = 0
spelled (c ∷ s) = position c base58_alphabet + 58 * spelled s

-- What the rounds leave of the number.
left : ℕ → ℕ → ℕ
left zero n = n
left (suc k) n = left k (n / 58)

-- The test passes for the numbers below the bound.
passes_below : (ℕ → Bool) → ℕ → Bool
passes_below test zero = true
passes_below test (suc bound) = passes_below test bound && test bound

passes_below_sound :
    (test : ℕ → Bool) (bound k : ℕ) → k < bound → passes_below test bound ≡ true → test k ≡ true
unfolding passes_below
passes_below_sound test zero k lt h = absurd (omega arith)
passes_below_sound test (suc bound) k lt h = ground (arith, passes_below_sound test bound k)

alphabet_table :
    passes_below (λ i. position (char_at i base58_alphabet) base58_alphabet == i) 58 ≡ true
unfolding passes_below position char_at
alphabet_table = refl

position-char_at : (i : ℕ) → i < 58 → position (char_at i base58_alphabet) base58_alphabet ≡ i
position-char_at i h = (eq_iff _ i).0 (passes_below_sound _ 58 i h alphabet_table)

member_table : passes_below (λ i. contains (char_at i base58_alphabet) base58_alphabet) 58 ≡ true
unfolding passes_below contains char_at
member_table = refl

spelled-base58_chars : (k n : ℕ) → n ≡ spelled (base58_chars k n) + 58 ^ k * left k n
unfolding spelled base58_chars left
spelled-base58_chars zero n = grind arith
spelled-base58_chars (suc k) n =
    let ih : 58 * (n / 58) ≡ 58 * (spelled (base58_chars k (n / 58)) + 58 ^ k * left k (n / 58)) =
      ap (λ (t : ℕ). 58 * t) (spelled-base58_chars k (n / 58)) in
    rw (pow-suc, position-char_at (n % 58) (omega arith)) (omega (arith, ih))

spelled-lt : (k n : ℕ) → spelled (base58_chars k n) < 58 ^ k
unfolding spelled base58_chars
spelled-lt zero n = omega arith
spelled-lt (suc k) n =
    rw (pow-suc, position-char_at (n % 58) (omega arith)) (omega (arith, spelled-lt k (n / 58)))

length-base58_chars : (k n : ℕ) → length (base58_chars k n) ≡ k
unfolding base58_chars
length-base58_chars zero n = refl
length-base58_chars (suc k) n = ap suc (length-base58_chars k (n / 58))

all-base58_chars : (k n : ℕ) → all (λ c. contains c base58_alphabet) (base58_chars k n) ≡ true
unfolding base58_chars all
all-base58_chars zero n = refl
all-base58_chars (suc k) n = ground (
  arith,
  all-base58_chars k (n / 58),
  passes_below_sound (λ i. contains (char_at i base58_alphabet) base58_alphabet) 58 (n % 58)
      (omega arith) member_table,
)

-- Every minted id passes `is_valid_app_id`, whatever the random number.
pub new_app_id-is_valid : (n : ℕ) → is_valid_app_id (new_app_id n) ≡ true
unfolding is_valid_app_id new_app_id encode_base58_padded
new_app_id-is_valid n = ground (
  arith,
  length-reverse (base58_chars 12 n),
  length-base58_chars 12 n,
  all-reverse (λ c. contains c base58_alphabet) (base58_chars 12 n),
  all-base58_chars 12 n,
)

-- Two numbers below 58 ^ 12 have different ids.
pub new_app_id_injective :
    (m n : ℕ) → m < 58 ^ 12 → n < 58 ^ 12 → new_app_id m ≡ new_app_id n → m ≡ n
unfolding new_app_id encode_base58_padded
new_app_id_injective m n hm hn e =
    let same : base58_chars 12 m ≡ base58_chars 12 n = reverse_injective e in
    omega (arith, ap spelled same, spelled-base58_chars 12 m, spelled-base58_chars 12 n)
