-- ===== src/AppId/Names.antt =====
-- What `is_valid_app_name` accepts.
use aerosol.Prelude.{
  ℕ, ◌≤◌, ◌≡◌, refl, ap, ◌≢◌, ◌↔◌, ◌⊎◌, true, [], ◌∷◌, ◌++◌, arith, All, Text, nat_eq, list_eq, all,
  at_dollar_iff,
}
use aerosol.AppId.{is_alnum, is_label_char, last_alnum, match_rest, match_name, is_valid_app_name}

abbrev pub IsAlnum : ℕ → Type 0
IsAlnum c = ((b'a' ≤ c) × (c ≤ b'z')) ⊎ ((b'0' ≤ c) × (c ≤ b'9'))

-- Lowercase letters, digits and hyphens, at least one, with no hyphen at either end.
abbrev pub IsAppName : Text → Type 0
IsAppName s =
    (s ≢ [])
    × All (λ c. IsAlnum c ⊎ (c ≡ b'-')) s
    × ((t : Text) → s ≢ b'-' ∷ t)
    × ((t : Text) → s ≢ t ++ b'-' ∷ [])

is_alnum_iff : (c : ℕ) → (is_alnum c ≡ true) ↔ IsAlnum c
unfolding is_alnum
is_alnum_iff c = ground arith

is_label_char_iff : (c : ℕ) → (is_label_char c ≡ true) ↔ (IsAlnum c ⊎ (c ≡ b'-'))
unfolding is_label_char
is_label_char_iff c = ground arith

label_chars_iff : (s : Text) → (all is_label_char s ≡ true) ↔ All (λ c. IsAlnum c ⊎ (c ≡ b'-')) s
unfolding all
label_chars_iff [] = ground arith
label_chars_iff (c ∷ s) = ground (arith, is_label_char_iff c, label_chars_iff s)

last_alnum_sound : (c : ℕ) (s t : Text) → last_alnum c s ≡ true → c ∷ s ≢ t ++ b'-' ∷ []
unfolding last_alnum
last_alnum_sound c [] [] h = ground (arith, is_alnum_iff c)
last_alnum_sound c [] (e ∷ []) h = ground arith
last_alnum_sound c [] (e ∷ d ∷ t) h = ground arith
last_alnum_sound c (d ∷ s) [] h = ground arith
last_alnum_sound c (d ∷ s) (e ∷ t) h = ground (arith, last_alnum_sound d s t)

last_alnum_complete :
    (c : ℕ) (s : Text)
    → all is_label_char (c ∷ s) ≡ true
    → ((t : Text) → c ∷ s ≢ t ++ b'-' ∷ [])
    → last_alnum c s ≡ true
unfolding last_alnum all
last_alnum_complete c [] h k = ground (arith, is_alnum_iff c, is_label_char_iff c, k [])
last_alnum_complete c (d ∷ s) h k =
    last_alnum_complete d s (ground arith) (λ t e. k (c ∷ t) (ap (λ (l : Text). c ∷ l) e))

-- The regular expression up to the end of the text accepts the app names alone.
match_name_sound : (s : Text) → match_name s ≡ true → IsAppName s
unfolding match_name match_rest
match_name_sound [] h = cc
match_name_sound (c ∷ []) h = (
  ground arith,
  ground (arith, is_alnum_iff c),
  λ t. ground (arith, is_alnum_iff c),
  λ t. last_alnum_sound c [] t (unfold last_alnum in ground arith),
)
match_name_sound (c ∷ d ∷ s) h = (
  ground arith,
  ground (arith, is_alnum_iff c, label_chars_iff (d ∷ s)),
  λ t. ground (arith, is_alnum_iff c),
  λ t. last_alnum_sound c (d ∷ s) t (unfold last_alnum in ground arith),
)

match_name_complete : (s : Text) → IsAppName s → match_name s ≡ true
unfolding match_name match_rest
match_name_complete [] h = absurd (h.0 refl)
match_name_complete (c ∷ []) (_, (label, _), first, _) = ground (arith, is_alnum_iff c, first [])
match_name_complete (c ∷ d ∷ s) (_, (label, labels), first, last) =
    let rest = last_alnum_complete c (d ∷ s) (chars (label, labels)) last in
    ground (arith, is_alnum_iff c, first (d ∷ s), label_chars_iff (d ∷ s), step rest)
  where
    chars : All (λ c. IsAlnum c ⊎ (c ≡ b'-')) (c ∷ d ∷ s) → all is_label_char (c ∷ d ∷ s) ≡ true
    chars = (label_chars_iff (c ∷ d ∷ s)).1

    step : last_alnum c (d ∷ s) ≡ true → last_alnum d s ≡ true
    step e = unfold last_alnum in e

-- `is_valid_app_name` accepts a text exactly if it is an app name, or an app name with one newline
-- behind it.
pub is_valid_app_name_iff :
    (s : Text)
    → (is_valid_app_name s ≡ true) ↔ (IsAppName s ⊎ ((t : Text) × (s ≡ t ++ 10 ∷ []) × IsAppName t))
unfolding is_valid_app_name
is_valid_app_name_iff =
    at_dollar_iff IsAppName match_name (λ s. (match_name_sound s, match_name_complete s))
