-- ===== src/Manifest/Safe.antt =====
-- What the validators of capabilities and devices let pass.
use mathlib.Core.Path.{subst}
use aerosol.Prelude.{
  list_eq, nat_eq, ◌==◌, eq_iff, ◌≡◌, refl, ap, ◌∙◌, true, List, [], ◌∷◌, arith, Elem, All,
  All-elem, all, all_iff, contains, contains_iff, Text, evaluation,
}
use aerosol.Prelude.Outcome.{both_answer, answer_same, no_answer}
use aerosol.Manifest.{
  Value, str, int, float, bool, array, table, Values, no_values, value, ManifestError, Outcome, ok,
}
use aerosol.Manifest.Allowlists.{
  safe_capabilities, safe_device_paths, each_string, bare_name, check_capability,
  validate_capabilities, host_path, check_device, validate_devices,
}

-- The strings, each with what the check gives for it.
abbrev pub Checked : (Text → Outcome ManifestError Text) → Values → List Text → Type 0
Checked check no_values [] = Unit
Checked check (value (str t) rest) (r ∷ more) = (check t ≡ ok r) × Checked check rest more
Checked check _ _ = ⊥

each_string-Checked :
    (check : Text → Outcome ManifestError Text) (vs : Values) (result : List Text)
    → each_string check vs ≡ ok result
    → Checked check vs result
unfolding each_string
each_string-Checked check no_values result h = rw (answer_same h) tt
each_string-Checked check (value (str t) rest) result h =
    let (first, checked, h₁) = both_answer (check t) _ h in
    let (more, later, h₂) = both_answer (each_string check rest) _ h₁ in
    rw (answer_same h₂) (checked, each_string-Checked check rest more later)
each_string-Checked check (value (int z) rest) result h = absurd (no_answer h)
each_string-Checked check (value (float z) rest) result h = absurd (no_answer h)
each_string-Checked check (value (bool z) rest) result h = absurd (no_answer h)
each_string-Checked check (value (array z) rest) result h = absurd (no_answer h)
each_string-Checked check (value (table z) rest) result h = absurd (no_answer h)

-- A list of texts as a value.
abbrev pub strs : List Text → Values
strs [] = no_values
strs (t ∷ ts) = value (str t) (strs ts)

-- Whatever has passed passes again, if the check gives a text that it lets pass unchanged.
each_string-again :
    (check : Text → Outcome ManifestError Text) (vs : Values) (result : List Text)
    → ((t r : Text) → check t ≡ ok r → check r ≡ ok r)
    → Checked check vs result
    → each_string check (strs result) ≡ ok result
unfolding each_string
each_string-again check no_values [] stable c = refl
each_string-again check no_values (r ∷ more) stable c = absurd c
each_string-again check (value (str t) rest) [] stable c = absurd c
each_string-again check (value (str t) rest) (r ∷ more) stable (now, later) =
    rw (stable t r now) (rw (each_string-again check rest more stable later) refl)
each_string-again check (value (int z) rest) result stable c = absurd c
each_string-again check (value (float z) rest) result stable c = absurd c
each_string-again check (value (bool z) rest) result stable c = absurd c
each_string-again check (value (array z) rest) result stable c = absurd c
each_string-again check (value (table z) rest) result stable c = absurd c

-- The names of the allowlist are bare.
safe_are_bare : all (λ c. bare_name c == c) safe_capabilities ≡ true
unfolding bare_name evaluation
safe_are_bare = refl

check_capability_ok :
    (t r : Text)
    → check_capability t ≡ ok r
    → Elem r safe_capabilities × (check_capability r ≡ ok r)
unfolding check_capability
check_capability_ok t r h =
    let (tested, same) : (contains (bare_name t) safe_capabilities ≡ true) × (bare_name t ≡ r) =
      ground (arith, h) in
    let safe : Elem r safe_capabilities =
      subst (λ x. Elem x safe_capabilities) same
        ((contains_iff (bare_name t) safe_capabilities).0 tested) in
    let bare : bare_name r ≡ r = (eq_iff (bare_name r) r).0 (
      All-elem (λ c. (bare_name c == c) ≡ true) r safe_capabilities
        ((all_iff (λ c. bare_name c == c) safe_capabilities).0 safe_are_bare) safe) in
    (safe, rw bare (rw ((contains_iff r safe_capabilities).1 safe) refl))

Checked-All :
    (check : Text → Outcome ManifestError Text) (P : Text → Type 0) (vs : Values)
    (result : List Text)
    → ((t r : Text) → check t ≡ ok r → P r)
    → Checked check vs result
    → All P result
Checked-All check P no_values [] holds c = tt
Checked-All check P no_values (r ∷ more) holds c = absurd c
Checked-All check P (value (str t) rest) [] holds c = absurd c
Checked-All check P (value (str t) rest) (r ∷ more) holds (now, later) =
    (holds t r now, Checked-All check P rest more holds later)
Checked-All check P (value (int z) rest) result holds c = absurd c
Checked-All check P (value (float z) rest) result holds c = absurd c
Checked-All check P (value (bool z) rest) result holds c = absurd c
Checked-All check P (value (array z) rest) result holds c = absurd c
Checked-All check P (value (table z) rest) result holds c = absurd c

-- Only capabilities of the allowlist are granted, by their bare names; and the list of those, validated
-- again, is the same.
pub validate_capabilities_sound :
    (v : Value) (result : List Text)
    → validate_capabilities v ≡ ok result
    → All (λ c. Elem c safe_capabilities) result
      × (validate_capabilities (array (strs result)) ≡ ok result)
unfolding validate_capabilities
validate_capabilities_sound (array vs) result h =
    let checked = each_string-Checked check_capability vs result h in
    (
      Checked-All check_capability (λ c. Elem c safe_capabilities) vs result
          (λ t r e. (check_capability_ok t r e).0) checked,
      each_string-again check_capability vs result (λ t r e. (check_capability_ok t r e).1) checked,
    )
validate_capabilities_sound (str t) result h = absurd (no_answer h)
validate_capabilities_sound (int t) result h = absurd (no_answer h)
validate_capabilities_sound (float t) result h = absurd (no_answer h)
validate_capabilities_sound (bool t) result h = absurd (no_answer h)
validate_capabilities_sound (table t) result h = absurd (no_answer h)

check_device_ok :
    (t r : Text) → check_device t ≡ ok r → (t ≡ r) × Elem (host_path r) safe_device_paths
unfolding check_device
check_device_ok t r h =
    let (tested, same) : (contains (host_path t) safe_device_paths ≡ true) × (t ≡ r) =
      ground (arith, h) in
    (
      same,
      subst (λ x. Elem (host_path x) safe_device_paths) same
          ((contains_iff (host_path t) safe_device_paths).0 tested),
    )

Checked-strs :
    (check : Text → Outcome ManifestError Text) (vs : Values) (result : List Text)
    → ((t r : Text) → check t ≡ ok r → t ≡ r)
    → Checked check vs result
    → vs ≡ strs result
Checked-strs check no_values [] keeps c = refl
Checked-strs check no_values (r ∷ more) keeps c = absurd c
Checked-strs check (value (str t) rest) [] keeps c = absurd c
Checked-strs check (value (str t) rest) (r ∷ more) keeps (now, later) =
    ap (λ x. value (str x) rest) (keeps t r now)
    ∙ ap (value (str r)) (Checked-strs check rest more keeps later)
Checked-strs check (value (int z) rest) result keeps c = absurd c
Checked-strs check (value (float z) rest) result keeps c = absurd c
Checked-strs check (value (bool z) rest) result keeps c = absurd c
Checked-strs check (value (array z) rest) result keeps c = absurd c
Checked-strs check (value (table z) rest) result keeps c = absurd c

-- Only devices whose host path is in the allowlist are accepted, and they are kept as they are written.
pub validate_devices_sound :
    (v : Value) (result : List Text)
    → validate_devices v ≡ ok result
    → All (λ d. Elem (host_path d) safe_device_paths) result × (v ≡ array (strs result))
unfolding validate_devices
validate_devices_sound (array vs) result h =
    let checked = each_string-Checked check_device vs result h in
    (
      Checked-All check_device (λ d. Elem (host_path d) safe_device_paths) vs result
          (λ t r e. (check_device_ok t r e).1) checked,
      ap array (Checked-strs check_device vs result (λ t r e. (check_device_ok t r e).0) checked),
    )
validate_devices_sound (str t) result h = absurd (no_answer h)
validate_devices_sound (int t) result h = absurd (no_answer h)
validate_devices_sound (float t) result h = absurd (no_answer h)
validate_devices_sound (bool t) result h = absurd (no_answer h)
validate_devices_sound (table t) result h = absurd (no_answer h)
