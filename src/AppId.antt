-- ===== src/AppId.antt =====
-- compute_space/src/compute_space/core/app_id.py: app identities and app names.
pub mod Names
pub mod Base58
pub mod Tests
use Prim.Native.Nat.{ℕ, zero, suc, ◌+◌, ◌/◌, ◌%◌}
use mathlib.Core.Bool.{Bool, true, false, ◌&&◌, ◌||◌}
use mathlib.Core.List.{List, [], ◌∷◌, ◌++◌, reverse}
use aerosol.Prelude.{
  nat_eq, list_eq, ◌==◌, leb, if◌then◌else◌, length, all, contains, Text, codes, at_dollar,
}

-- [a-z0-9]
is_alnum : ℕ → Bool
is_alnum c = (leb b'a' c && leb c b'z') || (leb b'0' c && leb c b'9')

-- [a-z0-9-]
is_label_char : ℕ → Bool
unfolding is_alnum
is_label_char c = is_alnum c || c == b'-'

-- The character that stands last is in [a-z0-9].
last_alnum : ℕ → Text → Bool
last_alnum c [] = is_alnum c
last_alnum c (d ∷ s) = last_alnum d s

-- ([a-z0-9-]*[a-z0-9])? up to the end of the text.
match_rest : Text → Bool
match_rest [] = true
match_rest (c ∷ s) = all is_label_char (c ∷ s) && last_alnum c s

-- [a-z0-9]([a-z0-9-]*[a-z0-9])? up to the end of the text.
match_name : Text → Bool
match_name [] = false
match_name (c ∷ s) = is_alnum c && match_rest s

unfoldable pub is_valid_app_name : Text → Bool
unfolding at_dollar match_name match_rest last_alnum is_label_char
is_valid_app_name s = at_dollar match_name s

abbrev pub app_id_length : ℕ
app_id_length = 12

abbrev pub base58_alphabet : Text
base58_alphabet = codes "123456789ABCDEFGHJKLMNPQRSTUVWXYZabcdefghijkmnopqrstuvwxyz"

abbrev pub router_app_id : Text
router_app_id = codes "_openhost_router"

abbrev pub router_app_name : Text
router_app_name = codes "OpenHost Router"

-- `_BASE58_ALPHABET[i]`; the index is a remainder by 58, so it is never out of range.
char_at : ℕ → Text → ℕ
char_at i [] = 0
char_at zero (c ∷ s) = c
char_at (suc i) (c ∷ s) = char_at i s

-- The loop of `_encode_base58_padded`: the characters that `k` more rounds append.
base58_chars : ℕ → ℕ → Text
unfolding char_at
base58_chars zero n = []
base58_chars (suc k) n = char_at (n % 58) base58_alphabet ∷ base58_chars k (n / 58)

unfoldable pub encode_base58_padded : ℕ → Text
unfolding base58_chars
encode_base58_padded n = reverse (base58_chars app_id_length n)

-- `new_app_id`, over the number that the nine random bytes stand for.
unfoldable pub new_app_id : ℕ → Text
unfolding encode_base58_padded
new_app_id n = encode_base58_padded n

unfoldable pub is_valid_app_id : Text → Bool
is_valid_app_id s = length s == app_id_length && all (λ c. contains c base58_alphabet) s
