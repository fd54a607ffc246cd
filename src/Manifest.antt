-- ===== src/Manifest.antt =====
-- compute_space/src/compute_space/core/manifest.py: the values that an app manifest consists of,
-- and what is wrong with one. `tomllib` reads the text; a value is what it gives.
pub mod Ports
pub mod Allowlists
pub mod Safe
pub mod PortsValid
pub mod PortsPrinted
pub mod Tests
use aerosol.Prelude.{
  ℕ, suc, list_eq, nat_eq, ◌==◌, if◌then◌else◌, Bool, true, false, Option, none, some, List, [],
  ◌∷◌, Text, is_empty,
}
pub use aerosol.Prelude.Outcome.{Outcome, ok, err, ◌>>=◌}

-- Python's int.
pub data ℤ : Type 0 where
  pos : ℕ → ℤ
  negsuc : ℕ → ℤ

mutual
  pub data Value : Type 0 where
    str : Text → Value
    int : ℤ → Value
    float : Text → Value
    bool : Bool → Value
    array : Values → Value
    table : Entries → Value

  pub data Values : Type 0 where
    no_values : Values
    value : Value → Values → Values

  pub data Entries : Type 0 where
    no_entries : Entries
    entry : Text → Value → Entries → Entries

-- What ValueError says.
pub data ManifestError : Type 0 where
  not_a_list not_a_table not_a_string : ManifestError
  missing_label bad_link_name : ManifestError
  bad_link_path : Text → ManifestError
  duplicate_label : Text → ManifestError
  bad_container_port bad_host_port : Text → ManifestError
  duplicate_container_port duplicate_host_port : ℕ → ManifestError
  below_floor : Text → ℕ → ManifestError
  not_allowed : Text → ManifestError
  missing_field : Text → ManifestError
  bad_grant : ManifestError
  bad_shortname duplicate_shortname bad_specifier : Text → ManifestError

-- `entry.get(key)`
unfoldable pub get : Text → Entries → Option Value
get key no_entries = none
get key (entry k v rest) = let found = get key rest in if k == key then some v else found

-- The int that `isinstance(v, int)` lets pass: True and False are 1 and 0.
abbrev pub as_int : Value → Option ℤ
as_int (int z) = some z
as_int (bool true) = some (pos 1)
as_int (bool false) = some (pos 0)
as_int _ = none

-- An int that is not negative.
abbrev pub as_natural : Value → Option ℕ
as_natural (int (pos n)) = some n
as_natural (bool true) = some 1
as_natural (bool false) = some 0
as_natural _ = none

-- A string that is not empty.
abbrev pub as_name : Option Value → Option Text
as_name (some (str (c ∷ s))) = some (c ∷ s)
as_name _ = none
