-- ===== src/Manifest/Allowlists.antt =====
-- `_validate_capabilities`, `_validate_devices` and `_parse_links` of core/manifest.py.
use aerosol.Prelude.{
  list_eq, nat_eq, ◌+◌, if◌then◌else◌, Option, none, some, List, [], ◌∷◌, ◌++◌, map, contains, Text,
  codes, upper, strip, before, starts_with,
}
use aerosol.Manifest.{
  Value, str, array, table, Values, no_values, value, ManifestError, not_a_list, not_a_table,
  not_a_string, not_allowed, bad_link_name, bad_link_path, get, as_name, Outcome, ok, err, ◌>>=◌,
}

abbrev pub safe_capabilities : List Text
safe_capabilities =
    codes "NET_ADMIN"
    ∷ codes "NET_RAW"
    ∷ codes "NET_BIND_SERVICE"
    ∷ codes "NET_BROADCAST"
    ∷ codes "CHOWN"
    ∷ codes "DAC_OVERRIDE"
    ∷ codes "DAC_READ_SEARCH"
    ∷ codes "FOWNER"
    ∷ codes "FSETID"
    ∷ codes "SETFCAP"
    ∷ codes "KILL"
    ∷ codes "SETUID"
    ∷ codes "SETGID"
    ∷ codes "SETPCAP"
    ∷ codes "MKNOD"
    ∷ codes "AUDIT_WRITE"
    ∷ codes "IPC_LOCK"
    ∷ codes "IPC_OWNER"
    ∷ codes "SYS_CHROOT"
    ∷ []

-- `f"{family}{i}" for i in range(8)`
abbrev pub first_slots : Text → List Text
first_slots family = map (λ i. family ++ (b'0' + i) ∷ []) (0 ∷ 1 ∷ 2 ∷ 3 ∷ 4 ∷ 5 ∷ 6 ∷ 7 ∷ [])

abbrev pub safe_device_paths : List Text
safe_device_paths =
    codes "/dev/net/tun"
    ∷ codes "/dev/fuse"
    ∷ (first_slots (codes "/dev/ttyS")
        ++ (first_slots (codes "/dev/ttyUSB") ++ first_slots (codes "/dev/ttyACM")))

-- The loop of both validators: every entry is a string that passes, and gives a text.
unfoldable pub each_string :
    (Text → Outcome ManifestError Text) → Values → Outcome ManifestError (List Text)
each_string check no_values = ok []
each_string check (value (str t) rest) =
    check t >>= λ first. each_string check rest >>= λ more. ok (first ∷ more)
each_string check (value _ rest) = err not_a_string

abbrev pub drop_four : Text → Text
drop_four (a ∷ b ∷ c ∷ d ∷ t) = t
drop_four _ = []

-- `entry.strip().upper()` without `CAP_` in front.
unfoldable pub bare_name : Text → Text
bare_name t =
    let name = upper (strip t) in if starts_with name (codes "CAP_") then drop_four name else name

unfoldable pub check_capability : Text → Outcome ManifestError Text
unfolding bare_name
check_capability t =
    if contains (bare_name t) safe_capabilities then ok (bare_name t) else err (not_allowed t)

unfoldable pub validate_capabilities : Value → Outcome ManifestError (List Text)
unfolding each_string check_capability
validate_capabilities (array caps) = each_string check_capability caps
validate_capabilities _ = err not_a_list

-- `entry.split(":", 1)[0].strip()`
unfoldable pub host_path : Text → Text
host_path t = strip (before b':' t)

unfoldable pub check_device : Text → Outcome ManifestError Text
unfolding host_path
check_device t = if contains (host_path t) safe_device_paths then ok t else err (not_allowed t)

unfoldable pub validate_devices : Value → Outcome ManifestError (List Text)
unfolding each_string check_device
validate_devices (array devices) = each_string check_device devices
validate_devices _ = err not_a_list

pub record AppLink : Type 0 where
  pub name : Text
  pub path : Text

abbrev pub link_path : Text → Option Text → Outcome ManifestError AppLink
link_path name none = err (bad_link_path name)
link_path name (some path) = ok (record { name = name; path = path })

abbrev pub link_from : Option Text → Option Text → Outcome ManifestError AppLink
link_from none path = err bad_link_name
link_from (some name) path = link_path name path

unfoldable pub parse_link : Value → Outcome ManifestError AppLink
unfolding get
parse_link (table e) = link_from (as_name (get (codes "name") e)) (as_name (get (codes "path") e))
parse_link _ = err not_a_table

unfoldable pub each_link : Values → Outcome ManifestError (List AppLink)
unfolding parse_link
each_link no_values = ok []
each_link (value v rest) = parse_link v >>= λ link. each_link rest >>= λ more. ok (link ∷ more)

unfoldable pub parse_links : Value → Outcome ManifestError (List AppLink)
unfolding each_link
parse_links (array links) = each_link links
parse_links _ = err not_a_list
