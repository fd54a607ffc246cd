-- ===== src/Manifest/Ports.antt =====
-- `_parse_ports` of core/manifest.py.
use aerosol.Prelude.{
  ℕ, list_eq, nat_eq, ◌==◌, ltb, if◌then◌else◌, Option, none, some, List, [], ◌∷◌, contains, Text,
  codes,
}
use aerosol.Ports.{PortMapping}
use aerosol.Manifest.{
  Value, Values, no_values, value, Entries, table, ManifestError, not_a_table, missing_label,
  duplicate_label, bad_container_port, duplicate_container_port, bad_host_port, below_floor,
  duplicate_host_port, get, as_natural, as_name, Outcome, ok, err, ◌>>=◌,
}

abbrev pub unprivileged_port_floor : ℕ
unprivileged_port_floor = 25

-- What the loop has met so far.
pub record Seen : Type 0 where
  pub labels : List Text
  pub container_ports : List ℕ
  pub host_ports : List ℕ

abbrev pub required : ManifestError → Option Text → Outcome ManifestError Text
required e none = err e
required e (some t) = ok t

unfoldable pub check_label : Seen → Entries → Outcome ManifestError Text
unfolding get
check_label seen e = required missing_label (as_name (get (codes "label") e)) >>= λ label.
    if contains label seen.labels then err (duplicate_label label) else ok label

abbrev pub natural_or : ManifestError → Option Value → Outcome ManifestError ℕ
natural_or e none = err e
natural_or e (some v) = elim (as_natural v) [ none ↦ err e | some n ↦ ok n ]

unfoldable pub check_container_port : Seen → Text → Entries → Outcome ManifestError ℕ
unfolding get
check_container_port seen label e =
    natural_or (bad_container_port label) (get (codes "container_port") e) >>= λ cport.
    if contains cport seen.container_ports then err (duplicate_container_port cport) else ok cport

-- `entry.get("host_port", 0)`
abbrev pub host_port_or_zero : Text → Option Value → Outcome ManifestError ℕ
host_port_or_zero label none = ok 0
host_port_or_zero label (some v) = natural_or (bad_host_port label) (some v)

unfoldable pub check_host_port : Seen → Text → Entries → Outcome ManifestError ℕ
unfolding get
check_host_port seen label e = host_port_or_zero label (get (codes "host_port") e) >>= λ hport.
    if hport == 0
    then ok hport
    else if ltb hport unprivileged_port_floor
    then err (below_floor label hport)
    else if contains hport seen.host_ports
    then err (duplicate_host_port hport)
    else ok hport

-- One round of the loop: the mapping of the entry.
unfoldable pub parse_port : Seen → Value → Outcome ManifestError PortMapping
unfolding check_label check_container_port check_host_port
parse_port seen (table e) = check_label seen e >>= λ label.
    check_container_port seen label e >>= λ cport. check_host_port seen label e >>= λ hport.
    ok (record { label = label; container_port = cport; host_port = hport })
parse_port seen _ = err not_a_table

abbrev pub see : Seen → PortMapping → Seen
see seen pm = record {
  labels = pm.label ∷ seen.labels;
  container_ports = pm.container_port ∷ seen.container_ports;
  host_ports = if pm.host_port == 0 then seen.host_ports else pm.host_port ∷ seen.host_ports;
}

unfoldable pub parse_entries : Seen → Values → Outcome ManifestError (List PortMapping)
unfolding parse_port
parse_entries seen no_values = ok []
parse_entries seen (value v rest) =
    parse_port seen v >>= λ pm. parse_entries (see seen pm) rest >>= λ more. ok (pm ∷ more)

abbrev pub nothing_seen : Seen
nothing_seen = record { labels = []; container_ports = []; host_ports = [] }

unfoldable pub parse_ports : Values → Outcome ManifestError (List PortMapping)
unfolding parse_entries
parse_ports entries = parse_entries nothing_seen entries
