-- ===== src/Manifest/PortsPrinted.antt =====
-- Valid port mappings, written as tables, are read back as they are.
use aerosol.Prelude.{
  ℕ, list_eq, nat_eq, ◌==◌, eq_iff, ◌≡◌, refl, sym, ◌≢◌, ◌⊎◌, inl, inr, some, List, [], ◌∷◌, arith,
  Elem, Distinct, elem-map, contains_iff, Text, codes, Bool-cases, list_beq,
}
use aerosol.Ports.{PortMapping}
use aerosol.Manifest.{
  pos, str, int, table, Values, no_values, value, Entries, no_entries, entry, get, ok, as_name,
}
use aerosol.Manifest.Ports.{
  Seen, check_label, check_container_port, check_host_port, parse_port, see, parse_entries,
  nothing_seen, parse_ports,
}
use aerosol.Manifest.PortsValid.{IsNew, AllNew, IsValidPorts, fixed_ports_of}

abbrev pub port_fields : PortMapping → Entries
port_fields pm = entry (codes "label") (str pm.label) (
    entry (codes "container_port") (int (pos pm.container_port))
      (entry (codes "host_port") (int (pos pm.host_port)) no_entries))

abbrev pub print_ports : List PortMapping → Values
print_ports [] = no_values
print_ports (pm ∷ rest) = value (table (port_fields pm)) (print_ports rest)

get-label : (pm : PortMapping) → get (codes "label") (port_fields pm) ≡ some (str pm.label)
unfolding get list_beq
get-label pm = refl

get-container_port :
    (pm : PortMapping)
    → get (codes "container_port") (port_fields pm) ≡ some (int (pos pm.container_port))
unfolding get list_beq
get-container_port pm = refl

get-host_port :
    (pm : PortMapping) → get (codes "host_port") (port_fields pm) ≡ some (int (pos pm.host_port))
unfolding get list_beq
get-host_port pm = refl

as_name-str : (t : Text) → t ≢ [] → as_name (some (str t)) ≡ some t
as_name-str [] named = absurd (named refl)
as_name-str (c ∷ t) named = refl

check_label-printed :
    (seen : Seen) (pm : PortMapping)
    → IsNew seen pm
    → check_label seen (port_fields pm) ≡ ok pm.label
unfolding check_label
check_label-printed seen pm new = rw (get-label pm) (
    rw (as_name-str pm.label new.named)
      (ground (arith, new.label, contains_iff pm.label seen.labels)))

check_container_port-printed :
    (seen : Seen) (pm : PortMapping)
    → IsNew seen pm
    → check_container_port seen pm.label (port_fields pm) ≡ ok pm.container_port
unfolding check_container_port
check_container_port-printed seen pm new =
    rw (get-container_port pm)
      (ground (arith, new.container_port, contains_iff pm.container_port seen.container_ports))

check_host_port-printed :
    (seen : Seen) (pm : PortMapping)
    → IsNew seen pm
    → check_host_port seen pm.label (port_fields pm) ≡ ok pm.host_port
unfolding check_host_port
check_host_port-printed seen pm new = rw (get-host_port pm) (
    ground (arith, new.host_port, eq_iff pm.host_port 0, contains_iff pm.host_port seen.host_ports))

parse_port-printed :
    (seen : Seen) (pm : PortMapping)
    → IsNew seen pm
    → parse_port seen (table (port_fields pm)) ≡ ok pm
unfolding parse_port
parse_port-printed seen pm new =
    rw (check_label-printed seen pm new) (
      rw (check_container_port-printed seen pm new) (rw (check_host_port-printed seen pm new) refl))

parse_entries-printed :
    (seen : Seen) (pms : List PortMapping)
    → AllNew seen pms
    → parse_entries seen (print_ports pms) ≡ ok pms
unfolding parse_entries
parse_entries-printed seen [] n = refl
parse_entries-printed seen (pm ∷ rest) (new, n) =
    rw (parse_port-printed seen pm new) (rw (parse_entries-printed (see seen pm) rest n) refl)

-- What the loop has met has nothing in common with the mappings.
record IsApart (seen : Seen) (pms : List PortMapping) : Type 0 where
  label : (pm : PortMapping) → Elem pm pms → ¬ Elem pm.label seen.labels
  container_port : (pm : PortMapping) → Elem pm pms → ¬ Elem pm.container_port seen.container_ports
  host_port : (p : ℕ) → Elem p (fixed_ports_of pms) → ¬ Elem p seen.host_ports

IsValidPorts-AllNew :
    (seen : Seen) (pms : List PortMapping) → IsValidPorts pms → IsApart seen pms → AllNew seen pms
unfolding fixed_ports_of
IsValidPorts-AllNew seen [] valid apart = tt
IsValidPorts-AllNew seen (pm ∷ rest) valid apart = (
  record {
    named = valid.named.0;
    label = apart.label pm (inl refl);
    container_port = apart.container_port pm (inl refl);
    host_port = elim valid.above_floor.0 [
      | inl auto ↦ inl auto
      | inr above ↦
          inr (above, apart.host_port pm.host_port (ground (arith, eq_iff pm.host_port 0)))
    ];
  },
  IsValidPorts-AllNew (see seen pm) rest
      (record {
        named = valid.named.1;
        labels = valid.labels.1;
        container_ports = valid.container_ports.1;
        host_ports = ground (arith, valid.host_ports);
        above_floor = valid.above_floor.1;
      })
      (record {
        label = λ q m x. elim x [
          | inl e ↦
              valid.labels.0 (rw (sym e) at (elem-map (λ (y : PortMapping). y.label) q rest m))
          | inr old ↦ apart.label q (inr m) old
        ];
        container_port = λ q m x. elim x [
          | inl e ↦
              valid.container_ports.0
                (rw (sym e) at (elem-map (λ (y : PortMapping). y.container_port) q rest m))
          | inr old ↦ apart.container_port q (inr m) old
        ];
        host_port = λ p m x. host_port p m x;
      }),
)
  where
    host_port : (p : ℕ) → Elem p (fixed_ports_of rest) → ¬ Elem p (see seen pm).host_ports
    host_port p m x = elim (Bool-cases (pm.host_port == 0)) [
      | inl auto ↦ apart.host_port p (rw auto m) (rw auto at x)
      | inr fixed ↦
          let d : (¬ Elem pm.host_port (fixed_ports_of rest)) × Distinct (fixed_ports_of rest) =
            rw fixed at valid.host_ports in
          let met : (pm.host_port ≡ p) ⊎ Elem p seen.host_ports = rw fixed at x in
          elim met [ inl e ↦ d.0 (rw e m) | inr old ↦ apart.host_port p (rw fixed (inr m)) old ]
    ]

-- `_parse_ports` accepts every valid list of port mappings, written as tables, and gives it back.
pub parse_ports-print_ports :
    (pms : List PortMapping) → IsValidPorts pms → parse_ports (print_ports pms) ≡ ok pms
unfolding parse_ports
parse_ports-print_ports pms valid = parse_entries-printed nothing_seen pms (
    IsValidPorts-AllNew nothing_seen pms valid
      (record { label = λ pm m x. x; container_port = λ pm m x. x; host_port = λ p m x. x }))
