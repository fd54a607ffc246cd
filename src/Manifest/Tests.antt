-- ===== src/Manifest/Tests.antt =====
-- Two port mappings, and lists of capabilities and devices.
use aerosol.Prelude.{ℕ, ◌≡◌, refl, List, [], ◌∷◌, nat_eq, list_eq, length, Text, codes, evaluation}
use aerosol.Ports.{PortMapping}
use aerosol.Manifest.{Value, str, array, no_values, value, get, ok, err, below_floor}
use aerosol.Manifest.Ports.{
  check_label, check_container_port, check_host_port, parse_port, parse_entries, parse_ports,
}
use aerosol.Manifest.PortsValid.{IsValidPorts, count_values, parse_ports-IsValidPorts}
use aerosol.Manifest.PortsPrinted.{print_ports, parse_ports-print_ports}
use aerosol.Manifest.Allowlists.{
  each_string, bare_name, check_capability, validate_capabilities, host_path, check_device,
  validate_devices, parse_link, each_link, parse_links,
}
use aerosol.Manifest.Safe.{strs}

-- What the tests compute with.
model : Unit {0}
unfolding get check_label check_container_port check_host_port parse_port parse_entries parse_ports
    each_string bare_name check_capability validate_capabilities host_path check_device
    validate_devices parse_link each_link parse_links evaluation
model = tt

abbrev mapping : Text → ℕ → ℕ → PortMapping
mapping label container_port host_port = record {
  label = label;
  container_port = container_port;
  host_port = host_port;
}

abbrev two : List PortMapping
two = mapping (codes "ssh") 22 2222 ∷ mapping (codes "web") 80 0 ∷ []

reads : parse_ports (print_ports two) ≡ ok two
unfolding model
reads = refl

too_low :
    parse_ports (print_ports (mapping (codes "dns") 53 24 ∷ []))
    ≡ err (below_floor (codes "dns") 24)
unfolding model
too_low = refl

parse_ports-IsValidPorts_example : IsValidPorts two × (length two ≡ count_values (print_ports two))
parse_ports-IsValidPorts_example = parse_ports-IsValidPorts (print_ports two) two reads

parse_ports-print_ports_example : parse_ports (print_ports two) ≡ ok two
parse_ports-print_ports_example = parse_ports-print_ports two parse_ports-IsValidPorts_example.0

abbrev caps : Value
caps = array (value (str (codes " cap_net_admin ")) (value (str (codes "KILL")) no_values))

abbrev names : List Text
names = codes "NET_ADMIN" ∷ codes "KILL" ∷ []

caps_pass : validate_capabilities caps ≡ ok names
unfolding model
caps_pass = refl

abbrev devices : List Text
devices = codes "/dev/ttyUSB7:/dev/tty0:rw" ∷ codes "/dev/fuse" ∷ []

devices_pass : validate_devices (array (strs devices)) ≡ ok devices
unfolding model
devices_pass = refl
