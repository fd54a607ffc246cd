-- ===== src/Ports/Tests.antt =====
-- Two installed apps, and the theorems on them.
use aerosol.Prelude.{
  ℕ, ◌≤◌, ◌≡◌, refl, ◌↔◌, true, none, [], ◌∷◌, inl, inr, nat_eq, ◌==◌, not, arith, Text, codes,
  evaluation,
}
use aerosol.Db.{Db}
use aerosol.Domains.Tests.{wiki, space}
use aerosol.Ports.{
  Host, PortMapping, ok, err, no_free_port, allocate_port, check_port_available,
  resolve_port_mappings, port_range, first_pass, second_pass, find_free_host_port, other_mappings,
  first_free, range_from, port_is_bindable,
}
use aerosol.Ports.Free.{IsFree, IsConsistent, check_port_available_iff}
use aerosol.Ports.Search.{IsLowestFree, allocate_port_lowest}
use aerosol.Ports.Resolve.{IsResolved, resolve_port_mappings-IsResolved}
use aerosol.Ports.Install.{install_ports, apply_overrides, install_ports_collide}

-- What the tests compute with.
model : Unit {0}
unfolding allocate_port check_port_available resolve_port_mappings port_range first_pass second_pass
    find_free_host_port other_mappings first_free range_from port_is_bindable install_ports
    apply_overrides evaluation
model = tt

-- Port 9001 is taken by another program.
abbrev machine : Host
machine = record { tcp_bindable = λ p. not (p == 9001); udp_bindable = λ p. true; shuffle = λ l. l }

abbrev installed : Db
installed = record space {
  app_port_mappings =
      record { app_id = wiki.app_id; label = codes "ssh"; container_port = 22; host_port = 9002 }
      ∷ [];
}

abbrev mapping : Text → ℕ → PortMapping
mapping label host_port = record { label = label; container_port = 80; host_port = host_port }

consistent : IsConsistent installed
consistent = record {
  distinct = ((λ m. m), tt);
  linked = λ m listed. elim listed [ inl e ↦ (wiki, inl refl, ground arith) | inr z ↦ absurd z ];
}

lowest : allocate_port machine installed 9000 9999 ≡ ok 9003
unfolding model
lowest = refl

resolves :
    resolve_port_mappings machine installed 9000 9999 none
      (mapping (codes "a") 0 ∷ mapping (codes "b") 9003 ∷ [])
    ≡ ok (mapping (codes "b") 9003 ∷ mapping (codes "a") 9004 ∷ [])
unfolding model
resolves = refl

available : check_port_available machine installed 9003 none ≡ none
unfolding model
available = refl

check_port_available_iff_example :
    (check_port_available machine installed 9003 none ≡ none) ↔ IsFree machine installed none 9003
check_port_available_iff_example =
    check_port_available_iff machine installed 9003 none consistent (λ e. cc)

allocate_port_lowest_example :
    ((port : ℕ)
      → allocate_port machine installed 9000 9999 ≡ ok port
      → IsLowestFree machine installed 9000 9999 port)
    × ((allocate_port machine installed 9000 9999 ≡ err (no_free_port 9000 9999))
        ↔ ((q : ℕ) → 9000 ≤ q → q ≤ 9999 → ¬ IsFree machine installed none q))
allocate_port_lowest_example = allocate_port_lowest machine installed 9000 9999

resolve_port_mappings-IsResolved_example :
    IsResolved machine installed none 9000 9999
      (mapping (codes "a") 0 ∷ mapping (codes "b") 9003 ∷ [])
      (mapping (codes "b") 9003 ∷ mapping (codes "a") 9004 ∷ [])
resolve_port_mappings-IsResolved_example =
    resolve_port_mappings-IsResolved machine installed none 9000 9999
      (mapping (codes "a") 0 ∷ mapping (codes "b") 9003 ∷ [])
      (mapping (codes "b") 9003 ∷ mapping (codes "a") 9004 ∷ []) (λ l p m. m) consistent (λ e. cc)
      resolves

free : IsFree machine installed none 9003
free = (check_port_available_iff machine installed 9003 none consistent (λ e. cc)).0 available

install_ports_collide_example :
    install_ports machine installed 9000 9999 [] (mapping (codes "b") 9003 ∷ [])
    ≡ ok (record { local_port = 9003; resolved_mappings = mapping (codes "b") 9003 ∷ [] })
install_ports_collide_example =
    install_ports_collide machine installed 9000 9999 9003 80 (codes "b") consistent (λ e. cc)
      lowest
