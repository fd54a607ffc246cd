-- ===== src/Ports/Install.antt =====
-- The ports that `insert_and_deploy` (compute_space/src/compute_space/core/apps.py) takes for a
-- new app, before any row is written.
use aerosol.Prelude.{
  ℕ, nat_eq, list_eq, ◌==◌, ◌≡◌, refl, ap, ◌≢◌, none, some, List, [], ◌∷◌, map, Text, find?,
}
use aerosol.Db.{Db}
use aerosol.Ports.{Host, PortMapping, Result, ok, allocate_port, resolve_port_mappings, ◌>>=◌}
use aerosol.Ports.Free.{IsConsistent}
use aerosol.Ports.Search.{allocate_port_lowest}
use aerosol.Ports.Keep.{resolve_port_mappings_keep}

-- `port_overrides.get(pm.label, pm.host_port)`
overridden : List (Text × ℕ) → Text → ℕ → ℕ
overridden overrides label host_port = elim (find? (λ o. o.0 == label) overrides) [
  | some o ↦ o.1
  | none ↦ host_port
]

-- The mappings with the ports that the caller chose.
unfoldable pub apply_overrides : List (Text × ℕ) → List PortMapping → List PortMapping
unfolding overridden
apply_overrides overrides mappings =
    map (λ (pm : PortMapping). record pm { host_port = overridden overrides pm.label pm.host_port })
      mappings

-- The ports of a new app.
pub record InstallPorts : Type 0 where
  pub local_port : ℕ
  pub resolved_mappings : List PortMapping

-- The app's own port is allocated, then the mappings are resolved on the same database.
unfoldable pub install_ports :
    Host → Db → ℕ → ℕ → List (Text × ℕ) → List PortMapping → Result InstallPorts
install_ports h db range_start range_end port_overrides mappings =
    allocate_port h db range_start range_end >>= λ local_port.
    resolve_port_mappings h db range_start range_end none (apply_overrides port_overrides mappings)
    >>= λ resolved. ok (record { local_port = local_port; resolved_mappings = resolved })

apply_overrides_nothing : (mappings : List PortMapping) → apply_overrides [] mappings ≡ mappings
unfolding apply_overrides overridden find?
apply_overrides_nothing [] = refl
apply_overrides_nothing (m ∷ mappings) = ap (λ ms. m ∷ ms) (apply_overrides_nothing mappings)

-- A manifest that asks for the port which the allocation is about to pick gets it as well: the app's
-- own port and its mapping are then the same. The port is the lowest free one of the range, and
-- not 0.
pub install_ports_collide :
    (h : Host) (db : Db) (range_start range_end port container_port : ℕ) (label : Text)
    → IsConsistent db
    → port ≢ 0
    → allocate_port h db range_start range_end ≡ ok port
    → install_ports h db range_start range_end []
        (record { label = label; container_port = container_port; host_port = port } ∷ [])
      ≡ ok (record {
        local_port = port;
        resolved_mappings =
            record { label = label; container_port = container_port; host_port = port } ∷ [];
      })
unfolding install_ports
install_ports_collide h db range_start range_end port container_port label c nonzero allocated =
    let wanted : PortMapping = record {
      label = label;
      container_port = container_port;
      host_port = port;
    } in
    let free = ((allocate_port_lowest h db range_start range_end).0 port allocated).free in
    let kept =
      resolve_port_mappings_keep h db none range_start range_end (wanted ∷ []) (λ e. cc) c
        ((nonzero, free), tt) ((λ m. m), tt) in
    rw allocated (rw (apply_overrides_nothing (wanted ∷ [])) (rw kept refl))
