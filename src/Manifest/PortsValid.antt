-- ===== src/Manifest/PortsValid.antt =====
-- What the port mappings of an accepted manifest are.
use aerosol.Prelude.{
  ℕ, list_eq, nat_eq, ◌==◌, eq_iff, if◌then◌else◌, ◌≤◌, ◌≡◌, refl, ap, sym, ◌≢◌, ◌⊎◌, inl, inr,
  Option, none, some, List, [], ◌∷◌, map, length, arith, Elem, All, Distinct, elem-map_inv,
  contains, contains_iff, Text, codes, Bool-cases, Option-cases, suc,
}
use aerosol.Prelude.Outcome.{both_answer, answer_same, no_answer}
use aerosol.Ports.{PortMapping}
use aerosol.Manifest.{
  Value, str, int, float, bool, array, table, Values, no_values, value, Entries, bad_container_port,
  duplicate_label, get, as_name, ok, err,
}
use aerosol.Manifest.Ports.{
  unprivileged_port_floor, Seen, check_label, check_container_port, check_host_port, parse_port,
  see, parse_entries, nothing_seen, parse_ports, natural_or, host_port_or_zero,
}

-- The mapping is new to what the loop has met.
pub record IsNew (seen : Seen) (pm : PortMapping) : Type 0 where
  pub named : pm.label ≢ []
  pub label : ¬ Elem pm.label seen.labels
  pub container_port : ¬ Elem pm.container_port seen.container_ports
  pub host_port :
      (pm.host_port ≡ 0)
      ⊎ ((unprivileged_port_floor ≤ pm.host_port) × (¬ Elem pm.host_port seen.host_ports))

as_name-named : (o : Option Value) (t : Text) → as_name o ≡ some t → t ≢ []
as_name-named none t e = cc
as_name-named (some (str [])) t e = cc
as_name-named (some (str (c ∷ s))) t e = λ h. cc (e, h)
as_name-named (some (int z)) t e = cc
as_name-named (some (float s)) t e = cc
as_name-named (some (bool b)) t e = cc
as_name-named (some (array v)) t e = cc
as_name-named (some (table v)) t e = cc

check_label_ok :
    (seen : Seen) (e : Entries) (label : Text)
    → check_label seen e ≡ ok label
    → (label ≢ []) × (¬ Elem label seen.labels)
unfolding check_label
check_label_ok seen e label h = elim (Option-cases (as_name (get (codes "label") e))) [
  | inl missing ↦ absurd (no_answer (rw missing at h))
  | inr (t, found) ↦
      let named = as_name-named (get (codes "label") e) t found in
      let tested : (if contains t seen.labels then err (duplicate_label t) else ok t) ≡ ok label =
        rw found at h in
      ground (arith, tested, named, contains_iff t seen.labels)
]

check_container_port_ok :
    (seen : Seen) (label : Text) (e : Entries) (cport : ℕ)
    → check_container_port seen label e ≡ ok cport
    → ¬ Elem cport seen.container_ports
unfolding check_container_port
check_container_port_ok seen label e cport h =
    let (n, _, tested) =
      both_answer (natural_or (bad_container_port label) (get (codes "container_port") e)) _ h in
    ground (arith, tested, contains_iff n seen.container_ports)

check_host_port_ok :
    (seen : Seen) (label : Text) (e : Entries) (hport : ℕ)
    → check_host_port seen label e ≡ ok hport
    → (hport ≡ 0) ⊎ ((unprivileged_port_floor ≤ hport) × (¬ Elem hport seen.host_ports))
unfolding check_host_port
check_host_port_ok seen label e hport h =
    let (n, _, tested) = both_answer (host_port_or_zero label (get (codes "host_port") e)) _ h in
    ground (arith, tested, eq_iff n 0, contains_iff n seen.host_ports)

parse_port-IsNew :
    (seen : Seen) (v : Value) (pm : PortMapping) → parse_port seen v ≡ ok pm → IsNew seen pm
unfolding parse_port
parse_port-IsNew seen (str t) pm h = cc
parse_port-IsNew seen (int z) pm h = cc
parse_port-IsNew seen (float t) pm h = cc
parse_port-IsNew seen (bool b) pm h = cc
parse_port-IsNew seen (array vs) pm h = cc
parse_port-IsNew seen (table e) pm h =
    let (label, labelled, h₁) = both_answer (check_label seen e) _ h in
    let (cport, contained, h₂) = both_answer (check_container_port seen label e) _ h₁ in
    let (hport, hosted, h₃) = both_answer (check_host_port seen label e) _ h₂ in
    let (named, new_label) = check_label_ok seen e label labelled in
    rw (answer_same h₃) (record {
      named = named;
      label = new_label;
      container_port = check_container_port_ok seen label e cport contained;
      host_port = check_host_port_ok seen label e hport hosted;
    })

-- Each mapping is new to those in front of it.
abbrev pub AllNew : Seen → List PortMapping → Type 0
AllNew seen [] = Unit
AllNew seen (pm ∷ rest) = IsNew seen pm × AllNew (see seen pm) rest

abbrev pub count_values : Values → ℕ
count_values no_values = 0
count_values (value v rest) = suc (count_values rest)

parse_entries-AllNew :
    (seen : Seen) (entries : Values) (result : List PortMapping)
    → parse_entries seen entries ≡ ok result
    → AllNew seen result × (length result ≡ count_values entries)
unfolding parse_entries
parse_entries-AllNew seen no_values result h = rw (answer_same h) (tt, refl)
parse_entries-AllNew seen (value v rest) result h =
    let (pm, parsed, h₁) = both_answer (parse_port seen v) _ h in
    let (more, later, h₂) = both_answer (parse_entries (see seen pm) rest) _ h₁ in
    let (new, counted) = parse_entries-AllNew (see seen pm) rest more later in
    rw (answer_same h₂) ((parse_port-IsNew seen v pm parsed, new), ap suc counted)

-- Nothing that was seen comes again.
AllNew-fresh :
    (seen : Seen) (pms : List PortMapping) (q : PortMapping)
    → AllNew seen pms
    → Elem q pms
    → IsNew seen q
AllNew-fresh seen [] q n m = elim m [ ]
AllNew-fresh seen (pm ∷ rest) q (new, n) (inl e) = rw (← e) new
AllNew-fresh seen (pm ∷ rest) q (new, n) (inr m) =
    let later = AllNew-fresh (see seen pm) rest q n m in
    record {
      named = later.named;
      label = λ x. later.label (inr x);
      container_port = λ x. later.container_port (inr x);
      host_port = ground (arith, later.host_port);
    }

abbrev pub labels_of : List PortMapping → List Text
labels_of pms = map (λ (pm : PortMapping). pm.label) pms

abbrev pub container_ports_of : List PortMapping → List ℕ
container_ports_of pms = map (λ (pm : PortMapping). pm.container_port) pms

-- The host ports that the manifest asks for itself.
unfoldable pub fixed_ports_of : List PortMapping → List ℕ
fixed_ports_of [] = []
fixed_ports_of (pm ∷ rest) =
    let more = fixed_ports_of rest in if pm.host_port == 0 then more else pm.host_port ∷ more

-- Labels, container ports and the host ports asked for are each distinct; labels are not empty, and
-- a host port that is asked for is not below the floor.
pub record IsValidPorts (pms : List PortMapping) : Type 0 where
  pub named : All (λ pm. pm.label ≢ []) pms
  pub labels : Distinct (labels_of pms)
  pub container_ports : Distinct (container_ports_of pms)
  pub host_ports : Distinct (fixed_ports_of pms)
  pub above_floor : All (λ pm. (pm.host_port ≡ 0) ⊎ (unprivileged_port_floor ≤ pm.host_port)) pms

elem-fixed_ports_of :
    (p : ℕ) (pms : List PortMapping)
    → Elem p (fixed_ports_of pms)
    → (p ≢ 0) × ((pm : PortMapping) × Elem pm pms × (pm.host_port ≡ p))
unfolding fixed_ports_of
elem-fixed_ports_of p [] m = elim m [ ]
elem-fixed_ports_of p (pm ∷ rest) m = elim (Bool-cases (pm.host_port == 0)) [
  | inl auto ↦
      let (nonzero, (q, listed, same)) = elem-fixed_ports_of p rest (rw auto at m) in
      (nonzero, (q, inr listed, same))
  | inr fixed ↦
      let split : (pm.host_port ≡ p) ⊎ Elem p (fixed_ports_of rest) = rw fixed at m in
      elim split [
        | inl e ↦ (ground (arith, fixed, eq_iff pm.host_port 0), (pm, inl refl, e))
        | inr later ↦
            let (nonzero, (q, listed, same)) = elem-fixed_ports_of p rest later in
            (nonzero, (q, inr listed, same))
      ]
]

AllNew-IsValidPorts : (seen : Seen) (pms : List PortMapping) → AllNew seen pms → IsValidPorts pms
unfolding fixed_ports_of
AllNew-IsValidPorts seen [] n = record {
  named = tt;
  labels = tt;
  container_ports = tt;
  host_ports = tt;
  above_floor = tt;
}
AllNew-IsValidPorts seen (pm ∷ rest) (new, n) =
    let valid = AllNew-IsValidPorts (see seen pm) rest n in
    record {
      named = (new.named, valid.named);
      labels = (
        (λ m.
            let (q, listed, same) = elem-map_inv (λ (x : PortMapping). x.label) pm.label rest m in
            (AllNew-fresh (see seen pm) rest q n listed).label (inl (sym same))),
        valid.labels,
      );
      container_ports = (
        (λ m.
            let (q, listed, same) =
              elem-map_inv (λ (x : PortMapping). x.container_port) pm.container_port rest m in
            (AllNew-fresh (see seen pm) rest q n listed).container_port (inl (sym same))),
        valid.container_ports,
      );
      host_ports = host_ports valid.host_ports;
      above_floor = (ground (arith, new.host_port), valid.above_floor);
    }
  where
    host_ports : Distinct (fixed_ports_of rest) → Distinct (fixed_ports_of (pm ∷ rest))
    host_ports d = elim (Bool-cases (pm.host_port == 0)) [
      | inl auto ↦ rw auto d
      | inr fixed ↦ rw fixed (
        (λ m.
            let (nonzero, (q, listed, same)) = elem-fixed_ports_of pm.host_port rest m in
            let fresh = (AllNew-fresh (see seen pm) rest q n listed).host_port in
            let met : Elem q.host_port (see seen pm).host_ports = rw fixed (inl (sym same)) in
            ground (arith, fresh, met, same, nonzero)),
        d,
      )
    ]

-- The port mappings that `_parse_ports` accepts have distinct labels, container ports and host ports;
-- no host port that is asked for is below the floor; and there is one for each entry.
pub parse_ports-IsValidPorts :
    (entries : Values) (result : List PortMapping)
    → parse_ports entries ≡ ok result
    → IsValidPorts result × (length result ≡ count_values entries)
unfolding parse_ports
parse_ports-IsValidPorts entries result h =
    let (new, counted) = parse_entries-AllNew nothing_seen entries result h in
    (AllNew-IsValidPorts nothing_seen result new, counted)
