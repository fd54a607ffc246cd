-- ===== src/Ports/Keep.antt =====
-- Mappings that all have free, distinct ports of their own are kept as they are.
use mathlib.Core.List.{append-nil, append_assoc}
use aerosol.Prelude.{
  ℕ, nat_eq, eq_iff, ◌≡◌, refl, ap, sym, ◌∙◌, ◌≢◌, inl, inr, Option, some, List, [], ◌∷◌, ◌++◌,
  arith, Elem, All, Distinct, Text, contains_iff,
}
use aerosol.Db.{Db}
use aerosol.Ports.{
  Host, PortMapping, ok, Batch, claim, claim_fixed, first_pass, second_pass, resolve_port_mappings,
}
use aerosol.Ports.Free.{IsFree, IsConsistent, check_port_available_iff}
use aerosol.Ports.Resolve.{ports_of}

module _ (h : Host) (db : Db) (exclude : Option Text) (named : exclude ≢ some [])
    (c : IsConsistent db) where
  -- The mapping's own port can be taken.
  abbrev CanKeep : PortMapping → Type 0
  CanKeep m = (m.host_port ≢ 0) × IsFree h db exclude m.host_port

  -- No port of the mappings is claimed yet.
  abbrev IsUnclaimed : Batch → List PortMapping → Type 0
  IsUnclaimed b mappings = (p : ℕ) → Elem p (ports_of mappings) → ¬ Elem p b.claimed

  claim_all : List PortMapping → Batch → Batch
  claim_all [] b = b
  claim_all (m ∷ mappings) b = claim_all mappings (claim b m)

  claim_fixed-keep :
      (m : PortMapping) (b : Batch)
      → IsFree h db exclude m.host_port
      → ¬ Elem m.host_port b.claimed
      → claim_fixed h db exclude m b ≡ ok (claim b m)
  unfolding claim_fixed
  claim_fixed-keep m b f fresh = ground (
    arith,
    (check_port_available_iff h db m.host_port exclude c named).1 f,
    contains_iff m.host_port b.claimed,
  )

  first_pass-keep :
      (mappings : List PortMapping) (b : Batch)
      → All CanKeep mappings
      → Distinct (ports_of mappings)
      → IsUnclaimed b mappings
      → first_pass h db exclude mappings b ≡ ok (claim_all mappings b)
  unfolding first_pass claim_all
  first_pass-keep [] b k d u = refl
  first_pass-keep (m ∷ mappings) b ((fixed, free), k) d u =
      let now = claim_fixed-keep m b free (u m.host_port (inl refl)) in
      let later =
        first_pass-keep mappings (claim b m) k d.1
          (λ p q claimed. elim claimed [ inl e ↦ d.0 (rw e q) | inr old ↦ u p (inr q) old ]) in
      ground (arith, eq_iff m.host_port 0, now, later)

  second_pass-keep :
      (range_start range_end : ℕ) (mappings : List PortMapping) (b : Batch)
      → All CanKeep mappings
      → second_pass h db range_start range_end exclude mappings b ≡ ok b
  unfolding second_pass
  second_pass-keep range_start range_end [] b k = refl
  second_pass-keep range_start range_end (m ∷ mappings) b ((fixed, free), k) =
      ground (arith, eq_iff m.host_port 0, second_pass-keep range_start range_end mappings b k)

  claim_all-resolved :
      (mappings : List PortMapping) (b : Batch)
      → (claim_all mappings b).resolved ≡ b.resolved ++ mappings
  unfolding claim_all
  claim_all-resolved [] b = sym (append-nil b.resolved)
  claim_all-resolved (m ∷ mappings) b =
      claim_all-resolved mappings (claim b m) ∙ append_assoc b.resolved (m ∷ []) mappings

-- Mappings whose own ports are free and distinct are answered unchanged.
pub resolve_port_mappings_keep :
    (h : Host) (db : Db) (exclude : Option Text) (range_start range_end : ℕ)
    (mappings : List PortMapping)
    → exclude ≢ some []
    → IsConsistent db
    → All (λ m. (m.host_port ≢ 0) × IsFree h db exclude m.host_port) mappings
    → Distinct (ports_of mappings)
    → resolve_port_mappings h db range_start range_end exclude mappings ≡ ok mappings
unfolding resolve_port_mappings
resolve_port_mappings_keep h db exclude range_start range_end mappings named c k d =
    let start : Batch = record { claimed = []; resolved = [] } in
    let first = first_pass-keep h db exclude named c mappings start k d (λ p q m. m) in
    let second =
      second_pass-keep h db exclude named c range_start range_end mappings
        (claim_all h db exclude named c mappings start) k in
    rw first (rw second (ap ok (claim_all-resolved h db exclude named c mappings start)))
