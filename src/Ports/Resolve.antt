-- ===== src/Ports/Resolve.antt =====
-- What `resolve_port_mappings` answers with.
use mathlib.Core.List.{append-nil, append_assoc}
use aerosol.Prelude.Outcome.{both_answer}
use aerosol.Prelude.{
  ℕ, nat_eq, list_eq, ◌==◌, ◌+◌, ◌-◌, ◌≤◌, ◌≡◌, refl, ap, sym, ◌∙◌, ◌≢◌, inl, inr, Bool, false, not,
  Option, none, some, List, [], ◌∷◌, ◌++◌, map, arith, Elem, Distinct, Distinct-append_one, Text,
  contains, contains_iff, find?_sound, filter, elem-append, map-append_lem, Bool-cases,
}
use aerosol.Db.{Db}
use aerosol.Ports.{
  Host, PortMapping, ok, range_from, port_range, first_free, check_port_available,
  find_free_host_port, Batch, claim, claim_fixed, first_pass, assign, second_pass,
  resolve_port_mappings,
}
use aerosol.Ports.Free.{IsFree, IsConsistent, check_port_available_iff}
use aerosol.Ports.Search.{takes, used_ports, takes-IsFree, elem-range_from, or_no_free_ok}

abbrev pub ports_of : List PortMapping → List ℕ
ports_of mappings = map (λ (m : PortMapping). m.host_port) mappings

abbrev pub is_fixed : PortMapping → Bool
is_fixed m = not (m.host_port == 0)

abbrev pub is_auto : PortMapping → Bool
is_auto m = m.host_port == 0

-- The mappings without a port, each with a port from the range.
abbrev pub Assigned : ℕ → ℕ → List PortMapping → List PortMapping → Type 0
Assigned range_start range_end [] [] = Unit
Assigned range_start range_end (m ∷ ms) (r ∷ rs) =
    ((r.label ≡ m.label)
      × (r.container_port ≡ m.container_port)
      × (range_start ≤ r.host_port)
      × (r.host_port ≤ range_end))
    × Assigned range_start range_end ms rs
Assigned range_start range_end _ _ = ⊥

-- `random.shuffle` keeps the candidates.
abbrev pub Shuffles : Host → Type 0
Shuffles h = (l : List ℕ) (p : ℕ) → Elem p (h.shuffle l) → Elem p l

module _ (h : Host) (db : Db) (exclude : Option Text) where
  record IsBatch (b : Batch) : Type 0 where
    claimed : (p : ℕ) → Elem p (ports_of b.resolved) → Elem p b.claimed
    distinct : Distinct (ports_of b.resolved)
    free : (r : PortMapping) → Elem r b.resolved → IsFree h db exclude r.host_port

  claim-IsBatch :
      (b : Batch) (pm : PortMapping)
      → IsBatch b
      → IsFree h db exclude pm.host_port
      → ¬ Elem pm.host_port b.claimed
      → IsBatch (claim b pm)
  claim-IsBatch b pm i f fresh = record {
    claimed = λ p m.
        let split =
          (elem-append p (ports_of b.resolved) (pm.host_port ∷ [])).0 (rw map-append_lem at m) in
        ground (arith, split, i.claimed p);
    distinct = rw map-append_lem (
        Distinct-append_one pm.host_port (ports_of b.resolved) i.distinct
          (λ m. fresh (i.claimed pm.host_port m)));
    free = λ r m. elim ((elem-append r b.resolved (pm ∷ [])).0 m) [
      | inl old ↦ i.free r old
      | inr (inl e) ↦ rw (← e) f
      | inr (inr z) ↦ absurd z
    ];
  }

  claim_fixed-ok :
      (pm : PortMapping) (b b' : Batch)
      → IsConsistent db
      → exclude ≢ some []
      → IsBatch b
      → claim_fixed h db exclude pm b ≡ ok b'
      → IsBatch b' × (b' ≡ claim b pm)
  unfolding claim_fixed
  claim_fixed-ok pm b b' c named i e =
      let (available, unclaimed, same) : (check_port_available h db pm.host_port exclude ≡ none)
          × (contains pm.host_port b.claimed ≡ false)
          × (claim b pm ≡ b') =
        ground arith in
      let free = (check_port_available_iff h db pm.host_port exclude c named).0 available in
      let fresh : ¬ Elem pm.host_port b.claimed =
        ground (arith, contains_iff pm.host_port b.claimed) in
      (rw (← same) (claim-IsBatch b pm i free fresh), sym same)

  first_pass-ok :
      (mappings : List PortMapping) (b b' : Batch)
      → IsConsistent db
      → exclude ≢ some []
      → IsBatch b
      → first_pass h db exclude mappings b ≡ ok b'
      → IsBatch b' × (b'.resolved ≡ b.resolved ++ filter is_fixed mappings)
  unfolding first_pass filter
  first_pass-ok [] b b' c named i e =
      let same : b ≡ b' = ground arith in (rw (← same) i, rw (← same) (sym (append-nil b.resolved)))
  first_pass-ok (pm ∷ mappings) b b' c named i e = elim (Bool-cases (pm.host_port == 0)) [
    | inl auto ↦
        let (i', r) = first_pass-ok mappings b b' c named i (rw auto at e) in (i', rw auto r)
    | inr fixed ↦
        let (m, claimed, rest) =
          both_answer (claim_fixed h db exclude pm b) (first_pass h db exclude mappings)
            (rw fixed at e) in
        let (im, same) = claim_fixed-ok pm b m c named i claimed in
        let (i', r) = first_pass-ok mappings m b' c named im rest in
        (
          i',
          rw fixed (
              r
              ∙ ap (λ (x : Batch). x.resolved ++ filter is_fixed mappings) same
              ∙ append_assoc b.resolved (pm ∷ []) (filter is_fixed mappings)),
        )
  ]

  assign-ok :
      (range_start range_end : ℕ) (pm : PortMapping) (b b' : Batch)
      → Shuffles h
      → IsBatch b
      → assign h db range_start range_end exclude pm b ≡ ok b'
      → IsBatch b'
        × ((p : ℕ) × (b' ≡ claim b (record pm { host_port = p }))
            × (range_start ≤ p)
            × (p ≤ range_end))
  unfolding assign find_free_host_port first_free port_range
  assign-ok range_start range_end pm b b' shuffles i e =
      let n = range_end + 1 - range_start in
      let (p, searched, same) =
        both_answer (find_free_host_port h db range_start range_end b.claimed exclude) _ e in
      let found = or_no_free_ok range_start range_end p _ searched in
      let (listed, taken) =
        find?_sound (takes h (used_ports exclude db b.claimed)) p
          (h.shuffle (range_from range_start n)) found in
      let (free, fresh) = takes-IsFree h db exclude b.claimed p taken in
      let (lo, hi) =
        (elem-range_from range_start n p).0 (shuffles (range_from range_start n) p listed) in
      let joined : claim b (record pm { host_port = p }) ≡ b' = ground arith in
      (
        rw (← joined) (claim-IsBatch b (record pm { host_port = p }) i free fresh),
        (p, sym joined, lo, omega arith),
      )

  second_pass-ok :
      (range_start range_end : ℕ) (mappings : List PortMapping) (b b' : Batch)
      → Shuffles h
      → IsBatch b
      → second_pass h db range_start range_end exclude mappings b ≡ ok b'
      → IsBatch b'
        × ((auto : List PortMapping) × (b'.resolved ≡ b.resolved ++ auto)
            × Assigned range_start range_end (filter is_auto mappings) auto)
  unfolding second_pass filter
  second_pass-ok range_start range_end [] b b' shuffles i e =
      let same : b ≡ b' = ground arith in
      (rw (← same) i, ([], rw (← same) (sym (append-nil b.resolved)), tt))
  second_pass-ok range_start range_end (pm ∷ mappings) b b' shuffles i e =
      elim (Bool-cases (pm.host_port == 0)) [
        | inl auto ↦
            let (m, assigned, rest) =
              both_answer (assign h db range_start range_end exclude pm b)
                (second_pass h db range_start range_end exclude mappings) (rw auto at e) in
            let (im, (p, same, lo, hi)) =
              assign-ok range_start range_end pm b m shuffles i assigned in
            let (i', (later, r, paired)) =
              second_pass-ok range_start range_end mappings m b' shuffles im rest in
            (
              i',
              (
                record pm { host_port = p } ∷ later,
                r
                    ∙ ap (λ (x : Batch). x.resolved ++ later) same
                    ∙ append_assoc b.resolved (record pm { host_port = p } ∷ []) later,
                rw auto ((refl, refl, lo, hi), paired),
              ),
            )
        | inr fixed ↦
            let (i', (later, r, paired)) =
              second_pass-ok range_start range_end mappings b b' shuffles i (rw fixed at e) in
            (i', (later, r, rw fixed paired))
      ]

-- The result is the mappings with a port of their own, unchanged, then the others with ports from
-- the range; the ports are free, and no two are the same.
pub record IsResolved (h : Host) (db : Db) (exclude : Option Text) (range_start range_end : ℕ)
    (mappings result : List PortMapping) : Type 0 where
  pub auto : List PortMapping
  pub parts : result ≡ filter is_fixed mappings ++ auto
  pub assigned : Assigned range_start range_end (filter is_auto mappings) auto
  pub distinct : Distinct (ports_of result)
  pub free : (r : PortMapping) → Elem r result → IsFree h db exclude r.host_port

-- If `resolve_port_mappings` answers, every mapping keeps its own port or has got one from the
-- range, every port is free, and no port is given twice. The database's ports are distinct, its
-- mappings belong to apps, and an excluded app has a name.
pub resolve_port_mappings-IsResolved :
    (h : Host) (db : Db) (exclude : Option Text) (range_start range_end : ℕ)
    (mappings result : List PortMapping)
    → Shuffles h
    → IsConsistent db
    → exclude ≢ some []
    → resolve_port_mappings h db range_start range_end exclude mappings ≡ ok result
    → IsResolved h db exclude range_start range_end mappings result
unfolding resolve_port_mappings
resolve_port_mappings-IsResolved h db exclude range_start range_end mappings result shuffles c named
      e =
    let start : Batch = record { claimed = []; resolved = [] } in
    let (b, first, rest) = both_answer (first_pass h db exclude mappings start) _ e in
    let (b', second, last) =
      both_answer (second_pass h db range_start range_end exclude mappings b) _ rest in
    let same : b'.resolved ≡ result = ground arith in
    let none_yet : IsBatch h db exclude start = record {
      claimed = λ p m. m;
      distinct = tt;
      free = λ r m. absurd m;
    } in
    let (i, fixed) = first_pass-ok h db exclude mappings start b c named none_yet first in
    let (i', (auto, parts, assigned)) =
      second_pass-ok h db exclude range_start range_end mappings b b' shuffles i second in
    record {
      auto = auto;
      parts = sym same ∙ parts ∙ ap (λ (l : List PortMapping). l ++ auto) fixed;
      assigned = assigned;
      distinct = rw (← same) i'.distinct;
      free = rw (← same) i'.free;
    }
