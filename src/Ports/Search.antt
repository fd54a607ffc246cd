-- ===== src/Ports/Search.antt =====
-- What the two searches for a free port find.
use aerosol.Prelude.{
  ℕ, zero, suc, nat_eq, list_eq, ◌+◌, ◌-◌, ◌≤◌, ◌<◌, ◌≡◌, refl, ◌↔◌, inl, inr, Bool, true, false,
  not, ◌&&◌, Option, none, some, List, ◌++◌, arith, Elem, Text, contains, contains_iff, find?,
  find?_sound, find?-eq-none_iff, elem-append, elem-map, elem-map_inv, All-elem, Option-cases,
}
use aerosol.Db.{App, PortRow, Db}
use aerosol.Ports.Free.{IsFree, other_or_excluded}
use aerosol.Ports.{
  Host, ok, err, or_no_free, no_free_port, port_is_bindable, range_from, port_range, main_ports,
  mapped_ports, first_free, allocate_port, other_mappings,
}

-- Whether the search takes a port.
abbrev pub takes : Host → List ℕ → ℕ → Bool
takes h used p = not (contains p used) && port_is_bindable h p

abbrev pub used_ports : Option Text → Db → List ℕ → List ℕ
used_ports exclude db claimed =
    main_ports db ++ (mapped_ports (other_mappings exclude db) ++ claimed)

-- A port that the search takes is free, and not claimed.
pub takes-IsFree :
    (h : Host) (db : Db) (exclude : Option Text) (claimed : List ℕ) (port : ℕ)
    → takes h (used_ports exclude db claimed) port ≡ true
    → IsFree h db exclude port × (¬ Elem port claimed)
takes-IsFree h db exclude claimed port e =
    let unused : ¬ Elem port (used_ports exclude db claimed) =
      ground (arith, contains_iff port (used_ports exclude db claimed)) in
    let in_first =
      elem-append port (main_ports db) (mapped_ports (other_mappings exclude db) ++ claimed) in
    let in_rest = elem-append port (mapped_ports (other_mappings exclude db)) claimed in
    (
      record {
        no_main = λ a m same. absurd (
            unused
              (in_first.1 (inl (rw same at (elem-map (λ (b : App). b.local_port) a db.apps m)))));
        no_mapping = λ m listed same. elim (other_or_excluded exclude db m listed) [
          | inl other ↦ absurd (
              unused (
                in_first.1 (
                  inr (
                    in_rest.1 (
                      inl (
                        rw same at (
                          elem-map (λ (q : PortRow). q.host_port) m (other_mappings exclude db)
                            other)))))))
          | inr own ↦ own
        ];
        bindable = ground arith;
      },
      λ m. unused (in_first.1 (inr (in_rest.1 (inr m)))),
    )

-- With no app excluded and nothing claimed, the search takes exactly the free ports.
IsFree-takes :
    (h : Host) (db : Db) (port : ℕ)
    → IsFree h db none port
    → takes h (main_ports db ++ mapped_ports db.app_port_mappings) port ≡ true
IsFree-takes h db port f =
    let used = main_ports db ++ mapped_ports db.app_port_mappings in
    ground (arith, contains_iff port used, unused, f.bindable)
  where
    unused : ¬ Elem port (main_ports db ++ mapped_ports db.app_port_mappings)
    unused m = elim ((elem-append port (main_ports db) (mapped_ports db.app_port_mappings)).0 m) [
      | inl main ↦
          let (a, installed, same) = elem-map_inv (λ (b : App). b.local_port) port db.apps main in
          cc (f.no_main a installed same)
      | inr mapped ↦
          let (q, listed, same) =
            elem-map_inv (λ (b : PortRow). b.host_port) port db.app_port_mappings mapped in
          cc (f.no_mapping q listed same)
    ]

pub elem-range_from :
    (start n p : ℕ) → Elem p (range_from start n) ↔ ((start ≤ p) × (p < start + n))
unfolding range_from
elem-range_from start zero p = ground arith
elem-range_from start (suc n) p = ground (arith, elem-range_from (suc start) n p)

-- The first port of the range that the test passes: it fails for all below.
find?-range_from :
    (test : ℕ → Bool) (start n p q : ℕ)
    → find? test (range_from start n) ≡ some p
    → start ≤ q
    → q < p
    → test q ≡ false
unfolding find? range_from
find?-range_from test start zero p q e lo hi = cc
find?-range_from test start (suc n) p q e lo hi =
    ground (arith, find?-range_from test (suc start) n p q)

takes_main-IsFree :
    (h : Host) (db : Db) (port : ℕ)
    → takes h (main_ports db ++ mapped_ports db.app_port_mappings) port ≡ true
    → IsFree h db none port
takes_main-IsFree h db port e =
    let unused : ¬ Elem port (main_ports db ++ mapped_ports db.app_port_mappings) =
      ground (arith, contains_iff port (main_ports db ++ mapped_ports db.app_port_mappings)) in
    let split = elem-append port (main_ports db) (mapped_ports db.app_port_mappings) in
    record {
      no_main = λ a m same.
          absurd (
            unused (split.1 (inl (rw same at (elem-map (λ (b : App). b.local_port) a db.apps m)))));
      no_mapping = λ m listed same. absurd (
          unused (
            split.1 (
              inr (
                rw same at
                  (elem-map (λ (q : PortRow). q.host_port) m db.app_port_mappings listed)))));
      bindable = ground arith;
    }

-- The lowest free port of the range.
pub record IsLowestFree (h : Host) (db : Db) (range_start range_end port : ℕ) : Type 0 where
  pub above : range_start ≤ port
  pub below : port ≤ range_end
  pub free : IsFree h db none port
  pub lowest : (q : ℕ) → range_start ≤ q → q < port → ¬ IsFree h db none q

pub or_no_free_ok :
    (range_start range_end port : ℕ) (o : Option ℕ)
    → or_no_free range_start range_end o ≡ ok port
    → o ≡ some port
or_no_free_ok range_start range_end port none e = cc
or_no_free_ok range_start range_end port (some p) e = ground arith

or_no_free_err :
    (range_start range_end : ℕ) (o : Option ℕ)
    → (or_no_free range_start range_end o ≡ err (no_free_port range_start range_end)) ↔ (o ≡ none)
or_no_free_err range_start range_end none = (λ _. refl, λ _. refl)
or_no_free_err range_start range_end (some p) = (λ e. cc, λ e. cc)

abbrev allocates : Host → Db → ℕ → Bool
allocates h db = takes h (main_ports db ++ mapped_ports db.app_port_mappings)

allocate_port_sound :
    (h : Host) (db : Db) (range_start range_end port : ℕ)
    → allocate_port h db range_start range_end ≡ ok port
    → IsLowestFree h db range_start range_end port
unfolding allocate_port first_free port_range
allocate_port_sound h db range_start range_end port e =
    let n = range_end + 1 - range_start in
    let found = or_no_free_ok range_start range_end port _ e in
    let (listed, taken) = find?_sound (allocates h db) port (range_from range_start n) found in
    let (lo, hi) = (elem-range_from range_start n port).0 listed in
    record {
      above = lo;
      below = omega arith;
      free = takes_main-IsFree h db port taken;
      lowest = λ q q_lo q_hi f. cc (
        find?-range_from (allocates h db) range_start n port q found q_lo q_hi,
        IsFree-takes h db q f,
      );
    }

allocate_port_fails :
    (h : Host) (db : Db) (range_start range_end : ℕ)
    → (allocate_port h db range_start range_end ≡ err (no_free_port range_start range_end))
      ↔ ((q : ℕ) → range_start ≤ q → q ≤ range_end → ¬ IsFree h db none q)
unfolding allocate_port first_free port_range
allocate_port_fails h db range_start range_end = (to, from)
  where
    n : ℕ
    n = range_end + 1 - range_start

    to :
        or_no_free range_start range_end (find? (allocates h db) (range_from range_start n))
          ≡ err (no_free_port range_start range_end)
        → (q : ℕ) → range_start ≤ q
        → q ≤ range_end
        → ¬ IsFree h db none q
    to e q lo hi f =
        let missed : find? (allocates h db) (range_from range_start n) ≡ none =
          (or_no_free_err range_start range_end
              (find? (allocates h db) (range_from range_start n))).0
            e in
        cc (
          All-elem (λ p. allocates h db p ≡ false) q (range_from range_start n)
              ((find?-eq-none_iff (allocates h db) (range_from range_start n)).0 missed)
              ((elem-range_from range_start n q).1 (lo, omega arith)),
          IsFree-takes h db q f,
        )

    from :
        ((q : ℕ) → range_start ≤ q → q ≤ range_end → ¬ IsFree h db none q)
        → or_no_free range_start range_end (find? (allocates h db) (range_from range_start n))
          ≡ err (no_free_port range_start range_end)
    from busy = elim (Option-cases (find? (allocates h db) (range_from range_start n))) [
      | inl missed ↦ (or_no_free_err range_start range_end _).1 missed
      | inr (p, found) ↦
          let (listed, taken) = find?_sound (allocates h db) p (range_from range_start n) found in
          let (lo, hi) = (elem-range_from range_start n p).0 listed in
          absurd (busy p lo (omega arith) (takes_main-IsFree h db p taken))
    ]

-- `allocate_port` answers with the lowest free port of the range, and fails exactly if the range
-- holds no free port.
pub allocate_port_lowest :
    (h : Host) (db : Db) (range_start range_end : ℕ)
    → ((port : ℕ)
        → allocate_port h db range_start range_end ≡ ok port
        → IsLowestFree h db range_start range_end port)
      × ((allocate_port h db range_start range_end ≡ err (no_free_port range_start range_end))
          ↔ ((q : ℕ) → range_start ≤ q → q ≤ range_end → ¬ IsFree h db none q))
allocate_port_lowest h db range_start range_end =
    (allocate_port_sound h db range_start range_end, allocate_port_fails h db range_start range_end)
