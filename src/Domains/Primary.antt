-- ===== src/Domains/Primary.antt =====
-- The promotion of a domain: one primary domain at all times, and no half-done promotion.
use aerosol.Prelude.{
  nat_eq, list_eq, ◌==◌, eq_iff, ◌+◌, ◌≡◌, refl, ◌≢◌, inl, inr, Bool, true, false, not, ◌&&◌, ◌||◌,
  ◌∙◌, some, List, [], ◌∷◌, map, arith, Elem, Distinct, All, Text, find?, find?_sound, update_where,
  count_where, count_where-zero, elem-update_where, map-update_where, Option-cases, Bool-cases,
  if_elim, is_empty, filter,
}
use aerosol.Db.{Db, App, DomainRecord, status_beq}
use aerosol.Domains.{host_no_port, get_record}
use aerosol.Domains.Matching.{host_no_port_idem}
use aerosol.Domains.Store.{
  Result, ok, primary_row, demote, promote, is_active, is_busy, to_restart, swap_primary,
  promote_found, set_primary_domain,
}

abbrev pub is_primary_row : DomainRecord → Bool
is_primary_row r = r.is_primary

abbrev pub name_of : DomainRecord → Text
name_of r = r.name

-- Looking up a host's name without its port is looking up the host.
get_record-host_no_port :
    (db : Db) (name : Text) → get_record db name ≡ get_record db (host_no_port name)
unfolding get_record
get_record-host_no_port db name = rw (host_no_port_idem name)

-- The table names every domain once and has one primary row.
pub record IsSeeded (rows : List DomainRecord) : Type 0 where
  pub one_primary : count_where is_primary_row rows ≡ 1
  pub distinct : Distinct (map name_of rows)

-- A promotion that does not answer true has changed nothing: an error is rolled back.
pub set_primary_domain-unchanged :
    (db : Db) (name : Text)
    → (set_primary_domain db name).1 ≢ ok true
    → (set_primary_domain db name).0 ≡ db
unfolding set_primary_domain
set_primary_domain-unchanged db name h = ground arith

abbrev at_current : Text → DomainRecord → Bool
at_current name row = row.name == name && row.is_primary

abbrev at_target : Text → DomainRecord → Bool
at_target name row = row.name == name && not row.is_primary

count-demoted :
    (name : Text) (rows : List DomainRecord)
    → count_where is_primary_row (update_where (at_current name) demote rows)
        + count_where (at_current name) rows
      ≡ count_where is_primary_row rows
unfolding count_where update_where
count-demoted name [] = omega arith
count-demoted name (r ∷ rows) = ground (arith, count-demoted name rows)

count-promoted :
    (name : Text) (rows : List DomainRecord)
    → count_where is_primary_row (update_where (at_target name) promote rows)
      ≡ count_where is_primary_row rows + count_where (at_target name) rows
unfolding count_where update_where
count-promoted name [] = omega arith
count-promoted name (r ∷ rows) = ground (arith, count-promoted name rows)

names-swapped :
    (current target : Text) (rows : List DomainRecord)
    → map name_of
        (update_where (at_target target) promote (update_where (at_current current) demote rows))
      ≡ map name_of rows
names-swapped current target rows =
    map-update_where name_of (at_target target) promote _ (λ r. refl)
    ∙ map-update_where name_of (at_current current) demote rows (λ r. refl)

swap_primary-IsSeeded :
    (db : Db) (current target : Text)
    → IsSeeded db.domains
    → IsSeeded (swap_primary db current target).0.domains
unfolding swap_primary
swap_primary-IsSeeded db current target s =
    let demoted = update_where (at_current current) demote db.domains in
    let swapped = update_where (at_target target) promote demoted in
    elim (Bool-cases (
      not (count_where (at_current current) db.domains == 1)
      || not (count_where (at_target target) demoted == 1))) [
        | inl refused ↦ rw refused s
        | inr done ↦ rw done (record {
          one_primary = ground (
            arith,
            count-demoted current db.domains,
            count-promoted target demoted,
            s.one_primary,
          );
          distinct = rw (names-swapped current target db.domains) s.distinct;
        })
      ]

abbrev Keeps : Db × Result Bool → Type 0
Keeps r = IsSeeded r.0.domains

promote_found-IsSeeded :
    (db : Db) (target current : DomainRecord)
    → IsSeeded db.domains
    → IsSeeded (promote_found db target current).0.domains
unfolding promote_found
promote_found-IsSeeded db target current s =
    if_elim Keeps (target.name == current.name) (λ _. s)
      λ _.
        if_elim Keeps (not (is_empty (filter is_busy db.apps))) (λ _. s)
          λ _. swap_primary-IsSeeded db current.name target.name s

-- Every call, whatever it answers, leaves one primary domain and distinct names.
pub set_primary_domain-IsSeeded :
    (db : Db) (name : Text) → IsSeeded db.domains → IsSeeded (set_primary_domain db name).0.domains
unfolding set_primary_domain
set_primary_domain-IsSeeded db name s = elim (Option-cases (get_record db (host_no_port name))) [
  | inl e ↦ rw (e, set_primary_domain) s
  | inr (target, e) ↦ elim (Option-cases (primary_row db.domains)) [
    | inl e' ↦ rw (e, e', set_primary_domain) s
    | inr (current, e') ↦
        rw (e, e', set_primary_domain) (promote_found-IsSeeded db target current s)
  ]
]

update_where-inactive :
    (apps : List App) → All (λ a. is_active a ≡ false) (update_where is_active to_restart apps)
unfolding update_where status_beq
update_where-inactive [] = tt
update_where-inactive (a ∷ apps) = (ground arith, update_where-inactive apps)

none_busy :
    (apps : List App) → is_empty (filter is_busy apps) ≡ true → All (λ a. is_busy a ≡ false) apps
unfolding filter
none_busy [] h = tt
none_busy (a ∷ apps) h = ground (arith, none_busy apps)

-- What a promotion to `target` leaves.
pub record IsPromoted (target : Text) (old new : Db) : Type 0 where
  pub primary : DomainRecord
  pub found : primary_row new.domains ≡ some primary
  pub named : primary.name ≡ target
  pub was_idle : All (λ a. is_busy a ≡ false) old.apps
  pub inactive : All (λ a. is_active a ≡ false) new.apps

primary_row-demoted :
    (name : Text) (rows : List DomainRecord)
    → IsSeeded rows
    → (row : DomainRecord) → Elem row (update_where (at_current name) demote rows)
    → count_where (at_current name) rows ≡ 1
    → row.is_primary ≡ false
primary_row-demoted name rows s row m h =
    count_where-zero is_primary_row row (update_where (at_current name) demote rows)
      (omega (arith, count-demoted name rows, s.one_primary)) m

primary_row-some :
    (rows : List DomainRecord)
    → count_where is_primary_row rows ≡ 1
    → (r : DomainRecord) × (primary_row rows ≡ some r)
unfolding primary_row find? count_where
primary_row-some [] h = absurd (omega arith)
primary_row-some (r ∷ rows) h = elim (Bool-cases r.is_primary) [
  | inl e ↦ (r, ground arith)
  | inr e ↦ let (q, f) = primary_row-some rows (ground arith) in (q, ground arith)
]

promoted_name :
    (current target : Text) (rows : List DomainRecord)
    → IsSeeded rows
    → count_where (at_current current) rows ≡ 1
    → (r : DomainRecord)
    → primary_row
        (update_where (at_target target) promote (update_where (at_current current) demote rows))
      ≡ some r
    → r.name ≡ target
unfolding primary_row
promoted_name current target rows s one r found =
    let demoted = update_where (at_current current) demote rows in
    let (m, primary) =
      find?_sound is_primary_row r (update_where (at_target target) promote demoted) found in
    let (a, listed, e) = elem-update_where (at_target target) promote r demoted m in
    ground (arith, eq_iff a.name target, primary_row-demoted current rows s a listed one)

swap_primary-IsPromoted :
    (db : Db) (current target : Text)
    → IsSeeded db.domains
    → is_empty (filter is_busy db.apps) ≡ true
    → (swap_primary db current target).1 ≡ ok true
    → IsPromoted target db (swap_primary db current target).0
unfolding swap_primary
swap_primary-IsPromoted db current target s idle h =
    let demoted = update_where (at_current current) demote db.domains in
    let swapped = update_where (at_target target) promote demoted in
    elim (Bool-cases (
      not (count_where (at_current current) db.domains == 1)
      || not (count_where (at_target target) demoted == 1))) [
        | inl refused ↦ cc (rw refused at h)
        | inr done ↦
            let (r, found) = primary_row-some swapped (
              ground (
                arith,
                count-demoted current db.domains,
                count-promoted target demoted,
                s.one_primary,
              )) in
            rw done (record {
              primary = r;
              found = found;
              named = promoted_name current target db.domains s (ground arith) r found;
              was_idle = none_busy db.apps idle;
              inactive = update_where-inactive db.apps;
            })
      ]

promote_found-IsPromoted :
    (db : Db) (target current : DomainRecord)
    → IsSeeded db.domains
    → (promote_found db target current).1 ≡ ok true
    → IsPromoted target.name db (promote_found db target current).0
unfolding promote_found
promote_found-IsPromoted db target current s h = elim (Bool-cases (target.name == current.name)) [
  | inl same ↦ cc (rw (same, promote_found) at h)
  | inr other ↦ elim (Bool-cases (is_empty (filter is_busy db.apps))) [
    | inl idle ↦
        rw (other, idle, promote_found)
          (swap_primary-IsPromoted db current.name target.name s idle
            (rw (other, idle, promote_found) at h))
    | inr busy ↦ cc (rw (other, busy, promote_found) at h)
  ]
]

-- A promotion that answers true leaves the named domain as the primary one, found no app that was
-- building, starting or being removed, and leaves no app running under the old domain.
pub set_primary_domain-IsPromoted :
    (db : Db) (name : Text)
    → IsSeeded db.domains
    → (set_primary_domain db name).1 ≡ ok true
    → (target : DomainRecord) × (get_record db name ≡ some target)
      × IsPromoted target.name db (set_primary_domain db name).0
unfolding set_primary_domain
set_primary_domain-IsPromoted db name s h =
    elim (Option-cases (get_record db (host_no_port name))) [
      | inl e ↦ cc (rw (e, set_primary_domain) at h)
      | inr (target, e) ↦ elim (Option-cases (primary_row db.domains)) [
        | inl e' ↦ cc (rw (e, e', set_primary_domain) at h)
        | inr (current, e') ↦ (
          target,
          get_record-host_no_port db name ∙ e,
          rw (e, e', set_primary_domain)
              (promote_found-IsPromoted db target current s (rw (e, e', set_primary_domain) at h)),
        )
      ]
    ]
