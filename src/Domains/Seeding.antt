-- ===== src/Domains/Seeding.antt =====
-- `seed_domains` of core/domains.py, and what the other statements keep of a seeded table.
use mathlib.Core.List.{append-nil, append_assoc}
use aerosol.Prelude.{
  nat_eq, list_eq, eq_iff, ◌≡◌, refl, ap, sym, inl, inr, Bool, true, false, not, Option, none, some,
  List, [], ◌∷◌, ◌++◌, map, arith, Elem, Distinct, Text, any, any_sound, Distinct-append_one,
  contains, contains_iff, before, is_empty, elem-append, elem-map_inv, map-append_lem, count_where,
  find?, if◌then◌else◌, Bool-cases,
}
use aerosol.Db.{Db, DomainRecord, no_cert}
use aerosol.Domains.{Domain, name_no_port}
use aerosol.Domains.Store.{Result, ok, err, integrity, primary_row, with_domains, named}
use aerosol.Domains.Primary.{IsSeeded, is_primary_row, name_of}

abbrev pub primary_record : Domain → DomainRecord
primary_record d = record {
  name = d.name;
  tls = d.tls;
  mdns = d.mdns;
  cert_status = no_cert;
  error_message = none;
  is_primary = true;
}

-- The rows that the loop over `extras` appends; `seen` are the hosts so far.
fresh_rows : List Text → List DomainRecord → List DomainRecord
fresh_rows seen [] = []
fresh_rows seen (r ∷ extras) =
    let host = before b':' r.name in
    let skipped = fresh_rows seen extras in
    let taken = record r { is_primary = false } ∷ fresh_rows (host ∷ seen) extras in
    if contains host seen then skipped else taken

-- `executemany` of the INSERT: a name that is there is an integrity error.
insert_rows : List DomainRecord → List DomainRecord → Option (List DomainRecord)
insert_rows rows [] = some rows
insert_rows rows (r ∷ more) =
    let rest = insert_rows (rows ++ r ∷ []) more in if any (named r.name) rows then none else rest

unfoldable pub seed_domains : Db → Domain → List DomainRecord → Db × Result Bool
unfolding fresh_rows insert_rows
seed_domains db primary extras =
    if not (is_empty db.domains)
    then (db, ok false)
    else elim (insert_rows []
        (primary_record primary ∷ fresh_rows (name_no_port primary ∷ []) extras)) [
          | none ↦ (db, err integrity)
          | some rows ↦ (with_domains db rows, ok true)
        ]

-- No row's host is among `hosts`, and no two rows have one host.
abbrev HasFreshHosts : List Text → List DomainRecord → Type 0
HasFreshHosts seen [] = Unit
HasFreshHosts seen (r ∷ rows) =
    (¬ Elem (before b':' r.name) seen) × HasFreshHosts (before b':' r.name ∷ seen) rows

fresh_rows-HasFreshHosts :
    (seen : List Text) (extras : List DomainRecord) → HasFreshHosts seen (fresh_rows seen extras)
unfolding fresh_rows
fresh_rows-HasFreshHosts seen [] = tt
fresh_rows-HasFreshHosts seen (r ∷ extras) =
    elim (Bool-cases (contains (before b':' r.name) seen)) [
      | inl e ↦ rw e (fresh_rows-HasFreshHosts seen extras)
      | inr e ↦ rw e (
        ground (arith, contains_iff (before b':' r.name) seen),
        fresh_rows-HasFreshHosts (before b':' r.name ∷ seen) extras,
      )
    ]

abbrev hosts_of : List DomainRecord → List Text
hosts_of rows = map (λ (r : DomainRecord). before b':' r.name) rows

name_unused :
    (rows : List DomainRecord) (r : DomainRecord) (seen : List Text)
    → ¬ Elem (before b':' r.name) seen
    → ((q : DomainRecord) → Elem q rows → Elem (before b':' q.name) seen)
    → (any (named r.name) rows ≡ false) × (¬ Elem r.name (map name_of rows))
name_unused rows r seen fresh k = (
  elim (Bool-cases (any (named r.name) rows)) [
    | inl e ↦
        let (q, m, same) = any_sound (named r.name) rows e in
        absurd (fresh (ground (arith, k q m, eq_iff q.name r.name)))
    | inr e ↦ e
  ],
  λ m.
      let (q, listed, same) = elem-map_inv name_of r.name rows m in
      fresh (ground (arith, k q listed)),
)

-- Rows with fresh hosts have fresh names, so the insertion succeeds.
insert_rows-some :
    (rows more : List DomainRecord) (seen : List Text)
    → HasFreshHosts seen more
    → ((r : DomainRecord) → Elem r rows → Elem (before b':' r.name) seen)
    → Distinct (map name_of rows)
    → (insert_rows rows more ≡ some (rows ++ more)) × Distinct (map name_of (rows ++ more))
unfolding insert_rows
insert_rows-some rows [] seen h k d = (ap some (sym (append-nil rows)), rw append-nil d)
insert_rows-some rows (r ∷ more) seen h k d =
    let unused = name_unused rows r seen h.0 k in
    let (inserted, distinct) =
      insert_rows-some (rows ++ r ∷ []) more (before b':' r.name ∷ seen) h.1
        (λ q m. ground (arith, elem-append q rows (r ∷ []), k q))
        (rw map-append_lem (Distinct-append_one r.name (map name_of rows) d unused.1)) in
    (
      rw unused.0 (rw (← append_assoc rows (r ∷ []) more) inserted),
      rw (← append_assoc rows (r ∷ []) more) distinct,
    )

count-fresh_rows :
    (seen : List Text) (extras : List DomainRecord)
    → count_where is_primary_row (fresh_rows seen extras) ≡ 0
unfolding fresh_rows count_where
count-fresh_rows seen [] = refl
count-fresh_rows seen (r ∷ extras) =
    ground
      (arith, count-fresh_rows seen extras, count-fresh_rows (before b':' r.name ∷ seen) extras)

abbrev seed_rows : Domain → List DomainRecord → List DomainRecord
seed_rows primary extras = primary_record primary ∷ fresh_rows (name_no_port primary ∷ []) extras

insert-seed_rows :
    (primary : Domain) (extras : List DomainRecord)
    → (insert_rows [] (seed_rows primary extras) ≡ some (seed_rows primary extras))
      × Distinct (map name_of (seed_rows primary extras))
unfolding name_no_port
insert-seed_rows primary extras =
    insert_rows-some [] (seed_rows primary extras) []
      (λ m. m, fresh_rows-HasFreshHosts (name_no_port primary ∷ []) extras) (λ r m. m) tt

seed_domains-empty :
    (db : Db) (primary : Domain) (extras : List DomainRecord)
    → is_empty db.domains ≡ true
    → seed_domains db primary extras ≡ (with_domains db (seed_rows primary extras), ok true)
unfolding seed_domains
seed_domains-empty db primary extras e = rw (e, (insert-seed_rows primary extras).0) refl

-- What one call leaves: a table that was not empty is unchanged and the answer is false; an empty
-- one has the given domain as its one primary row and distinct names, and the answer is true.
pub record IsSeeding (db : Db) (primary : Domain) (result : Db × Result Bool) : Type 0 where
  pub again : is_empty db.domains ≡ false → result ≡ (db, ok false)
  pub answer : is_empty db.domains ≡ true → result.1 ≡ ok true
  pub seeded : is_empty db.domains ≡ true → IsSeeded result.0.domains
  pub first :
      is_empty db.domains ≡ true → primary_row result.0.domains ≡ some (primary_record primary)

-- `seed_domains` never meets a duplicate name. An empty table gets the given domain as its one
-- primary row, with distinct names, and the answer is true; another table stays, with false.
pub seed_domains-IsSeeding :
    (db : Db) (primary : Domain) (extras : List DomainRecord)
    → IsSeeding db primary (seed_domains db primary extras)
seed_domains-IsSeeding db primary extras = record {
  again = λ e. unfold seed_domains in rw e refl;
  answer = λ e. rw (seed_domains-empty db primary extras e) refl;
  seeded = λ e. rw (seed_domains-empty db primary extras e) (record {
    one_primary =
        unfold count_where in ground (arith, count-fresh_rows (name_no_port primary ∷ []) extras);
    distinct = (insert-seed_rows primary extras).1;
  });
  first = λ e. rw (seed_domains-empty db primary extras e) (unfold primary_row find? in refl);
}
