-- ===== src/Domains/Statements.antt =====
-- What the statements of core/domains.py keep of a seeded table, in any order.
use aerosol.Prelude.{
  nat_eq, list_eq, eq_iff, ◌≡◌, refl, ◌∙◌, inl, inr, false, ◌&&◌, Option, List, [], ◌∷◌, ◌++◌, map,
  arith, Elem, Text, any, any_complete, Distinct-append_one, lower, elem-map_inv, map-append_lem,
  count_where, count_where-append, count_where-update_where, count_where-delete_where,
  map-update_where, Distinct-map-delete_where, Bool-cases,
}
use aerosol.Db.{Db, DomainRecord, DomainCertStatus}
use aerosol.Domains.Store.{
  named, refresh, restatus, upsert_record, remove_non_primary_record, set_record_status,
  set_primary_domain,
}
use aerosol.Domains.Primary.{IsSeeded, is_primary_row, name_of, set_primary_domain-IsSeeded}

any-count :
    (rows : List DomainRecord)
    → any is_primary_row rows ≡ false
    → count_where is_primary_row rows ≡ 0
unfolding any count_where
any-count [] h = refl
any-count (r ∷ rows) h = ground (arith, any-count rows)

appended :
    (db : Db) (r : DomainRecord)
    → IsSeeded db.domains
    → any (named (lower r.name)) db.domains ≡ false
    → (r.is_primary && any is_primary_row db.domains) ≡ false
    → IsSeeded (db.domains ++ record r { name = lower r.name } ∷ [])
unfolding count_where
appended db r s new fits = record {
  one_primary = rw count_where-append (ground (arith, s.one_primary, any-count db.domains));
  distinct = rw map-append_lem (
      Distinct-append_one (lower r.name) (map name_of db.domains) s.distinct λ m.
        let (q, listed, e) = elem-map_inv name_of (lower r.name) db.domains m in unused q listed e);
}
  where
    unused : (q : DomainRecord) → Elem q db.domains → q.name ≡ lower r.name → ⊥
    unused q listed e =
        let h =
          any_complete (named (lower r.name)) q db.domains listed
            ((eq_iff q.name (lower r.name)).1 e) in
        cc

-- Refused, replaced or appended: each of the three keeps the table seeded.
upsert_record-IsSeeded :
    (db : Db) (r : DomainRecord) → IsSeeded db.domains → IsSeeded (upsert_record db r).0.domains
unfolding upsert_record
upsert_record-IsSeeded db r s = elim (Bool-cases (any (named (lower r.name)) db.domains)) [
  | inl there ↦ rw there (record {
    one_primary =
        count_where-update_where is_primary_row (named (lower r.name)) (refresh r) db.domains
          (λ q. refl)
        ∙ s.one_primary;
    distinct =
        rw (map-update_where name_of (named (lower r.name)) (refresh r) db.domains (λ q. refl))
          s.distinct;
  })
  | inr new ↦ elim (Bool-cases (r.is_primary && any is_primary_row db.domains)) [
    | inl second ↦ rw (new, second) s
    | inr fits ↦ rw (new, fits) (appended db r s new fits)
  ]
]

remove_non_primary_record-IsSeeded :
    (db : Db) (name : Text)
    → IsSeeded db.domains
    → IsSeeded (remove_non_primary_record db name).0.domains
unfolding remove_non_primary_record
remove_non_primary_record-IsSeeded db name s = record {
  one_primary =
      count_where-delete_where is_primary_row _ db.domains (λ r e. ground arith) ∙ s.one_primary;
  distinct = Distinct-map-delete_where name_of _ db.domains s.distinct;
}

set_record_status-IsSeeded :
    (db : Db) (name : Text) (status : DomainCertStatus) (message : Option Text)
    → IsSeeded db.domains
    → IsSeeded (set_record_status db name status message).domains
unfolding set_record_status
set_record_status-IsSeeded db name status message s =
    let f = restatus status message in
    record {
      one_primary =
          count_where-update_where is_primary_row (named (lower name)) f db.domains (λ r. refl)
          ∙ s.one_primary;
      distinct =
          rw (map-update_where name_of (named (lower name)) f db.domains (λ r. refl)) s.distinct;
    }

-- The calls that the router makes on a seeded table, and their effect.
pub data Statement : Type 0 where
  upsert : DomainRecord → Statement
  remove : Text → Statement
  restate : Text → DomainCertStatus → Option Text → Statement
  promote : Text → Statement

unfoldable pub execute : Db → Statement → Db
execute db (upsert r) = (upsert_record db r).0
execute db (remove name) = (remove_non_primary_record db name).0
execute db (restate name status message) = set_record_status db name status message
execute db (promote name) = (set_primary_domain db name).0

unfoldable pub execute_all : Db → List Statement → Db
unfolding execute
execute_all db [] = db
execute_all db (c ∷ calls) = execute_all (execute db c) calls

-- Whatever upserts, removals of other domains, status changes and promotions run, in any order and
-- with whatever answers, a table with one primary row and distinct names stays one.
pub execute_all-IsSeeded :
    (db : Db) (calls : List Statement)
    → IsSeeded db.domains
    → IsSeeded (execute_all db calls).domains
unfolding execute_all
execute_all-IsSeeded db [] s = s
execute_all-IsSeeded db (upsert r ∷ calls) s =
    execute_all-IsSeeded (upsert_record db r).0 calls (upsert_record-IsSeeded db r s)
execute_all-IsSeeded db (remove name ∷ calls) s =
    execute_all-IsSeeded (remove_non_primary_record db name).0 calls
      (remove_non_primary_record-IsSeeded db name s)
execute_all-IsSeeded db (restate name status message ∷ calls) s =
    execute_all-IsSeeded (set_record_status db name status message) calls
      (set_record_status-IsSeeded db name status message s)
execute_all-IsSeeded db (promote name ∷ calls) s =
    execute_all-IsSeeded (set_primary_domain db name).0 calls
      (set_primary_domain-IsSeeded db name s)
