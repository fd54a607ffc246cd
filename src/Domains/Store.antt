-- ===== src/Domains/Store.antt =====
-- The statements of core/domains.py on the `domains` table, and the promotion of a domain.
use aerosol.Prelude.{
  nat_eq, list_eq, ◌==◌, if◌then◌else◌, Bool, true, false, not, ◌&&◌, ◌||◌, Option, none, some,
  List, [], ◌∷◌, ◌++◌, map, filter, find?, any, is_empty, is_some, text_ltb, sort_by, Text, codes,
  lower, before, update_where, delete_where, count_where,
}
use mathlib.Core.Option
use aerosol.Db.{
  building, starting, running, error, removing, status_beq, App, DomainCertStatus, DomainRecord, Db,
}
use aerosol.Domains.{Domain, name_no_port, host_no_port, get_record, to_domain}

pub data Failure : Type 0 where
  not_found : Text → Failure
  no_primary concurrent_change integrity : Failure
  apps_busy : List Text → Failure

pub data Result {ℓ} (A : Type ℓ) : Type ℓ where
  ok : A → Result A
  err : Failure → Result A

abbrev pub primary_domain_restart_marker : Text
primary_domain_restart_marker = codes "Restarting after primary domain change"

abbrev pub with_domains : Db → List DomainRecord → Db
with_domains db rows = record db { domains = rows }

abbrev pub named : Text → DomainRecord → Bool
named name row = row.name == name

-- DO UPDATE SET: every field but the name and the primary flag.
abbrev pub refresh : DomainRecord → DomainRecord → DomainRecord
refresh r row = record row {
  tls = r.tls;
  mdns = r.mdns;
  cert_status = r.cert_status;
  error_message = r.error_message;
}

abbrev pub restatus : DomainCertStatus → Option Text → DomainRecord → DomainRecord
restatus status message row = record row { cert_status = status; error_message = message }

-- INSERT … ON CONFLICT(name) DO UPDATE; the index on `is_primary` refuses a second primary row.
unfoldable pub upsert_record : Db → DomainRecord → Db × Result (Unit {0})
upsert_record db r =
    let name = lower r.name in
    if any (named name) db.domains
    then (with_domains db (update_where (named name) (refresh r) db.domains), ok tt)
    else if r.is_primary && any (λ row. row.is_primary) db.domains
    then (db, err integrity)
    else (with_domains db (db.domains ++ record r { name = name } ∷ []), ok tt)

unfoldable pub remove_record : Db → Text → Db × Bool
remove_record db name = (
  with_domains db (delete_where (named (lower name)) db.domains),
  any (named (lower name)) db.domains,
)

unfoldable pub remove_non_primary_record : Db → Text → Db × Bool
remove_non_primary_record db name =
    let p = λ (row : DomainRecord). row.name == lower name && not row.is_primary in
    (with_domains db (delete_where p db.domains), any p db.domains)

unfoldable pub set_record_status : Db → Text → DomainCertStatus → Option Text → Db
set_record_status db name status message =
    with_domains db (update_where (named (lower name)) (restatus status message) db.domains)

-- SELECT … WHERE is_primary = 1, the first row.
unfoldable pub primary_row : List DomainRecord → Option DomainRecord
primary_row = find? (λ row. row.is_primary)

unfoldable pub primary_domain_or_none : Db → Option Domain
unfolding primary_row
primary_domain_or_none db = Option.map to_domain (primary_row db.domains)

unfoldable pub primary_domain : Db → Result Domain
unfolding primary_domain_or_none
primary_domain db = elim (primary_domain_or_none db) [ none ↦ err no_primary | some d ↦ ok d ]

unfoldable pub is_primary_domain : Db → Text → Bool
unfolding primary_domain_or_none
is_primary_domain db name = elim (primary_domain_or_none db) [
  | none ↦ false
  | some d ↦ before b':' name == name_no_port d
]

-- status IN ('building', 'starting', 'removing')
abbrev pub is_busy : App → Bool
is_busy a =
    status_beq a.status building || status_beq a.status starting || status_beq a.status removing

-- status = 'running' OR (status = 'error' AND container_id IS NOT NULL)
abbrev pub is_active : App → Bool
is_active a = status_beq a.status running || (status_beq a.status error && is_some a.container_id)

abbrev pub to_restart : App → App
to_restart a = record a { status = starting; error_message = some primary_domain_restart_marker }

abbrev pub demote : DomainRecord → DomainRecord
demote row = record row { is_primary = false }

abbrev pub promote : DomainRecord → DomainRecord
promote row = record row { is_primary = true }

-- The two updates of the promotion, each with its row count, and the restart of the active apps.
-- Any failure is a ROLLBACK to `db`.
unfoldable pub swap_primary : Db → Text → Text → Db × Result Bool
swap_primary db current target =
    let p = λ (row : DomainRecord). row.name == current && row.is_primary in
    let demoted = update_where p demote db.domains in
    let q = λ (row : DomainRecord). row.name == target && not row.is_primary in
    let promoted = update_where q promote demoted in
    if not (count_where p db.domains == 1) || not (count_where q demoted == 1)
    then (db, err concurrent_change)
    else (
      record db { domains = promoted; apps = update_where is_active to_restart db.apps },
      ok true,
    )

-- The steps of `set_primary_domain` behind the two lookups.
unfoldable pub promote_found : Db → DomainRecord → DomainRecord → Db × Result Bool
unfolding swap_primary
promote_found db target current =
    let busy = filter is_busy db.apps in
    if target.name == current.name
    then (db, ok false)
    else if not (is_empty busy)
    then (db, err (apps_busy (sort_by text_ltb (map (λ (a : App). a.name) busy))))
    else swap_primary db current.name target.name

unfoldable pub set_primary_domain : Db → Text → Db × Result Bool
unfolding promote_found primary_row
set_primary_domain db name = elim (get_record db (host_no_port name)) [
  | none ↦ (db, err (not_found (host_no_port name)))
  | some target ↦ elim (primary_row db.domains) [
    | none ↦ (db, err no_primary)
    | some current ↦ promote_found db target current
  ]
]
