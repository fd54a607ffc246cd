-- ===== src/Domains.antt =====
-- compute_space/src/compute_space/core/domains.py: the hostnames that the instance answers on.
pub mod Matching
pub mod Store
pub mod Primary
pub mod Seeding
pub mod Statements
pub mod Tests
use Prim.Native.Nat.{ℕ, zero, suc, compare, Ordering}
use aerosol.Prelude.{
  nat_eq, list_eq, ◌==◌, ltb, if◌then◌else◌, Bool, true, false, not, ◌&&◌, ◌||◌, Option, none, some,
  List, [], ◌∷◌, ◌++◌, map, length, filter, find?, all, leb, text_ltb, sort_by, Text, codes, lower,
  before, ends_with, update_where, delete_where, count_where,
}
use aerosol.Db.{
  Status, building, starting, running, error, removing, status_beq, App, DomainCertStatus, no_cert,
  DomainRecord, Db,
}

pub record Domain : Type 0 where
  pub name : Text
  pub tls : Bool
  pub mdns : Bool

-- The attribute's converter lowers the name.
unfoldable pub new_domain : Text → Bool → Bool → Domain
new_domain name tls mdns = record { name = lower name; tls = tls; mdns = mdns }

unfoldable pub name_no_port : Domain → Text
name_no_port d = before b':' d.name

unfoldable pub scheme : Domain → Text
scheme d = if d.tls then codes "https" else codes "http"

-- `host.split(":")[0].lower()`
unfoldable pub host_no_port : Text → Text
host_no_port host = lower (before b':' host)

unfoldable pub owns : Domain → Text → Bool
unfolding name_no_port host_no_port
owns d host =
    let name = name_no_port d in
    if name == []
    then false
    else host_no_port host == name || ends_with (host_no_port host) (b'.' ∷ name)

unfoldable pub is_app_subdomain : Domain → Text → Bool
unfolding owns
is_app_subdomain d host = owns d host && not (host_no_port host == name_no_port d)

unfoldable pub to_domain : DomainRecord → Domain
unfolding new_domain
to_domain r = new_domain r.name r.tls r.mdns

-- ORDER BY is_primary DESC, name: whether the first row stands in front of the second.
stands_before : DomainRecord → DomainRecord → Bool
unfolding text_ltb
stands_before a b =
    if a.is_primary
    then not b.is_primary || text_ltb a.name b.name
    else not b.is_primary && text_ltb a.name b.name

unfoldable pub load_records : Db → List DomainRecord
unfolding stands_before sort_by
load_records db = sort_by stands_before db.domains

unfoldable pub get_record : Db → Text → Option DomainRecord
unfolding host_no_port
get_record db name = find? (λ row. host_no_port row.name == host_no_port name) db.domains

unfoldable pub effective_domains : Db → List Domain
unfolding load_records to_domain
effective_domains db = map to_domain (load_records db)

-- `best is None or len(domain.name_no_port) > len(best.name_no_port)`
is_longer : Domain → Option Domain → Bool
is_longer d none = true
is_longer d (some best) = ltb (length (name_no_port best)) (length (name_no_port d))

-- The loop of `Domain.match`.
unfoldable pub match_loop : Text → Option Domain → List Domain → Option Domain
unfolding owns is_longer
match_loop host best [] = best
match_loop host best (d ∷ domains) =
    match_loop host (if owns d host && is_longer d best then some d else best) domains

unfoldable pub match : Db → Text → Option Domain
unfolding match_loop effective_domains
match db host = match_loop host none (effective_domains db)

-- `host.rpartition(":")`: whether there is a colon, and what stands in front of and behind the last.
record Parts : Type 0 where
  front : Text
  sep : Bool
  back : Text

rpartition : ℕ → Text → Parts
rpartition c [] = record { front = []; sep = false; back = [] }
rpartition c (d ∷ s) =
    let p = rpartition c s in
    if p.sep
    then record p { front = d ∷ p.front }
    else if d == c
    then record { front = []; sep = true; back = s }
    else record { front = []; sep = false; back = d ∷ s }

-- `port.isdigit()` on ASCII.
is_digits : Text → Bool
is_digits [] = false
is_digits (c ∷ s) = all (λ d. leb b'0' d && leb d b'9') (c ∷ s)

unfoldable pub host_with_request_port : Text → Text → Text
unfolding rpartition is_digits
host_with_request_port host request_netloc =
    let p = rpartition b':' request_netloc in
    if p.sep && is_digits p.back then host ++ b':' ∷ p.back else host
