-- ===== src/Domains/Tests.antt =====
-- A small configuration, and the theorems on it.
use aerosol.Prelude.{
  ◌≤◌, ◌≡◌, refl, Bool, true, false, none, some, [], ◌∷◌, arith, length, Elem, All, Text, codes,
  evaluation,
}
use aerosol.Db.{Db, App, status_beq, running, DomainRecord, active}
use aerosol.Domains.{
  Domain, name_no_port, owns, match, effective_domains, get_record, host_with_request_port,
}
use aerosol.Domains.Store.{ok, set_primary_domain}
use aerosol.Domains.Matching.{match_longest}
use aerosol.Domains.Primary.{IsSeeded, IsPromoted, set_primary_domain-IsPromoted}
use aerosol.Domains.Statements.{execute_all, execute_all-IsSeeded, upsert, remove, promote}

-- What the tests compute with.
unfoldable pub model : Unit {0}
unfolding match set_primary_domain get_record host_with_request_port status_beq evaluation
model = tt

abbrev row : Text → Bool → DomainRecord
row name primary = record {
  name = name;
  tls = true;
  mdns = false;
  cert_status = active;
  error_message = none;
  is_primary = primary;
}

abbrev pub wiki : App
wiki = record {
  app_id = codes "111111111122";
  name = codes "wiki";
  local_port = 9000;
  container_id = some (codes "c1");
  status = running;
  error_message = none;
  public_paths = codes "/public/" ∷ [];
  manifest_raw = none;
  created_at = 5;
}

abbrev pub space : Db
space = record {
  apps = wiki ∷ [];
  app_port_mappings = [];
  domains = row (codes "example.com") true ∷ row (codes "host.example.com") false ∷ [];
  service_providers = [];
  service_defaults = [];
}

abbrev pub host : Domain
host = record { name = codes "host.example.com"; tls = true; mdns = false }

longest_wins : match space (codes "Wiki.Host.example.com:8080") ≡ some host
unfolding model
longest_wins = refl

ports :
    (host_with_request_port (codes "a.b") (codes "x:81") ≡ codes "a.b:81")
    × (host_with_request_port (codes "a.b") (codes "x") ≡ codes "a.b")
unfolding model
ports = (refl, refl)

promotes : (set_primary_domain space (codes "HOST.example.com:1")).1 ≡ ok true
unfolding model
promotes = refl

seeded : IsSeeded space.domains
unfolding model
seeded = record { one_primary = refl; distinct = ground arith }

match_longest_example :
    Elem host (effective_domains space)
    × (owns host (codes "host.example.com") ≡ true)
    × All
        (λ e.
          owns e (codes "host.example.com") ≡ true
          → length (name_no_port e) ≤ length (name_no_port host))
        (effective_domains space)
unfolding model
match_longest_example = match_longest space (codes "host.example.com") host refl

set_primary_domain-IsPromoted_example :
    (target : DomainRecord) × (get_record space (codes "host.example.com") ≡ some target)
    × IsPromoted target.name space (set_primary_domain space (codes "host.example.com")).0
unfolding model
set_primary_domain-IsPromoted_example =
    set_primary_domain-IsPromoted space (codes "host.example.com") seeded refl

execute_all-IsSeeded_example :
    IsSeeded
      (execute_all space (
        upsert (row (codes "x.org") true)
        ∷ promote (codes "x.org")
        ∷ remove (codes "x.org")
        ∷ [])).domains
execute_all-IsSeeded_example =
    execute_all-IsSeeded space
      (upsert (row (codes "x.org") true) ∷ promote (codes "x.org") ∷ remove (codes "x.org") ∷ [])
      seeded
