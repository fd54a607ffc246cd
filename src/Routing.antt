-- ===== src/Routing.antt =====
-- How a request finds its app: `find_app_by_name`, `get_app_from_hostname` and `is_public_path` of
-- compute_space/src/compute_space/core/apps.py.
pub mod Hosts
pub mod Paths
pub mod Tests
use aerosol.Prelude.{
  nat_eq, list_eq, ◌==◌, if◌then◌else◌, Bool, ◌||◌, not, Option, none, some, List, [], ◌∷◌, ◌++◌,
  ◌+◌, ◌-◌, length, take, any, contains, find?, Text, rstrip, starts_with,
}
use aerosol.Db.{App, Db}
use aerosol.Domains.{Domain, name_no_port, host_no_port, match}

unfoldable pub find_app_by_name : Db → Text → Option App
find_app_by_name db name = find? (λ a. a.name == name) db.apps

-- `host_no_port[: -(len(zone_no_port) + 1)]`
unfoldable pub app_label : Text → Text → Text
app_label host zone = take (length host - (length zone + 1)) host

-- The lookup on the matched domain.
unfoldable pub get_app_on_domain : Db → Text → Domain → Option App
unfolding find_app_by_name app_label
get_app_on_domain db host matched =
    let label = app_label (host_no_port host) (name_no_port matched) in
    if host_no_port host == name_no_port matched
    then none
    else if not (contains b'.' label)
    then find_app_by_name db label
    else none

unfoldable pub get_app_from_hostname : Db → Text → Option App
unfolding get_app_on_domain
get_app_from_hostname db host = elim (match db host) [
  | none ↦ none
  | some matched ↦ get_app_on_domain db host matched
]

unfoldable pub is_public_path : App → Text → Bool
is_public_path app request_path =
    any (λ pp. request_path == pp || starts_with request_path (rstrip b'/' pp ++ b'/' ∷ []))
      app.public_paths
