-- ===== src/Ports.antt =====
-- compute_space/src/compute_space/core/ports.py: which host ports apps and their mappings get.
-- The host's sockets are a parameter: whether a port can be bound for TCP, and for UDP. So is
-- `random.shuffle`, which puts the candidates in some order.
pub mod Free
pub mod Search
pub mod Resolve
pub mod Keep
pub mod Labels
pub mod Install
pub mod Tests
pub use aerosol.Prelude.Outcome.{Outcome, ok, err, ◌>>=◌}
use aerosol.Prelude.{
  ℕ, zero, suc, nat_eq, list_eq, ◌==◌, if◌then◌else◌, Bool, true, false, not, ◌&&◌, ◌||◌, Option,
  none, some, List, [], ◌∷◌, ◌++◌, ◌+◌, ◌-◌, map, any, contains, find?, filter, Text, codes,
}
use aerosol.Db.{App, PortRow, Db}

-- A mapping of the manifest; host port 0 asks for an assignment.
pub record PortMapping : Type 0 where
  pub label : Text
  pub container_port : ℕ
  pub host_port : ℕ

-- What the host system answers. Ports are taken to be below 65536: for another one `bind` raises an OverflowError, which
-- the code does not catch.
pub record Host : Type 0 where
  pub tcp_bindable : ℕ → Bool
  pub udp_bindable : ℕ → Bool
  pub shuffle : List ℕ → List ℕ

pub data UsedBy : Type 0 where
  main_port : Text → UsedBy
  port_mapping : Text → Text → UsedBy
  host_service : UsedBy

pub data PortError : Type 0 where
  no_free_port : ℕ → ℕ → PortError
  in_use : ℕ → Text → UsedBy → PortError
  requested_twice : ℕ → PortError

abbrev pub Result : Type 0 → Type 0
Result A = Outcome PortError A

unfoldable pub port_is_bindable : Host → ℕ → Bool
port_is_bindable h port = h.tcp_bindable port && h.udp_bindable port

-- `range(start, start + n)`
unfoldable pub range_from : ℕ → ℕ → List ℕ
range_from start zero = []
range_from start (suc n) = start ∷ range_from (suc start) n

-- `range(range_start, range_end + 1)`
unfoldable pub port_range : ℕ → ℕ → List ℕ
unfolding range_from
port_range range_start range_end = range_from range_start (range_end + 1 - range_start)

abbrev pub main_ports : Db → List ℕ
main_ports db = map (λ (a : App). a.local_port) db.apps

abbrev pub mapped_ports : List PortRow → List ℕ
mapped_ports rows = map (λ (m : PortRow). m.host_port) rows

-- The first candidate that is not used and can be bound.
unfoldable pub first_free : Host → List ℕ → List ℕ → Option ℕ
first_free h used candidates = find? (λ p. not (contains p used) && port_is_bindable h p) candidates

abbrev pub or_no_free : ℕ → ℕ → Option ℕ → Result ℕ
or_no_free range_start range_end none = err (no_free_port range_start range_end)
or_no_free range_start range_end (some port) = ok port

unfoldable pub allocate_port : Host → Db → ℕ → ℕ → Result ℕ
unfolding first_free port_range
allocate_port h db range_start range_end = or_no_free range_start range_end (
    first_free h (main_ports db ++ mapped_ports db.app_port_mappings)
      (port_range range_start range_end))

-- `exclude_app_id` is set and not empty.
is_excluded : Option Text → Text → Bool
is_excluded none app_id = false
is_excluded (some excluded) app_id = not (excluded == []) && excluded == app_id

-- `row["app_id"] != exclude_app_id`, where None is no app's id.
is_other : Option Text → Text → Bool
is_other none app_id = true
is_other (some excluded) app_id = not (app_id == excluded)

-- The mappings of other apps: all of them where no app is excluded.
unfoldable pub other_mappings : Option Text → Db → List PortRow
unfolding is_excluded
other_mappings exclude_app_id db =
    filter (λ m. not (is_excluded exclude_app_id m.app_id)) db.app_port_mappings

-- The join with `apps`: the mapping's app is there.
has_app : Db → PortRow → Bool
has_app db m = any (λ (a : App). a.app_id == m.app_id) db.apps

abbrev name_or_empty : Option App → Text
name_or_empty none = []
name_or_empty (some a) = a.name

app_name_of : Db → Text → Text
app_name_of db app_id = name_or_empty (find? (λ a. a.app_id == app_id) db.apps)

-- The test of the mappings and of the host.
check_mappings : Host → Db → ℕ → Option Text → Option UsedBy
unfolding has_app app_name_of other_mappings
check_mappings h db port exclude_app_id =
    elim (find? (λ m. m.host_port == port && has_app db m) (other_mappings exclude_app_id db)) [
      | some m ↦ some (port_mapping (app_name_of db m.app_id) m.label)
      | none ↦ if port_is_bindable h port then none else some host_service
    ]

-- `None` for a port that is available, else who uses it.
unfoldable pub check_port_available : Host → Db → ℕ → Option Text → Option UsedBy
unfolding check_mappings is_other
check_port_available h db port exclude_app_id =
    let mapped = check_mappings h db port exclude_app_id in
    elim (find? (λ a. a.local_port == port) db.apps) [
      | none ↦ mapped
      | some a ↦ if is_other exclude_app_id a.app_id then some (main_port a.name) else mapped
    ]

unfoldable pub find_free_host_port : Host → Db → ℕ → ℕ → List ℕ → Option Text → Result ℕ
unfolding first_free port_range other_mappings
find_free_host_port h db range_start range_end claimed exclude_app_id =
    or_no_free range_start range_end (
      first_free h (main_ports db ++ (mapped_ports (other_mappings exclude_app_id db) ++ claimed))
        (h.shuffle (port_range range_start range_end)))

-- The ports that are claimed and the mappings that are resolved so far.
pub record Batch : Type 0 where
  pub claimed : List ℕ
  pub resolved : List PortMapping

-- A mapping joins the batch.
abbrev pub claim : Batch → PortMapping → Batch
claim b pm = record { claimed = pm.host_port ∷ b.claimed; resolved = b.resolved ++ pm ∷ [] }

-- One round of the first pass, for a mapping with a port of its own.
claim_fixed : Host → Db → Option Text → PortMapping → Batch → Result Batch
unfolding check_port_available
claim_fixed h db exclude_app_id pm b =
    elim (check_port_available h db pm.host_port exclude_app_id) [
      | some used_by ↦ err (in_use pm.host_port pm.label used_by)
      | none ↦
          if contains pm.host_port b.claimed
          then err (requested_twice pm.host_port)
          else ok (claim b pm)
    ]

unfoldable pub first_pass : Host → Db → Option Text → List PortMapping → Batch → Result Batch
unfolding claim_fixed
first_pass h db exclude_app_id [] b = ok b
first_pass h db exclude_app_id (pm ∷ mappings) b =
    (if pm.host_port == 0 then ok b else claim_fixed h db exclude_app_id pm b)
    >>= first_pass h db exclude_app_id mappings

-- One round of the second pass, for a mapping without one.
assign : Host → Db → ℕ → ℕ → Option Text → PortMapping → Batch → Result Batch
unfolding find_free_host_port
assign h db range_start range_end exclude_app_id pm b =
    find_free_host_port h db range_start range_end b.claimed exclude_app_id >>= λ assigned.
    ok (claim b (record pm { host_port = assigned }))

unfoldable pub second_pass :
    Host → Db → ℕ → ℕ → Option Text → List PortMapping → Batch → Result Batch
unfolding assign
second_pass h db range_start range_end exclude_app_id [] b = ok b
second_pass h db range_start range_end exclude_app_id (pm ∷ mappings) b =
    (if pm.host_port == 0 then assign h db range_start range_end exclude_app_id pm b else ok b)
    >>= second_pass h db range_start range_end exclude_app_id mappings

unfoldable pub resolve_port_mappings :
    Host → Db → ℕ → ℕ → Option Text → List PortMapping → Result (List PortMapping)
unfolding first_pass second_pass
resolve_port_mappings h db range_start range_end exclude_app_id mappings =
    first_pass h db exclude_app_id mappings (record { claimed = []; resolved = [] }) >>= λ fixed.
    second_pass h db range_start range_end exclude_app_id mappings fixed >>= λ done.
    ok done.resolved
