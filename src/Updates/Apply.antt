-- ===== src/Updates/Apply.antt =====
-- openhost_system_agent/src/openhost_system_agent: the walk of an update. update.py (apply_update)
-- takes the first step and stops the router, and apply_after_checkout.py takes the others, each with the
-- code of the commit that is checked out: here that code is this one. systemd, pixi and the migrations
-- are parameters (`Programs`), and the log takes every append.
use aerosol.Prelude.{
  ℕ, zero, suc, if◌then◌else◌, ◌&&◌, Bool, true, false, Option, none, some, List, is_empty, is_some,
  not, Text, codes,
}
use aerosol.Prelude.Outcome.{ok, err}
use aerosol.Updates.{
  Git, Clone, Failure, fetch_failed, unresolved_ref, uncommitted_changes, no_tags, stop_failed,
  checkout_failed, clean_failed, migrations_failed, install_failed, start_failed, get_sorted_tags,
  get_target_ref, resolve_ref_sha, next_step,
}
use aerosol.Updates.Progress.{Line, failed_phase, restarting_phase, record_entry}

-- The host during an update.
pub record Machine : Type 0 where
  pub git : Git
  pub repo : Clone
  pub log : List Line
  pub router_up : Bool
  pub updater_up : Bool

-- What the host's other programs do: git fetch, the git checkout of a commit, which leaves the tree where it fails, and
-- git clean; systemd-run for the updater, systemctl stop and restart, and the migrations and the `pixi install` of a commit.
pub record Programs : Type 0 where
  pub fetch : Git → Option Git
  pub checkout_ok : Text → Bool
  pub clean_ok : Bool
  pub launch_ok : Bool
  pub stop_ok : Bool
  pub restart_ok : Bool
  pub migrate_ok : Text → Bool
  pub install_ok : Text → Bool

-- A step ends the walk on its destination, hands over to the code of the next commit, or raises.
pub data StepEnd : Type 0 where
  arrived : StepEnd
  handed_over : StepEnd
  raised : Failure → StepEnd

unfoldable pub note : Text → Option Text → Machine → Machine
unfolding record_entry
note phase ref host = record host { log = (record_entry true phase ref host.log).0 }

-- `except BaseException`: a last entry for the page, and on with the exception.
unfoldable pub fail : Failure → Machine → Machine × StepEnd
unfolding note
fail failure host = (note failed_phase none host, raised failure)

-- `git checkout` of the resolved commit, and `git clean`. A ref that does not resolve is no ref
-- that git could check out.
unfoldable pub check_out : Programs → Text → Machine → Machine × StepEnd
unfolding note fail resolve_ref_sha
check_out programs ref host =
    let noted = note (codes "checkout") (some ref) host in
    elim (resolve_ref_sha host.git ref) [
      | none ↦ fail (unresolved_ref ref) noted
      | some sha ↦
          let there = record noted { repo = record host.repo { head = sha } } in
          if not (programs.checkout_ok sha)
          then fail checkout_failed noted
          else if programs.clean_ok
          then (there, handed_over)
          else fail clean_failed there
    ]

-- The updater answers during the downtime, and is stopped again where the router does not stop.
unfoldable pub launch_updater : Programs → Machine → Machine
launch_updater programs host = record host { updater_up = programs.launch_ok }

unfoldable pub leave_service : Programs → Option Text → Machine → Machine × StepEnd
unfolding launch_updater check_out fail
leave_service programs step host =
    let covered = launch_updater programs host in
    if programs.stop_ok
    then elim step [
      | none ↦ (record covered { router_up = false }, handed_over)
      | some ref ↦ check_out programs ref (record covered { router_up = false })
    ]
    else fail stop_failed (record covered { updater_up = false })

-- What follows the fetch.
unfoldable pub preflight : Programs → Machine → Machine × StepEnd
unfolding get_sorted_tags get_target_ref next_step leave_service fail
preflight programs host =
    if is_empty (get_sorted_tags host.git) && not (is_some (get_target_ref host.repo))
    then fail no_tags host
    else elim (next_step host.git host.repo) [
      | err failure ↦ fail failure host
      | ok step ↦ leave_service programs step host
    ]

unfoldable pub apply_update : Programs → Machine → Machine × StepEnd
unfolding preflight note fail
apply_update programs host =
    if host.repo.is_dirty then fail uncommitted_changes host else elim (programs.fetch host.git) [
      | none ↦ fail fetch_failed (note (codes "fetch") none host)
      | some git ↦ preflight programs (record (note (codes "fetch") none host) { git = git })
    ]

unfoldable pub start_openhost : Programs → Machine → Machine × StepEnd
unfolding note fail
start_openhost programs host =
    let noted = note restarting_phase none host in
    if programs.restart_ok
    then (record noted { router_up = true }, arrived)
    else fail start_failed noted

-- After the migrations and the installation.
unfoldable pub go_on : Programs → Machine → Machine × StepEnd
unfolding next_step check_out start_openhost fail
go_on programs host = elim (next_step host.git host.repo) [
  | err failure ↦ fail failure host
  | ok (some ref) ↦ check_out programs ref host
  | ok none ↦ start_openhost programs host
]

-- `_apply` under `main`: migrations, dependencies, and the next ref.
unfoldable pub apply_checkout : Programs → Machine → Machine × StepEnd
unfolding note fail go_on
apply_checkout programs host =
    let migrating = note (codes "migrate") none host in
    let installing = note (codes "install") none migrating in
    if programs.migrate_ok host.repo.head
    then (if programs.install_ok host.repo.head
        then go_on programs installing
        else fail install_failed installing)
    else fail migrations_failed migrating

-- The chain of `os.execv`: none where the fuel does not reach the end of the walk.
unfoldable pub walk : Programs → ℕ → Machine → Machine × Option StepEnd
unfolding apply_checkout
walk programs zero host = (host, none)
walk programs (suc fuel) host =
    let (next, end) = apply_checkout programs host in
    elim end [
      | handed_over ↦ walk programs fuel next
      | arrived ↦ (next, some arrived)
      | raised failure ↦ (next, some (raised failure))
    ]

-- The whole of an update: its first step, and the walk that it hands over to.
unfoldable pub update : Programs → ℕ → Machine → Machine × Option StepEnd
unfolding apply_update walk
update programs fuel host =
    let (next, end) = apply_update programs host in
    elim end [
      | handed_over ↦ walk programs fuel next
      | arrived ↦ (next, some arrived)
      | raised failure ↦ (next, some (raised failure))
    ]
