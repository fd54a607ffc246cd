-- ===== src/Lifecycle/Claims.antt =====
-- compute_space/src/compute_space/web/routes/api/apps.py (stop_app, _reload_app_impl, remove_app): the requests
-- for one app that come while no worker writes. A stop and a removal are one step each; a reload waits for git, and
-- its step is its end, with the row that it has read before.
use aerosol.Prelude.{
  ℕ, nat_eq, list_eq, ◌==◌, if◌then◌else◌, Bool, false, not, ◌&&◌, ◌||◌, Option, none, some, List,
  [], ◌∷◌, count_where, update_where, Text,
}
use aerosol.Db.{App, Db, Status, building, starting, stopped, error, removing, status_beq}
use aerosol.Lifecycle.{update_app}
use aerosol.Lifecycle.Launch.{find_app}

-- What comes of the update before a reload: the code is there; or the owner has to log in at GitHub or to review
-- the changes first; or the status is to say that there is no repository, no secret or no pull.
pub data Fetch : Type 0 where
  fetched postponed : Fetch
  fetch_failed : Text → Fetch

pub data Reply : Type 0 where
  reload_started already_reloading update_failed not_yet app_stopped stop_broken_off removal_started
        already_removing removal_not_started being_removed archive_is_down no_such_app :
      Reply

-- `status NOT IN ('building', 'starting', 'removing')`
abbrev pub is_settled : Status → Bool
is_settled status =
    not (status_beq status building || status_beq status starting || status_beq status removing)

-- An UPDATE of the app's row where its status is as `p` says, and the number of rows that it meets.
unfoldable pub claim_rows : Text → (Status → Bool) → (App → App) → Db → Db × ℕ
claim_rows app_id p change db =
    let meets = λ (a : App). a.app_id == app_id && p a.status in
    (record db { apps = update_where meets change db.apps }, count_where meets db.apps)

abbrev pub reloading : App → App
reloading a = record a { status = building; container_id = none; error_message = none }

abbrev pub in_removal : App → App
in_removal a = record a { status = removing; error_message = none }

abbrev pub halted : App → App
halted a = record a { status = stopped; container_id = none }

abbrev pub is_not_removing : Status → Bool
is_not_removing status = not (status_beq status removing)

abbrev pub as_failed : Text → App → App
as_failed message a = record a { status = error; error_message = some message }

-- The claim of a reload; one that continues after a login starts whatever it meets.
unfoldable pub claim_reload : Bool → Text → Db → Db × Reply
unfolding claim_rows
claim_reload continue_oauth app_id db =
    let (claimed, rowcount) = claim_rows app_id is_settled reloading db in
    (claimed, if rowcount == 0 && not continue_oauth then already_reloading else reload_started)

-- The update before the claim, if one is asked for. A failure is written whatever the status is.
unfoldable pub fetch_and_claim : Bool → Fetch → Text → Db → Db × Reply
unfolding update_app claim_reload
fetch_and_claim continue_oauth fetched app_id db = claim_reload continue_oauth app_id db
fetch_and_claim continue_oauth postponed app_id db = (db, not_yet)
fetch_and_claim continue_oauth (fetch_failed message) app_id db =
    (update_app app_id (as_failed message) db, update_failed)

-- `seen` is the row that the request has read; `archive_down` says that the app needs the archive and it is not there.
unfoldable pub reload_app_impl : Bool → Bool → Bool → Fetch → Option App → Text → Db → Db × Reply
unfolding fetch_and_claim claim_reload
reload_app_impl update continue_oauth archive_down fetch none app_id db = (db, no_such_app)
reload_app_impl update continue_oauth archive_down fetch (some seen) app_id db =
    if status_beq seen.status removing
    then (db, being_removed)
    else if archive_down
    then (db, archive_is_down)
    else if update || continue_oauth
    then fetch_and_claim continue_oauth fetch app_id db
    else claim_reload false app_id db

-- The claim of a removal; `no_worker` is the text where the thread does not start.
unfoldable pub claim_removal : Option Text → Text → Db → Db × Reply
unfolding claim_rows update_app
claim_removal no_worker app_id db =
    let (claimed, rowcount) = claim_rows app_id is_not_removing in_removal db in
    if rowcount == 0 then (claimed, already_removing) else elim no_worker [
      | none ↦ (claimed, removal_started)
      | some message ↦ (update_app app_id (as_failed message) claimed, removal_not_started)
    ]

unfoldable pub remove_app : Bool → Option Text → Text → Db → Db × Reply
unfolding find_app claim_removal
remove_app archive_down no_worker app_id db = elim (find_app app_id db) [
  | none ↦ (db, no_such_app)
  | some row ↦ if archive_down then (db, archive_is_down) else claim_removal no_worker app_id db
]

-- `raises` says that stop_container raises, which the request does not catch.
unfoldable pub stop_app : Bool → Text → Db → Db × Reply
unfolding find_app update_app
stop_app raises app_id db = elim (find_app app_id db) [
  | none ↦ (db, no_such_app)
  | some row ↦
      if status_beq row.status removing
      then (db, being_removed)
      else if raises
      then (db, stop_broken_off)
      else (update_app app_id halted db, app_stopped)
]

-- A request at the step that writes.
pub data AppRequest : Type 0 where
  to_reload : Bool → Bool → Bool → Fetch → Option App → AppRequest
  to_stop : Bool → AppRequest
  to_remove : Bool → Option Text → AppRequest

unfoldable pub respond : Text → AppRequest → Db → Db × Reply
unfolding reload_app_impl remove_app stop_app
respond app_id (to_reload update continue_oauth archive_down fetch seen) db =
    reload_app_impl update continue_oauth archive_down fetch seen app_id db
respond app_id (to_stop raises) db = stop_app raises app_id db
respond app_id (to_remove archive_down no_worker) db = remove_app archive_down no_worker app_id db

-- The requests one after the other.
unfoldable pub respond_all : Text → List AppRequest → Db → Db × List Reply
unfolding respond
respond_all app_id [] db = (db, [])
respond_all app_id (request ∷ requests) db =
    let (next, reply) = respond app_id request db in
    let (last, replies) = respond_all app_id requests next in (last, reply ∷ replies)
