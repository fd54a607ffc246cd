-- ===== src/Lib.antt =====
-- Aerosol (Cloud in a Bottle, OpenHost): the router of a personal server. It routes requests by hostname
-- to apps in containers, gives the apps ports, services and permissions, and keeps its state in one
-- SQLite database. These files model the logic of compute_space/src/compute_space on that state.
--
-- Prelude       what the modules share: tests and conditionals, lists, texts (code points), tables
--               with UPDATE, DELETE and their row counts, sorting.
-- AppId         core/app_id.py: the names of apps, and ids in base 58.
-- Db            db/schema.sql: the tables as lists of rows, with the columns that the code uses.
-- Domains       core/domains.py: the domains of the instance. A host is matched to the longest domain
--               that owns it; one domain is primary, and promoting another restarts the apps.
-- Routing       core/apps.py (find_app_by_name, get_app_from_hostname, is_public_path): the app of a host.
-- Ports         core/ports.py: the host ports of apps and of their mappings, and the part of core/apps.py
--               (insert_and_deploy) that takes the ports of a new app.
-- Migrations    db/versioned/runner.py and base.py: the upgrade of the database on start.
-- Services      core/service_interface: the providers of a service, its default, and who serves a call.
-- Permissions   core/auth/permissions_v2.py, and the diffs of core/manifest.py: what apps may do, and what an
--               update has to ask for.
-- Manifest      core/manifest.py: the validators of ports, capabilities, devices and links, on the values that
--               tomllib reads.
-- Auth          core/auth/auth.py, web/auth/auth.py and web/middleware/subdomain_proxy.py: sessions and tokens,
--               the checks of owner and app, and where a request goes.
-- Guard         core/storage.py: the guard that stops apps when the disk is full.
-- Guards        core/memory_guard.py and core/image_pruner.py: the warnings about apps near their memory limit,
--               and the sweep of the images of apps that are gone, by id, so with every tag that has the id.
-- Lifecycle     core/apps.py (insert_and_deploy, run_app_image, deploy_app_background, stop_app_process,
--               start_app_process, reload_app_background, remove_app_background): an app from its installation
--               to its removal, on the database and on what podman has running; and web/routes/api/apps.py
--               (stop_app, reload_app, remove_app): the requests that claim an app.
-- Updates       openhost_system_agent/src/openhost_system_agent (update.py, apply_after_checkout.py,
--               updater/progress.py): the update of the server, one release tag after the other, and the log of
--               it that a page polls.
-- HostMigrations  migrations/ and status.py of the same package: the migrations of the host, their log as lines
--               of JSON, and the status that is shown.
--
-- A function on the database takes a `Db`, or the one table that it uses, and answers with the new one and a
-- result; an exception is a constructor of the result, and a ROLLBACK gives the old state. A transaction is one step.
-- Rows that SQLite may give in any order come in the order of the list, which the theorems leave open. A table's
-- keys and foreign keys are hypotheses where a theorem needs them (Ports.Free.IsConsistent,
-- Domains.Primary.IsSeeded). Texts are lists of code points; lower() and isdigit() are those of ASCII.
--
-- Parameters stand for what is not in this repository, or is I/O: the host's sockets and random.shuffle
-- (Ports.Host), the library `packaging` (Services.Packaging), the tables and the bodies of the migrations,
-- the random number of an id, the free disk space, and in Auth the hash, the clock, urlparse and the
-- tokens drawn. The parser of a manifest is a parameter of the permission diff. The text of a grant,
-- json.dumps with sorted keys, is represented by the value with its keys sorted.
--
-- In Lifecycle, git, the build and podman are values that say how each of their calls ends: whether `podman rm` has
-- removed the container of a name, whether a `podman run` that takes too long has left one, and how the stop of a
-- container ends (Launch.StopEnd). A worker in the background is one step; so is a whole reload in Reached, from its claim
-- to the end of its worker (Reloading). In Claims the requests for an app come in any order while its workers go on, and a
-- reload uses a row that it has read earlier. In Updates a `Clone` says what git knows (tags, ancestors, refs), and
-- `Programs` what git, pixi and the migrations do when they are called; a step that loads the code of the next
-- release is taken to load this code. In Ports a port is below 65536, since `bind` raises for others. Writes of logs succeed. In HostMigrations json is an interface, JsonCodec;
-- a line that is JSON of another kind is left out.
--
-- Almost all functions are structural recursions. `Updates.Apply.walk` has fuel, one for each step of the update,
-- and Updates.FirstStep shows that two more than there are releases is enough. The loop that mints an
-- unused id runs through the ids that are drawn, and answers none where they are used up.
--
-- Not modelled: HTTP and the pages, the command lines of podman and git, the archive backend, certificates and
-- DNS, the bodies of migrations, the command-line tools, and the bundled apps.
pub mod Prelude
pub mod AppId
pub mod Db
pub mod Domains
pub mod Routing
pub mod Ports
pub mod Migrations
pub mod Services
pub mod Permissions
pub mod Manifest
pub mod Auth
pub mod Guard
pub mod Updates
pub mod HostMigrations
pub mod Lifecycle
pub mod Guards
