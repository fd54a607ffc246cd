-- ===== src/Lifecycle/Tests.antt =====
-- The wiki of the small configuration, launched and deployed, and a second app beside it.
use aerosol.Prelude.{
  ℕ, if◌then◌else◌, List, Distinct, ap, sym, ◌∙◌, ◌≢◌, arith, nat_eq, list_eq, ◌≡◌, refl, inl, inr,
  Bool, true, false, none, some, [], ◌∷◌, Text, codes, evaluation,
}
use aerosol.Prelude.Outcome.{Outcome, ok, err}
use aerosol.Db.{PortRow, Db, running, error, status_beq}
use aerosol.AppId.{is_valid_app_name}
use aerosol.Domains.Tests.{wiki, space}
use aerosol.Ports.{
  Host, port_is_bindable, range_from, port_range, first_free, allocate_port, first_pass,
  second_pass, resolve_port_mappings, PortMapping, PortError, other_mappings, find_free_host_port,
  check_port_available,
}
use aerosol.Ports.Install.{install_ports, apply_overrides}
use aerosol.Services.{register_services_provided_by_app, replace_providers}
use aerosol.Lifecycle.{
  AppManifest, validate_manifest, has_app_id, mint_unique_app_id, with_manifest, new_app, port_row,
  insert_rows_of, insert_and_deploy, update_app, mark_app_starting, delete_app,
}
use aerosol.Lifecycle.Launch.{
  Runtime, Launch, gone, stop_raised, built, build_failed, leave_running, find_app, put_token,
  record_failure, prepare, remove_stale, set_container, stop_container, clean_up, finish, start,
  run_app_image, build_image, build_then_run_app, caught, start_app_process, deploy_app_background,
  stop_app_process, remove_app_background,
}
use aerosol.Lifecycle.Reload.{
  existing_row, removed_labels, delete_labels, keep_host_port, upsert, upsert_all, without_removed,
  sync_port_mappings, take_manifest, reload_from, reload_app_background,
}
use aerosol.Lifecycle.Sync.{SyncResult, sync_port_mappings-SyncResult}
use aerosol.Ports.Free.{IsConsistent}
use aerosol.Ports.Labels.{mapping_labels}
use aerosol.Lifecycle.Rows.{RowsAre}
use aerosol.Lifecycle.Settled.{Reflects, Deploys, deploy_app_background-Reflects}
use aerosol.Lifecycle.Tracked.{IsTracked, IsTrackedBut}
use aerosol.Lifecycle.Orphans.{HasKeys, Obeys, OneName, IsLost, run_app_image-IsTracked}
use aerosol.Lifecycle.Installed.{IsSound, InstallsWell, insert_and_deploy-InstallsWell}
use aerosol.Lifecycle.Claims.{claim_rows}
use aerosol.Lifecycle.Reloading.{claim_stop_and_reload}
use aerosol.Lifecycle.Reached.{Reach, here, next, deploy, reload, remove, Reach-IsWell}
use aerosol.Lifecycle.Retracked.{IsWell}
use aerosol.Lifecycle.Mapped.{IsKeyed, IsKeyed-made}
use aerosol.Ports.Resolve.{Shuffles}

-- What the tests compute with.
model : Unit {0}
unfolding is_valid_app_name port_is_bindable range_from port_range first_free allocate_port
    first_pass second_pass resolve_port_mappings apply_overrides install_ports replace_providers
    register_services_provided_by_app validate_manifest has_app_id mint_unique_app_id with_manifest
    new_app insert_rows_of insert_and_deploy update_app mark_app_starting delete_app find_app
    put_token record_failure prepare remove_stale set_container stop_container clean_up finish start
    run_app_image build_image build_then_run_app caught deploy_app_background stop_app_process
    remove_app_background existing_row removed_labels delete_labels keep_host_port upsert upsert_all
    without_removed other_mappings find_free_host_port sync_port_mappings check_port_available
    take_manifest reload_from reload_app_background start_app_process leave_running claim_rows
    claim_stop_and_reload status_beq evaluation
model = tt

abbrev manifest : AppManifest
manifest = record {
  name = codes "wiki";
  port_mappings = [];
  provides = [];
  public_paths = [];
  raw_toml = codes "[app]";
}

abbrev launch : Outcome Text Bool → Bool → Launch
launch ready stops = record {
  env_vars = ok (some (codes "t"));
  stale_removed = true;
  run_container = ok (codes "c2");
  left_running = none;
  wait_for_ready = ready;
  stop = if stops then gone else stop_raised false;
}

abbrev rt : Runtime
rt = record {
  db = space;
  app_tokens = [];
  containers = record { app_name = codes "wiki"; container_id = codes "c1" } ∷ [];
}

abbrev own_id : Text
own_id = codes "111111111122"

abbrev digest : Text → Text
digest text = text

abbrev host : Host
host = record { tcp_bindable = λ p. true; udp_bindable = λ p. true; shuffle = λ l. l }

abbrev deployed : Runtime
deployed =
    deploy_app_background digest own_id manifest false (built ∷ []) (launch (ok true) true) rt

abbrev crashed : Runtime
crashed = (run_app_image digest own_id manifest (launch (err (codes "x")) false) rt).0

runs :
    (deployed.db.apps ≡ record wiki { container_id = some (codes "c2"); status = running } ∷ [])
    × (deployed.containers ≡ record { app_name = codes "wiki"; container_id = codes "c2" } ∷ [])
    × (crashed.db.apps
        ≡ record wiki {
          container_id = some (codes "c2");
          status = error;
          error_message = some (codes "x");
        }
          ∷ [])
    × ((remove_app_background own_id true rt).containers ≡ [])
    × (build_image 3 (build_failed (codes "a") ∷ build_failed (codes "b") ∷ built ∷ []) ≡ none)
unfolding model
runs = (refl, refl, refl, refl, refl)

keys : HasKeys space
keys = record { ids = ((λ m. m), tt); names = ((λ m. m), tt) }

tracked : IsTracked rt
tracked c (inl e) = (wiki, inl refl, (rw (← e) refl, rw (← e) refl))
tracked c (inr m) = elim m [ ]

sound : IsSound space
sound = record {
  keys = keys;
  consistent = record { distinct = ((λ m. m), tt); linked = λ m n. elim n [ ] };
}

deploy_app_background-Reflects_example :
    RowsAre own_id (Reflects (Deploys false (built ∷ []) (launch (ok true) true))) deployed.db
deploy_app_background-Reflects_example =
    deploy_app_background-Reflects digest own_id manifest false (built ∷ []) (launch (ok true) true)
      rt

-- A launch that starts no container, and that podman does not clear for.
abbrev blocked : Launch
blocked = record (launch (ok true) true) {
  stale_removed = false;
  run_container = err (codes "in use");
}

one_name : OneName own_id blocked rt
one_name = record { refuses = λ kept container_id e. cc }

-- The old container runs, and the row does not name it.
lost :
    ((run_app_image digest own_id manifest blocked rt).0.db.apps
      ≡ record wiki { container_id = none; status = error; error_message = some (codes "in use") }
        ∷ [])
    × ((run_app_image digest own_id manifest blocked rt).0.containers ≡ rt.containers)
unfolding model
lost = (refl, refl)

run_app_image-IsTracked_example :
    IsTrackedBut (IsLost own_id blocked rt) (run_app_image digest own_id manifest blocked rt).0
run_app_image-IsTracked_example =
    run_app_image-IsTracked digest own_id manifest blocked rt keys one_name tracked

name_free : validate_manifest (codes "blog") space ≡ none
unfolding model
name_free = refl

insert_and_deploy-InstallsWell_example :
    InstallsWell host false 9000 9999 [] (own_id ∷ codes "2" ∷ []) 7 manifest (codes "blog") space (
      insert_and_deploy host false 9000 9999 []
        (own_id ∷ codes "2" ∷ [])
        7
        manifest
        (codes "blog")
        space)
insert_and_deploy-InstallsWell_example =
    insert_and_deploy-InstallsWell host false 9000 9999 [] (own_id ∷ codes "2" ∷ []) 7 manifest
      (codes "blog") space sound name_free

shuffles : Shuffles host
shuffles l p m = m

own_id_named : own_id ≢ []
own_id_named e = cc

keyed : IsKeyed space.app_port_mappings
keyed = record {
  labels = λ m n p q. elim p [ ];
  ports = λ m n p q. elim p [ ];
  positive = λ m p. elim p [ ];
}

abbrev mapping : Text → ℕ → ℕ → PortMapping
mapping label container_port host_port = record {
  label = label;
  container_port = container_port;
  host_port = host_port;
}

abbrev asked : List PortMapping
asked = mapping (codes "web") 81 0 ∷ mapping (codes "dns") 53 9200 ∷ mapping (codes "x") 7 0 ∷ []

abbrev had : List PortMapping
had = mapping (codes "web") 80 9100 ∷ mapping (codes "old") 25 9101 ∷ []

-- The wiki with two mappings.
abbrev ported : Db
ported = record space {
  app_port_mappings =
      port_row own_id (mapping (codes "web") 80 9100)
      ∷ port_row own_id (mapping (codes "old") 25 9101)
      ∷ [];
}

synced_rows :
    (sync_port_mappings host 9001 9300 own_id asked ported).0.app_port_mappings
    ≡ port_row own_id (mapping (codes "web") 81 9100)
      ∷ port_row own_id (mapping (codes "dns") 53 9200)
      ∷ port_row own_id (mapping (codes "x") 7 9001)
      ∷ []
unfolding model
synced_rows = refl

ported-IsConsistent : IsConsistent ported
ported-IsConsistent = record {
  distinct = ((λ m. m), tt);
  linked = λ m n. elim n [
    | inl e ↦ (wiki, inl refl, ap (λ (r : PortRow). r.app_id) e)
    | inr (inl e) ↦ (wiki, inl refl, ap (λ (r : PortRow). r.app_id) e)
    | inr (inr z) ↦ absurd z
  ];
}

ported-IsKeyed : IsKeyed ported.app_port_mappings
ported-IsKeyed =
    IsKeyed-made own_id had [] ported.app_port_mappings keyed
      (λ b m. elim m [
        | inl e ↦ inr (mapping (codes "web") 80 9100, inl refl, sym e)
        | inr (inl e) ↦ inr (mapping (codes "old") 25 9101, inr (inl refl), sym e)
        | inr (inr z) ↦ absurd z
      ])
      (ground arith) (ground arith) (λ pm m there other listed. absurd listed)
      (λ pm m e. elim m [
        | inl f ↦ let k = ap (λ (r : PortMapping). r.host_port) f ∙ e in ground arith
        | inr (inl f) ↦ let k = ap (λ (r : PortMapping). r.host_port) f ∙ e in ground arith
        | inr (inr z) ↦ z
      ])

asked-Distinct : Distinct (mapping_labels asked)
asked-Distinct = ground arith

sync_port_mappings-SyncResult_example :
    SyncResult host 9001 9300 own_id asked ported shuffles ported-IsConsistent own_id_named
      ported-IsKeyed
      (omega arith)
      asked-Distinct
      (sync_port_mappings host 9001 9300 own_id asked ported)
sync_port_mappings-SyncResult_example =
    sync_port_mappings-SyncResult host 9001 9300 own_id asked ported shuffles ported-IsConsistent
      own_id_named ported-IsKeyed (omega arith) asked-Distinct

abbrev asking : AppManifest
asking = record manifest { port_mappings = asked }

abbrev no_text : PortError → Text
no_text e = []

abbrev good : Launch
good = launch (ok true) true

obeys : Obeys good
obeys = record { removes = refl; clean = refl; stops = λ e. cc }

abbrev reloaded : Runtime
reloaded =
    claim_stop_and_reload digest no_text host 9001 9300 own_id false true none (ok asking) false
      (built ∷ []) good deployed

reloads :
    (reloaded.db.apps
      ≡ record wiki {
        container_id = some (codes "c2");
        status = running;
        public_paths = [];
        manifest_raw = some (codes "[app]");
      }
        ∷ [])
    × (reloaded.containers ≡ deployed.containers)
unfolding model
reloads = (refl, refl)

course : Reach digest host rt (remove_app_background own_id true reloaded)
course = next rt deployed _ (deploy own_id manifest false (built ∷ []) good rt obeys) (
    next deployed reloaded _
      (reload no_text 9001 9300 own_id false none (ok asking) false (built ∷ []) good deployed
        (omega arith) own_id_named obeys asked-Distinct)
      (next reloaded _ _ (remove own_id reloaded) (here _)))

Reach-IsWell_example : IsWell (remove_app_background own_id true reloaded)
Reach-IsWell_example =
    Reach-IsWell digest host shuffles rt (remove_app_background own_id true reloaded) course
      (record { steady = record { sound = sound; keyed = keyed }; tracked = tracked })
