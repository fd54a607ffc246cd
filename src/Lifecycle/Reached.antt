-- ===== src/Lifecycle/Reached.antt =====
-- compute_space/src/compute_space/core/apps.py: what holds of the database and the containers after any
-- sequence of installations, deployments, launches and removals.
use aerosol.Prelude.{
  ℕ, nat_eq, list_eq, ◌<◌, ◌≡◌, ◌≢◌, Bool, true, Option, none, List, [], Distinct, Text,
}
use aerosol.Prelude.Outcome.{Outcome, ok}
use aerosol.Db.{Db}
use aerosol.Ports.{Host, PortError}
use aerosol.Ports.Labels.{mapping_labels}
use aerosol.Ports.Resolve.{Shuffles}
use aerosol.Lifecycle.{AppManifest, validate_manifest, insert_and_deploy}
use aerosol.Lifecycle.Launch.{
  Runtime, Launch, Build, run_app_image, deploy_app_background, remove_app_background,
}
use aerosol.Lifecycle.Reloading.{claim_stop_and_reload, claim_stop_and_reload-IsWell}
use aerosol.Lifecycle.Orphans.{Obeys, run_app_image-obeyed}
use aerosol.Lifecycle.Preserved.{run_app_image-Keeps, deploy_app_background-Keeps}
use aerosol.Lifecycle.Installed.{IsInstalled, insert_and_deploy-InstallsWell}
use aerosol.Lifecycle.Deployed.{deploy-IsTracked}
use aerosol.Lifecycle.Removed.{remove-IsTracked, remove-Keeps}
use aerosol.Lifecycle.Keyed.{insert_and_deploy-IsKeyed}
use aerosol.Lifecycle.Reloaded.{IsSteady, IsSteady-IsStable, delete_app-IsSteady}
use aerosol.Lifecycle.Retracked.{IsWell, IsLabelled}

-- One operation on the apps.
pub data Step (digest : Text → Text) (h : Host) : Runtime → Runtime → Type 0 where
  install :
      (low : Bool) (range_start range_end : ℕ) (overrides : List (Text × ℕ)) (draws : List Text)
      (now : ℕ) (manifest : AppManifest) (app_name app_id : Text) (rt : Runtime) (after : Db)
      → 0 < range_start
      → Distinct (mapping_labels manifest.port_mappings)
      → validate_manifest app_name rt.db ≡ none
      → insert_and_deploy h low range_start range_end overrides draws now manifest app_name rt.db
        ≡ ok (after, app_id)
      → Step digest h rt (record rt { db = after })
  deploy :
      (app_id : Text) (manifest : AppManifest) (low : Bool) (attempts : List Build)
      (launch : Launch) (rt : Runtime)
      → Obeys launch
      → Step digest h rt (deploy_app_background digest app_id manifest low attempts launch rt)
  relaunch :
      (app_id : Text) (manifest : AppManifest) (launch : Launch) (rt : Runtime)
      → Obeys launch
      → Step digest h rt (run_app_image digest app_id manifest launch rt).0
  reload :
      (describe : PortError → Text) (range_start range_end : ℕ) (app_id : Text)
      (continue_oauth : Bool) (refreshed : Option Text) (parsed : Outcome Text AppManifest)
      (low : Bool) (attempts : List Build) (launch : Launch) (rt : Runtime)
      → 0 < range_start
      → app_id ≢ []
      → Obeys launch
      → IsLabelled parsed
      → Step digest h rt (
          claim_stop_and_reload digest describe h range_start range_end app_id continue_oauth true
            refreshed parsed low attempts launch rt)
  remove : (app_id : Text) (rt : Runtime) → Step digest h rt (remove_app_background app_id true rt)

pub data Reach (digest : Text → Text) (h : Host) : Runtime → Runtime → Type 0 where
  here : (rt : Runtime) → Reach digest h rt rt
  next :
      (rt mid last : Runtime)
      → Step digest h rt mid
      → Reach digest h mid last
      → Reach digest h rt last

module _ (digest : Text → Text) (h : Host) (shuffles : Shuffles h) where
  Step-IsWell : (rt after : Runtime) → Step digest h rt after → IsWell rt → IsWell after
  Step-IsWell rt last
        (install low start end overrides draws now manifest app_name app_id r after positive
          labelled named e)
        well =
      let good =
        insert_and_deploy-InstallsWell h low start end overrides draws now manifest app_name r.db
          well.steady.sound named in
      let installed : IsInstalled app_id app_name manifest r.db after = rw e at good in
      record {
        steady = record {
          sound = installed.sound;
          keyed =
              insert_and_deploy-IsKeyed h low start end overrides draws now manifest app_name r.db
                after app_id shuffles positive labelled well.steady.sound.consistent
                well.steady.keyed e;
        };
        tracked = λ c m.
            let (a, listed, holds) = well.tracked c m in (a, installed.others a listed, holds);
      }
  Step-IsWell rt last (deploy app_id manifest low attempts launch r obeys) well = record {
    steady =
        deploy_app_background-Keeps IsSteady IsSteady-IsStable app_id digest manifest launch low
          attempts r well.steady;
    tracked =
        deploy-IsTracked digest app_id manifest launch low attempts r well.steady.sound.keys obeys
          well.tracked;
  }
  Step-IsWell rt last (relaunch app_id manifest launch r obeys) well = record {
    steady =
        run_app_image-Keeps IsSteady IsSteady-IsStable app_id digest manifest launch r well.steady;
    tracked =
        run_app_image-obeyed digest app_id manifest launch r well.steady.sound.keys obeys
          well.tracked;
  }
  Step-IsWell rt last (remove app_id r) well = record {
    steady =
        remove-Keeps app_id r well.steady.sound.keys well.tracked IsSteady well.steady
          (delete_app-IsSteady app_id r.db well.steady);
    tracked = remove-IsTracked app_id r well.steady.sound.keys well.tracked;
  }
  Step-IsWell rt last
        (reload describe start end app_id continue_oauth refreshed parsed low attempts launch r
          positive named obeys labelled)
        well =
      claim_stop_and_reload-IsWell digest describe h start end app_id shuffles positive named launch
        obeys continue_oauth refreshed parsed low attempts r labelled well

  -- After any sequence of installations, deployments, launches, whole reloads (the claim, the stop and the worker), and
  -- removals, one after the other, the ids, names and ports of the apps are distinct, every port mapping has its app, no
  -- host port and no label of an app is mapped twice, and every container that runs is held by the row of its app,
  -- whatever the builds and the apps did on the way, and wherever a port could not be had. This is so as long as podman
  -- does what it is told: each reload and removal stops its container, `podman rm` removes what it is given, and a run
  -- that raises leaves nothing. A shuffle keeps its candidates, the ranges of ports start above 0, and the labels of each
  -- manifest are different.
  pub Reach-IsWell : (rt last : Runtime) → Reach digest h rt last → IsWell rt → IsWell last
  Reach-IsWell rt last (here r) well = well
  Reach-IsWell rt last (next r mid l step rest) well =
      Reach-IsWell mid last rest (Step-IsWell r mid step well)
