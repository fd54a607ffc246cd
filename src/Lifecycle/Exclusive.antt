-- ===== src/Lifecycle/Exclusive.antt =====
-- compute_space/src/compute_space/web/routes/api/apps.py: which of several requests for one app get through.
use aerosol.Prelude.{ℕ, suc, nat_eq, list_eq, if◌then◌else◌, List, [], ◌∷◌, Text}
use aerosol.Db.{Db}
use aerosol.Lifecycle.Claims.{
  AppRequest, Reply, reload_started, update_failed, app_stopped, removal_started,
  removal_not_started, respond_all,
}
use aerosol.Lifecycle.Taken.{continues}

-- How many of the replies are the start of a reload, or the start of a removal.
unfoldable pub reloads : List Reply → ℕ
reloads [] = 0
reloads (reload_started ∷ replies) = suc (reloads replies)
reloads (_ ∷ replies) = reloads replies

unfoldable pub removals : List Reply → ℕ
removals [] = 0
removals (removal_started ∷ replies) = suc (removals replies)
removals (_ ∷ replies) = removals replies

-- How many of them tell of a status that no claim stands for, and of these how many of an update that failed.
unfoldable pub releases : List Reply → ℕ
releases [] = 0
releases (app_stopped ∷ replies) = suc (releases replies)
releases (update_failed ∷ replies) = suc (releases replies)
releases (removal_not_started ∷ replies) = suc (releases replies)
releases (_ ∷ replies) = releases replies

unfoldable pub failed_updates : List Reply → ℕ
failed_updates [] = 0
failed_updates (update_failed ∷ replies) = suc (failed_updates replies)
failed_updates (_ ∷ replies) = failed_updates replies

-- How many of the requests are reloads that continue after a login.
unfoldable pub continuations : List AppRequest → ℕ
continuations [] = 0
continuations (request ∷ requests) =
    let rest = continuations requests in if continues request then suc rest else rest

module _ (app_id : Text) where
  abbrev replies_to : List AppRequest → Db → List Reply
  replies_to requests db = (respond_all app_id requests db).1
