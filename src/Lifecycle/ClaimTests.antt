-- ===== src/Lifecycle/ClaimTests.antt =====
-- Requests for the wiki of the small configuration, one after the other.
use aerosol.Prelude.{
  nat_eq, list_eq, ◌≡◌, refl, true, false, none, some, List, [], ◌∷◌, codes, evaluation,
}
use aerosol.Db.{status_beq}
use aerosol.Domains.Tests.{wiki, space}
use aerosol.Lifecycle.{update_app}
use aerosol.Lifecycle.Launch.{find_app}
use aerosol.Lifecycle.Claims.{
  AppRequest, to_reload, to_stop, to_remove, fetched, fetch_failed, reload_started,
  already_reloading, update_failed, app_stopped, stop_broken_off, removal_started, already_removing,
  claim_rows, claim_reload, fetch_and_claim, reload_app_impl, claim_removal, remove_app, stop_app,
  respond, respond_all,
}

abbrev plain : AppRequest
plain = to_reload false false false fetched (some wiki)

abbrev requests : List AppRequest
requests =
    plain
    ∷ plain
    ∷ to_stop true
    ∷ plain
    ∷ to_stop false
    ∷ plain
    ∷ to_reload true false false (fetch_failed (codes "x")) (some wiki)
    ∷ plain
    ∷ to_reload false true false fetched (some wiki)
    ∷ to_remove false none
    ∷ to_remove false none
    ∷ []

replies :
    (respond_all wiki.app_id requests space).1
    ≡ reload_started ∷ already_reloading ∷ stop_broken_off ∷ already_reloading ∷ app_stopped
      ∷ reload_started ∷ update_failed ∷ reload_started ∷ reload_started ∷ removal_started
      ∷ already_removing ∷ []
unfolding status_beq update_app find_app claim_rows claim_reload fetch_and_claim reload_app_impl
    claim_removal remove_app stop_app respond respond_all evaluation
replies = refl
