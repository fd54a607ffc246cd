-- ===== src/Routing/Tests.antt =====
-- Requests to a small configuration.
use aerosol.Prelude.{◌≡◌, refl, inl, inr, true, false, some, none, arith, codes, evaluation}
use aerosol.Domains.{match}
use aerosol.Domains.Tests.{space, wiki, host}
use aerosol.Routing.{get_app_from_hostname, is_public_path}
use aerosol.Routing.Hosts.{IsHostOf, get_app_from_hostname_sound, get_app_from_hostname_complete}

model : Unit {0}
unfolding get_app_from_hostname is_public_path match evaluation
model = tt

requests :
    (get_app_from_hostname space (codes "WIKI.host.example.com:443") ≡ some wiki)
    × (get_app_from_hostname space (codes "host.example.com") ≡ none)
    × (get_app_from_hostname space (codes "a.wiki.example.com") ≡ none)
    × (is_public_path wiki (codes "/public/x") ≡ true)
    × (is_public_path wiki (codes "/publicx") ≡ false)
unfolding model
requests = (refl, refl, refl, refl, refl)

get_app_from_hostname_sound_example : IsHostOf space (codes "wiki.example.com") wiki
unfolding model
get_app_from_hostname_sound_example =
    get_app_from_hostname_sound space (codes "wiki.example.com") wiki refl

get_app_from_hostname_complete_example :
    get_app_from_hostname space (codes "wiki.host.example.com") ≡ some wiki
unfolding model
get_app_from_hostname_complete_example =
    get_app_from_hostname_complete space (codes "wiki.host.example.com") host wiki (ground arith)
      (inl refl) (ground arith) (inr (inl refl)) (cc) refl (ground arith)
