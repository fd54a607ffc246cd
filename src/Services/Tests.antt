-- ===== src/Services/Tests.antt =====
-- A service with two providers, installed one after the other.
use aerosol.Prelude.{
  ◌<◌, ◌≡◌, ◌≢◌, refl, ◌∙◌, ap, leb, length, true, false, not, inl, inr, some, [], ◌∷◌, list_eq,
  nat_eq, ◌==◌, eq_iff, arith, Elem, Text, codes, is_empty, text_ltb, evaluation,
}
use aerosol.Db.{Db, App, ProviderRow, status_beq}
use aerosol.Domains.Tests.{wiki, space}
use aerosol.Services.{
  Packaging, Provided, at_local_port, ok, builtin_by_url, join_apps, provided_rows, oldest,
  ranks_below, max_row, latest, incumbent, incumbent_provider_id, default_provider_id_for_service,
  clear_default, replace_default, set_default, ServiceProvides, replace_provider, replace_providers,
  register_services_provided_by_app, check_version,
}
use aerosol.Services.Calls.{
  resolve_builtin, serve_row, resolve_app, resolve_target, target_of, resolve_provider,
}
use aerosol.Services.Defaults.{IsChosen, set_default-IsChosen}
use aerosol.Services.Incumbent.{IsOrdered}
use aerosol.Services.Stability.{default_provider_id-register}
use aerosol.Services.Resolution.{IsServing, resolve_provider_sound}

-- What the tests compute with.
model : Unit {0}
unfolding builtin_by_url join_apps provided_rows oldest ranks_below max_row latest incumbent
    incumbent_provider_id default_provider_id_for_service clear_default replace_default set_default
    replace_provider replace_providers register_services_provided_by_app check_version
    resolve_builtin serve_row resolve_app resolve_target target_of resolve_provider status_beq
    evaluation
model = tt

-- Versions of one digit, in the order of the digits; a specifier is a version.
abbrev digits : Packaging
digits = record {
  is_version = λ v. not (is_empty v);
  version_le = λ a b. not (text_ltb b a);
  is_specifier = λ s. not (is_empty s);
  satisfies = λ v s. v == s;
}

abbrev forum : App
forum = record wiki {
  app_id = codes "222222222211";
  name = codes "forum";
  local_port = 9001;
  created_at = 8;
}

abbrev search_url : Text
search_url = codes "example.com/search"

abbrev provider_row : Text → Text → ProviderRow
provider_row app_id version = record {
  service_url = search_url;
  app_id = app_id;
  service_version = version;
  endpoint = codes "/v1";
}

abbrev two_apps : Db
two_apps = record space {
  apps = forum ∷ wiki ∷ [];
  service_providers =
      provider_row forum.app_id (codes "2") ∷ provider_row wiki.app_id (codes "1") ∷ [];
}

abbrev wiki_row : Provided
wiki_row = record { provider = provider_row wiki.app_id (codes "1"); app = wiki }

older_wins : default_provider_id_for_service digits [] search_url two_apps ≡ ok (some wiki.app_id)
unfolding model
older_wins = refl

later_version :
    (resolve_provider digits [] search_url (codes "2") two_apps (some forum.app_id))
    ≡ ok (record {
      service_url = search_url;
      app_id = forum.app_id;
      app_name = codes "forum";
      service_version = codes "2";
      endpoint = codes "/v1";
      target = at_local_port 9001;
    })
unfolding model
later_version = refl

-- Versions in the order of their lengths.
abbrev tally : Packaging
tally = record digits { version_le = λ a b. leb (length a) (length b) }

ordered : IsOrdered tally
ordered = record { total = λ a b e. ground arith; transitive = λ a b c e f. ground arith }

set_default-IsChosen_example :
    IsChosen digits [] search_url forum.app_id two_apps
      (set_default [] search_url forum.app_id two_apps)
set_default-IsChosen_example = set_default-IsChosen digits [] search_url forum.app_id two_apps

abbrev new_version : ServiceProvides
new_version = record { service = search_url; version = codes "3"; endpoint = codes "/v3" }

apart : wiki.app_id ≢ forum.app_id
unfolding model
apart e = let differs : false ≡ true = (eq_iff wiki.app_id forum.app_id).1 e in cc differs

default_provider_id-register_example :
    default_provider_id_for_service digits [] search_url
      (register_services_provided_by_app forum.app_id (new_version ∷ []) two_apps)
    ≡ default_provider_id_for_service digits [] search_url two_apps
unfolding model
default_provider_id-register_example =
    default_provider_id-register digits [] forum.app_id search_url (new_version ∷ []) two_apps
      wiki_row (inr (inl refl)) apart only_forum
  where
    only_forum :
        (a : App) → Elem a two_apps.apps → a.app_id ≡ forum.app_id → wiki.created_at < a.created_at
    only_forum a (inl e) same = rw (← e) (omega arith)
    only_forum a (inr (inl e)) same = absurd (apart (ap (λ (x : App). x.app_id) e ∙ same))
    only_forum a (inr (inr z)) same = absurd z

resolve_provider_sound_example :
    IsServing digits [] search_url (codes "2") two_apps (some forum.app_id) (record {
      service_url = search_url;
      app_id = forum.app_id;
      app_name = codes "forum";
      service_version = codes "2";
      endpoint = codes "/v1";
      target = at_local_port 9001;
    })
resolve_provider_sound_example =
    resolve_provider_sound digits [] search_url (codes "2") two_apps (some forum.app_id)
      (record {
        service_url = search_url;
        app_id = forum.app_id;
        app_name = codes "forum";
        service_version = codes "2";
        endpoint = codes "/v1";
        target = at_local_port 9001;
      })
      later_version
