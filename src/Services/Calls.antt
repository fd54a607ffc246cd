-- ===== src/Services/Calls.antt =====
-- Who serves a call (resolve.py), and the catalogue of providers (`list_all_service_providers` of
-- services.py).
use aerosol.Prelude.{
  list_eq, nat_eq, ◌==◌, if◌then◌else◌, Bool, true, false, not, Option, none, some, List, [], ◌∷◌,
  ◌++◌, is_empty, find?, filter, Text, codes,
}
use aerosol.Db.{running, status_beq, Db}
use aerosol.AppId.{router_app_id, router_app_name}
use aerosol.Services.{
  Packaging, BuiltinService, in_process, at_local_port, ServiceProvider, ResolvedProvider,
  invalid_specifier, no_provider, provider_not_running, Result, ok, err, ◌>>=◌, builtin_by_url,
  Provided, join_apps, provided_rows, default_provider_id_for_service, check_version,
}

-- The router serves the call.
unfoldable pub resolve_builtin :
    Packaging → List BuiltinService → Text → Text → Result ResolvedProvider
unfolding builtin_by_url check_version
resolve_builtin packaging builtins service_url specifier =
    elim (builtin_by_url builtins service_url) [
      | none ↦ err no_provider
      | some b ↦ check_version packaging b.version specifier >>= λ _. ok (record {
        service_url = service_url;
        app_id = router_app_id;
        app_name = router_app_name;
        service_version = b.version;
        endpoint = codes "/";
        target = in_process;
      })
    ]

-- The row serves the call, if its app runs and its version is one of those asked for.
unfoldable pub serve_row : Packaging → Text → Text → Text → Provided → Result ResolvedProvider
unfolding check_version
serve_row packaging service_url specifier target_app_id row =
    if not (status_beq row.app.status running)
    then err provider_not_running
    else check_version packaging row.provider.service_version specifier >>= λ _. ok (record {
      service_url = service_url;
      app_id = target_app_id;
      app_name = row.app.name;
      service_version = row.provider.service_version;
      endpoint = row.provider.endpoint;
      target = at_local_port row.app.local_port;
    })

-- An app serves the call; `fetchone` takes the first of its rows for the service.
unfoldable pub resolve_app : Packaging → Text → Text → Db → Text → Result ResolvedProvider
unfolding provided_rows serve_row
resolve_app packaging service_url specifier db target_app_id =
    elim (find? (λ r. r.provider.app_id == target_app_id) (provided_rows service_url db)) [
      | none ↦ err no_provider
      | some row ↦ serve_row packaging service_url specifier target_app_id row
    ]

unfoldable pub resolve_target :
    Packaging → List BuiltinService → Text → Text → Db → Option Text → Result ResolvedProvider
unfolding resolve_builtin resolve_app
resolve_target packaging builtins service_url specifier db none = err no_provider
resolve_target packaging builtins service_url specifier db (some target_app_id) =
    if target_app_id == router_app_id
    then resolve_builtin packaging builtins service_url specifier
    else resolve_app packaging service_url specifier db target_app_id

-- `provider_app_id or default_provider_id_for_service(service_url, db)`
unfoldable pub target_of :
    Packaging → List BuiltinService → Text → Db → Option Text → Result (Option Text)
unfolding default_provider_id_for_service
target_of packaging builtins service_url db none =
    default_provider_id_for_service packaging builtins service_url db
target_of packaging builtins service_url db (some pinned) =
    if is_empty pinned
    then default_provider_id_for_service packaging builtins service_url db
    else ok (some pinned)

unfoldable pub resolve_provider :
    Packaging → List BuiltinService → Text → Text → Db → Option Text → Result ResolvedProvider
unfolding target_of resolve_target
resolve_provider packaging builtins service_url specifier db provider_app_id =
    if packaging.is_specifier specifier
    then target_of packaging builtins service_url db provider_app_id
      >>= resolve_target packaging builtins service_url specifier db
    else err invalid_specifier

-- `service_url in (None, url)`
unfoldable pub is_asked_for : Option Text → Text → Bool
is_asked_for none url = true
is_asked_for (some service_url) url = service_url == url

abbrev pub is_default_id : Option Text → Text → Bool
is_default_id none app_id = false
is_default_id (some default) app_id = default == app_id

unfoldable pub builtin_as_provider : BuiltinService → Bool → ServiceProvider
builtin_as_provider b is_default = record {
  service_url = b.service_url;
  app_id = router_app_id;
  app_name = router_app_name;
  service_version = b.version;
  endpoint = codes "/";
  status = running;
  is_default = is_default;
}

unfoldable pub row_as_provider : Provided → Bool → ServiceProvider
row_as_provider r is_default = record {
  service_url = r.provider.service_url;
  app_id = r.provider.app_id;
  app_name = r.app.name;
  service_version = r.provider.service_version;
  endpoint = r.provider.endpoint;
  status = r.app.status;
  is_default = is_default;
}

module _ (packaging : Packaging) (builtins : List BuiltinService) (db : Db) where
  unfoldable pub list_builtins : List BuiltinService → Result (List ServiceProvider)
  unfolding builtin_as_provider default_provider_id_for_service
  list_builtins [] = ok []
  list_builtins (b ∷ bs) =
      default_provider_id_for_service packaging builtins b.service_url db >>= λ default.
      list_builtins bs >>= λ rest.
      ok (builtin_as_provider b (is_default_id default router_app_id) ∷ rest)

  unfoldable pub list_rows : List Provided → Result (List ServiceProvider)
  unfolding row_as_provider default_provider_id_for_service
  list_rows [] = ok []
  list_rows (r ∷ rs) =
      default_provider_id_for_service packaging builtins r.provider.service_url db >>= λ default.
      list_rows rs >>= λ rest.
      ok (row_as_provider r (is_default_id default r.provider.app_id) ∷ rest)

unfoldable pub list_all_service_providers :
    Packaging → List BuiltinService → Db → Option Text → Result (List ServiceProvider)
unfolding is_asked_for join_apps list_builtins list_rows
list_all_service_providers packaging builtins db service_url =
    list_builtins packaging builtins db
      (filter (λ b. is_asked_for service_url b.service_url) builtins)
    >>= λ own.
        list_rows packaging builtins db (
          filter (λ r. is_asked_for service_url r.provider.service_url)
            (join_apps db.apps db.service_providers))
        >>= λ others. ok (own ++ others)
