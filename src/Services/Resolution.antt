-- ===== src/Services/Resolution.antt =====
-- What a resolved provider is.
use aerosol.Prelude.Outcome.{both_answer, answer_same, no_answer}
use aerosol.Prelude.{
  nat_eq, list_eq, ◌==◌, eq_iff, ◌≡◌, refl, sym, ◌∙◌, ◌≢◌, ◌⊎◌, inl, inr, true, Option, none, some,
  List, [], ◌∷◌, arith, Elem, find?, find?_sound, Text, Bool-cases, Option-cases,
}
use aerosol.Db.{Status, running, building, starting, stopped, error, removing, status_beq, Db}
use aerosol.AppId.{router_app_id}
use aerosol.Services.{
  Packaging, BuiltinService, in_process, at_local_port, ResolvedProvider, ok, builtin_by_url,
  Provided, provided_rows, check_version,
}
use aerosol.Services.Calls.{
  resolve_builtin, serve_row, resolve_app, resolve_target, target_of, resolve_provider,
}

status_beq_sound : (s : Status) → status_beq s running ≡ true → s ≡ running
unfolding status_beq
status_beq_sound running e = refl
status_beq_sound building e = cc
status_beq_sound starting e = cc
status_beq_sound stopped e = cc
status_beq_sound error e = cc
status_beq_sound removing e = cc

module _ (packaging : Packaging) (builtins : List BuiltinService) (service_url specifier : Text)
    (db : Db) where
  -- The version is one of those asked for.
  abbrev pub Matches : Text → Type 0
  Matches version =
      (packaging.is_version version ≡ true) × (packaging.satisfies version specifier ≡ true)

  -- The router has a service of its own, and serves the call.
  pub record ServedByRouter (r : ResolvedProvider) : Type 0 where
    pub builtin : BuiltinService
    pub provides : builtin_by_url builtins service_url ≡ some builtin
    pub id : r.app_id ≡ router_app_id
    pub version : r.service_version ≡ builtin.version
    pub target : r.target ≡ in_process

  -- An app that provides the service runs, and gets the call on its port.
  pub record ServedByApp (r : ResolvedProvider) : Type 0 where
    pub row : Provided
    pub provides : Elem row (provided_rows service_url db)
    pub id : r.app_id ≡ row.provider.app_id
    pub not_router : r.app_id ≢ router_app_id
    pub version : r.service_version ≡ row.provider.service_version
    pub endpoint : r.endpoint ≡ row.provider.endpoint
    pub is_running : row.app.status ≡ running
    pub target : r.target ≡ at_local_port row.app.local_port

  check_version_ok :
      (version : Text) → check_version packaging version specifier ≡ ok tt → Matches version
  unfolding check_version
  check_version_ok version e = ground arith

  resolve_builtin_ok :
      (r : ResolvedProvider)
      → resolve_builtin packaging builtins service_url specifier ≡ ok r
      → ServedByRouter r × Matches r.service_version × (r.service_url ≡ service_url)
  unfolding resolve_builtin
  resolve_builtin_ok r e = elim (Option-cases (builtin_by_url builtins service_url)) [
    | inl missing ↦ absurd (no_answer (rw (missing, resolve_builtin) at e))
    | inr (b, found) ↦
        let (_, checked, same) =
          both_answer (check_version packaging b.version specifier) _
            (rw (found, resolve_builtin) at e) in
        let matches = check_version_ok b.version (ground arith) in
        rw (answer_same same) (
          record { builtin = b; provides = found; id = refl; version = refl; target = refl },
          matches,
          refl,
        )
  ]

  serve_row_ok :
      (target : Text) (row : Provided) (r : ResolvedProvider)
      → Elem row (provided_rows service_url db)
      → row.provider.app_id ≡ target
      → target ≢ router_app_id
      → serve_row packaging service_url specifier target row ≡ ok r
      → ServedByApp r
        × Matches r.service_version
        × (r.service_url ≡ service_url)
        × (r.app_id ≡ target)
  unfolding serve_row
  serve_row_ok target row r listed own other e =
      elim (Bool-cases (status_beq row.app.status running)) [
        | inr down ↦ absurd (no_answer (rw down at e))
        | inl up ↦
            let (_, checked, same) =
              both_answer (check_version packaging row.provider.service_version specifier) _
                (rw up at e) in
            let matches = check_version_ok row.provider.service_version (ground arith) in
            rw (answer_same same) (
              record {
                row = row;
                provides = listed;
                id = sym own;
                not_router = other;
                version = refl;
                endpoint = refl;
                is_running = status_beq_sound row.app.status up;
                target = refl;
              },
              matches,
              refl,
              refl,
            )
      ]

  resolve_app_ok :
      (target : Text) (r : ResolvedProvider)
      → target ≢ router_app_id
      → resolve_app packaging service_url specifier db target ≡ ok r
      → ServedByApp r
        × Matches r.service_version
        × (r.service_url ≡ service_url)
        × (r.app_id ≡ target)
  unfolding resolve_app
  resolve_app_ok target r other e =
      elim (Option-cases
        (find? (λ (x : Provided). x.provider.app_id == target) (provided_rows service_url db))) [
          | inl missing ↦ absurd (no_answer (rw (missing, resolve_app) at e))
          | inr (row, found) ↦
              let (listed, own) =
                find?_sound (λ (x : Provided). x.provider.app_id == target) row
                  (provided_rows service_url db) found in
              serve_row_ok target row r listed ((eq_iff row.provider.app_id target).0 own) other
                (rw (found, resolve_app) at e)
        ]

  -- A provider that can serve the call.
  pub record IsServing (provider_app_id : Option Text) (r : ResolvedProvider) : Type 0 where
    pub url : r.service_url ≡ service_url
    pub matches : Matches r.service_version
    pub served : ServedByRouter r ⊎ ServedByApp r
    pub meant :
        (target_of packaging builtins service_url db provider_app_id ≡ ok (some r.app_id))
        × ((pinned : Text) → provider_app_id ≡ some pinned → pinned ≢ [] → r.app_id ≡ pinned)

  target_of-pinned :
      (pinned : Text)
      → pinned ≢ []
      → target_of packaging builtins service_url db (some pinned) ≡ ok (some pinned)
  unfolding target_of
  target_of-pinned [] named = absurd (named refl)
  target_of-pinned (c ∷ pinned) named = refl

  resolve_target-nobody :
      (r : ResolvedProvider)
      → resolve_target packaging builtins service_url specifier db none ≢ ok r
  unfolding resolve_target
  resolve_target-nobody r h = cc

  resolve_target_ok :
      (target : Text) (r : ResolvedProvider)
      → resolve_target packaging builtins service_url specifier db (some target) ≡ ok r
      → (ServedByRouter r ⊎ ServedByApp r)
        × Matches r.service_version
        × (r.service_url ≡ service_url)
        × (r.app_id ≡ target)
  unfolding resolve_target
  resolve_target_ok target r e = elim (Bool-cases (target == router_app_id)) [
    | inl router ↦
        let (served, matches, url) = resolve_builtin_ok r (rw router at e) in
        (inl served, matches, url, served.id ∙ sym ((eq_iff target router_app_id).0 router))
    | inr app ↦
        let (served, matches, url, id) =
          resolve_app_ok target r (ground (arith, eq_iff target router_app_id)) (rw app at e) in
        (inr served, matches, url, id)
  ]

  -- A provider that `resolve_provider` answers with can serve the call: it is the one that was pinned, or
  -- else the service's default; its version is one of those asked for; and it is the router with a
  -- service of its own, or an app that provides the service and runs, on the app's port.
  pub resolve_provider_sound :
      (provider_app_id : Option Text) (r : ResolvedProvider)
      → resolve_provider packaging builtins service_url specifier db provider_app_id ≡ ok r
      → IsServing provider_app_id r
  unfolding resolve_provider
  resolve_provider_sound provider_app_id r e =
      elim (Bool-cases (packaging.is_specifier specifier)) [
        | inr bad ↦ cc (e, bad)
        | inl good ↦
            let (target, meant, resolved) =
              both_answer (target_of packaging builtins service_url db provider_app_id)
                (resolve_target packaging builtins service_url specifier db) (rw good at e) in
            go target meant resolved
      ]
    where
      go :
          (target : Option Text)
          → target_of packaging builtins service_url db provider_app_id ≡ ok target
          → resolve_target packaging builtins service_url specifier db target ≡ ok r
          → IsServing provider_app_id r
      go none meant resolved = absurd (resolve_target-nobody r resolved)
      go (some target) meant resolved =
          let (served, matches, url, id) = resolve_target_ok target r resolved in
          record {
            url = url;
            matches = matches;
            served = served;
            meant = (
              rw id meant,
              λ pinned given named.
                  let by_pin = target_of-pinned pinned named in
                  ground (arith, meant, given, id, by_pin),
            );
          }
