-- ===== src/Services/Defaults.antt =====
-- The owner's choice of a service's provider.
use aerosol.Prelude.{
  list_eq, nat_eq, ◌==◌, eq_iff, eq_refl, if◌then◌else◌, ◌≡◌, refl, sym, ◌∙◌, ◌≢◌, ◌⊎◌, inl, inr,
  Bool, true, Option, none, some, List, [], ◌∷◌, ◌++◌, arith, any, any_sound, any_complete, Elem,
  find?, Text, delete_where, Bool-cases, Option-cases, if_elim, ◌&&◌,
}
use aerosol.Db.{DefaultRow, ProviderRow, Db}
use aerosol.AppId.{router_app_id}
use aerosol.Services.{
  Packaging, BuiltinService, Result, ok, err, lookup_error, builtin_by_url,
  default_provider_id_for_service, incumbent_provider_id, clear_default, replace_default,
  set_default, provided_rows, incumbent,
}

abbrev pub default_of : Text → Db → Option DefaultRow
default_of service_url db =
    find? (λ (d : DefaultRow). d.service_url == service_url) db.service_defaults

find?-delete_where :
    (url other : Text) (rows : List DefaultRow)
    → find?
        (λ (d : DefaultRow). d.service_url == other)
        (delete_where (λ d. d.service_url == url) rows)
      ≡ (if other == url then none else find? (λ (d : DefaultRow). d.service_url == other) rows)
unfolding find? delete_where
find?-delete_where url other [] = ground arith
find?-delete_where url other (d ∷ rows) = ground (
  arith,
  find?-delete_where url other rows,
  eq_iff d.service_url url,
  eq_iff d.service_url other,
  eq_iff other url,
)

find?-append_one :
    (p : DefaultRow → Bool) (rows : List DefaultRow) (row : DefaultRow)
    → find? p (rows ++ row ∷ [])
      ≡ elim (find? p rows) [ some d ↦ some d | none ↦ if p row then some row else none ]
unfolding find?
find?-append_one p [] row = ground arith
find?-append_one p (d ∷ rows) row = ground (arith, find?-append_one p rows row)

default_of-clear :
    (url other : Text) (db : Db)
    → default_of other (clear_default url db) ≡ (if other == url then none else default_of other db)
unfolding clear_default
default_of-clear url other db = find?-delete_where url other db.service_defaults

default_of-replace :
    (url app_id other : Text) (db : Db)
    → default_of other (replace_default url app_id db) ≡ (
        if other == url
        then some (record { service_url = url; app_id = app_id })
        else default_of other db)
unfolding replace_default
default_of-replace url app_id other db =
    let row : DefaultRow = record { service_url = url; app_id = app_id } in
    let kept = find?-delete_where url other db.service_defaults in
    let appended =
      find?-append_one (λ (d : DefaultRow). d.service_url == other)
        (delete_where (λ (d : DefaultRow). d.service_url == url) db.service_defaults) row in
    go appended kept
  where
    go :
        find?
            (λ (d : DefaultRow). d.service_url == other)
            (delete_where (λ (d : DefaultRow). d.service_url == url) db.service_defaults
              ++ record { service_url = url; app_id = app_id } ∷ [])
          ≡ elim (find?
              (λ (d : DefaultRow). d.service_url == other)
              (delete_where (λ (d : DefaultRow). d.service_url == url) db.service_defaults)) [
                | some d ↦ some d
                | none ↦
                    if url == other
                    then some (record { service_url = url; app_id = app_id })
                    else none
              ]
        → find?
            (λ (d : DefaultRow). d.service_url == other)
            (delete_where (λ (d : DefaultRow). d.service_url == url) db.service_defaults)
          ≡ (if other == url then none else default_of other db)
        → find?
            (λ (d : DefaultRow). d.service_url == other)
            (delete_where (λ (d : DefaultRow). d.service_url == url) db.service_defaults
              ++ record { service_url = url; app_id = app_id } ∷ [])
          ≡ (if other == url
              then some (record { service_url = url; app_id = app_id })
              else default_of other db)
    go a k =
        ground (arith, a, k, eq_iff url other, eq_iff other url, Option-cases (default_of other db))

module _ (packaging : Packaging) (builtins : List BuiltinService) where
  abbrev default_provider : Text → Db → Result (Option Text)
  default_provider url db = default_provider_id_for_service packaging builtins url db

  -- The owner's choice comes first.
  pub default_provider-chosen :
      (url : Text) (db : Db) (row : DefaultRow)
      → default_of url db ≡ some row
      → default_provider url db ≡ ok (some row.app_id)
  unfolding default_provider_id_for_service
  default_provider-chosen url db row e = rw (e, default_provider_id_for_service) refl

  default_provider-builtin :
      (url : Text) (db : Db) (b : BuiltinService)
      → default_of url db ≡ none
      → builtin_by_url builtins url ≡ some b
      → default_provider url db ≡ ok (some router_app_id)
  unfolding default_provider_id_for_service
  default_provider-builtin url db b e f =
      rw (e, default_provider_id_for_service) (rw (f, default_provider_id_for_service) refl)

  pub default_provider-incumbent :
      (url : Text) (db : Db)
      → default_of url db ≡ none
      → builtin_by_url builtins url ≡ none
      → default_provider url db ≡ incumbent_provider_id packaging url db
  unfolding default_provider_id_for_service
  default_provider-incumbent url db e f =
      rw (e, default_provider_id_for_service) (rw (f, default_provider_id_for_service) refl)

  -- The provider depends on the service's default and its incumbent alone.
  pub default_provider_same :
      (url : Text) (db after : Db)
      → default_of url after ≡ default_of url db
      → incumbent packaging (provided_rows url after) ≡ incumbent packaging (provided_rows url db)
      → default_provider url after ≡ default_provider url db
  unfolding incumbent_provider_id
  default_provider_same url db after same unmoved = elim (Option-cases (default_of url db)) [
    | inr (row, e) ↦
        default_provider-chosen url after row (same ∙ e)
        ∙ sym (default_provider-chosen url db row e)
    | inl e ↦ elim (Option-cases (builtin_by_url builtins url)) [
      | inr (b, f) ↦
          default_provider-builtin url after b (same ∙ e) f
          ∙ sym (default_provider-builtin url db b e f)
      | inl f ↦
          default_provider-incumbent url after (same ∙ e) f
          ∙ unmoved
          ∙ sym (default_provider-incumbent url db e f)
    ]
  ]

  -- The provider depends on the service's own default alone.
  default_provider_congruent :
      (url : Text) (db : Db) (defaults : List DefaultRow)
      → default_of url (record db { service_defaults = defaults }) ≡ default_of url db
      → default_provider url (record db { service_defaults = defaults }) ≡ default_provider url db
  unfolding default_provider_id_for_service incumbent_provider_id provided_rows
  default_provider_congruent url db defaults same = rw (same, default_provider_id_for_service) refl

  -- The choices of the other services stay.
  abbrev pub KeepsOthers : Text → Db → Db → Type 0
  KeepsOthers url db after =
      (other : Text) → other ≢ url → default_provider other after ≡ default_provider other db

  clear_default-KeepsOthers : (url : Text) (db : Db) → KeepsOthers url db (clear_default url db)
  unfolding clear_default
  clear_default-KeepsOthers url db other apart =
      let same = default_of-clear url other db in
      default_provider_congruent other db _ (ground (arith, same, eq_iff other url))

  replace_default-KeepsOthers :
      (url app_id : Text) (db : Db) → KeepsOthers url db (replace_default url app_id db)
  unfolding replace_default
  replace_default-KeepsOthers url app_id db other apart =
      let same = default_of-replace url app_id other db in
      default_provider_congruent other db _ (ground (arith, same, eq_iff other url))

  -- The provider serves the service: the router with a service of its own, or an app.
  abbrev pub Offers : Text → Text → Db → Type 0
  Offers url app_id db =
      ((app_id ≡ router_app_id) × ((b : BuiltinService) × (builtin_by_url builtins url ≡ some b)))
      ⊎ ((app_id ≢ router_app_id)
          × ((p : ProviderRow) × Elem p db.service_providers
              × (p.service_url ≡ url)
              × (p.app_id ≡ app_id)))

  -- What `set_default` promises for the service.
  pub data IsChosen (url app_id : Text) (db : Db) : Db × Result (Unit {0}) → Type 0 where
    chosen :
        (after : Db)
        → Offers url app_id db
        → default_provider url after ≡ ok (some app_id)
        → KeepsOthers url db after
        → IsChosen url app_id db (after, ok tt)
    refused : ¬ Offers url app_id db → IsChosen url app_id db (db, err lookup_error)

  set_router :
      (url app_id : Text) (db : Db) (o : Option BuiltinService)
      → app_id ≡ router_app_id
      → builtin_by_url builtins url ≡ o
      → IsChosen url app_id db (elim o as (λ _. Db × Result (Unit {0})) [
        | none ↦ (db, err lookup_error)
        | some b ↦ (clear_default url db, ok tt)
      ])
  set_router url app_id db none router e =
      refused (λ offers. elim offers [ inl (_, (b, f)) ↦ cc | inr (other, _) ↦ other router ])
  set_router url app_id db (some b) router e =
      let cleared = default_of-clear url url db in
      chosen (clear_default url db) (inl (router, (b, e)))
        (rw router (
          default_provider-builtin url (clear_default url db) b
            (ground (arith, cleared, eq_refl url)) e))
        (clear_default-KeepsOthers url db)

  set_app :
      (url app_id : Text) (db : Db)
      → app_id ≢ router_app_id
      → IsChosen url app_id db (
          if any
            (λ (p : ProviderRow). p.service_url == url && p.app_id == app_id)
            db.service_providers
          then (replace_default url app_id db, ok tt)
          else (db, err lookup_error))
  set_app url app_id db app =
      let provides : ProviderRow → Bool = λ p. p.service_url == url && p.app_id == app_id in
      if_elim (IsChosen url app_id db) (any provides db.service_providers)
        (λ yes.
          let (p, listed, named) = any_sound provides db.service_providers yes in
          let replaced = default_of-replace url app_id url db in
          let (same_url, same_app) : (p.service_url ≡ url) × (p.app_id ≡ app_id) =
            ground (arith, eq_iff p.service_url url, eq_iff p.app_id app_id) in
          chosen (replace_default url app_id db) (inr (app, (p, listed, same_url, same_app)))
            (default_provider-chosen url (replace_default url app_id db)
              (record { service_url = url; app_id = app_id })
              (ground (arith, replaced, eq_refl url)))
            (replace_default-KeepsOthers url app_id db))
        (λ no. refused (λ offers. elim offers [
          | inl (router, _) ↦ app router
          | inr (_, (p, listed, same_url, same_app)) ↦
              let holds : provides p ≡ true =
                ground (arith, eq_iff p.service_url url, eq_iff p.app_id app_id) in
              cc (any_complete provides p db.service_providers listed holds)
        ]))

  -- `set_default` takes a provider that serves the service, and refuses any other with nothing
  -- changed. Afterwards the service's default is that provider, the router or an app, and the
  -- defaults of the other services are as before.
  pub set_default-IsChosen :
      (url app_id : Text) (db : Db) → IsChosen url app_id db (set_default builtins url app_id db)
  unfolding set_default
  set_default-IsChosen url app_id db = elim (Bool-cases (app_id == router_app_id)) [
    | inl router ↦ rw router (
        set_router url app_id db (builtin_by_url builtins url)
          ((eq_iff app_id router_app_id).0 router) refl)
    | inr app ↦ rw app (set_app url app_id db (ground (arith, eq_iff app_id router_app_id)))
  ]
