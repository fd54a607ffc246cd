-- ===== src/Services/Registration.antt =====
-- What the registration of an app's services leaves.
use aerosol.Prelude.{
  list_eq, nat_eq, ◌==◌, eq_iff, eq_refl, ◌≡◌, refl, ap, sym, ◌≢◌, ◌↔◌, ◌⊎◌, inl, inr, Bool, true,
  false, ◌&&◌, List, [], ◌∷◌, map, arith, Elem, elem-append, Text, delete_where, elem-delete_where,
  Bool-cases,
}
use aerosol.Db.{ProviderRow, Db}
use aerosol.Services.{
  ServiceProvides, as_row, replace_provider, replace_providers, register_services_provided_by_app,
}

abbrev same_key : ProviderRow → ProviderRow → Bool
same_key row p =
    (p.service_url == row.service_url && p.app_id == row.app_id)
    && p.service_version == row.service_version

elem-replace_provider :
    (row p : ProviderRow) (rows : List ProviderRow)
    → Elem p (replace_provider row rows) ↔ ((row ≡ p) ⊎ (Elem p rows × (same_key row p ≡ false)))
unfolding replace_provider
elem-replace_provider row p rows = ground (
  arith,
  elem-append p (delete_where (same_key row) rows) (row ∷ []),
  elem-delete_where (same_key row) p rows,
)

-- Rows of other apps stay.
replace_providers-others :
    (app_id : Text) (provides : List ServiceProvides) (p : ProviderRow) (rows : List ProviderRow)
    → p.app_id ≢ app_id
    → Elem p (replace_providers (map (as_row app_id) provides) rows) ↔ Elem p rows
unfolding replace_providers
replace_providers-others app_id [] p rows other = ground arith
replace_providers-others app_id (svc ∷ provides) p rows other =
    let now = elem-replace_provider (as_row app_id svc) p rows in
    let later =
      replace_providers-others app_id provides p (replace_provider (as_row app_id svc) rows)
        other in
    let apart : (p.app_id == app_id) ≡ false = ground (arith, eq_iff p.app_id app_id) in
    let differs : as_row app_id svc ≢ p = λ e. other (sym (ap (λ (r : ProviderRow). r.app_id) e)) in
    ground (arith, now, later)

-- A row of the app is one that the manifest lists, or was there.
replace_providers-own :
    (app_id : Text) (provides : List ServiceProvides) (p : ProviderRow) (rows : List ProviderRow)
    → Elem p (replace_providers (map (as_row app_id) provides) rows)
    → Elem p rows ⊎ ((svc : ServiceProvides) × Elem svc provides × (p ≡ as_row app_id svc))
unfolding replace_providers
replace_providers-own app_id [] p rows m = inl m
replace_providers-own app_id (svc ∷ provides) p rows m =
    elim (replace_providers-own app_id provides p (replace_provider (as_row app_id svc) rows) m) [
      | inl now ↦ elim ((elem-replace_provider (as_row app_id svc) p rows).0 now) [
        | inl e ↦ inr (svc, inl refl, sym e)
        | inr (old, _) ↦ inl old
      ]
      | inr (s, listed, e) ↦ inr (s, inr listed, e)
    ]

-- Every listed service has a row of its service and version.
replace_providers-listed :
    (app_id : Text) (provides : List ServiceProvides) (svc : ServiceProvides)
    (rows : List ProviderRow)
    → (Elem svc provides
        ⊎ ((p : ProviderRow) × Elem p rows × (same_key (as_row app_id svc) p ≡ true)))
    → (p : ProviderRow) × Elem p (replace_providers (map (as_row app_id) provides) rows)
      × (same_key (as_row app_id svc) p ≡ true)
unfolding replace_providers
replace_providers-listed app_id [] svc rows (inl listed) = elim listed [ ]
replace_providers-listed app_id [] svc rows (inr there) = there
replace_providers-listed app_id (first ∷ provides) svc rows h =
    replace_providers-listed app_id provides svc (replace_provider (as_row app_id first) rows)
      (step h)
  where
    fresh :
        (p : ProviderRow)
        → p ≡ as_row app_id first
        → Elem p (replace_provider (as_row app_id first) rows)
    fresh p e = (elem-replace_provider (as_row app_id first) p rows).1 (inl (sym e))

    step :
        Elem svc (first ∷ provides)
          ⊎ ((p : ProviderRow) × Elem p rows × (same_key (as_row app_id svc) p ≡ true))
        → Elem svc provides
          ⊎ ((p : ProviderRow) × Elem p (replace_provider (as_row app_id first) rows)
              × (same_key (as_row app_id svc) p ≡ true))
    step (inl (inr listed)) = inl listed
    step (inl (inl e)) = inr (
      as_row app_id first,
      fresh (as_row app_id first) refl,
      ground (arith, e, eq_refl svc.service, eq_refl app_id, eq_refl svc.version),
    )
    step (inr (p, there, same)) = elim (Bool-cases (same_key (as_row app_id first) p)) [
      | inr kept ↦
          inr (p, (elem-replace_provider (as_row app_id first) p rows).1 (inr (there, kept)), same)
      | inl replaced ↦ inr (
        as_row app_id first,
        fresh (as_row app_id first) refl,
        ground (
          arith,
          same,
          replaced,
          eq_iff p.service_url svc.service,
          eq_iff p.service_url first.service,
          eq_iff first.service svc.service,
          eq_iff p.service_version svc.version,
          eq_iff p.service_version first.version,
          eq_iff first.version svc.version,
          eq_refl app_id,
        ),
      )
    ]

-- The database that a registration leaves: the owner's choices are untouched, other apps keep what
-- they provide, and the app provides what the manifest lists and nothing else.
pub record IsRegistered (app_id : Text) (provides : List ServiceProvides) (db after : Db)
    : Type 0 where
  pub chosen : after.service_defaults ≡ db.service_defaults
  pub others :
      (p : ProviderRow)
      → p.app_id ≢ app_id
      → Elem p after.service_providers ↔ Elem p db.service_providers
  pub own :
      (p : ProviderRow)
      → Elem p after.service_providers
      → p.app_id ≡ app_id
      → (svc : ServiceProvides) × Elem svc provides × (p ≡ as_row app_id svc)
  pub listed :
      (svc : ServiceProvides)
      → Elem svc provides
      → (p : ProviderRow) × Elem p after.service_providers
        × (p.service_url ≡ svc.service)
        × (p.app_id ≡ app_id)
        × (p.service_version ≡ svc.version)

-- A registration leaves the owner's choices and the other apps' services alone, and makes the app
-- provide exactly the services that its manifest lists.
pub register_services-IsRegistered :
    (app_id : Text) (provides : List ServiceProvides) (db : Db)
    → IsRegistered app_id provides db (register_services_provided_by_app app_id provides db)
unfolding register_services_provided_by_app
register_services-IsRegistered app_id provides db =
    let cleared = delete_where (λ (p : ProviderRow). p.app_id == app_id) db.service_providers in
    record {
      chosen = refl;
      others = λ p other.
          let inserted = replace_providers-others app_id provides p cleared other in
          let deleted =
            elem-delete_where (λ (q : ProviderRow). q.app_id == app_id) p db.service_providers in
          let apart : (p.app_id == app_id) ≡ false = ground (arith, eq_iff p.app_id app_id) in
          ground (arith, inserted, deleted);
      own = λ p there same. elim (replace_providers-own app_id provides p cleared there) [
        | inl old ↦
            let (_, kept) =
              (elem-delete_where (λ (q : ProviderRow). q.app_id == app_id) p db.service_providers).0
                old in
            cc (kept, (eq_iff p.app_id app_id).1 same)
        | inr listed ↦ listed
      ];
      listed = λ svc there.
          let (p, now, key) = replace_providers-listed app_id provides svc cleared (inl there) in
          (
            p,
            now,
            ground (arith, eq_iff p.service_url svc.service),
            ground (arith, eq_iff p.app_id app_id),
            ground (arith, eq_iff p.service_version svc.version),
          );
    }
