-- ===== src/Services/Stability.antt =====
-- A provider that is installed later does not move a service.
use aerosol.Prelude.{
  ℕ, nat_eq, list_eq, ◌==◌, eq_iff, if◌then◌else◌, ◌≤◌, ◌<◌, ◌≡◌, refl, ap, sym, ◌∙◌, ◌≢◌, ◌⊎◌, inl,
  inr, Bool, true, false, not, ◌&&◌, List, [], ◌∷◌, ◌++◌, map, arith, Elem, elem-filter, filter,
  find?, find?_sound, Text, delete_where, Bool-cases, Option-cases,
}
use aerosol.Db.{App, ProviderRow, Db}
use aerosol.Services.{
  Packaging, BuiltinService, Provided, ServiceProvides, as_row, join_apps, provided_rows, oldest,
  latest, incumbent, default_provider_id_for_service, replace_provider, replace_providers,
  register_services_provided_by_app,
}
use aerosol.Services.Incumbent.{oldest_least, oldest_reached}
use aerosol.Services.Defaults.{default_provider_same}

abbrev is_not_of : Text → ProviderRow → Bool
is_not_of app_id p = not (p.app_id == app_id)

abbrev is_not_row_of : Text → Provided → Bool
is_not_row_of app_id r = is_not_of app_id r.provider

filter-delete_where :
    {A : Type 0} (q p : A → Bool) (rows : List A)
    → ((x : A) → q x ≡ true → p x ≡ false)
    → filter q (delete_where p rows) ≡ filter q rows
unfolding filter delete_where
filter-delete_where q p [] h = refl
filter-delete_where q p (x ∷ rows) h = ground (arith, h x, filter-delete_where q p rows h)

filter-append :
    {A : Type 0} (q : A → Bool) (xs ys : List A) → filter q (xs ++ ys) ≡ filter q xs ++ filter q ys
unfolding filter
filter-append q [] ys = refl
filter-append q (x ∷ xs) ys = ground (arith, filter-append q xs ys)

filter_twice :
    {A : Type 0} (p q : A → Bool) (xs : List A) → filter p (filter q xs) ≡ filter q (filter p xs)
unfolding filter
filter_twice p q [] = refl
filter_twice p q (x ∷ xs) = ground (arith, filter_twice p q xs)

append-nothing : {A : Type 0} (xs : List A) → xs ++ [] ≡ xs
append-nothing [] = refl
append-nothing (x ∷ xs) = ap (λ l. x ∷ l) (append-nothing xs)

filter-replace_provider :
    (app_id : Text) (row : ProviderRow) (rows : List ProviderRow)
    → row.app_id ≡ app_id
    → filter (is_not_of app_id) (replace_provider row rows) ≡ filter (is_not_of app_id) rows
unfolding replace_provider filter
filter-replace_provider app_id row rows own =
    let same_key : ProviderRow → Bool = λ p.
      (p.service_url == row.service_url && p.app_id == row.app_id)
      && p.service_version == row.service_version in
    filter-append (is_not_of app_id) (delete_where same_key rows) (row ∷ [])
    ∙ ground (
      arith,
      eq_iff row.app_id app_id,
      append-nothing (filter (is_not_of app_id) (delete_where same_key rows)),
      filter-delete_where (is_not_of app_id) same_key rows
          (λ p other. ground (arith, eq_iff p.app_id app_id, eq_iff p.app_id row.app_id)),
    )

filter-replace_providers :
    (app_id : Text) (provides : List ServiceProvides) (rows : List ProviderRow)
    → filter (is_not_of app_id) (replace_providers (map (as_row app_id) provides) rows)
      ≡ filter (is_not_of app_id) rows
unfolding replace_providers
filter-replace_providers app_id [] rows = refl
filter-replace_providers app_id (svc ∷ provides) rows =
    filter-replace_providers app_id provides (replace_provider (as_row app_id svc) rows)
    ∙ filter-replace_provider app_id (as_row app_id svc) rows refl

join_apps-filter :
    (apps : List App) (p : ProviderRow → Bool) (rows : List ProviderRow)
    → filter (λ r. p r.provider) (join_apps apps rows) ≡ join_apps apps (filter p rows)
unfolding join_apps filter
join_apps-filter apps p [] = refl
join_apps-filter apps p (row ∷ rows) =
    let rest = join_apps-filter apps p rows in
    elim (Option-cases (find? (λ (a : App). a.app_id == row.app_id) apps)) [
      | inl missing ↦ ground (arith, rest, missing)
      | inr (a, found) ↦ ground (arith, rest, found)
    ]

-- A joined row has its app.
join_apps-app :
    (apps : List App) (rows : List ProviderRow) (r : Provided)
    → Elem r (join_apps apps rows)
    → Elem r.app apps × (r.app.app_id ≡ r.provider.app_id)
unfolding join_apps
join_apps-app apps [] r m = elim m [ ]
join_apps-app apps (row ∷ rows) r m =
    elim (Option-cases (find? (λ (a : App). a.app_id == row.app_id) apps)) [
      | inl missing ↦ join_apps-app apps rows r (rw (missing, join_apps) at m)
      | inr (a, found) ↦
          let split : (record { provider = row; app = a } ≡ r) ⊎ Elem r (join_apps apps rows) =
            rw (found, join_apps) at m in
          elim split [
            | inl e ↦
                let (listed, same) =
                  find?_sound (λ (b : App). b.app_id == row.app_id) a apps found in
                rw (← e) (listed, (eq_iff a.app_id row.app_id).0 same)
            | inr later ↦ join_apps-app apps rows r later
          ]
    ]

-- The rows of the app are all later than a row of another app.
record IsOlder (app_id : Text) (rows : List Provided) (r : Provided) : Type 0 where
  listed : Elem r rows
  other : is_not_row_of app_id r ≡ true
  later :
      (s : Provided)
      → Elem s rows
      → is_not_row_of app_id s ≡ false
      → r.app.created_at < s.app.created_at

oldest-le :
    (app_id : Text) (s t r : Provided) (rows others : List Provided)
    → filter (is_not_row_of app_id) (s ∷ rows) ≡ filter (is_not_row_of app_id) (t ∷ others)
    → IsOlder app_id (s ∷ rows) r
    → oldest t others ≤ oldest s rows
oldest-le app_id s t r rows others same older =
    let (x, m, reached) = oldest_reached s rows in
    elim (Bool-cases (is_not_row_of app_id x)) [
      | inl foreign ↦
          let kept = (elem-filter (is_not_row_of app_id) x (s ∷ rows)).1 (m, foreign) in
          let (there, _) =
            (elem-filter (is_not_row_of app_id) x (t ∷ others)).0 (rw same at kept) in
          omega (arith, oldest_least t others x there, reached)
      | inr own ↦ omega (arith, oldest_least s rows r older.listed, older.later x m own, reached)
    ]

IsOlder-other :
    (app_id : Text) (r : Provided) (rows others : List Provided)
    → filter (is_not_row_of app_id) rows ≡ filter (is_not_row_of app_id) others
    → IsOlder app_id rows r
    → Elem r others
IsOlder-other app_id r rows others same older =
    let kept = (elem-filter (is_not_row_of app_id) r rows).1 (older.listed, older.other) in
    ((elem-filter (is_not_row_of app_id) r others).0 (rw same at kept)).0

-- The rows of the app are none of the oldest.
oldest_rows :
    (app_id : Text) (r : Provided) (rows : List Provided) (first : ℕ)
    → ((s : Provided) → Elem s rows → is_not_row_of app_id s ≡ false → first < s.app.created_at)
    → filter (λ s. s.app.created_at == first) rows
      ≡ filter (λ s. s.app.created_at == first) (filter (is_not_row_of app_id) rows)
unfolding filter
oldest_rows app_id r [] first later = refl
oldest_rows app_id r (s ∷ rows) first later =
    let rest = oldest_rows app_id r rows first (λ x m own. later x (inr m) own) in
    elim (Bool-cases (is_not_row_of app_id s)) [
      | inl foreign ↦ rw foreign (ap (λ l. if s.app.created_at == first then s ∷ l else l) rest)
      | inr own ↦
          let passed : (s.app.created_at == first) ≡ false =
            ground (arith, later s (inl refl) own) in
          rw own (rw passed rest)
    ]

incumbent_unmoved :
    (packaging : Packaging) (app_id : Text) (r : Provided) (rows others : List Provided)
    → filter (is_not_row_of app_id) rows ≡ filter (is_not_row_of app_id) others
    → IsOlder app_id rows r
    → IsOlder app_id others r
    → incumbent packaging rows ≡ incumbent packaging others
unfolding incumbent
incumbent_unmoved packaging app_id r [] others same older older' = elim older.listed [ ]
incumbent_unmoved packaging app_id r (s ∷ rows) [] same older older' = elim older'.listed [ ]
incumbent_unmoved packaging app_id r (s ∷ rows) (t ∷ others) same older older' =
    let first : oldest s rows ≡ oldest t others = omega (
      arith,
      oldest-le app_id s t r rows others same older,
      oldest-le app_id t s r others rows (sym same) older',
    ) in
    let all_later : (x : Provided)
        → Elem x (s ∷ rows)
        → is_not_row_of app_id x ≡ false
        → oldest s rows < x.app.created_at =
      λ x m own. omega (arith, oldest_least s rows r older.listed, older.later x m own) in
    let all_later' : (x : Provided)
        → Elem x (t ∷ others)
        → is_not_row_of app_id x ≡ false
        → oldest t others < x.app.created_at =
      λ x m own. omega (arith, oldest_least t others r older'.listed, older'.later x m own) in
    ap (latest packaging) (
      oldest_rows app_id r (s ∷ rows) (oldest s rows) all_later
      ∙ ap (λ l. filter (λ (x : Provided). x.app.created_at == oldest s rows) l) same
      ∙ ap
          (λ n.
            filter (λ (x : Provided). x.app.created_at == n)
              (filter (is_not_row_of app_id) (t ∷ others)))
          first
      ∙ sym (oldest_rows app_id r (t ∷ others) (oldest t others) all_later'))

-- The rows of other apps for the service are as before.
provided_rows-register :
    (app_id url : Text) (provides : List ServiceProvides) (db : Db)
    → filter
        (is_not_row_of app_id)
        (provided_rows url (register_services_provided_by_app app_id provides db))
      ≡ filter (is_not_row_of app_id) (provided_rows url db)
unfolding provided_rows register_services_provided_by_app
provided_rows-register app_id url provides db =
    let for_url : Provided → Bool = λ r. r.provider.service_url == url in
    let own : ProviderRow → Bool = λ p. p.app_id == app_id in
    let cleared = delete_where own db.service_providers in
    let after = replace_providers (map (as_row app_id) provides) cleared in
    let foreign : filter (is_not_of app_id) after ≡ filter (is_not_of app_id) db.service_providers =
      filter-replace_providers app_id provides cleared
      ∙ filter-delete_where (is_not_of app_id) own db.service_providers
          (λ p h. ground (arith, h)) in
    filter_twice (is_not_row_of app_id) for_url (join_apps db.apps after)
    ∙ ap (filter for_url) (
        join_apps-filter db.apps (is_not_of app_id) after
        ∙ ap (join_apps db.apps) foreign
        ∙ sym (join_apps-filter db.apps (is_not_of app_id) db.service_providers))
    ∙ filter_twice for_url (is_not_row_of app_id) (join_apps db.apps db.service_providers)

-- A row for the service is a joined one.
provided_rows-app :
    (url : Text) (db : Db) (r : Provided)
    → Elem r (provided_rows url db)
    → Elem r.app db.apps × (r.app.app_id ≡ r.provider.app_id)
unfolding provided_rows
provided_rows-app url db r m =
    join_apps-app db.apps db.service_providers r
      ((elem-filter (λ (x : Provided). x.provider.service_url == url) r
          (join_apps db.apps db.service_providers)).0
        m).0

-- Registering the services of an app that was installed later than some other provider of a
-- service does not move that service to it: the service's default is as before. So it is for a first
-- registration and for one on a reload.
pub default_provider_id-register :
    (packaging : Packaging) (builtins : List BuiltinService) (app_id url : Text)
    (provides : List ServiceProvides) (db : Db) (r : Provided)
    → Elem r (provided_rows url db)
    → r.provider.app_id ≢ app_id
    → ((a : App) → Elem a db.apps → a.app_id ≡ app_id → r.app.created_at < a.created_at)
    → default_provider_id_for_service packaging builtins url
        (register_services_provided_by_app app_id provides db)
      ≡ default_provider_id_for_service packaging builtins url db
unfolding register_services_provided_by_app
default_provider_id-register packaging builtins app_id url provides db r listed other later =
    let same = provided_rows-register app_id url provides db in
    let older : IsOlder app_id (provided_rows url db) r = record {
      listed = listed;
      other = ground (arith, eq_iff r.provider.app_id app_id);
      later = λ s m own.
          let (installed, joined) = provided_rows-app url db s m in
          later s.app installed (joined ∙ ground (arith, eq_iff s.provider.app_id app_id));
    } in
    let after = register_services_provided_by_app app_id provides db in
    let older' : IsOlder app_id (provided_rows url after) r = record {
      listed =
          IsOlder-other app_id r (provided_rows url db) (provided_rows url after) (sym same) older;
      other = older.other;
      later = λ s m own.
          let (installed, joined) = provided_rows-app url after s m in
          later s.app installed (joined ∙ ground (arith, eq_iff s.provider.app_id app_id));
    } in
    default_provider_same packaging builtins url db after refl (
      incumbent_unmoved packaging app_id r (provided_rows url after) (provided_rows url db) same
        older' older)
