-- ===== src/Services/Incumbent.antt =====
-- Who provides a service that the owner has not decided on.
use mathlib.Core.Path.{subst}
use aerosol.Prelude.{
  nat_eq, list_eq, ◌==◌, eq_iff, leb, if◌then◌else◌, ◌≤◌, ◌≡◌, refl, ◌∙◌, ◌⊎◌, inl, inr, Bool, true,
  false, some, List, [], ◌∷◌, arith, Elem, elem-filter, filter, Text, Bool-cases,
}
use aerosol.Db.{Db}
use aerosol.Services.{
  Packaging, Provided, ok, provided_rows, oldest, ranks_below, max_row, latest, incumbent,
  incumbent_provider_id,
}

-- Versions are in order: any two compare, and the order is transitive.
pub record IsOrdered (packaging : Packaging) : Type 0 where
  pub total : (a b : Text) → packaging.version_le a b ≡ false → packaging.version_le b a ≡ true
  pub transitive :
      (a b c : Text)
      → packaging.version_le a b ≡ true
      → packaging.version_le b c ≡ true
      → packaging.version_le a c ≡ true

pub oldest_least :
    (r : Provided) (rows : List Provided) (s : Provided)
    → Elem s (r ∷ rows)
    → oldest r rows ≤ s.app.created_at
unfolding oldest
oldest_least r [] s (inl e) = rw e (omega arith)
oldest_least r [] s (inr m) = elim m [ ]
oldest_least r (t ∷ rows) s (inl e) = rw (← e) (ground (arith))
oldest_least r (t ∷ rows) s (inr m) = ground (arith, oldest_least t rows s m)

pub oldest_reached :
    (r : Provided) (rows : List Provided)
    → (s : Provided) × Elem s (r ∷ rows) × (s.app.created_at ≡ oldest r rows)
unfolding oldest
oldest_reached r [] = (r, inl refl, refl)
oldest_reached r (t ∷ rows) = elim (Bool-cases (leb r.app.created_at (oldest t rows))) [
  | inl first ↦ (r, inl refl, rw first refl)
  | inr later ↦ let (s, m, e) = oldest_reached t rows in (s, inr m, rw later e)
]

module _ (packaging : Packaging) where
  abbrev version_le : Provided → Provided → Bool
  version_le r s = packaging.version_le r.provider.service_version s.provider.service_version

  ranks_below-version_le :
      (r s : Provided)
      → IsOrdered packaging
      → ((ranks_below packaging r s ≡ true) × (version_le r s ≡ true))
        ⊎ ((ranks_below packaging r s ≡ false) × (version_le s r ≡ true))
  unfolding ranks_below
  ranks_below-version_le r s o =
      ground (arith, o.total r.provider.service_version s.provider.service_version)

  reflexive : (r : Provided) → IsOrdered packaging → version_le r r ≡ true
  reflexive r o = ground (arith, o.total r.provider.service_version r.provider.service_version)

  max_row_nothing : (best : Provided) → max_row packaging best [] ≡ best
  unfolding max_row
  max_row_nothing best = refl

  max_row_step :
      (best r : Provided) (rows : List Provided)
      → max_row packaging best (r ∷ rows) ≡ (
          if ranks_below packaging best r
          then max_row packaging r rows
          else max_row packaging best rows)
  unfolding max_row
  max_row_step best r rows = ground arith

  -- The row is among the rows, and none has a later version.
  abbrev IsGreatest : List Provided → Provided → Type 0
  IsGreatest rows r = Elem r rows × ((s : Provided) → Elem s rows → version_le s r ≡ true)

  IsGreatest-below :
      (best r top : Provided) (rows : List Provided)
      → IsOrdered packaging
      → version_le best r ≡ true
      → IsGreatest (r ∷ rows) top
      → IsGreatest (best ∷ r ∷ rows) top
  IsGreatest-below best r top rows o le (there, greatest) = (
    inr there,
    λ s m. elim m [
      | inl e ↦ rw (← e) (
          o.transitive best.provider.service_version r.provider.service_version _ le
            (greatest r (inl refl)))
      | inr later ↦ greatest s later
    ],
  )

  IsGreatest-above :
      (best r top : Provided) (rows : List Provided)
      → IsOrdered packaging
      → version_le r best ≡ true
      → IsGreatest (best ∷ rows) top
      → IsGreatest (best ∷ r ∷ rows) top
  IsGreatest-above best r top rows o le (there, greatest) = (
    ground (arith, there),
    λ s m. elim m [
      | inl e ↦ greatest s (inl e)
      | inr (inl e) ↦ rw (← e) (
          o.transitive r.provider.service_version best.provider.service_version _ le
            (greatest best (inl refl)))
      | inr (inr later) ↦ greatest s (inr later)
    ],
  )

  max_row-IsGreatest :
      (best : Provided) (rows : List Provided)
      → IsOrdered packaging
      → IsGreatest (best ∷ rows) (max_row packaging best rows)
  max_row-IsGreatest best [] o =
      rw (max_row_nothing best)
        (inl refl, λ s m. elim m [ inl e ↦ rw e (reflexive s o) | inr z ↦ absurd z ])
  max_row-IsGreatest best (r ∷ rows) o =
      let split = max_row_step best r rows in
      elim (ranks_below-version_le best r o) [
        | inl (below, le) ↦
            let same : max_row packaging r rows ≡ max_row packaging best (r ∷ rows) =
              ground arith in
            subst (IsGreatest (best ∷ r ∷ rows)) same (
              IsGreatest-below best r (max_row packaging r rows) rows o le
                (max_row-IsGreatest r rows o))
        | inr (above, le) ↦
            let same : max_row packaging best rows ≡ max_row packaging best (r ∷ rows) =
              ground arith in
            subst (IsGreatest (best ∷ r ∷ rows)) same (
              IsGreatest-above best r (max_row packaging best rows) rows o le
                (max_row-IsGreatest best rows o))
      ]

  -- The row that provides the service: no provider's app is older, and of those installed in the same
  -- second none has a later version.
  pub record IsIncumbent (rows : List Provided) (app_id : Text) : Type 0 where
    pub row : Provided
    pub listed : Elem row rows
    pub named : row.provider.app_id ≡ app_id
    pub oldest : (s : Provided) → Elem s rows → row.app.created_at ≤ s.app.created_at
    pub latest :
        (s : Provided)
        → Elem s rows
        → s.app.created_at ≡ row.app.created_at
        → version_le s row ≡ true

  latest_ok :
      (rows : List Provided) (app_id : Text)
      → latest packaging rows ≡ ok (some app_id)
      → IsOrdered packaging
      → (top : Provided) × IsGreatest rows top × (top.provider.app_id ≡ app_id)
  unfolding latest
  latest_ok [] app_id e o = cc
  latest_ok (r ∷ tied) app_id e o =
      (max_row packaging r tied, max_row-IsGreatest r tied o, ground (arith, e))

  incumbent-IsIncumbent :
      (rows : List Provided) (app_id : Text)
      → IsOrdered packaging
      → incumbent packaging rows ≡ ok (some app_id)
      → IsIncumbent rows app_id
  unfolding incumbent
  incumbent-IsIncumbent [] app_id o e = cc
  incumbent-IsIncumbent (r ∷ rows) app_id o e =
      let is_oldest : Provided → Bool = λ s. s.app.created_at == oldest r rows in
      let (top, (there, greatest), named) = latest_ok (filter is_oldest (r ∷ rows)) app_id e o in
      let (listed, first) = (elem-filter is_oldest top (r ∷ rows)).0 there in
      let same : top.app.created_at ≡ oldest r rows =
        (eq_iff top.app.created_at (oldest r rows)).0 first in
      record {
        row = top;
        listed = listed;
        named = named;
        oldest = λ s m. rw same (oldest_least r rows s m);
        latest = λ s m tied. greatest s (
            (elem-filter is_oldest s (r ∷ rows)).1
              (m, (eq_iff s.app.created_at (oldest r rows)).1 (tied ∙ same)));
      }

  -- The incumbent is a provider whose app was installed first; among the apps of one second none
  -- provides a later version. Versions are ordered.
  pub incumbent_provider_id-IsIncumbent :
      (service_url : Text) (db : Db) (app_id : Text)
      → IsOrdered packaging
      → incumbent_provider_id packaging service_url db ≡ ok (some app_id)
      → IsIncumbent (provided_rows service_url db) app_id
  unfolding incumbent_provider_id
  incumbent_provider_id-IsIncumbent service_url db app_id o e =
      incumbent-IsIncumbent (provided_rows service_url db) app_id o e
