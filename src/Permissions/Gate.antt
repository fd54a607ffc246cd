-- ===== src/Permissions/Gate.antt =====
-- What the update gate asks the owner for.
use mathlib.Core.Path.{subst}
use aerosol.Prelude.{
  nat_eq, list_eq, eq_iff, if◌then◌else◌, refl, ◌↔◌, inl, inr, Bool, not, Option, none, some, List,
  [], ◌∷◌, map, filter, elem-filter, elem-map, elem-map_inv, contains, contains_iff, Elem, Distinct,
  is_empty, Text, arith, Bool-cases,
}
use aerosol.Permissions.Values.{json_eq}
use aerosol.Permissions.{PermissionRecord, or_empty}
use aerosol.Permissions.Manifest.{
  ServiceConsumes, PermissionGrant, Key, key_eq, permission_key, key_of,
  all_manifest_permissions_v2, unseen, manifest_ungranted_permissions_v2, without_previous,
  manifest_newly_declared_permissions_v2,
}

abbrev pub keys : List PermissionGrant → List Key
keys grants = map key_of grants

-- The search gives a grant for each key that is declared and not seen.
unseen-keys :
    (seen : List Key) (declared : List PermissionGrant) (k : Key)
    → Elem k (keys (unseen seen declared)) ↔ (Elem k (keys declared) × (¬ Elem k seen))
unfolding unseen
unseen-keys seen [] k = ground arith
unseen-keys seen (pg ∷ declared) k = elim (Bool-cases (contains (key_of pg) seen)) [
  | inl old ↦
      let known : Elem (key_of pg) seen = (contains_iff (key_of pg) seen).0 old in
      rw old (ground (arith, unseen-keys seen declared k, known))
  | inr new ↦
      let unknown : ¬ Elem (key_of pg) seen = ground (arith, contains_iff (key_of pg) seen) in
      rw new
        (ground (arith, unseen-keys (key_of pg ∷ seen) declared k, unknown, eq_iff (key_of pg) k))
]

unseen-Distinct :
    (seen : List Key) (declared : List PermissionGrant) → Distinct (keys (unseen seen declared))
unfolding unseen
unseen-Distinct seen [] = tt
unseen-Distinct seen (pg ∷ declared) = elim (Bool-cases (contains (key_of pg) seen)) [
  | inl old ↦ rw old (unseen-Distinct seen declared)
  | inr new ↦ rw new (
    (λ m. ((unseen-keys (key_of pg ∷ seen) declared (key_of pg)).0 m).1 (inl refl)),
    unseen-Distinct (key_of pg ∷ seen) declared,
  )
]

abbrev pub granted_keys : List PermissionRecord → List Key
granted_keys granted = map (λ (r : PermissionRecord). permission_key r.service_url r.grant) granted

abbrev pub declared_keys : List ServiceConsumes → List Key
declared_keys consumes = keys (all_manifest_permissions_v2 consumes)

-- What the manifest that is deployed declares: nothing where there is none, or a bad one.
abbrev pub parsed_keys : Option (List ServiceConsumes) → List Key
parsed_keys none = []
parsed_keys (some previous) = declared_keys previous

abbrev pub previous_keys : (Text → Option (List ServiceConsumes)) → Option Text → List Key
previous_keys parse raw = if is_empty (or_empty raw) then [] else parsed_keys (parse (or_empty raw))

filter-keys :
    (seen : List Key) (grants : List PermissionGrant) (k : Key)
    → Elem k (keys (filter (λ pg. not (contains (key_of pg) seen)) grants))
      ↔ (Elem k (keys grants) × (¬ Elem k seen))
unfolding filter
filter-keys seen [] k = ground arith
filter-keys seen (pg ∷ grants) k = ground (
  arith,
  filter-keys seen grants k,
  contains_iff (key_of pg) seen,
  contains_iff k seen,
  eq_iff (key_of pg) k,
)

filter-Distinct :
    (test : PermissionGrant → Bool) (grants : List PermissionGrant)
    → Distinct (keys grants)
    → Distinct (keys (filter test grants))
unfolding filter
filter-Distinct test [] d = tt
filter-Distinct test (pg ∷ grants) d = elim (Bool-cases (test pg)) [
  | inr out ↦ rw out (filter-Distinct test grants d.1)
  | inl kept ↦ rw kept (
    (λ m.
        let (q, listed, same) = elem-map_inv key_of (key_of pg) (filter test grants) m in
        d.0 (
          subst (λ x. Elem x (keys grants)) same
            (elem-map key_of q grants ((elem-filter test q grants).0 listed).0))),
    filter-Distinct test grants d.1,
  )
]

-- The permissions that an update newly declares.
pub record IsDelta (declared granted previous : List Key) (delta : List PermissionGrant)
    : Type 0 where
  pub exact :
      (k : Key) → Elem k (keys delta) ↔ (Elem k declared × (¬ Elem k granted) × (¬ Elem k previous))
  pub distinct : Distinct (keys delta)

without_previous-IsDelta :
    (declared granted : List Key) (previous : Option (List ServiceConsumes))
    (ungranted : List PermissionGrant)
    → IsDelta declared granted [] ungranted
    → IsDelta declared granted (parsed_keys previous) (without_previous previous ungranted)
unfolding without_previous
without_previous-IsDelta declared granted none ungranted d = d
without_previous-IsDelta declared granted (some previous) ungranted d = record {
  exact = λ k. ground (arith, filter-keys (declared_keys previous) ungranted k, d.exact k);
  distinct = filter-Distinct _ ungranted d.distinct;
}

-- The update gate asks for a permission exactly if the new manifest declares it, the owner has not
-- granted it, and the manifest that is deployed does not declare it; it asks for each only once. So a
-- permission that was revoked is not asked for again, and none that is new is left out.
pub manifest_newly_declared_permissions_v2-IsDelta :
    (parse : Text → Option (List ServiceConsumes)) (consumes : List ServiceConsumes)
    (granted : List PermissionRecord) (previous_manifest_raw : Option Text)
    → IsDelta
        (declared_keys consumes)
        (granted_keys granted)
        (previous_keys parse previous_manifest_raw)
        (manifest_newly_declared_permissions_v2 parse consumes granted previous_manifest_raw)
unfolding manifest_newly_declared_permissions_v2 manifest_ungranted_permissions_v2
manifest_newly_declared_permissions_v2-IsDelta parse consumes granted previous_manifest_raw =
    let ungranted : IsDelta (declared_keys consumes) (granted_keys granted) []
        (manifest_ungranted_permissions_v2 consumes granted) =
      record {
        exact = λ k.
            ground
              (arith, unseen-keys (granted_keys granted) (all_manifest_permissions_v2 consumes) k);
        distinct = unseen-Distinct (granted_keys granted) (all_manifest_permissions_v2 consumes);
      } in
    elim (Bool-cases (is_empty (or_empty previous_manifest_raw))) [
      | inl unknown ↦ rw unknown ungranted
      | inr given ↦ rw given (
          without_previous-IsDelta (declared_keys consumes) (granted_keys granted)
            (parse (or_empty previous_manifest_raw))
            (manifest_ungranted_permissions_v2 consumes granted) ungranted)
    ]
