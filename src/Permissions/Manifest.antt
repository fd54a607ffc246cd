-- ===== src/Permissions/Manifest.antt =====
-- The permissions that a manifest declares, and those that an update needs the owner's approval for
-- (compute_space/src/compute_space/core/manifest.py). The parser of a manifest is a parameter: it
-- gives the manifest's `[[services.v2.consumes]]`, or none where it raises ValueError.
use aerosol.Prelude.{
  nat_eq, list_eq, ◌==◌, eq_iff, Eq, if◌then◌else◌, ◌≡◌, ◌↔◌, Bool, true, not, ◌&&◌, Option, none,
  some, List, [], ◌∷◌, ◌++◌, map, filter, contains, is_empty, Text, arith,
}
use aerosol.Permissions.Values.{Json, canonical, json_eq}
use aerosol.Permissions.{PermissionRecord, or_empty}

pub record ServiceConsumes : Type 0 where
  pub service : Text
  pub shortname : Text
  pub version : Text
  pub grants : List Json

pub record PermissionGrant : Type 0 where
  pub service_url : Text
  pub grant : Json

-- The service and the grant in its stored form.
pub record Key : Type 0 where
  pub url : Text
  pub payload : Json

unfoldable pub key_beq : Key → Key → Bool
key_beq a b = a.url == b.url && a.payload == b.payload

pub key_beq_iff : (a b : Key) → (key_beq a b ≡ true) ↔ (a ≡ b)
unfolding key_beq
key_beq_iff a b = ground (arith, eq_iff a.url b.url, eq_iff a.payload b.payload)

instance abbrev pub key_eq : Eq Key
key_eq = record { same = key_beq; same_iff = key_beq_iff }

unfoldable pub permission_key : Text → Json → Key
unfolding canonical
permission_key service_url grant_payload = record {
  url = service_url;
  payload = canonical grant_payload;
}

abbrev pub key_of : PermissionGrant → Key
key_of pg = permission_key pg.service_url pg.grant

abbrev pub grants_of : ServiceConsumes → List PermissionGrant
grants_of perm = map (λ g. record { service_url = perm.service; grant = g }) perm.grants

unfoldable pub all_manifest_permissions_v2 : List ServiceConsumes → List PermissionGrant
all_manifest_permissions_v2 [] = []
all_manifest_permissions_v2 (perm ∷ consumes) =
    grants_of perm ++ all_manifest_permissions_v2 consumes

-- The two loops, over the services and their grants, with the keys that are seen so far.
unfoldable pub unseen : List Key → List PermissionGrant → List PermissionGrant
unfolding permission_key
unseen seen [] = []
unseen seen (pg ∷ declared) =
    let rest = unseen (if contains (key_of pg) seen then seen else key_of pg ∷ seen) declared in
    if contains (key_of pg) seen then rest else pg ∷ rest

unfoldable pub manifest_ungranted_permissions_v2 :
    List ServiceConsumes → List PermissionRecord → List PermissionGrant
unfolding permission_key all_manifest_permissions_v2 unseen
manifest_ungranted_permissions_v2 consumes granted =
    unseen (map (λ (r : PermissionRecord). permission_key r.service_url r.grant) granted)
      (all_manifest_permissions_v2 consumes)

-- What the previous manifest did not declare; everything where there is none, or a bad one.
unfoldable pub without_previous :
    Option (List ServiceConsumes) → List PermissionGrant → List PermissionGrant
unfolding permission_key all_manifest_permissions_v2
without_previous none ungranted = ungranted
without_previous (some previous) ungranted =
    filter (λ pg. not (contains (key_of pg) (map key_of (all_manifest_permissions_v2 previous))))
      ungranted

unfoldable pub manifest_newly_declared_permissions_v2 :
    (Text → Option (List ServiceConsumes))
    → List ServiceConsumes
    → List PermissionRecord
    → Option Text
    → List PermissionGrant
unfolding manifest_ungranted_permissions_v2 without_previous
manifest_newly_declared_permissions_v2 parse consumes granted previous_manifest_raw =
    let ungranted = manifest_ungranted_permissions_v2 consumes granted in
    if is_empty (or_empty previous_manifest_raw)
    then ungranted
    else without_previous (parse (or_empty previous_manifest_raw)) ungranted
