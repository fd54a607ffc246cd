-- ===== src/Permissions/Tests.antt =====
-- An app with a grant, and an update of its manifest.
use aerosol.Prelude.{
  ◌≡◌, ◌≢◌, refl, true, false, Option, none, some, List, [], ◌∷◌, list_eq, nat_eq, eq_iff, Elem,
  Text, codes, evaluation,
}
use aerosol.Permissions.Values.{
  text, number, object, Fields, no_fields, field, json_beq, canonical, insert_field, bool_beq,
  json_eq,
}
use aerosol.Permissions.{
  global_scope, scope_beq, PermissionRow, row_beq, as_permission, insert_or_ignore,
  grant_permission_v2, revoke_permission_v2, get_granted_permissions_v2, get_all_permissions_v2,
}
use aerosol.Permissions.Manifest.{
  ServiceConsumes, key_beq, permission_key, all_manifest_permissions_v2, unseen,
  manifest_ungranted_permissions_v2, without_previous, manifest_newly_declared_permissions_v2,
}
use aerosol.Permissions.Gate.{
  IsDelta, declared_keys, granted_keys, previous_keys,
  manifest_newly_declared_permissions_v2-IsDelta,
}

-- What the tests compute with.
model : Unit {0}
unfolding bool_beq json_beq canonical insert_field scope_beq row_beq as_permission insert_or_ignore
    grant_permission_v2 revoke_permission_v2 get_granted_permissions_v2 get_all_permissions_v2
    key_beq permission_key all_manifest_permissions_v2 unseen manifest_ungranted_permissions_v2
    without_previous manifest_newly_declared_permissions_v2 evaluation
model = tt

abbrev app : Text
app = codes "222222222211"

abbrev url : Text
url = codes "example.com/search"

abbrev fields : Fields
fields = field (codes "key") (text (codes "DB")) (field (codes "at") (number (codes "1")) no_fields)

abbrev fields_swapped : Fields
fields_swapped =
    field (codes "at") (number (codes "1")) (field (codes "key") (text (codes "DB")) no_fields)

abbrev row : PermissionRow
row = record {
  consumer_app_id = app;
  service_url = url;
  grant_payload = object fields_swapped;
  scope = global_scope;
  provider_app_id = [];
}

grants : grant_permission_v2 app url (object fields) global_scope none [] ≡ row ∷ []
unfolding model
grants = refl

fresh : ¬ Elem (as_permission app url (object fields) global_scope none) []
fresh m = m

keys_differ : codes "key" ≢ codes "at"
unfolding model
keys_differ e = let differs : false ≡ true = (eq_iff (codes "key") (codes "at")).1 e in cc differs

abbrev consumes : List ServiceConsumes
consumes =
    record {
      service = url;
      shortname = codes "search";
      version = codes ">=1";
      grants = object fields ∷ text (codes "read") ∷ object fields_swapped ∷ [];
    }
    ∷ []

-- The manifest that is deployed asks to read.
abbrev parse : Text → Option (List ServiceConsumes)
parse raw = some (
    record {
      service = url;
      shortname = codes "search";
      version = codes ">=1";
      grants = text (codes "read") ∷ [];
    }
    ∷ [])

delta :
    manifest_newly_declared_permissions_v2 parse consumes [] (some (codes "raw"))
    ≡ record { service_url = url; grant = object fields } ∷ []
unfolding model
delta = refl

manifest_newly_declared_permissions_v2-IsDelta_example :
    IsDelta
      (declared_keys consumes)
      (granted_keys [])
      (previous_keys parse (some (codes "raw")))
      (manifest_newly_declared_permissions_v2 parse consumes [] (some (codes "raw")))
manifest_newly_declared_permissions_v2-IsDelta_example =
    manifest_newly_declared_permissions_v2-IsDelta parse consumes [] (some (codes "raw"))
