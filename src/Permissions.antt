-- ===== src/Permissions.antt =====
-- compute_space/src/compute_space/core/auth/permissions_v2.py: the grants of the owner. A grant is a
-- JSON value. The text that `json.dumps(…, sort_keys=True)` writes is represented by the value with
-- its keys sorted, which is what `json.loads` reads back from it; a number by the text of it.
pub mod Values
pub mod Order
pub mod Table
pub mod Manifest
pub mod Gate
pub mod Tests
use aerosol.Prelude.{
  ℕ, nat_eq, list_eq, ◌==◌, ltb, if◌then◌else◌, Bool, true, false, ◌&&◌, Option, none, some, List,
  [], ◌∷◌, ◌++◌, map, any, filter, is_empty, Text, codes, delete_where, count_where, sort_by,
  text_ltb,
}
use aerosol.Permissions.Values.{Json, canonical, json_eq}

pub data Scope : Type 0 where
  global_scope app_scope : Scope

unfoldable pub scope_beq : Scope → Scope → Bool
scope_beq global_scope global_scope = true
scope_beq app_scope app_scope = true
scope_beq _ _ = false

-- A row of `permissions_v2`; no provider is the empty text.
pub record PermissionRow : Type 0 where
  pub consumer_app_id : Text
  pub service_url : Text
  pub grant_payload : Json
  pub scope : Scope
  pub provider_app_id : Text

-- All columns are the key.
unfoldable pub row_beq : PermissionRow → PermissionRow → Bool
unfolding scope_beq
row_beq a b =
    (a.consumer_app_id == b.consumer_app_id && a.service_url == b.service_url)
    && ((a.grant_payload == b.grant_payload && scope_beq a.scope b.scope)
        && a.provider_app_id == b.provider_app_id)

abbrev pub or_empty : Option Text → Text
or_empty none = []
or_empty (some t) = t

-- `provider_app_id or None`
abbrev pub or_none : Text → Option Text
or_none t = if is_empty t then none else some t

-- The row that a call is about.
unfoldable pub as_permission : Text → Text → Json → Scope → Option Text → PermissionRow
unfolding canonical
as_permission consumer_app_id service_url grant_payload scope provider_app_id = record {
  consumer_app_id = consumer_app_id;
  service_url = service_url;
  grant_payload = canonical grant_payload;
  scope = scope;
  provider_app_id = or_empty provider_app_id;
}

-- INSERT OR IGNORE
unfoldable pub insert_or_ignore : PermissionRow → List PermissionRow → List PermissionRow
unfolding row_beq
insert_or_ignore row rows = if any (λ r. row_beq r row) rows then rows else rows ++ row ∷ []

unfoldable pub grant_permission_v2 :
    Text → Text → Json → Scope → Option Text → List PermissionRow → List PermissionRow
unfolding as_permission insert_or_ignore
grant_permission_v2 consumer_app_id service_url grant_payload scope provider_app_id rows =
    insert_or_ignore (as_permission consumer_app_id service_url grant_payload scope provider_app_id)
      rows

-- The rows that are left, and whether one was deleted.
unfoldable pub revoke_permission_v2 :
    Text → Text → Json → Scope → Option Text → List PermissionRow → List PermissionRow × Bool
unfolding as_permission row_beq
revoke_permission_v2 consumer_app_id service_url grant_payload scope provider_app_id rows =
    let row = as_permission consumer_app_id service_url grant_payload scope provider_app_id in
    (delete_where (λ r. row_beq r row) rows, ltb 0 (count_where (λ r. row_beq r row) rows))

pub record GrantedPermission : Type 0 where
  pub grant : Json
  pub scope : Scope
  pub provider_app_id : Option Text

unfoldable pub get_granted_permissions_v2 :
    Text → Text → List PermissionRow → List GrantedPermission
get_granted_permissions_v2 consumer_app_id service_url rows =
    map
      (λ (r : PermissionRow). record {
        grant = r.grant_payload;
        scope = r.scope;
        provider_app_id = or_none r.provider_app_id;
      })
      (filter (λ r. r.consumer_app_id == consumer_app_id && r.service_url == service_url) rows)

pub record PermissionRecord : Type 0 where
  pub consumer_app_id : Text
  pub service_url : Text
  pub grant : Json
  pub scope : Scope
  pub provider_app_id : Option Text

abbrev pub as_record : PermissionRow → PermissionRecord
as_record r = record {
  consumer_app_id = r.consumer_app_id;
  service_url = r.service_url;
  grant = r.grant_payload;
  scope = r.scope;
  provider_app_id = or_none r.provider_app_id;
}

abbrev by_service : PermissionRow → PermissionRow → Bool
by_service a b = text_ltb a.service_url b.service_url

abbrev by_consumer : PermissionRow → PermissionRow → Bool
by_consumer a b =
    if a.consumer_app_id == b.consumer_app_id
    then text_ltb a.service_url b.service_url
    else text_ltb a.consumer_app_id b.consumer_app_id

-- The rows of one consumer, or of all where none is named.
unfoldable pub get_all_permissions_v2 : Option Text → List PermissionRow → List PermissionRecord
get_all_permissions_v2 consumer_app_id rows =
    if is_empty (or_empty consumer_app_id)
    then map as_record (sort_by by_consumer rows)
    else map as_record
        (sort_by by_service (filter (λ r. r.consumer_app_id == or_empty consumer_app_id) rows))
