-- ===== src/Permissions/Order.antt =====
-- The order of an object's keys does not matter to the form that is stored.
use aerosol.Prelude.{
  nat_eq, list_eq, ltb, ◌≡◌, refl, ap, ◌∙◌, ◌≢◌, true, false, List, [], ◌∷◌, Text, text_ltb, arith,
  Option, delete_where, count_where,
}
use aerosol.Permissions.Values.{
  Json, object, Fields, no_fields, field, insert_field, canonical, canonical_fields, json_eq,
}
use aerosol.Permissions.{
  Scope, PermissionRow, row_beq, as_permission, insert_or_ignore, grant_permission_v2,
  revoke_permission_v2, or_empty,
}

text_ltb_total : (s t : Text) → s ≢ t → text_ltb s t ≡ false → text_ltb t s ≡ true
unfolding text_ltb
text_ltb_total [] [] apart h = absurd (apart refl)
text_ltb_total [] (d ∷ t) apart h = ground arith
text_ltb_total (c ∷ s) [] apart h = ground arith
text_ltb_total (c ∷ s) (d ∷ t) apart h = let deeper = text_ltb_total s t in ground (arith, deeper)

text_ltb_asym : (s t : Text) → text_ltb s t ≡ true → text_ltb t s ≡ false
unfolding text_ltb
text_ltb_asym [] [] h = ground arith
text_ltb_asym [] (d ∷ t) h = ground arith
text_ltb_asym (c ∷ s) [] h = ground arith
text_ltb_asym (c ∷ s) (d ∷ t) h = ground (arith, text_ltb_asym s t)

text_ltb_trans : (s t u : Text) → text_ltb s t ≡ true → text_ltb t u ≡ true → text_ltb s u ≡ true
unfolding text_ltb
text_ltb_trans [] [] u h k = ground arith
text_ltb_trans [] (d ∷ t) [] h k = ground arith
text_ltb_trans [] (d ∷ t) (e ∷ u) h k = ground arith
text_ltb_trans (c ∷ s) [] u h k = ground arith
text_ltb_trans (c ∷ s) (d ∷ t) [] h k = ground arith
text_ltb_trans (c ∷ s) (d ∷ t) (e ∷ u) h k = ground (arith, text_ltb_trans s t u)

insert_field_comm :
    (k l : Text) (a b : Json) (xs : Fields)
    → k ≢ l
    → insert_field k a (insert_field l b xs) ≡ insert_field l b (insert_field k a xs)
unfolding insert_field
insert_field_comm k l a b no_fields apart =
    ground (arith, text_ltb_total k l apart, text_ltb_asym k l, text_ltb_asym l k)
insert_field_comm k l a b (field m c xs) apart = ground (
  arith,
  insert_field_comm k l a b xs apart,
  text_ltb_total k l apart,
  text_ltb_asym k l,
  text_ltb_asym l k,
  text_ltb_trans m k l,
  text_ltb_trans m l k,
)

-- The same fields in another order, with values that are stored alike.
pub data SameFields : Fields → Fields → Type 0 where
  nothing : SameFields no_fields no_fields
  swap :
      (k l : Text) (a b : Json) (xs : Fields)
      → k ≢ l
      → SameFields (field k a (field l b xs)) (field l b (field k a xs))
  under :
      (k : Text) (a b : Json) (xs ys : Fields)
      → canonical a ≡ canonical b
      → SameFields xs ys
      → SameFields (field k a xs) (field k b ys)
  through : (xs ys zs : Fields) → SameFields xs ys → SameFields ys zs → SameFields xs zs

canonical_fields-SameFields :
    (xs ys : Fields) → SameFields xs ys → canonical_fields xs ≡ canonical_fields ys
unfolding canonical
canonical_fields-SameFields xs ys nothing = refl
canonical_fields-SameFields xs ys (swap k l a b rest apart) =
    insert_field_comm k l (canonical a) (canonical b) (canonical_fields rest) apart
canonical_fields-SameFields xs ys (under k a b us vs same rest) =
    ap (λ v. insert_field k v (canonical_fields us)) same
    ∙ ap (insert_field k (canonical b)) (canonical_fields-SameFields us vs rest)
canonical_fields-SameFields xs ys (through us ms vs p q) =
    canonical_fields-SameFields us ms p ∙ canonical_fields-SameFields ms vs q

as_permission-SameFields :
    (xs ys : Fields)
    → SameFields xs ys
    → (consumer_app_id service_url : Text) (scope : Scope) (provider_app_id : Option Text)
    → as_permission consumer_app_id service_url (object xs) scope provider_app_id
      ≡ as_permission consumer_app_id service_url (object ys) scope provider_app_id
unfolding as_permission canonical
as_permission-SameFields xs ys same consumer_app_id service_url scope provider_app_id =
    ap
      (λ fields. record {
        consumer_app_id = consumer_app_id;
        service_url = service_url;
        grant_payload = object fields;
        scope = scope;
        provider_app_id = or_empty provider_app_id;
      })
      (canonical_fields-SameFields xs ys same)

-- A permission whose grant has its keys in another order is the same permission: it is granted and
-- revoked alike.
pub permission-SameFields :
    (xs ys : Fields)
    → SameFields xs ys
    → (consumer_app_id service_url : Text) (scope : Scope) (provider_app_id : Option Text)
      (rows : List PermissionRow)
    → (grant_permission_v2 consumer_app_id service_url (object xs) scope provider_app_id rows
        ≡ grant_permission_v2 consumer_app_id service_url (object ys) scope provider_app_id rows)
      × (revoke_permission_v2 consumer_app_id service_url (object xs) scope provider_app_id rows
          ≡ revoke_permission_v2 consumer_app_id service_url (object ys) scope provider_app_id rows)
unfolding grant_permission_v2 revoke_permission_v2
permission-SameFields xs ys same consumer_app_id service_url scope provider_app_id rows =
    let one =
      as_permission-SameFields xs ys same consumer_app_id service_url scope provider_app_id in
    (
      ap (λ row. insert_or_ignore row rows) one,
      ap
          (λ (row : PermissionRow).
            (delete_where (λ r. row_beq r row) rows, ltb 0 (count_where (λ r. row_beq r row) rows)))
          one,
    )
