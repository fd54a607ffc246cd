-- ===== src/Permissions/Values.antt =====
-- JSON values (`GrantAtom` of permissions_v2.py), their equality, and their form with sorted keys.
use aerosol.Prelude.{
  nat_eq, list_eq, ◌==◌, eq_iff, Eq, if◌then◌else◌, ◌≡◌, ◌↔◌, Bool, true, false, ◌&&◌, Text,
  text_ltb, arith,
}

mutual
  pub data Json : Type 0 where
    text : Text → Json
    number : Text → Json
    boolean : Bool → Json
    array : Items → Json
    object : Fields → Json

  pub data Items : Type 0 where
    no_items : Items
    item : Json → Items → Items

  pub data Fields : Type 0 where
    no_fields : Fields
    field : Text → Json → Fields → Fields

unfoldable pub bool_beq : Bool → Bool → Bool
bool_beq true true = true
bool_beq false false = true
bool_beq _ _ = false

unfoldable mutual
  unfolding bool_beq

  pub json_beq : Json → Json → Bool
  json_beq (text a) (text b) = a == b
  json_beq (number a) (number b) = a == b
  json_beq (boolean a) (boolean b) = bool_beq a b
  json_beq (array a) (array b) = items_beq a b
  json_beq (object a) (object b) = fields_beq a b
  json_beq _ _ = false

  pub items_beq : Items → Items → Bool
  items_beq no_items no_items = true
  items_beq (item a xs) (item b ys) = json_beq a b && items_beq xs ys
  items_beq _ _ = false

  pub fields_beq : Fields → Fields → Bool
  fields_beq no_fields no_fields = true
  fields_beq (field k a xs) (field l b ys) = k == l && (json_beq a b && fields_beq xs ys)
  fields_beq _ _ = false

-- A field goes behind those with lesser keys.
unfoldable pub insert_field : Text → Json → Fields → Fields
insert_field k a no_fields = field k a no_fields
insert_field k a (field l b ys) =
    let rest = insert_field k a ys in
    if text_ltb l k then field l b rest else field k a (field l b ys)

unfoldable mutual
  unfolding insert_field

  pub canonical : Json → Json
  canonical (array a) = array (canonical_items a)
  canonical (object a) = object (canonical_fields a)
  canonical (text a) = text a
  canonical (number a) = number a
  canonical (boolean a) = boolean a

  pub canonical_items : Items → Items
  canonical_items no_items = no_items
  canonical_items (item a xs) = item (canonical a) (canonical_items xs)

  pub canonical_fields : Fields → Fields
  canonical_fields no_fields = no_fields
  canonical_fields (field k a xs) = insert_field k (canonical a) (canonical_fields xs)

bool_beq_iff : (a b : Bool) → (bool_beq a b ≡ true) ↔ (a ≡ b)
unfolding bool_beq
bool_beq_iff true true = ground arith
bool_beq_iff true false = ground arith
bool_beq_iff false true = ground arith
bool_beq_iff false false = ground arith

mutual
  unfolding json_beq items_beq fields_beq

  pub json_beq_iff : (a b : Json) → (json_beq a b ≡ true) ↔ (a ≡ b)
  json_beq_iff (text a) (text b) = ground (arith, eq_iff a b)
  json_beq_iff (text a) (number b) = ground arith
  json_beq_iff (text a) (boolean b) = ground arith
  json_beq_iff (text a) (array b) = ground arith
  json_beq_iff (text a) (object b) = ground arith
  json_beq_iff (number a) (text b) = ground arith
  json_beq_iff (number a) (number b) = ground (arith, eq_iff a b)
  json_beq_iff (number a) (boolean b) = ground arith
  json_beq_iff (number a) (array b) = ground arith
  json_beq_iff (number a) (object b) = ground arith
  json_beq_iff (boolean a) (text b) = ground arith
  json_beq_iff (boolean a) (number b) = ground arith
  json_beq_iff (boolean a) (boolean b) = ground (arith, bool_beq_iff a b)
  json_beq_iff (boolean a) (array b) = ground arith
  json_beq_iff (boolean a) (object b) = ground arith
  json_beq_iff (array a) (text b) = ground arith
  json_beq_iff (array a) (number b) = ground arith
  json_beq_iff (array a) (boolean b) = ground arith
  json_beq_iff (array a) (array b) = ground (arith, items_beq_iff a b)
  json_beq_iff (array a) (object b) = ground arith
  json_beq_iff (object a) (text b) = ground arith
  json_beq_iff (object a) (number b) = ground arith
  json_beq_iff (object a) (boolean b) = ground arith
  json_beq_iff (object a) (array b) = ground arith
  json_beq_iff (object a) (object b) = ground (arith, fields_beq_iff a b)

  items_beq_iff : (a b : Items) → (items_beq a b ≡ true) ↔ (a ≡ b)
  items_beq_iff no_items no_items = ground arith
  items_beq_iff no_items (item b ys) = ground arith
  items_beq_iff (item a xs) no_items = ground arith
  items_beq_iff (item a xs) (item b ys) = ground (arith, json_beq_iff a b, items_beq_iff xs ys)

  fields_beq_iff : (a b : Fields) → (fields_beq a b ≡ true) ↔ (a ≡ b)
  fields_beq_iff no_fields no_fields = ground arith
  fields_beq_iff no_fields (field l b ys) = ground arith
  fields_beq_iff (field k a xs) no_fields = ground arith
  fields_beq_iff (field k a xs) (field l b ys) =
      ground (arith, eq_iff k l, json_beq_iff a b, fields_beq_iff xs ys)

instance abbrev pub json_eq : Eq Json
json_eq = record { same = json_beq; same_iff = json_beq_iff }
