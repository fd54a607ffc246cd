-- ===== src/Permissions/Table.antt =====
-- Granting and revoking.
use mathlib.Core.Path.{subst}
use mathlib.Core.List.{append-nil}
use aerosol.Prelude.{
  nat_eq, list_eq, eq_iff, ltb, ◌<◌, ◌≡◌, refl, ap, ◌∙◌, ◌≢◌, ◌↔◌, ◌⊎◌, inl, inr, Bool, true, false,
  Option, List, [], ◌∷◌, ◌++◌, any, any_sound, any_complete, arith, Elem, elem-append, Text,
  delete_where, elem-delete_where, count_where, Bool-cases,
}
use aerosol.Permissions.Values.{Json, json_eq}
use aerosol.Permissions.{
  Scope, global_scope, app_scope, scope_beq, PermissionRow, row_beq, as_permission,
  insert_or_ignore, grant_permission_v2, revoke_permission_v2,
}

scope_beq_iff : (a b : Scope) → (scope_beq a b ≡ true) ↔ (a ≡ b)
unfolding scope_beq
scope_beq_iff global_scope global_scope = ground arith
scope_beq_iff global_scope app_scope = ground arith
scope_beq_iff app_scope global_scope = ground arith
scope_beq_iff app_scope app_scope = ground arith

pub row_beq_iff : (a b : PermissionRow) → (row_beq a b ≡ true) ↔ (a ≡ b)
unfolding row_beq
row_beq_iff a b = ground (
  arith,
  eq_iff a.consumer_app_id b.consumer_app_id,
  eq_iff a.service_url b.service_url,
  eq_iff a.grant_payload b.grant_payload,
  scope_beq_iff a.scope b.scope,
  eq_iff a.provider_app_id b.provider_app_id,
)

-- The test before an insertion.
has_row_iff :
    (row : PermissionRow) (rows : List PermissionRow)
    → (any (λ r. row_beq r row) rows ≡ true) ↔ Elem row rows
has_row_iff row rows = (
  (λ there.
      let (r, listed, same) = any_sound (λ r. row_beq r row) rows there in
      subst (λ x. Elem x rows) ((row_beq_iff r row).0 same) listed),
  (λ listed. any_complete (λ r. row_beq r row) row rows listed ((row_beq_iff row row).1 refl)),
)

elem-insert_or_ignore :
    (row p : PermissionRow) (rows : List PermissionRow)
    → Elem p (insert_or_ignore row rows) ↔ ((row ≡ p) ⊎ Elem p rows)
unfolding insert_or_ignore
elem-insert_or_ignore row p rows = elim (Bool-cases (any (λ r. row_beq r row) rows)) [
  | inr fresh ↦ rw fresh (ground (arith, elem-append p rows (row ∷ [])))
  | inl there ↦
      let listed = (has_row_iff row rows).0 there in
      rw there
        ((λ m. inr m), (λ m. elim m [ inl e ↦ subst (λ x. Elem x rows) e listed | inr old ↦ old ]))
]

insert_or_ignore-there :
    (row : PermissionRow) (rows : List PermissionRow)
    → Elem row rows
    → insert_or_ignore row rows ≡ rows
unfolding insert_or_ignore
insert_or_ignore-there row rows listed = rw ((has_row_iff row rows).1 listed) refl

insert_or_ignore-fresh :
    (row : PermissionRow) (rows : List PermissionRow)
    → ¬ Elem row rows
    → insert_or_ignore row rows ≡ rows ++ row ∷ []
unfolding insert_or_ignore
insert_or_ignore-fresh row rows fresh =
    let absent : any (λ r. row_beq r row) rows ≡ false = ground (arith, has_row_iff row rows) in
    rw absent refl

-- A grant adds the permission and no other, and a second one changes nothing.
pub grant_permission_v2_idempotent :
    (consumer_app_id service_url : Text) (grant_payload : Json) (scope : Scope)
    (provider_app_id : Option Text) (rows : List PermissionRow)
    → ((p : PermissionRow)
        → Elem p (
            grant_permission_v2 consumer_app_id service_url grant_payload scope provider_app_id
              rows)
          ↔ ((as_permission consumer_app_id service_url grant_payload scope provider_app_id ≡ p)
              ⊎ Elem p rows))
      × (grant_permission_v2 consumer_app_id service_url grant_payload scope provider_app_id (
            grant_permission_v2 consumer_app_id service_url grant_payload scope provider_app_id
              rows)
          ≡ grant_permission_v2 consumer_app_id service_url grant_payload scope provider_app_id
              rows)
unfolding grant_permission_v2
grant_permission_v2_idempotent consumer_app_id service_url grant_payload scope provider_app_id
      rows =
    let row = as_permission consumer_app_id service_url grant_payload scope provider_app_id in
    (
      (λ p. elem-insert_or_ignore row p rows),
      insert_or_ignore-there row (insert_or_ignore row rows)
          ((elem-insert_or_ignore row row rows).1 (inl refl)),
    )

count_where-positive :
    (p : PermissionRow → Bool) (rows : List PermissionRow)
    → (0 < count_where p rows) ↔ (any p rows ≡ true)
unfolding count_where any
count_where-positive p [] = ground arith
count_where-positive p (r ∷ rows) = ground (arith, count_where-positive p rows)

-- Nothing is deleted where nothing meets the test.
delete_where-nothing :
    (p : PermissionRow → Bool) (rows : List PermissionRow)
    → any p rows ≡ false
    → delete_where p rows ≡ rows
unfolding delete_where any
delete_where-nothing p [] h = refl
delete_where-nothing p (r ∷ rows) h = ground (arith, delete_where-nothing p rows)

delete_where-append :
    (p : PermissionRow → Bool) (xs ys : List PermissionRow)
    → delete_where p (xs ++ ys) ≡ delete_where p xs ++ delete_where p ys
unfolding delete_where
delete_where-append p [] ys = refl
delete_where-append p (x ∷ xs) ys = ground (arith, delete_where-append p xs ys)

delete_where-one :
    (p : PermissionRow → Bool) (row : PermissionRow) → p row ≡ true → delete_where p (row ∷ []) ≡ []
unfolding delete_where
delete_where-one p row h = rw h refl

-- A revocation removes the permission and no other, and answers whether it was there.
pub revoke_permission_v2_iff :
    (consumer_app_id service_url : Text) (grant_payload : Json) (scope : Scope)
    (provider_app_id : Option Text) (rows : List PermissionRow)
    → ((p : PermissionRow)
        → Elem p
            (revoke_permission_v2 consumer_app_id service_url grant_payload scope provider_app_id
              rows).0
          ↔ (Elem p rows
              × (p
                  ≢ as_permission consumer_app_id service_url grant_payload scope provider_app_id)))
      × (((revoke_permission_v2 consumer_app_id service_url grant_payload scope provider_app_id
              rows).1
            ≡ true)
          ↔ Elem
              (as_permission consumer_app_id service_url grant_payload scope provider_app_id)
              rows)
unfolding revoke_permission_v2
revoke_permission_v2_iff consumer_app_id service_url grant_payload scope provider_app_id rows =
    let row = as_permission consumer_app_id service_url grant_payload scope provider_app_id in
    (
      (λ p. ground (arith, elem-delete_where (λ r. row_beq r row) p rows, row_beq_iff p row)),
      ground (arith, count_where-positive (λ r. row_beq r row) rows, has_row_iff row rows),
    )

-- Revoking a permission that has just been granted, and was not there before, gives the table back.
pub revoke_permission_v2-grant :
    (consumer_app_id service_url : Text) (grant_payload : Json) (scope : Scope)
    (provider_app_id : Option Text) (rows : List PermissionRow)
    → ¬ Elem (as_permission consumer_app_id service_url grant_payload scope provider_app_id) rows
    → revoke_permission_v2 consumer_app_id service_url grant_payload scope provider_app_id
        (grant_permission_v2 consumer_app_id service_url grant_payload scope provider_app_id rows)
      ≡ (rows, true)
unfolding revoke_permission_v2 grant_permission_v2
revoke_permission_v2-grant consumer_app_id service_url grant_payload scope provider_app_id rows
      fresh =
    let row = as_permission consumer_app_id service_url grant_payload scope provider_app_id in
    let matches : PermissionRow → Bool = λ r. row_beq r row in
    let own : row_beq row row ≡ true = (row_beq_iff row row).1 refl in
    let absent : any matches rows ≡ false = ground (arith, has_row_iff row rows) in
    let left : delete_where matches (rows ++ row ∷ []) ≡ rows =
      delete_where-append matches rows (row ∷ [])
      ∙ ap (λ l. l ++ delete_where matches (row ∷ [])) (delete_where-nothing matches rows absent)
      ∙ ap (λ l. rows ++ l) (delete_where-one matches row own)
      ∙ append-nil rows in
    let positive : ltb 0 (count_where matches (rows ++ row ∷ [])) ≡ true = ground (
      arith,
      count_where-positive matches (rows ++ row ∷ []),
      any_complete matches row (rows ++ row ∷ [])
          ((elem-append row rows (row ∷ [])).1 (inr (inl refl))) own,
    ) in
    rw (insert_or_ignore-fresh row rows fresh) (rw left (rw positive refl))
