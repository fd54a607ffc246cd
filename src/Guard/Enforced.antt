-- ===== src/Guard/Enforced.antt =====
-- What the guard leaves.
use aerosol.Prelude.{
  ℕ, list_eq, nat_eq, ◌==◌, eq_iff, if◌then◌else◌, ◌≡◌, refl, ap, sym, ◌∙◌, ◌≢◌, ◌⊎◌, inl, inr,
  Bool, true, false, List, [], ◌∷◌, filter, elem-filter, arith, Elem, update_where,
  elem-update_where, Bool-cases,
}
use aerosol.Db.{App, Db, status_beq}
use aerosol.Manifest.{ℤ}
use aerosol.Guard.{storage_low, is_up, to_low, stop_rows, enforce_storage_guard}

-- An app is stopped if a row is its own, and else stays.
stop_rows_sound :
    (rows apps : List App) (b : App)
    → Elem b (stop_rows rows apps)
    → (a : App) × Elem a apps
      × (((b ≡ a) × ((r : App) → Elem r rows → r.app_id ≢ a.app_id))
          ⊎ ((b ≡ to_low a) × ((r : App) × Elem r rows × (r.app_id ≡ a.app_id))))
unfolding stop_rows
stop_rows_sound [] apps b m = (b, m, inl (refl, λ r listed. absurd listed))
stop_rows_sound (row ∷ rows) apps b m =
    let own : App → Bool = λ a. a.app_id == row.app_id in
    let (x, there, later) = stop_rows_sound rows (update_where own to_low apps) b m in
    let (a, listed, updated) = elem-update_where own to_low x apps there in
    elim (Bool-cases (own a)) [
      | inl hit ↦
          let low : x ≡ to_low a = rw hit at updated in
          let same : row.app_id ≡ a.app_id = sym ((eq_iff a.app_id row.app_id).0 hit) in
          (
            a,
            listed,
            elim later [
              | inl (kept, _) ↦ inr (kept ∙ low, (row, inl refl, same))
              | inr (again, _) ↦ inr (again ∙ ap to_low low, (row, inl refl, same))
            ],
          )
      | inr missed ↦
          let kept_now : x ≡ a = rw missed at updated in
          let apart : row.app_id ≢ a.app_id = ground (arith, missed, eq_iff a.app_id row.app_id) in
          (
            a,
            listed,
            elim later [
              | inl (kept, none_own) ↦ inl (
                kept ∙ kept_now,
                (λ r at. elim at [
                  | inl e ↦ (λ h. apart (ap (λ (y : App). y.app_id) e ∙ h))
                  | inr old ↦ (λ h. none_own r old (h ∙ ap (λ (y : App). y.app_id) (sym kept_now)))
                ]),
              )
              | inr (again, (r, old, same)) ↦ inr (
                again ∙ ap to_low kept_now,
                (r, inr old, same ∙ ap (λ (y : App). y.app_id) kept_now),
              )
            ],
          )
    ]

-- Where an app of the new table comes from.
abbrev pub IsStopped : Db → App → Type 0
IsStopped db b =
    (a : App) × Elem a db.apps
    × (((b ≡ a) × (is_up a ≡ false))
        ⊎ ((b ≡ to_low a)
            × ((r : App) × Elem r db.apps × (is_up r ≡ true) × (r.app_id ≡ a.app_id))))

stop_rows-IsStopped :
    (db : Db) (b : App) → Elem b (stop_rows (filter is_up db.apps) db.apps) → IsStopped db b
stop_rows-IsStopped db b m =
    let (a, listed, came) = stop_rows_sound (filter is_up db.apps) db.apps b m in
    elim came [
      | inl (kept, none_own) ↦ (
        a,
        listed,
        inl (
          kept,
          elim (Bool-cases (is_up a)) [
            | inr down ↦ down
            | inl up ↦ absurd (none_own a ((elem-filter is_up a db.apps).1 (listed, up)) refl)
          ],
        ),
      )
      | inr (low, (r, selected, same)) ↦
          let (there, up) = (elem-filter is_up r db.apps).0 selected in
          (a, listed, inr (low, (r, there, up, same)))
    ]

IsStopped-down : (db : Db) (b : App) → IsStopped db b → is_up b ≡ false
unfolding status_beq
IsStopped-down db b (a, listed, inl (kept, down)) = rw kept down
IsStopped-down db b (a, listed, inr (low, (r, there, up, same))) = rw low refl

-- The two things that a round of the guard does.
pub data IsEnforced (low paused : Bool) (db after : Db) : Type 0 where
  stopped :
      low ≡ true
      → paused ≡ false
      → ((b : App) → Elem b after.apps → (is_up b ≡ false) × IsStopped db b)
      → IsEnforced low paused db after
  spared : (low ≡ false) ⊎ (paused ≡ true) → after ≡ db → IsEnforced low paused db after

-- When the free space is below the threshold and the guard is not paused, no app is left running or
-- starting, and only rows with the id of an app that did change, to the error. Otherwise nothing
-- changes.
pub enforce_storage_guard-IsEnforced :
    (storage_min_free_mb : ℤ) (free : ℕ) (paused : Bool) (db : Db)
    → IsEnforced
        (storage_low storage_min_free_mb free)
        paused
        db
        (enforce_storage_guard storage_min_free_mb free paused db)
unfolding enforce_storage_guard
enforce_storage_guard-IsEnforced storage_min_free_mb free paused db =
    go (storage_low storage_min_free_mb free) paused
  where
    go :
        (low p : Bool)
        → IsEnforced low p db (
            if low
            then (if p then db else record db { apps = stop_rows (filter is_up db.apps) db.apps })
            else db)
    go false p = spared (inl refl) refl
    go true true = spared (inr refl) refl
    go true false =
        stopped refl refl
          (λ b m. (IsStopped-down db b (stop_rows-IsStopped db b m), stop_rows-IsStopped db b m))
