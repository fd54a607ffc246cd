-- ===== src/Guards/Pressure.antt =====
-- compute_space/src/compute_space/core/memory_guard.py: the guard of all apps is one alarm for each.
use aerosol.Prelude.{
  ℕ, nat_eq, list_eq, ◌==◌, eq_iff, ltb, leb, if◌then◌else◌, ◌≡◌, refl, ap, ◌∙◌, inl, inr, Bool,
  true, false, not, ◌&&◌, Option, none, some, List, [], ◌∷◌, ◌++◌, arith, contains, delete_where,
  Text, Bool-cases,
}
use aerosol.Guards.{
  Reading, memory_warn_percent, memory_clear_percent, MemoryGuard, check_memory_pressure,
  check_pressure,
}

-- The alarm of one app: whether the owner has been warned, and the warnings so far.
pub record Alarm : Type 0 where
  pub notified : Bool
  pub warned : List ℕ

-- A reading below the lower threshold arms the alarm again; one from the upper threshold on sets it off
-- if it is armed; any other changes nothing.
unfoldable pub alarm_step : Option ℕ → Alarm → Alarm
alarm_step none alarm = alarm
alarm_step (some percent) alarm =
    if ltb percent memory_clear_percent
    then record alarm { notified = false }
    else if leb memory_warn_percent percent && not alarm.notified
    then record { notified = true; warned = alarm.warned ++ percent ∷ [] }
    else alarm

-- The readings of one app.
unfoldable pub readings_of : Text → List Reading → List (Option ℕ)
readings_of app_id [] = []
readings_of app_id ((other, percent) ∷ readings) =
    let rest = readings_of app_id readings in if other == app_id then percent ∷ rest else rest

unfoldable pub alarm_run : List (Option ℕ) → Alarm → Alarm
unfolding alarm_step
alarm_run [] alarm = alarm
alarm_run (r ∷ readings) alarm = alarm_run readings (alarm_step r alarm)

unfoldable pub warnings_of : Text → List (Text × ℕ) → List ℕ
warnings_of app_id [] = []
warnings_of app_id ((other, percent) ∷ warnings) =
    let rest = warnings_of app_id warnings in if other == app_id then percent ∷ rest else rest

-- What the guard knows of one app.
unfoldable pub view : Text → MemoryGuard → Alarm
unfolding warnings_of
view app_id guard = record {
  notified = contains app_id guard.pressure_notified;
  warned = warnings_of app_id guard.warnings;
}

contains-delete_where :
    (a b : Text) (xs : List Text)
    → contains a (delete_where (λ x. x == b) xs) ≡ (if b == a then false else contains a xs)
unfolding contains delete_where
contains-delete_where a b [] = ground arith
contains-delete_where a b (x ∷ xs) =
    ground (arith, contains-delete_where a b xs, eq_iff x b, eq_iff x a, eq_iff b a)

warnings_of-append_one :
    (a b : Text) (percent : ℕ) (ws : List (Text × ℕ))
    → warnings_of a (ws ++ (b, percent) ∷ [])
      ≡ (if b == a then warnings_of a ws ++ percent ∷ [] else warnings_of a ws)
unfolding warnings_of
warnings_of-append_one a b percent [] = ground arith
warnings_of-append_one a b percent ((c, p) ∷ ws) =
    ground (arith, warnings_of-append_one a b percent ws)

view-other :
    (app_id other : Text) (percent : Option ℕ) (guard : MemoryGuard)
    → (other == app_id) ≡ false
    → view app_id (check_memory_pressure (other, percent) guard) ≡ view app_id guard
unfolding view check_memory_pressure contains
view-other app_id other none guard e = refl
view-other app_id other (some percent) guard e = ground (
  arith,
  contains-delete_where app_id other guard.pressure_notified,
  warnings_of-append_one app_id other percent guard.warnings,
)

view-own :
    (app_id other : Text) (percent : Option ℕ) (guard : MemoryGuard)
    → (other == app_id) ≡ true
    → view app_id (check_memory_pressure (other, percent) guard)
      ≡ alarm_step percent (view app_id guard)
unfolding view check_memory_pressure alarm_step contains
view-own app_id other none guard e = refl
view-own app_id other (some percent) guard e =
    let same : other ≡ app_id = (eq_iff other app_id).0 e in
    ground (
      arith,
      same,
      contains-delete_where app_id other guard.pressure_notified,
      warnings_of-append_one app_id other percent guard.warnings,
    )

-- The guard, which checks all apps in turn and keeps one set of those it has warned about, does for each app what
-- an alarm of its own would do with the app's readings alone: the same warnings in the same order, and the
-- same state at the end.
pub view-check_pressure :
    (app_id : Text) (readings : List Reading) (guard : MemoryGuard)
    → view app_id (check_pressure readings guard)
      ≡ alarm_run (readings_of app_id readings) (view app_id guard)
unfolding check_pressure alarm_run readings_of
view-check_pressure app_id [] guard = refl
view-check_pressure app_id ((other, percent) ∷ readings) guard =
    let rest = view-check_pressure app_id readings (check_memory_pressure (other, percent) guard) in
    elim (Bool-cases (other == app_id)) [
      | inl own ↦ rw own (
          rest
          ∙ ap (alarm_run (readings_of app_id readings)) (view-own app_id other percent guard own))
      | inr apart ↦ rw apart (
          rest
          ∙ ap (alarm_run (readings_of app_id readings))
              (view-other app_id other percent guard apart))
    ]
