-- ===== src/AppId/Tests.antt =====
-- Concrete app names and ids.
use aerosol.Prelude.{
  ℕ, ◌≡◌, refl, ◌↔◌, ◌⊎◌, true, false, [], ◌∷◌, ◌++◌, arith, Text, codes, evaluation,
}
use aerosol.AppId.{is_valid_app_name, new_app_id}
use aerosol.AppId.Names.{IsAppName, is_valid_app_name_iff}
use aerosol.AppId.Base58.{new_app_id_injective}

names :
    (is_valid_app_name (codes "ha-tunnel") ≡ true)
    × (is_valid_app_name (codes "a") ≡ true)
    × (is_valid_app_name (codes "-a") ≡ false)
    × (is_valid_app_name (codes "a-") ≡ false)
    × (is_valid_app_name (codes "App") ≡ false)
    × (is_valid_app_name [] ≡ false)
    × (is_valid_app_name (codes "login" ++ 10 ∷ []) ≡ true)
unfolding is_valid_app_name evaluation
names = (refl, refl, refl, refl, refl, refl, refl)

ids : new_app_id 59 ≡ codes "111111111122"
unfolding new_app_id
ids = refl

is_valid_app_name_iff_example :
    (is_valid_app_name (codes "a-b") ≡ true)
    ↔ (IsAppName (codes "a-b") ⊎ ((t : Text) × (codes "a-b" ≡ t ++ 10 ∷ []) × IsAppName t))
is_valid_app_name_iff_example = is_valid_app_name_iff (codes "a-b")

new_app_id_injective_example : ◌≡◌ {A = ℕ} 59 59
new_app_id_injective_example = new_app_id_injective 59 59 (omega arith) (omega arith) refl
