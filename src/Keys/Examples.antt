-- ===== src/Keys/Examples.antt =====
-- Runs of the key manager: a rotation each ten days with seven days kept, and a deactivated key.
use django_project_test.Base.{string_eq, arith}
use django_project_test.Keys.Primary.{deactivated_primary_falls_back}
use django_project_test.Keys.Rotation.{regular_rotation_keeps_one}
use django_project_test.Base.{some, refl, ◌≡◌, [], ◌∷◌, true}
use django_project_test.Keys.Primary.{perform_all}
use django_project_test.Keys.{
  missing, deactivate_key, get_rotatable_secret_key, find_primary, active_keys, initialize_from_env,
  retire, save_keys, load_keys, rotate_key, get_all_active_keys, KeyRotationManager,
}
use django_project_test.Keys.Rotation.{rotate_all}

deactivated_primary_falls_back_example :
    get_rotatable_secret_key
      (some "first")
      (deactivate_key "first" (perform_all [] (load_keys (some "first") 0 missing)))
    ≡ "first"
unfolding perform_all load_keys initialize_from_env find_primary string_eq
deactivated_primary_falls_back_example =
    deactivated_primary_falls_back (some "first") (some "first") 0 [] "first" refl

abbrev one_key : KeyRotationManager
one_key =
    save_keys (record { key = "first"; created_at = 0; is_active = true; is_primary = true } ∷ [])

regular_rotation_keeps_one_example :
    get_all_active_keys (
      rotate_all 7
        (record { fresh = "second"; at = 864000 } ∷ record { fresh = "third"; at = 1728000 } ∷ [])
        one_key)
    ≡ "third" ∷ []
regular_rotation_keeps_one_example =
    regular_rotation_keeps_one 7 0 one_key (record { fresh = "second"; at = 864000 })
      (record { fresh = "third"; at = 1728000 } ∷ []) (omega arith, tt)
      (omega arith, (omega arith, tt))

-- With eight days between creation and rotation, also a primary key just replaced is gone.
first_rotation : get_all_active_keys (rotate_key "second" 691200 691200 7 one_key) ≡ "second" ∷ []
unfolding rotate_key retire active_keys
first_rotation = refl

within_days :
    get_all_active_keys (rotate_key "second" 432000 432000 7 one_key) ≡ "second" ∷ "first" ∷ []
unfolding rotate_key retire active_keys
within_days = refl
