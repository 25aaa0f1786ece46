-- ===== src/Saas/Flags/Examples.antt =====
-- Flags of two features, for users with concrete buckets.
use django_project_test.Saas.Flags.{
  FeatureFlag, Flags, active, RolloutStrategy, percentage, everyone, User, by_key, is_enabled,
  get_user_features,
}
use django_project_test.Saas.Flags.Listing.{get_user_features-is_enabled, is_on}
use django_project_test.Base.{
  refl, [], ◌∷◌, ◌≡◌, Option, ◌*◌, string_eq, some, none, false, String, ℕ,
}
use django_project_test.Base.Dict.{lookup}

abbrev bucket : ℕ → ℕ
bucket i = i * 37

abbrev flag : String → RolloutStrategy → ℕ → Option ℕ → FeatureFlag Unit
flag key strategy percent ends = record {
  key = key;
  name = key;
  description = "";
  status = active;
  rollout_strategy = strategy;
  rollout_percentage = percent;
  target_users = [];
  target_tenants = [];
  starts_at = none;
  ends_at = ends;
  metadata = tt;
  updated_by = none;
}

abbrev user : User
user = record { id = 1; is_staff = false; is_superuser = false }

-- A feature that ended at 500, and one for 40 percent of the users.
abbrev table : Flags Unit
table = (1, flag "spring_sale" everyone 100 (some 500)) ∷ (2, flag "new_ui" percentage 40 none) ∷ []

get_user_features-is_enabled_example :
    is_on (lookup "new_ui" (get_user_features bucket user none 1000 table))
    ≡ is_enabled bucket false "new_ui" (some user) none 1000 table
unfolding by_key string_eq
get_user_features-is_enabled_example =
    get_user_features-is_enabled bucket "new_ui" user none 1000 table (refl, (refl, tt))
