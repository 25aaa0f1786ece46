-- ===== src/Saas/Flags.antt =====
-- `FeatureFlag` and `FeatureFlagService`: which features are on for whom. Times are in seconds.
mod Rollout
mod Listing
mod Examples
use django_project_test.Saas.Config.{Database, Library, OperationType, update, record_history}
use django_project_test.Base.{
  string_eq, nat_eq, ◌%◌, ◌==◌, ◌&&◌, not, ◌||◌, ◌∷◌, ltb, some, [], none, if◌then◌else◌, true,
  false, List, Option, Bool, String, ℕ,
}
use django_project_test.Base.Dict.{lookup, insert, Dict}

pub data Status : Type 0 where
  draft active paused archived : Status

pub data RolloutStrategy : Type 0 where
  everyone internal percentage users tenants user_groups : RolloutStrategy

-- A user is its row: the id of the row, and the two Boolean fields that the code reads.
pub record User : Type 0 where
  pub id : ℕ
  pub is_staff : Bool
  pub is_superuser : Bool

-- `M` are the values of the JSON field.
pub record FeatureFlag (M : Type 0) : Type 0 where
  pub key : String
  pub name : String
  pub description : String
  pub status : Status
  pub rollout_strategy : RolloutStrategy
  pub rollout_percentage : ℕ
  pub target_users : List ℕ
  pub target_tenants : List ℕ
  pub starts_at : Option ℕ
  pub ends_at : Option ℕ
  pub metadata : M
  pub updated_by : Option ℕ

abbrev pub is_active_status : Status → Bool
is_active_status draft = false
is_active_status active = true
is_active_status paused = false
is_active_status archived = false

-- `now < self.starts_at`, for a time that is there
abbrev pub too_early : Option ℕ → ℕ → Bool
too_early none now = false
too_early (some t) now = ltb now t

-- `now > self.ends_at`
abbrev pub too_late : Option ℕ → ℕ → Bool
too_late none now = false
too_late (some t) now = ltb t now

-- `filter(id=x).exists()` on a table of ids
unfoldable pub has_id : ℕ → List ℕ → Bool
has_id x [] = false
has_id x (y ∷ ys) = x == y || has_id x ys

abbrev pub targets : Option ℕ → List ℕ → Bool
targets none ids = false
targets (some t) ids = has_id t ids

abbrev pub is_everyone : RolloutStrategy → Bool
is_everyone everyone = true
is_everyone internal = false
is_everyone users = false
is_everyone tenants = false
is_everyone percentage = false
is_everyone user_groups = false

-- The table of flags: the id of a row and the row.
abbrev pub Flags : Type 0 → Type 0
Flags M = Dict ℕ (FeatureFlag M)

-- The tables that the operations change: the flags, and the database of the history.
pub record Store (M : Type 0) : Type 0 where
  pub flags : Flags M
  pub database : Database

-- `bucket` is `int(md5(str(user.id)), 16)`.
module _ {M : Type 0} (bucket : ℕ → ℕ) where
  unfoldable pub by_strategy : RolloutStrategy → FeatureFlag M → User → Option ℕ → Bool
  by_strategy everyone f user tenant = true
  by_strategy internal f user tenant = user.is_staff || user.is_superuser
  by_strategy users f user tenant = has_id user.id f.target_users
  by_strategy tenants f user tenant = targets tenant f.target_tenants
  by_strategy percentage f user tenant = ltb (bucket user.id % 100) f.rollout_percentage
  by_strategy user_groups f user tenant = false

  unfoldable pub is_enabled_for_user : FeatureFlag M → User → Option ℕ → ℕ → Bool
  is_enabled_for_user f user tenant now =
      if not (is_active_status f.status)
      then false
      else if too_early f.starts_at now
      then false
      else if too_late f.ends_at now
      then false
      else by_strategy f.rollout_strategy f user tenant

  unfoldable pub enabled_row : Option (FeatureFlag M) → Option User → Option ℕ → ℕ → Bool
  enabled_row none user tenant now = false
  enabled_row (some f) (some user) tenant now = is_enabled_for_user f user tenant now
  enabled_row (some f) none tenant now = is_active_status f.status && is_everyone f.rollout_strategy

  -- `filter(key=feature_key).first()`
  unfoldable pub by_key : String → Flags M → Option (FeatureFlag M)
  by_key key [] = none
  by_key key ((i, f) ∷ fs) = let rest = by_key key fs in if f.key == key then some f else rest

  -- `raises` says that the query raises.
  unfoldable pub is_enabled : Bool → String → Option User → Option ℕ → ℕ → Flags M → Bool
  is_enabled raises key user tenant now fs =
      if raises then false else enabled_row (by_key key fs) user tenant now

  -- `get_user_features` from the rows on, which sets a key of the result for each active row.
  unfoldable pub set_features : User → Option ℕ → ℕ → Flags M → Dict String Bool → Dict String Bool
  set_features user tenant now [] result = result
  set_features user tenant now ((i, f) ∷ fs) result =
      let on = is_enabled_for_user f user tenant now in
      set_features user tenant now fs
        (if is_active_status f.status then insert f.key on result else result)

  unfoldable pub get_user_features : User → Option ℕ → ℕ → Flags M → Dict String Bool
  get_user_features user tenant now fs = set_features user tenant now fs []

-- The fields of `data` that are present.
pub record Changes (M : Type 0) : Type 0 where
  pub name : Option String
  pub description : Option String
  pub status : Option Status
  pub rollout_strategy : Option RolloutStrategy
  pub rollout_percentage : Option ℕ
  pub starts_at : Option (Option ℕ)
  pub ends_at : Option (Option ℕ)
  pub metadata : Option M

abbrev pub given {ℓ} : {A : Type ℓ} → Option A → A → A
given none old = old
given (some new) old = new

module _ {M V J : Type 0} (lib : Library V J) where
  unfoldable pub changed : Changes M → Option ℕ → FeatureFlag M → FeatureFlag M
  changed data_ user f = record f {
    name = given data_.name f.name;
    description = given data_.description f.description;
    status = given data_.status f.status;
    rollout_strategy = given data_.rollout_strategy f.rollout_strategy;
    rollout_percentage = given data_.rollout_percentage f.rollout_percentage;
    starts_at = given data_.starts_at f.starts_at;
    ends_at = given data_.ends_at f.ends_at;
    metadata = given data_.metadata f.metadata;
    updated_by = elim user [ none ↦ f.updated_by | some u ↦ some u ];
  }

  save : Bool → ℕ → FeatureFlag M → String → String → Option ℕ → Store M → Store M
  save kept i f old new user s = record {
    flags = insert i f s.flags;
    database =
        record_history lib kept f.key "feature_flag" update (some old) (some new) user s.database;
  }

  -- `describe` is `str` of the dictionary of the three fields.
  unfoldable pub update_feature_flag :
      Bool
      → (FeatureFlag M → String)
      → ℕ
      → Changes M
      → Option ℕ
      → Store M
      → Option (FeatureFlag M) × Store M
  unfolding save
  update_feature_flag kept describe i data_ user s = elim (lookup i s.flags) [
    | none ↦ (none, s)
    | some f ↦
        let f' = changed data_ user f in (some f', save kept i f' (describe f) (describe f') user s)
  ]

  unfoldable pub toggled : Option ℕ → FeatureFlag M → FeatureFlag M
  toggled user f = record f {
    status = if is_active_status f.status then paused else active;
    updated_by = elim user [ none ↦ f.updated_by | some u ↦ some u ];
  }

  -- The answer is the new state of the switch, `none` for a missing flag.
  unfoldable pub toggle_status :
      Bool → (Status → String) → ℕ → Option ℕ → Store M → Option Bool × Store M
  unfolding save
  toggle_status kept show i user s = elim (lookup i s.flags) [
    | none ↦ (none, s)
    | some f ↦
        let f' = toggled user f in
        (some (is_active_status f'.status), save kept i f' (show f.status) (show f'.status) user s)
  ]
