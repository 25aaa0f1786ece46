-- ===== src/Versioning.antt =====
-- framework/versioning/core.py: the registry of the versions of the interface. A version is an object
-- whose `is_default` the registry changes, so the registry holds references to objects. The sorting of
-- names, canary rules and `hash` are parameters.
mod Default
mod Latest
mod Routing
mod Middleware
mod Served
mod Guards
mod Window
mod Examples
use django_project_test.Base.{[], ◌∷◌}
use django_project_test.Base.{
  nat_eq, string_eq, ◌==◌, some, none, false, if◌then◌else◌, true, Option, ℕ, Bool, String,
}
use django_project_test.Base.Dict.{erase, insert, lookup, Dict}
use django_project_test.Base.Integers.{ℤ}

pub data VersionStatus : Type 0 where
  canary active deprecated sunset disabled : VersionStatus

-- Dates are day numbers; `Q` are the requests.
pub record VersionSpec (Q : Type 0) : Type 0 where
  pub name : String
  pub status : VersionStatus
  pub is_default : Bool
  pub description : String
  pub released_at : Option ℕ
  pub deprecated_at : Option ℕ
  pub sunset_date : Option ℕ
  pub successor : Option String
  pub canary_weight : ℤ
  pub canary_match : Option (Q → Bool)
  pub canary_header : String
  pub canary_tier_value : String
  pub allow_fallback_to : Option String

abbrev pub available : VersionStatus → Bool
available active = true
available canary = true
available deprecated = true
available sunset = false
available disabled = false

abbrev pub canary_status : VersionStatus → Bool
canary_status canary = true
canary_status active = false
canary_status deprecated = false
canary_status sunset = false
canary_status disabled = false

abbrev pub deprecated_status : VersionStatus → Bool
deprecated_status deprecated = true
deprecated_status sunset = true
deprecated_status canary = false
deprecated_status active = false
deprecated_status disabled = false

module _ {Q : Type 0} where
  abbrev pub is_available : VersionSpec Q → Bool
  is_available v = available v.status

  abbrev pub is_canary : VersionSpec Q → Bool
  is_canary v = canary_status v.status

  abbrev pub is_deprecated : VersionSpec Q → Bool
  is_deprecated v = deprecated_status v.status

-- The objects by their references, and `_versions`, from names to references.
pub record VersionRegistry (Q : Type 0) : Type 0 where
  pub objects : ℕ → VersionSpec Q
  pub versions : Dict String ℕ

is_some : Option ℕ → Bool
is_some none = false
is_some (some r) = true

module _ {Q : Type 0} where
  -- `v.is_default = False` on the object of a reference
  unfoldable pub clear_default : ℕ → (ℕ → VersionSpec Q) → ℕ → VersionSpec Q
  clear_default r objects i =
      if i == r then record (objects i) { is_default = false } else objects i

  unfoldable pub clear_defaults : Dict String ℕ → (ℕ → VersionSpec Q) → ℕ → VersionSpec Q
  clear_defaults [] objects = objects
  clear_defaults ((n, r) ∷ d) objects = clear_defaults d (clear_default r objects)

  unfoldable pub register : ℕ → VersionRegistry Q → VersionRegistry Q
  register r reg = record {
    objects =
        if (reg.objects r).is_default then clear_defaults reg.versions reg.objects else reg.objects;
    versions = insert (reg.objects r).name r reg.versions;
  }

  unfoldable pub unregister : String → VersionRegistry Q → Bool × VersionRegistry Q
  unfolding is_some
  unregister name reg =
      (is_some (lookup name reg.versions), record reg { versions = erase name reg.versions })

  abbrev pub object_of : VersionRegistry Q → Option ℕ → Option (VersionSpec Q)
  object_of reg none = none
  object_of reg (some r) = some (reg.objects r)

  unfoldable pub get : String → VersionRegistry Q → Option (VersionSpec Q)
  get name reg = object_of reg (lookup name reg.versions)

  unfoldable pub first_default : (ℕ → VersionSpec Q) → Dict String ℕ → Option ℕ
  first_default objects [] = none
  first_default objects ((n, r) ∷ d) =
      if (objects r).is_default then some r else first_default objects d

  -- The reference of the object that `default` returns.
  abbrev pub default_ref : VersionRegistry Q → Option ℕ
  default_ref reg = first_default reg.objects reg.versions

  unfoldable pub default : VersionRegistry Q → Option (VersionSpec Q)
  default reg = object_of reg (default_ref reg)
