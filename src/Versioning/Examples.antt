-- ===== src/Versioning/Examples.antt =====
-- A registry with three versions, and requests that ask for them.
use django_project_test.Base.{
  ◌↔◌, nat_eq, zero, false, suc, Option, refl, string_eq, none, ◌==◌, ◌≡◌, Bool, some,
  if◌then◌else◌, true, ℕ, String, [], ◌∷◌,
}
use django_project_test.Versioning.{
  sunset, active, deprecated, get, default_ref, clear_default, first_default, clear_defaults,
  VersionSpec, VersionStatus, register, default, VersionRegistry,
}
use django_project_test.Versioning.Routing.{Library}
use django_project_test.Versioning.Middleware.{
  detect_version_from_request, detect_in, carry_out, decide_status, decide_spec, decide, call,
  by_query, by_header, annotations, by_url, VersioningConfig,
}
use django_project_test.Base.Dict.{lookup, insert, Dict}
use django_project_test.Versioning.Guards.{numbers, check_version_constraints, Constraints, Reading}
use django_project_test.Versioning.Default.{
  OneDefault, here, next, no_versions, reached-OneDefault, registers,
}
use django_project_test.Base.Integers.{pos}
use django_project_test.Versioning.Latest.{registered_twice_no_default}
use django_project_test.Versioning.Window.{guard-Given, Before}
use django_project_test.Base.{◌⊎◌}
use django_project_test.Versioning.Served.{Allowed, served_version-Allowed}

-- The objects: 0 is v1, 1 is v2, and 2 is v3.
abbrev spec : String → VersionStatus → Bool → VersionSpec Unit
spec name status is_default = record {
  name = name;
  status = status;
  is_default = is_default;
  description = "";
  released_at = none;
  deprecated_at = none;
  sunset_date = some 20000;
  successor = some "v2";
  canary_weight = pos 0;
  canary_match = none;
  canary_header = "X-User-Tier";
  canary_tier_value = "beta";
  allow_fallback_to = none;
}

abbrev objects : ℕ → VersionSpec Unit
objects zero = spec "v1" deprecated true
objects (suc zero) = spec "v2" active true
objects (suc (suc n)) = spec "v3" sunset false

abbrev two : VersionRegistry Unit
two = register 1 (register 0 (no_versions objects))

reached-OneDefault_example : OneDefault two
reached-OneDefault_example =
    reached-OneDefault objects two (next (next here (registers 0)) (registers 1))

registered_twice_no_default_example : default (register 0 (register 0 (no_versions objects))) ≡ none
registered_twice_no_default_example = registered_twice_no_default 0 (no_versions objects) refl

-- Once registered, it is the default.
once_default : default_ref (register 0 (no_versions objects)) ≡ some 0
unfolding register clear_defaults first_default insert
once_default = refl

abbrev lib : Library Unit
lib = record {
  name_leb = λ a b. true;
  str = λ n. "";
  hash = λ s. pos 7;
  strip = λ s. s;
  header = λ request name. some "v1";
  query = λ request name. none;
  url_version = λ pattern request. none;
  user_pk = λ request. none;
  remote_addr = λ request. none;
  user_agent = λ request. none;
  api_version = λ request. none;
}

abbrev config : VersioningConfig
config = record {
  default_version = "v1";
  detection_order = by_url ∷ by_header ∷ by_query ∷ [];
  allow_fallback = true;
  url_pattern = "";
  header_name = "X-API-Version";
  query_param = "version";
}

abbrev iso : ℕ → String
iso n = "2026-01-01"

abbrev headers : Dict String String
headers = annotations iso two (some "v1") (some "v1")

served_version-Allowed_example :
    (v : Option String) × (some "v1" ≡ v)
    × Allowed two (detect_version_from_request lib config tt) v
unfolding register clear_defaults clear_default insert lookup call decide decide_spec decide_status
    carry_out get detect_in string_eq annotations nat_eq
served_version-Allowed_example =
    served_version-Allowed lib iso config two (λ v. v) tt (some "v1") headers refl

abbrev reading : Reading
reading = record {
  lstrip_v = λ s. s;
  before_dash = λ s. s;
  split_dot = λ s. s ∷ [];
  to_int = λ s. if s == "v3" then some 3 else if s == "v2" then some 2 else some 1;
}

abbrev from_v1_to_v3 : Constraints
from_v1_to_v3 = record {
  min_version = some "v1";
  max_version = some "v3";
  removed_in = none;
  only_for = none;
}

guard-Given_example : (check_version_constraints reading two from_v1_to_v3 (some "v2") ≡ none) ↔ (
    Unit {0}
    × ((◌≡◌ {A = String} "v1" "") ⊎ (¬ (Before (2 ∷ []) (1 ∷ []))))
    × ((◌≡◌ {A = String} "v3" "") ⊎ (¬ (Before (3 ∷ []) (2 ∷ []))))
    × Unit {0})
unfolding numbers string_eq
guard-Given_example = guard-Given reading two from_v1_to_v3 "v2"
