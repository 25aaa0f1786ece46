-- ===== src/Gateway/Rules.antt =====
-- The rules of the gateway: `APILimitRule.matches` of apps/system/saas/models.py, and the choice of a
-- rule in `RuleCacheManager.find_matching_rule` of framework/gateway/throttle.py.
use text.Mathlib.Text
use Prim.Native.String.{◌++◌ as append}
use django_project_test.Base.{
  string_eq, [], ◌&&◌, ◌∷◌, ◌||◌, none, ◌==◌, true, some, List, if◌then◌else◌, false, Bool, Option,
  String,
}

pub record ApiLimitRule : Type 0 where
  pub url_pattern : String
  pub throttle_type : String
  pub rate : String
  pub use_regex : Bool

-- The regular expressions: `re.match` of a pattern on a path, `none` where the pattern raises
-- `re.error`; and `re.escape` with its `\\*` replaced by `.*`.
pub record Patterns : Type 0 where
  pub match : String → String → Option Bool
  pub wildcard : String → String

abbrev found : Option Bool → Bool
found none = false
found (some b) = b

abbrev pub is_some {ℓ} : {A : Type ℓ} → Option A → Bool
is_some none = false
is_some (some _) = true

unfoldable pub matches : Patterns → ApiLimitRule → String → Bool
matches re rule path =
    if rule.use_regex
    then found (re.match rule.url_pattern path)
    else if is_some (Text.find? rule.url_pattern "*")
    then found (re.match (append "^" (append (re.wildcard rule.url_pattern) "$")) path)
    else Text.starts_with path rule.url_pattern

-- `if throttle_type and rule.throttle_type != throttle_type`, then `rule.matches(path)`
unfoldable pub is_match : Patterns → String → Option String → ApiLimitRule → Bool
is_match re path none rule = matches re rule path
is_match re path (some throttle_type) rule =
    (throttle_type == "" || rule.throttle_type == throttle_type) && matches re rule path

unfoldable pub first_match : (ApiLimitRule → Bool) → List ApiLimitRule → Option ApiLimitRule
first_match test [] = none
first_match test (rule ∷ rules) =
    let rest = first_match test rules in if test rule then some rule else rest
