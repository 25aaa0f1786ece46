-- ===== src/Gateway/Rates.antt =====
-- The rate of a request: `parse_rate` and `GatewayConfigManager` of framework/gateway/throttle.py.
-- A rate is a limit and a window in seconds. A text with a minus sign, which `int` reads as a negative
-- limit, is left out: `int` gives numbers that are 0 or more.
use text.Mathlib.Text
use Prim.Native.String.{◌++◌ as append}
use django_project_test.Gateway.Rules.{ApiLimitRule, Patterns, first_match, matches, is_some}
use django_project_test.Base.{
  not, ◌&&◌, ◌||◌, string_eq, [], ◌==◌, some, none, Bool, ◌∷◌, if◌then◌else◌, List, Option, ℕ,
  String,
}
use django_project_test.Base.Dict.{lookup, Dict}

-- What the code takes from the language: `str.split`, `str.strip`, and `int`, `none` where it raises.
pub record Texts : Type 0 where
  pub split : String → String → List String
  pub strip : String → String
  pub int : String → Option ℕ

abbrev pub Rate : Type 0
Rate = ℕ × ℕ

abbrev pub hour : ℕ
hour = 3600

-- `_TIME_UNITS.get(unit, 3600)`
unfoldable pub seconds_of : String → ℕ
seconds_of unit =
    if unit == "s"
    then 1
    else if unit == "m"
    then 60
    else if unit == "h"
    then hour
    else if unit == "d"
    then 86400
    else hour

abbrev or_hundred : Option ℕ → ℕ
or_hundred none = 100
or_hundred (some n) = n

module _ (texts : Texts) where
  -- `_parse_simple_rate`
  parse_simple_rate : String → Option Rate
  parse_simple_rate s =
      if s == "" then none else elim (texts.int s) [ none ↦ none | some n ↦ some (n, hour) ]

  abbrev or_fallback : Option Rate → Rate
  or_fallback none = (100, hour)
  or_fallback (some r) = r

  -- The parts of a text with a slash; a missing unit is "h".
  of_parts : List String → Rate
  of_parts [] = (100, hour)
  of_parts (limit ∷ []) = (or_hundred (texts.int limit), seconds_of "h")
  of_parts (limit ∷ unit ∷ rest) = (or_hundred (texts.int limit), seconds_of (texts.strip unit))

  unfoldable pub parse_rate : String → Rate
  unfolding parse_simple_rate of_parts
  parse_rate s =
      if s == "" || not (is_some (Text.find? s "/"))
      then or_fallback (parse_simple_rate s)
      else of_parts (texts.split (texts.strip s) "/")

pub record Tenant : Type 0 where
  pub pk : String
  pub plan_id : Option String

-- What the code reads of a request: `user` is the pk of an authenticated user.
pub record Request : Type 0 where
  pub path : String
  pub user : Option String
  pub tenant : Option Tenant
  pub forwarded_for : String
  pub real_ip : String
  pub remote_addr : Option String

pub record PlanFeature : Type 0 where
  pub plan_id : String
  pub feature_code : String
  pub value : String
  pub is_enabled : Bool

pub record TenantConfig : Type 0 where
  pub tenant : String
  pub key : String
  pub value : String

-- The tables, the rules being the active ones in the order of their priority, and which of the
-- queries raise an exception.
pub record Sources : Type 0 where
  pub rules : List ApiLimitRule
  pub features : List PlanFeature
  pub configs : List TenantConfig
  pub default_rates : Dict String String
  pub rules_raise : Bool
  pub features_raise : Bool
  pub configs_raise : Bool

-- `filter(...).first()`
unfoldable pub first_feature : String → String → List PlanFeature → Option PlanFeature
first_feature plan code [] = none
first_feature plan code (f ∷ fs) =
    let rest = first_feature plan code fs in
    if f.plan_id == plan && (f.feature_code == code && f.is_enabled) then some f else rest

unfoldable pub first_config : String → String → List TenantConfig → Option TenantConfig
first_config tenant key [] = none
first_config tenant key (c ∷ cs) =
    let rest = first_config tenant key cs in
    if c.tenant == tenant && c.key == key then some c else rest

abbrev pub setting_key : String → String
setting_key throttle_type = append "rate_limit." throttle_type

unfoldable pub is_rule_for : Patterns → String → String → ApiLimitRule → Bool
is_rule_for re throttle_type path rule = rule.throttle_type == throttle_type && matches re rule path

module _ (texts : Texts) (re : Patterns) where
  -- An empty text is no rate.
  unfoldable pub rate_of_text : String → Option Rate
  rate_of_text s = if s == "" then none else some (parse_rate texts s)

  rule_rate : Option ApiLimitRule → Option Rate
  rule_rate none = none
  rule_rate (some rule) = rate_of_text rule.rate

  -- `_get_rule_rate`
  unfoldable pub get_rule_rate : Sources → String → String → Option Rate
  unfolding rule_rate
  get_rule_rate sources path throttle_type =
      if sources.rules_raise
      then none
      else rule_rate (first_match (is_rule_for re throttle_type path) sources.rules)

  feature_rate : Option PlanFeature → Option Rate
  feature_rate none = none
  feature_rate (some f) = rate_of_text f.value

  plan_rate : Sources → String → Option Tenant → Option Rate
  plan_rate sources throttle_type none = none
  plan_rate sources throttle_type (some tenant) = elim tenant.plan_id [
    | none ↦ none
    | some plan ↦ feature_rate (first_feature plan (setting_key throttle_type) sources.features)
  ]

  -- `_get_plan_rate`
  unfoldable pub get_plan_rate : Sources → Request → String → Option Rate
  unfolding plan_rate feature_rate
  get_plan_rate sources request throttle_type =
      if sources.features_raise then none else plan_rate sources throttle_type request.tenant

  config_rate : Option TenantConfig → Option Rate
  config_rate none = none
  config_rate (some c) = rate_of_text c.value

  tenant_rate : Sources → String → Option Tenant → Option Rate
  tenant_rate sources throttle_type none = none
  tenant_rate sources throttle_type (some tenant) =
      config_rate (first_config tenant.pk (setting_key throttle_type) sources.configs)

  -- `_get_tenant_config_rate`
  unfoldable pub get_tenant_config_rate : Sources → Request → String → Option Rate
  unfolding tenant_rate config_rate
  get_tenant_config_rate sources request throttle_type =
      if sources.configs_raise then none else tenant_rate sources throttle_type request.tenant

  abbrev pub or_rate : Option Rate → Rate → Rate
  or_rate none other = other
  or_rate (some r) other = r

  abbrev or_text : Option String → String → String
  or_text none s = s
  or_text (some t) s = t

  unfoldable pub get_rate_for_request : Sources → Request → String → Rate
  get_rate_for_request sources request throttle_type =
      or_rate (get_rule_rate sources request.path throttle_type) (
        or_rate (get_plan_rate sources request throttle_type) (
          or_rate (get_tenant_config_rate sources request throttle_type)
            (parse_rate texts (or_text (lookup throttle_type sources.default_rates) "100/h"))))
