-- ===== src/Gateway/Throttle.antt =====
-- The throttles of framework/gateway/throttle.py: `allow_request` and the identities of the requests.
use Prim.Native.String.{◌++◌ as append}
use django_project_test.Gateway.Rules.{ApiLimitRule, Patterns, first_match}
use django_project_test.Gateway.Rates.{
  Texts, Rate, Request, Sources, Tenant, is_rule_for, get_rate_for_request, parse_rate,
}
use django_project_test.Gateway.Window.{Raises, Redis, Verdict, check_sliding_window}
use django_project_test.Base.{
  [], string_eq, none, true, ◌∷◌, some, ◌==◌, List, if◌then◌else◌, Bool, ℕ, Option, String,
}

pub data ThrottleType : Type 0 where
  ip user tenant endpoint : ThrottleType

abbrev pub type_name : ThrottleType → String
type_name ip = "ip"
type_name user = "user"
type_name tenant = "tenant"
type_name endpoint = "endpoint"

abbrev or_unknown : Option String → String
or_unknown none = "unknown"
or_unknown (some s) = s

abbrev head_or : String → List String → String
head_or s [] = s
head_or s (x ∷ xs) = x

-- `_get_client_ip`
unfoldable pub client_ip : Texts → Request → String
client_ip texts q =
    let found =
      if q.forwarded_for == ""
      then q.real_ip
      else texts.strip (head_or "" (texts.split q.forwarded_for ",")) in
    if found == "" then or_unknown q.remote_addr else found

abbrev pk_of : Option String → String
pk_of none = ""
pk_of (some pk) = pk

abbrev tenant_or_ip : Option Tenant → String → String
tenant_or_ip none address = append "no-tenant:" address
tenant_or_ip (some t) address = t.pk

abbrev user_or_ip : Option String → String → String → String
user_or_ip none path address = append path (append ":ip:" address)
user_or_ip (some pk) path address = append path (append ":user:" pk)

-- `get_identity` of the four classes
unfoldable pub get_identity : Texts → ThrottleType → Request → String
get_identity texts ip q = client_ip texts q
get_identity texts user q = pk_of q.user
get_identity texts tenant q = tenant_or_ip q.tenant (client_ip texts q)
get_identity texts endpoint q = user_or_ip q.user q.path (client_ip texts q)

-- `request._gateway_throttle_info`
pub record ThrottleInfo : Type 0 where
  pub type : ThrottleType
  pub limit : ℕ
  pub verdict : Verdict

pub record Outcome (State : Type 0) : Type 0 where
  pub allowed : Bool
  pub info : Option ThrottleInfo
  pub state : State

module _ (texts : Texts) (re : Patterns) where
  has_type : String → ApiLimitRule → Bool
  has_type t rule = rule.throttle_type == t

  abbrev found_rate : Option ApiLimitRule → Rate
  found_rate none = parse_rate texts "100/h"
  found_rate (some rule) =
      if rule.rate == "" then parse_rate texts "100/h" else parse_rate texts rule.rate

  endpoint_rules : Option ApiLimitRule → Sources → Request → Rate
  endpoint_rules none sources q = get_rate_for_request texts re sources q "endpoint"
  endpoint_rules (some rule) sources q =
      found_rate (first_match (is_rule_for re "endpoint" q.path) sources.rules)

  -- The rate in `EndpointThrottle.allow_request`
  unfoldable pub endpoint_rate : Sources → Request → Rate
  unfolding endpoint_rules has_type
  endpoint_rate sources q =
      if sources.rules_raise
      then get_rate_for_request texts re sources q "endpoint"
      else endpoint_rules (first_match (has_type "endpoint") sources.rules) sources q

  unfoldable pub throttle_rate : ThrottleType → Sources → Request → Rate
  throttle_rate ip sources q = get_rate_for_request texts re sources q "ip"
  throttle_rate user sources q = get_rate_for_request texts re sources q "user"
  throttle_rate tenant sources q = get_rate_for_request texts re sources q "tenant"
  throttle_rate endpoint sources q = endpoint_rate sources q

  abbrev pub redis_key : ThrottleType → String → String
  redis_key t identity = append "ratelimit:gw:" (append (type_name t) (append ":" identity))

  module _ (r : Redis) where
    unfoldable pub allow_request :
        ThrottleType → Sources → Request → ℕ → String → Raises → r.State → Outcome r.State
    allow_request t sources q now member raises s =
        let identity = get_identity texts t q in
        let (limit, window) = throttle_rate t sources q in
        let (v, s') =
          check_sliding_window r (redis_key t identity) limit window now member raises s in
        if identity == "" then record { allowed = true; info = none; state = s } else record {
          allowed = v.allowed;
          info = some (record { type = t; limit = limit; verdict = v });
          state = s';
        }
