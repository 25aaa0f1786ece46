-- ===== src/Gateway/Scenarios.antt =====
-- Throttled requests on concrete data: one address, a path with two calls an hour and one with ten
use django_project_test.Base.{
  refl, arith, true, ℕ, ◌≡◌, ◌==◌, some, [], false, Option, List, string_eq, if◌then◌else◌, ◌∷◌,
  none, String, count,
}
use django_project_test.Base.Dict.{lookup}
-- calls a second.
use django_project_test.Gateway.Buckets
use django_project_test.Gateway.Rules.{ApiLimitRule, Patterns, first_match, matches}
use django_project_test.Gateway.Rates.{
  Texts, Request, Sources, parse_rate, seconds_of, get_rate_for_request, get_rule_rate,
  rate_of_text, is_rule_for,
}
use django_project_test.Gateway.Throttle.{ip, allow_request, get_identity, client_ip, throttle_rate}
use django_project_test.Gateway.Window.{sound}
use django_project_test.Gateway.Store.{Sets, store, scores, has, store-IsSortedSet, values}

abbrev parts : String → List String
parts s = if s == "2/h" then "2" ∷ "h" ∷ [] else "10" ∷ "s" ∷ []

abbrev number : String → Option ℕ
number s = if s == "2" then some 2 else if s == "10" then some 10 else none

abbrev texts : Texts
texts = record { split = λ s separator. parts s; strip = λ s. s; int = number }

abbrev no_regex : Patterns
no_regex = record { match = λ pattern path. none; wildcard = λ s. s }

abbrev rule : String → String → ApiLimitRule
rule pattern rate = record {
  url_pattern = pattern;
  throttle_type = "ip";
  rate = rate;
  use_regex = false;
}

abbrev sources : Sources
sources = record {
  rules = rule "/api/export/" "2/h" ∷ rule "/api/" "10/s" ∷ [];
  features = [];
  configs = [];
  default_rates = [];
  rules_raise = false;
  features_raise = false;
  configs_raise = false;
}

abbrev request : String → Request
request path = record {
  path = path;
  user = none;
  tenant = none;
  forwarded_for = "";
  real_ip = "";
  remote_addr = some "10.0.0.1";
}

-- The two exports of the hour, ten seconds ago.
abbrev two_exports : Sets
two_exports key =
    if key == "ratelimit:gw:ip:10.0.0.1" then ("a", 990000000) ∷ ("b", 990000001) ∷ [] else []

short_window_forgets_example :
    let after =
      (allow_request texts no_regex store ip sources
        (request "/api/users/")
        1000000000
        "n"
        sound
        two_exports).state in
    ((allow_request texts no_regex store ip sources
        (request "/api/export/")
        1000000000
        "m"
        sound
        two_exports).allowed
      ≡ false)
    × ((allow_request texts no_regex store ip sources
          (request "/api/export/")
          1000000000
          "m"
          sound
          after).allowed
        ≡ true)
unfolding get_identity client_ip throttle_rate get_rate_for_request get_rule_rate rate_of_text
    is_rule_for parse_rate seconds_of first_match matches values lookup string_eq count
short_window_forgets_example =
    Buckets.short_window_forgets store scores has store-IsSortedSet texts no_regex ip sources
      (request "/api/export/") (request "/api/users/") 1000000000 "m" "n" two_exports refl refl
      (omega arith) (omega arith) refl (omega arith) refl
