-- ===== src/Gateway/Examples.antt =====
-- Runs of the gateway on concrete data.
use native.Mathlib.Omega.{arith}
use django_project_test.Gateway.Window.{check_sliding_window, sound, second, decide}
use django_project_test.Gateway.Store.{Sets, store, scores, has, store-IsSortedSet, purge, values}
use django_project_test.Gateway.Rules.{ApiLimitRule}
use django_project_test.Gateway.Limit
use django_project_test.Gateway.Cache
use django_project_test.Gateway.Cache.{
  Database, RuleRow, RuleCacheManager, get_rules, get_rules_fresh, load_rules, cache_ttl,
  get_cache_identifier,
}
use django_project_test.Base.{
  nat_eq, ◌==◌, if◌then◌else◌, refl, true, ◌+◌, ◌⊎◌, ◌≤◌, leb, ◌*◌, string_eq, ◌≡◌, Mem, false, not,
  ◌-◌, ◌∷◌, ℕ, some, String, count, [],
}
use django_project_test.Base.Dict.{lookup, insert}

abbrev empty_sets : Sets
empty_sets key = []

abbrev after_one : Sets
after_one = (check_sliding_window store "ip:1" 1 60 100000000 "a" sound empty_sets).1

-- One call in a minute: the first request is allowed and the second is not.
two_requests :
    Limit.Run store scores has store-IsSortedSet "ip:1" 1 60
      (100000000 ∷ [])
      110000000
      (check_sliding_window store "ip:1" 1 60 110000000 "b" sound after_one).1
unfolding check_sliding_window decide purge values insert lookup string_eq
two_requests =
    Limit.request 110000000 "b"
      (Limit.request 100000000 "a" (Limit.idle empty_sets 0) (omega arith) refl) (omega arith) refl

at_most_limit_example :
    count
      (Limit.younger store scores has store-IsSortedSet (110000000 - 60 * second))
      (100000000 ∷ [])
    ≤ 1
at_most_limit_example =
    Limit.at_most_limit store scores has store-IsSortedSet "ip:1" 1 60 (100000000 ∷ []) 110000000
      (check_sliding_window store "ip:1" 1 60 110000000 "b" sound after_one).1 two_requests

refused_only_when_full_example :
    let v = (check_sliding_window store "ip:1" 1 60 110000000 "b" sound after_one).0 in
    let used = count (λ x. not (leb x (110000000 - 60 * second))) (scores after_one "ip:1") in
    ((v.allowed ≡ false) × (1 ≤ used) × (v.remaining ≡ 0) × (1 ≤ v.reset_in))
    ⊎ ((v.allowed ≡ true) × (v.remaining + used + 1 ≡ 1) × (v.reset_in ≡ 60))
refused_only_when_full_example =
    Limit.refused_only_when_full store scores has store-IsSortedSet "ip:1" 1 60 110000000 "b"
      after_one (omega arith)

abbrev rule : String → ApiLimitRule
rule pattern = record {
  url_pattern = pattern;
  throttle_type = "ip";
  rate = "10/h";
  use_regex = false;
}

-- The export rule is active, the newer one is not.
abbrev database : Database
database = record {
  rows =
      record { rule = rule "/api/export/"; is_active = true; updated_at = 7 }
      ∷ record { rule = rule "/api/"; is_active = false; updated_at = 9 }
      ∷ [];
  finds_newest = true;
  finds_rules = true;
  str = λ t. if t == 7 then "2024-01-01" else "2024-01-02";
  clock_text = "0";
}

-- The newer rule was made active.
abbrev toggled : Database
toggled = record database {
  rows =
      record { rule = rule "/api/export/"; is_active = true; updated_at = 7 }
      ∷ record { rule = rule "/api/"; is_active = true; updated_at = 9 }
      ∷ [];
}

get_rules_fresh_example :
    (c : ℕ × Database) × (last : ℕ × Database) × Mem c ((3000, toggled) ∷ (1000, database) ∷ [])
    × Mem last ((3000, toggled) ∷ (1000, database) ∷ [])
    × (3000 ≤ last.0 + cache_ttl)
    × (get_cache_identifier last.1 ≡ get_cache_identifier c.1)
    × ((get_rules 3000 toggled (get_rules 1000 database Cache.empty).1).0 ≡ some (load_rules c.1))
get_rules_fresh_example =
    get_rules_fresh ((1000, database) ∷ []) (get_rules 1000 database Cache.empty).1 3000 toggled
      (Cache.call 1000 database Cache.start)
