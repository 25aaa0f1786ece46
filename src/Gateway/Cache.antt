-- ===== src/Gateway/Cache.antt =====
-- `RuleCacheManager` of framework/gateway/throttle.py: the cached rules and how fresh they are. Times
-- are in milliseconds.
use native.Mathlib.Omega.{arith}
use mathlib.Core.List.{mem-cons_self, mem-cons_of_mem}
use django_project_test.Gateway.Rules.{ApiLimitRule, Patterns, is_some, first_match, is_match}
use django_project_test.Base.{
  Bool-cases, string_eq, ◌+◌, ◌-◌, refl, ==→≡, ◌≤◌, ◌==◌, ◌||◌, ltb, inr, ◌⊎◌, ◌∷◌, false, not,
  true, inl, Mem, ◌&&◌, some, ◌≡◌, if◌then◌else◌, Bool, [], none, List, String, ℕ, Option,
}

-- A row of the table of rules.
pub record RuleRow : Type 0 where
  pub rule : ApiLimitRule
  pub is_active : Bool
  pub updated_at : ℕ

-- The database as the cache meets it: the rows by priority, the newest first where that is equal;
-- whether each of the two queries answers; `str` of a time, and the text of the clock.
pub record Database : Type 0 where
  pub rows : List RuleRow
  pub finds_newest : Bool
  pub finds_rules : Bool
  pub str : ℕ → String
  pub clock_text : String

abbrev newer : ℕ → Option ℕ → ℕ
newer t none = t
newer t (some u) = if ltb t u then u else t

-- `SELECT MAX(updated_at) ... WHERE is_active = TRUE`
unfoldable pub newest_update : List RuleRow → Option ℕ
newest_update [] = none
newest_update (r ∷ rows) =
    let rest = newest_update rows in if r.is_active then some (newer r.updated_at rest) else rest

-- `filter(is_active=True)`
unfoldable pub active_rules : List RuleRow → List ApiLimitRule
active_rules [] = []
active_rules (r ∷ rows) =
    let rest = active_rules rows in if r.is_active then r.rule ∷ rest else rest

pub record RuleCacheManager : Type 0 where
  pub cache : Option (List ApiLimitRule)
  pub cache_updated_at : Option ℕ
  pub cache_identifier : Option String

abbrev pub cache_ttl : ℕ
cache_ttl = 5000

unfoldable pub get_cache_identifier : Database → String
unfolding newest_update
get_cache_identifier db =
    if db.finds_newest
    then elim (newest_update db.rows) [ none ↦ db.clock_text | some t ↦ db.str t ]
    else db.clock_text

unfoldable pub load_rules : Database → List ApiLimitRule
unfolding active_rules
load_rules db = if db.finds_rules then active_rules db.rows else []

abbrev is_old : ℕ → Option ℕ → Bool
is_old now none = true
is_old now (some updated_at) = ltb cache_ttl (now - updated_at)

unfoldable pub is_stale : ℕ → RuleCacheManager → Bool
is_stale now m = not (is_some m.cache) || is_old now m.cache_updated_at

abbrev is_text : String → Option String → Bool
is_text text none = false
is_text text (some t) = text == t

unfoldable pub refresh : ℕ → Database → RuleCacheManager → RuleCacheManager
refresh now db m =
    let new_identifier = get_cache_identifier db in
    if not (is_some m.cache) || not (is_text new_identifier m.cache_identifier)
    then record {
      cache = some (load_rules db);
      cache_updated_at = some now;
      cache_identifier = some new_identifier;
    }
    else record m { cache_updated_at = some now }

unfoldable pub get_rules :
    ℕ → Database → RuleCacheManager → Option (List ApiLimitRule) × RuleCacheManager
get_rules now db m = let m' = if is_stale now m then refresh now db m else m in (m'.cache, m')

unfoldable pub invalidate : RuleCacheManager → RuleCacheManager
invalidate m = record { cache = none; cache_updated_at = none; cache_identifier = none }

unfoldable pub find_matching_rule :
    Patterns
    → String
    → Option String
    → ℕ
    → Database
    → RuleCacheManager
    → Option ApiLimitRule × RuleCacheManager
find_matching_rule re path throttle_type now db m =
    let (rules, m') = get_rules now db m in
    (
      elim rules [ none ↦ none | some rules ↦ first_match (is_match re path throttle_type) rules ],
      m',
    )

abbrev pub empty : RuleCacheManager
empty = record { cache = none; cache_updated_at = none; cache_identifier = none }

-- The calls so far, the newest first, with the clock and the database that each met.
pub data Run : List (ℕ × Database) → RuleCacheManager → Type 0 where
  start : Run [] empty
  call :
      {calls : List (ℕ × Database)} {m : RuleCacheManager} (now : ℕ) (db : Database)
      → Run calls m
      → Run ((now, db) ∷ calls) (get_rules now db m).1
  cleared :
      {calls : List (ℕ × Database)} {m : RuleCacheManager} → Run calls m → Run calls (invalidate m)

-- The cache is empty, or holds what one of the calls loaded, and the call that last looked found the
-- same identifier.
abbrev Held : List (ℕ × Database) → RuleCacheManager → Type 0
Held calls m =
    (m.cache ≡ none)
    ⊎ ((c : ℕ × Database) × (last : ℕ × Database) × Mem c calls
        × Mem last calls
        × (get_cache_identifier last.1 ≡ get_cache_identifier c.1)
        × (m.cache ≡ some (load_rules c.1))
        × (m.cache_updated_at ≡ some last.0)
        × (m.cache_identifier ≡ some (get_cache_identifier c.1)))

abbrev loaded : ℕ → Database → RuleCacheManager
loaded now db = record {
  cache = some (load_rules db);
  cache_updated_at = some now;
  cache_identifier = some (get_cache_identifier db);
}

refresh_loads :
    (now : ℕ) (db : Database) (m : RuleCacheManager)
    → (is_some m.cache && is_text (get_cache_identifier db) m.cache_identifier) ≡ false
    → refresh now db m ≡ loaded now db
unfolding refresh
refresh_loads now db m h = ground arith

refresh_keeps :
    (now : ℕ) (db : Database) (m : RuleCacheManager)
    → (is_some m.cache && is_text (get_cache_identifier db) m.cache_identifier) ≡ true
    → refresh now db m ≡ record m { cache_updated_at = some now }
unfolding refresh
refresh_keeps now db m h = ground arith

stale_empty : (now : ℕ) (m : RuleCacheManager) → m.cache ≡ none → is_stale now m ≡ true
unfolding is_stale
stale_empty now m h = ground arith

fresh_age :
    (now t : ℕ) (m : RuleCacheManager)
    → is_stale now m ≡ false
    → m.cache_updated_at ≡ some t
    → now ≤ t + cache_ttl
unfolding is_stale
fresh_age now t m h e = ground arith

same_text :
    (text : String) (o : Option String) (t : String) → is_text text o ≡ true → o ≡ some t → text ≡ t
same_text text none t h e = ground arith
same_text text (some u) t h e = let eq = ==→≡ text u h in ground arith

call-Held :
    (calls : List (ℕ × Database)) (m : RuleCacheManager) (now : ℕ) (db : Database)
    → Held calls m
    → (c : ℕ × Database) × (last : ℕ × Database) × Mem c ((now, db) ∷ calls)
      × Mem last ((now, db) ∷ calls)
      × (now ≤ last.0 + cache_ttl)
      × (get_cache_identifier last.1 ≡ get_cache_identifier c.1)
      × ((get_rules now db m).1.cache ≡ some (load_rules c.1))
      × ((get_rules now db m).1.cache_updated_at ≡ some last.0)
      × ((get_rules now db m).1.cache_identifier ≡ some (get_cache_identifier c.1))
unfolding get_rules is_stale refresh
call-Held calls m now db (inl none_held) =
    let nothing : (is_some m.cache && is_text (get_cache_identifier db) m.cache_identifier)
        ≡ false =
      ground arith in
    rw (stale_empty now m none_held, refresh_loads now db m nothing)
      ((now, db), (now, db), mem-cons_self, mem-cons_self, omega arith, refl, refl, refl, refl)
call-Held calls m now db (inr (c, last, seen, looked, alike, cached, updated, id)) =
    elim (Bool-cases (is_stale now m)) [
      | inr fresh ↦
          let age = fresh_age now last.0 m fresh updated in
          rw fresh (
            c,
            last,
            mem-cons_of_mem _ seen,
            mem-cons_of_mem _ looked,
            age,
            alike,
            cached,
            updated,
            id,
          )
      | inl stale ↦
          elim (Bool-cases
            (is_some m.cache && is_text (get_cache_identifier db) m.cache_identifier)) [
              | inr changed ↦
                  rw (stale, refresh_loads now db m changed)
                    (
                      (now, db),
                      (now, db),
                      mem-cons_self,
                      mem-cons_self,
                      omega arith,
                      refl,
                      refl,
                      refl,
                      refl,
                    )
              | inl kept ↦
                  let same : get_cache_identifier db ≡ get_cache_identifier c.1 =
                    same_text (get_cache_identifier db) m.cache_identifier
                      (get_cache_identifier c.1) (ground arith) id in
                  rw (stale, refresh_keeps now db m kept)
                    (
                      c,
                      (now, db),
                      mem-cons_of_mem _ seen,
                      mem-cons_self,
                      omega arith,
                      same,
                      cached,
                      refl,
                      id,
                    )
            ]
    ]

Run-Held : (calls : List (ℕ × Database)) (m : RuleCacheManager) → Run calls m → Held calls m
unfolding invalidate
Run-Held calls m start = inl refl
Run-Held calls m (call now db before) =
    let (c, last, seen, looked, _, alike, cached, updated, id) =
      call-Held _ _ now db (Run-Held _ _ before) in
    inr (c, last, seen, looked, alike, cached, updated, id)
Run-Held calls m (cleared before) = inl refl

-- After any calls of `get_rules` and `invalidate`, whatever the database did between them:
-- `get_rules` answers with the rules that one of its calls, this one included, found in the database,
-- and a call whose time the clock has not passed by more than the cache's life, this one included,
-- found the same identifier as that call.
pub get_rules_fresh :
    (calls : List (ℕ × Database)) (m : RuleCacheManager) (now : ℕ) (db : Database)
    → Run calls m
    → (c : ℕ × Database) × (last : ℕ × Database) × Mem c ((now, db) ∷ calls)
      × Mem last ((now, db) ∷ calls)
      × (now ≤ last.0 + cache_ttl)
      × (get_cache_identifier last.1 ≡ get_cache_identifier c.1)
      × ((get_rules now db m).0 ≡ some (load_rules c.1))
unfolding get_rules
get_rules_fresh calls m now db run =
    let (c, last, seen, looked, age, alike, cached, _, _) =
      call-Held calls m now db (Run-Held calls m run) in
    (c, last, seen, looked, age, alike, unfold get_rules in cached)
