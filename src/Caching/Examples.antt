-- ===== src/Caching/Examples.antt =====
-- A dict as the cache, and calls with the tag `stats`.
use Prim.Native.String.{◌++◌ as append, len}
use text.Mathlib.TextPositions.{len-append}
use django_project_test.Base.{
  some, ==_false, refl, none, ◌∙◌, ◌+◌, arith, ap, ◌≡◌, string_eq, ◌≢◌, ℕ, String, List, [], ◌∷◌,
  Option, if◌then◌else◌, ◌==◌, false, Bool, true,
}
use django_project_test.Caching.{
  value, read_mapping, invalidate_by_tag, contains, Entry, build_tag_pattern, Cache, alive, set_key,
  add_tag_mapping, write_mapping, delete_all,
}
use django_project_test.Base.Dict.{lookup-erase, lookup-insert, erase, insert, lookup, Dict}
use django_project_test.Caching.Kept.{perform_all, invalidates, sets, Call, perform}
use django_project_test.Caching.Race.{race_keeps_key, race}

-- An entry with the time it was set and its timeout.
abbrev Stamped : Type 0
Stamped = Entry ℕ × ℕ × Option ℕ

abbrev shown : ℕ → Option Stamped → Option (Entry ℕ)
shown now none = none
shown now (some (e, t, timeout)) = if alive t timeout now then some e else none

shown_if :
    (now : ℕ) (b : Bool) (e : Stamped) (o : Option Stamped)
    → shown now (if b then some e else o) ≡ (if b then shown now (some e) else shown now o)
shown_if now true e o = refl
shown_if now false e o = refl

erased_if :
    (now : ℕ) (b : Bool) (o : Option Stamped)
    → shown now (if b then none else o) ≡ (if b then none else shown now o)
erased_if now true o = refl
erased_if now false o = refl

abbrev dict_cache : Cache (Dict String Stamped) (Entry ℕ)
dict_cache = record {
  get = λ d now k. shown now (lookup k d);
  set = λ d t k a timeout. insert k (a, t, timeout) d;
  delete = λ d k. erase k d;
  get-set = λ d t now k j a timeout le.
      ap (shown now) (lookup-insert j k (a, t, timeout) d)
      ∙ shown_if now (j == k) (a, t, timeout) (lookup j d);
  get-delete =
      λ d now k j. ap (shown now) (lookup-erase j k d) ∙ erased_if now (j == k) (lookup j d);
}

abbrev all_fine : String → Bool
all_fine tag = false

abbrev calls : List (Call ℕ)
calls =
    sets 10 "a" 1 none ("stats" ∷ []) all_fine
    ∷ invalidates 20 "stats"
    ∷ sets 30 "a" 2 (some 60) ("user" ∷ "stats" ∷ []) all_fine
    ∷ []

-- The pattern of a tag is longer than one character.
not_tag : (s : String) → "a" ≢ build_tag_pattern s
unfolding build_tag_pattern
not_tag s e =
    let longer : 1 ≡ 7 + len (append s ":*") = ap len e ∙ len-append "v3:tag:" (append s ":*") in
    omega arith

a_not_b : ◌≢◌ {A = String} "a" "b"
unfolding string_eq
a_not_b = ==_false {A = String} "a" "b" refl

b_not_tag : ◌≢◌ {A = String} "b" (build_tag_pattern "stats")
unfolding string_eq build_tag_pattern
b_not_tag = ==_false {A = String} "b" (build_tag_pattern "stats") refl

race_keeps_key_example :
    dict_cache.get
      (invalidate_by_tag dict_cache (race dict_cache 10 "stats" "a" 1 "b" 2 none []) 20 "stats").1
      20
      "a"
    ≡ some (value 1)
unfolding contains read_mapping lookup build_tag_pattern
race_keeps_key_example =
    race_keeps_key dict_cache 10 20 "stats" "a" "b" 1 2 none [] (omega arith) (omega arith) refl
      a_not_b (not_tag "stats") b_not_tag refl refl

-- A value without a timeout outlives the mapping of its tag, which a second set does not renew.
abbrev outlived : Dict String Stamped
outlived =
    perform_all dict_cache
      (sets 0 "a" 1 none ("stats" ∷ []) all_fine
        ∷ sets 2000000 "a" 2 none ("stats" ∷ []) all_fine
        ∷ [])
      []

still_there :
    dict_cache.get (invalidate_by_tag dict_cache outlived 2592000 "stats").1 2592000 "a"
    ≡ some (value 2)
unfolding perform_all perform set_key add_tag_mapping write_mapping read_mapping contains
    invalidate_by_tag delete_all lookup insert erase build_tag_pattern string_eq
still_there = refl
