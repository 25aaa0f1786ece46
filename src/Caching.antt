-- ===== src/Caching.antt =====
-- framework/cache/cache_manager.py: keys, tags and the decorator over Django's cache, which is a
-- parameter with the laws of a cache whose entries have timeouts. Times are in seconds.
mod Tagged
mod Calls
mod Kept
mod Removal
mod Race
mod Examples
use django_project_test.Base.{
  string_eq, ◌||◌, true, length, none, ◌++◌, false, ◌==◌, some, ℕ, if◌then◌else◌, Bool, ◌≡◌, Option,
  String, List, [], ◌∷◌, ◌≤◌, ltb, ◌+◌,
}
use Prim.Native.String.{◌++◌ as append}

-- What the cache holds: a value, or the keys of a tag.
pub data Entry (A : Type 0) : Type 0 where
  value : A → Entry A
  keys : List String → Entry A

-- Whether an entry set at `t` is alive at `now`; a timeout `none` stands for `None`, no expiry.
abbrev pub alive : ℕ → Option ℕ → ℕ → Bool
alive t none now = true
alive t (some timeout) now = ltb now (t + timeout)

-- `django.core.cache.cache`, with its states `C`: an entry is there until it is deleted or set again, or
-- its timeout is over.
pub record Cache (C A : Type 0) : Type 0 where
  pub get : C → ℕ → String → Option A
  pub set : C → ℕ → String → A → Option ℕ → C
  pub delete : C → String → C
  pub get-set :
      (c : C) (t now : ℕ) (k j : String) (a : A) (timeout : Option ℕ)
      → t ≤ now
      → get (set c t k a timeout) now j
        ≡ (if j == k then (if alive t timeout now then some a else none) else get c now j)
  pub get-delete :
      (c : C) (now : ℕ) (k j : String)
      → get (delete c k) now j ≡ (if j == k then none else get c now j)

-- `60 * 60 * 24 * 30`, in seconds
abbrev pub month : ℕ
month = 2592000

-- `":".join(parts)`
unfoldable pub join : List String → String
join [] = ""
join (p ∷ []) = p
join (p ∷ q ∷ ps) = append p (append ":" (join (q ∷ ps)))

-- `_build_key` and `_build_tag_pattern`
unfoldable pub build_key : String → List String → String
build_key prefix parts = append "v3:" (append prefix (append ":" (join parts)))

unfoldable pub build_tag_pattern : String → String
build_tag_pattern tag = append "v3:tag:" (append tag ":*")

unfoldable pub contains : String → List String → Bool
contains k [] = false
contains k (j ∷ js) = k == j || contains k js

-- `cache.get(tag_key) or []`; a tag's entry is a list of keys.
abbrev pub keys_of : {A : Type 0} → Option (Entry A) → List String
keys_of none = []
keys_of (some (value a)) = []
keys_of (some (keys ks)) = ks

module _ {C A : Type 0} (cache : Cache C (Entry A)) where
  -- The two accesses to the cache that record a key under a tag.
  unfoldable pub read_mapping : C → ℕ → String → List String
  read_mapping c now tag = keys_of (cache.get c now (build_tag_pattern tag))

  unfoldable pub write_mapping : C → ℕ → String → String → List String → C
  write_mapping c now key tag existing =
      if contains key existing
      then c
      else cache.set c now (build_tag_pattern tag) (keys (existing ++ key ∷ [])) (some month)

  -- A tag for which the cache raises is `broken`, and skipped with a warning.
  unfoldable pub add_tag_mapping : C → ℕ → String → List String → (String → Bool) → C
  add_tag_mapping c now key [] broken = c
  add_tag_mapping c now key (tag ∷ tags) broken =
      let written = write_mapping c now key tag (read_mapping c now tag) in
      let skipped = add_tag_mapping c now key tags broken in
      let rest = add_tag_mapping written now key tags broken in if broken tag then skipped else rest

  unfoldable pub set_key : C → ℕ → A → String → Option ℕ → List String → (String → Bool) → C
  set_key c now a key timeout tags broken =
      add_tag_mapping (cache.set c now key (value a) timeout) now key tags broken

  unfoldable pub cache_set :
      C → ℕ → A → String → List String → Option ℕ → List String → (String → Bool) → C
  cache_set c now a prefix parts timeout tags broken =
      set_key c now a (build_key prefix parts) timeout tags broken

  abbrev value_of : Option (Entry A) → Option A
  value_of none = none
  value_of (some (value a)) = some a
  value_of (some (keys ks)) = none

  unfoldable pub cache_get : C → ℕ → String → List String → Option A
  cache_get c now prefix parts = value_of (cache.get c now (build_key prefix parts))

  unfoldable pub cache_delete : C → String → List String → C
  cache_delete c prefix parts = cache.delete c (build_key prefix parts)

  unfoldable pub delete_all : C → List String → C
  delete_all c [] = c
  delete_all c (k ∷ ks) = delete_all (cache.delete c k) ks

  -- Where the cache does not raise.
  unfoldable pub invalidate_by_tag : C → ℕ → String → ℕ × C
  invalidate_by_tag c now tag =
      let tagged_keys = read_mapping c now tag in
      (length tagged_keys, cache.delete (delete_all c tagged_keys) (build_tag_pattern tag))

module _ {C B : Type 0} (cache : Cache C (Entry (Option B))) where
  abbrev when_none : Option (Option B) → Bool × Option B × C → C → Bool × Option B × C
  when_none none miss c = miss
  when_none (some none) miss c = miss
  when_none (some (some b)) miss c = (false, some b, c)

  -- `cached`: whether the function ran, what the caller gets, and the cache. The parts of the key come
  -- from the arguments by `key_func` or a hash; `none` stands for `None`, as a result and when stored.
  unfoldable pub cached :
      C
      → ℕ
      → ℕ
      → String
      → List String
      → ℕ
      → List String
      → (String → Bool)
      → Option B
      → Bool × Option B × C
  cached c now later prefix key_parts ttl tags broken result =
      when_none (cache_get cache c now prefix key_parts)
        (true, result, cache_set cache c later result prefix key_parts (some ttl) tags broken) c
