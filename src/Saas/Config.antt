-- ===== src/Saas/Config.antt =====
-- `ConfigCenterService` and `GlobalConfig`: configuration values, their cache in the process, and the
-- history of changes. Times are in seconds.
mod Reads
mod History
mod Examples
use native.Mathlib.Omega.{arith}
use Prim.Native.String.{◌++◌ as append}
use django_project_test.Base.Dict.{Dict, lookup, insert, erase}
use django_project_test.Base.{
  ◌-◌, string_eq, ltb, ◌||◌, some, ◌∷◌, none, false, [], ◌==◌, List, true, if◌then◌else◌, Bool, ℕ,
  Option, String,
}

pub data ConfigType : Type 0 where
  string integer boolean float json : ConfigType

-- What the code takes from the language: `int`, `float` and `json.loads` of a text, `none` where they
-- raise, `str.lower`, `str` and `json.dumps`; `V` are the values that callers pass, `J` those read.
pub record Library (V J : Type 0) : Type 0 where
  pub to_int : String → Option J
  pub to_float : String → Option J
  pub loads : String → Option J
  pub of_text : String → J
  pub of_bool : Bool → J
  pub lower : String → String
  pub str : V → String
  pub dumps : V → String

pub record GlobalConfig : Type 0 where
  pub key : String
  pub name : String
  pub value : String
  pub default_value : String
  pub config_type : ConfigType
  pub category : String
  pub description : String
  pub is_active : Bool
  pub is_public : Bool
  pub created_by : Option ℕ
  pub updated_by : Option ℕ

pub data OperationType : Type 0 where
  create update delete rollback : OperationType

pub record ConfigHistory : Type 0 where
  pub config_key : String
  pub config_type : String
  pub operation : OperationType
  pub old_value : Option String
  pub new_value : Option String
  pub operator : Option ℕ

-- The table of `GlobalConfig` rows, whose keys are unique, and the history, the newest entry first.
pub record Database : Type 0 where
  pub configs : Dict String GlobalConfig
  pub history : List ConfigHistory

module _ {V J : Type 0} (lib : Library V J) where
  -- `try` with the text itself on an error
  abbrev or_text : Option J → String → J
  or_text none s = lib.of_text s
  or_text (some j) s = j

  is_true : String → Bool
  is_true s = s == "true" || s == "1" || s == "yes" || s == "on"

  unfoldable pub parse_value : String → ConfigType → Option J
  unfolding is_true
  parse_value s config_type =
      if s == ""
      then none
      else some (elim config_type [
        | integer ↦ or_text (lib.to_int s) s
        | boolean ↦ lib.of_bool (is_true (lib.lower s))
        | float ↦ or_text (lib.to_float s) s
        | json ↦ or_text (lib.loads s) s
        | string ↦ lib.of_text s
      ])

  -- The property calls `parse_value` without a type, so with the default one.
  unfoldable pub parsed_value : GlobalConfig → Option J
  parsed_value c =
      if c.value == "" then parse_value c.default_value string else parse_value c.value string

  -- The class attributes: the cache of one process.
  pub record ConfigCenter : Type 0 where
    pub cache : Dict String (Option J)
    pub cache_updated_at : Option ℕ

  abbrev pub cache_ttl : ℕ
  cache_ttl = 60

  abbrev pub cache_key : String → String
  cache_key key = append "config:" key

  unfoldable pub clear_cache : Option String → ℕ → ConfigCenter → ConfigCenter
  clear_cache none now m = record { cache = []; cache_updated_at = some now }
  clear_cache (some key) now m = record {
    cache = if key == "" then [] else erase (cache_key key) m.cache;
    cache_updated_at = some now;
  }

  is_old : Option ℕ → ℕ → Bool
  is_old none now = false
  is_old (some t) now = ltb cache_ttl (now - t)

  unfoldable pub refreshed : ℕ → ConfigCenter → ConfigCenter
  unfolding is_old
  refreshed now m = if is_old m.cache_updated_at now then clear_cache none now m else m

  active : Option GlobalConfig → Option GlobalConfig
  active none = none
  active (some c) = if c.is_active then some c else none

  from_row : Option GlobalConfig → String → Option J → ConfigCenter → Option J × ConfigCenter
  from_row none key default m = (default, m)
  from_row (some c) key default m =
      (parsed_value c, record m { cache = insert (cache_key key) (parsed_value c) m.cache })

  -- The query on a cache miss; `raises` says that it raises.
  unfoldable pub from_table :
      Option (Option J)
      → String
      → Option J
      → Bool
      → Database
      → ConfigCenter
      → Option J × ConfigCenter
  unfolding active from_row
  from_table (some cached) key default raises db m = (cached, m)
  from_table none key default raises db m =
      if raises then (default, m) else from_row (active (lookup key db.configs)) key default m

  unfoldable pub get_config :
      String → Option J → ℕ → Bool → Database → ConfigCenter → Option J × ConfigCenter
  get_config key default now raises db m =
      let m' = refreshed now m in
      from_table (lookup (cache_key key) m'.cache) key default raises db m'

  -- `cls._record_history`; `kept` says that the row could be written.
  unfoldable pub record_history :
      Bool
      → String
      → String
      → OperationType
      → Option String
      → Option String
      → Option ℕ
      → Database
      → Database
  record_history kept key config_type operation old new user db =
      let entry : ConfigHistory = record {
        config_key = key;
        config_type = config_type;
        operation = operation;
        old_value = old;
        new_value = new;
        operator = user;
      } in
      if kept then record db { history = entry ∷ db.history } else db

  unfoldable pub stored_text : ConfigType → V → String
  stored_text json v = lib.dumps v
  stored_text boolean v = lib.lower (lib.str v)
  stored_text string v = lib.str v
  stored_text integer v = lib.str v
  stored_text float v = lib.str v

  -- The arguments of `set_config`; no name and no description are the empty text.
  pub record Setting : Type 0 where
    pub key : String
    pub value : V
    pub user : Option ℕ
    pub name : String
    pub description : String
    pub category : String
    pub config_type : ConfigType

  abbrev or_user : Option ℕ → Option ℕ → Option ℕ
  or_user none old = old
  or_user (some u) old = some u

  unfoldable pub updated : Setting → GlobalConfig → GlobalConfig
  updated q c = record c {
    value = stored_text q.config_type q.value;
    category = q.category;
    description = if q.description == "" then c.description else q.description;
    config_type = q.config_type;
    updated_by = or_user q.user c.updated_by;
  }

  unfoldable pub new_config : Setting → GlobalConfig
  new_config q = record {
    key = q.key;
    name = q.name;
    value = stored_text q.config_type q.value;
    default_value = "";
    config_type = q.config_type;
    category = q.category;
    description = q.description;
    is_active = true;
    is_public = false;
    created_by = q.user;
    updated_by = q.user;
  }

  pub data SetResult : Type 0 where
    ok : GlobalConfig → SetResult
    no_name : SetResult

  -- The row is written, then the history, then the key leaves the cache.
  finish :
      Bool
      → Setting
      → OperationType
      → Option String
      → GlobalConfig
      → ℕ
      → Database
      → ConfigCenter
      → SetResult × Database × ConfigCenter
  finish kept q operation old c now db m = (
    ok c,
    record_history kept q.key "global_config" operation old (some c.value) q.user
        (record db { configs = insert q.key c db.configs }),
    clear_cache (some q.key) now m,
  )

  set_row :
      Option GlobalConfig
      → Bool
      → Setting
      → ℕ
      → Database
      → ConfigCenter
      → SetResult × Database × ConfigCenter
  unfolding finish
  set_row (some c) kept q now db m = finish kept q update (some c.value) (updated q c) now db m
  set_row none kept q now db m =
      if q.name == "" then (no_name, db, m) else finish kept q create none (new_config q) now db m

  unfoldable pub set_config :
      Bool → Setting → ℕ → Database → ConfigCenter → SetResult × Database × ConfigCenter
  unfolding set_row
  set_config kept q now db m = set_row (lookup q.key db.configs) kept q now db m

  delete_row :
      Option GlobalConfig
      → Bool
      → String
      → Option ℕ
      → ℕ
      → Database
      → ConfigCenter
      → Bool × Database × ConfigCenter
  delete_row none kept key user now db m = (false, db, m)
  delete_row (some c) kept key user now db m = (
    true,
    record_history kept key "global_config" delete (some c.value) none user
        (record db { configs = erase key db.configs }),
    clear_cache (some key) now m,
  )

  -- `false`: the configuration does not exist.
  unfoldable pub delete_config :
      Bool → String → Option ℕ → ℕ → Database → ConfigCenter → Bool × Database × ConfigCenter
  unfolding delete_row
  delete_config kept key user now db m = delete_row (lookup key db.configs) kept key user now db m

  unfoldable pub reload_configs : ℕ → ConfigCenter → ConfigCenter
  reload_configs now m = clear_cache none now m
