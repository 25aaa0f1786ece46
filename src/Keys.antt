-- ===== src/Keys.antt =====
-- `KeyRotationManager` of framework/key_management/key_rotation.py: the keys that sign and verify, and
-- their file. Times are in seconds; the random text of a new key is an argument.
mod Rotation
mod Primary
mod Examples
use django_project_test.Base.{
  string_eq, ◌*◌, false, ◌+◌, ◌&&◌, ◌==◌, ltb, if◌then◌else◌, some, true, ◌∷◌, none, [], Bool, ℕ,
  Option, List, String,
}

pub record RotationKey : Type 0 where
  pub key : String
  pub created_at : ℕ
  pub is_active : Bool
  pub is_primary : Bool

-- The file of the keys: absent, not JSON, or what `_save_keys` wrote.
pub data KeysFile : Type 0 where
  missing broken : KeysFile
  holds : List RotationKey → KeysFile

pub record KeyRotationManager : Type 0 where
  pub keys : List RotationKey
  pub keys_file : KeysFile

abbrev pub save_keys : List RotationKey → KeyRotationManager
save_keys keys = record { keys = keys; keys_file = holds keys }

-- `os.getenv('SECRET_KEY')` gives `none` where the variable is not set.
unfoldable pub initialize_from_env : Option String → ℕ → KeysFile → KeyRotationManager
initialize_from_env none now file = record { keys = []; keys_file = file }
initialize_from_env (some env_key) now file =
    if env_key == ""
    then record { keys = []; keys_file = file }
    else save_keys
        (record { key = env_key; created_at = now; is_active = true; is_primary = true } ∷ [])

-- A new manager of a file.
unfoldable pub load_keys : Option String → ℕ → KeysFile → KeyRotationManager
load_keys env now missing = initialize_from_env env now missing
load_keys env now broken = initialize_from_env env now broken
load_keys env now (holds keys) = record { keys = keys; keys_file = holds keys }

unfoldable pub find_primary : List RotationKey → Option String
find_primary [] = none
find_primary (k ∷ ks) = if k.is_primary && k.is_active then some k.key else find_primary ks

abbrev pub get_primary_key : KeyRotationManager → Option String
get_primary_key m = find_primary m.keys

unfoldable pub active_keys : List RotationKey → List String
active_keys [] = []
active_keys (k ∷ ks) = let rest = active_keys ks in if k.is_active then k.key ∷ rest else rest

abbrev pub get_all_active_keys : KeyRotationManager → List String
get_all_active_keys m = active_keys m.keys

-- `timedelta(days=1)`
abbrev pub day : ℕ
day = 86400

-- `created_at > now - timedelta(days=keep_old_days)`
abbrev pub is_kept : ℕ → ℕ → RotationKey → Bool
is_kept now keep_old_days k = ltb now (k.created_at + keep_old_days * day)

-- The first and the third step: no key is primary, and the expired ones are gone.
unfoldable pub retire : ℕ → ℕ → List RotationKey → List RotationKey
retire now keep_old_days [] = []
retire now keep_old_days (k ∷ ks) =
    let rest = retire now keep_old_days ks in
    if is_kept now keep_old_days k then record k { is_primary = false } ∷ rest else rest

-- The clock is read twice, for the new key and for the cutoff.
unfoldable pub rotate_key : String → ℕ → ℕ → ℕ → KeyRotationManager → KeyRotationManager
rotate_key fresh created now keep_old_days m = save_keys (
    record { key = fresh; created_at = created; is_active = true; is_primary = true }
    ∷ retire now keep_old_days m.keys)

unfoldable pub deactivate_first : String → List RotationKey → List RotationKey
deactivate_first key [] = []
deactivate_first key (k ∷ ks) =
    let rest = deactivate_first key ks in
    if k.key == key then record k { is_active = false } ∷ ks else k ∷ rest

unfoldable pub deactivate_key : String → KeyRotationManager → KeyRotationManager
deactivate_key key m = save_keys (deactivate_first key m.keys)

-- `os.getenv('SECRET_KEY', '')`
abbrev pub env_or_empty : Option String → String
env_or_empty none = ""
env_or_empty (some s) = s

-- `x or y`
abbrev pub key_or : Option String → String → String
key_or none y = y
key_or (some k) y = if k == "" then y else k

unfoldable pub get_rotatable_secret_key : Option String → KeyRotationManager → String
get_rotatable_secret_key env m = key_or (get_primary_key m) (env_or_empty env)

abbrev pub keys_or : List String → List String → List String
keys_or [] ys = ys
keys_or (k ∷ ks) ys = k ∷ ks

unfoldable pub get_all_secret_keys : Option String → KeyRotationManager → List String
get_all_secret_keys env m = keys_or (get_all_active_keys m) (env_or_empty env ∷ [])
