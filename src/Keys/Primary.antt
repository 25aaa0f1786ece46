-- ===== src/Keys/Primary.antt =====
-- At most the first key is primary, after any calls, and what follows for a deactivated primary key.
use django_project_test.Base.{ap, ==_refl, arith, ◌≤◌, count}
use django_project_test.Base.{
  string_eq, refl, none, inr, inl, ◌==◌, [], some, Bool-cases, false, Bool, All, ◌≡◌, ◌∷◌, ℕ,
  Option, List, String,
}
use django_project_test.Keys.{
  key_or, env_or_empty, get_primary_key, get_rotatable_secret_key, find_primary, broken, is_kept,
  missing, holds, deactivate_key, rotate_key, load_keys, initialize_from_env, deactivate_first,
  retire, KeysFile, RotationKey, KeyRotationManager,
}

-- What happens to a manager: its two methods that change keys, and a restart of the process.
pub data Call : Type 0 where
  rotates : String → ℕ → ℕ → ℕ → Call
  deactivates : String → Call
  restarts : Option String → ℕ → Call

unfoldable pub perform : Call → KeyRotationManager → KeyRotationManager
perform (rotates fresh created now days) m = rotate_key fresh created now days m
perform (deactivates key) m = deactivate_key key m
perform (restarts env now) m = load_keys env now m.keys_file

unfoldable pub perform_all : List Call → KeyRotationManager → KeyRotationManager
perform_all [] m = m
perform_all (c ∷ cs) m = perform_all cs (perform c m)

abbrev NotPrimary : RotationKey → Type 0
NotPrimary k = k.is_primary ≡ false

abbrev HeadOnly : List RotationKey → Type 0
HeadOnly [] = Unit
HeadOnly (k ∷ ks) = All NotPrimary ks

-- What a file may hold.
abbrev FileHeadOnly : KeysFile → Type 0
FileHeadOnly missing = Unit
FileHeadOnly broken = Unit
FileHeadOnly (holds ks) = HeadOnly ks

abbrev pub Kept : KeyRotationManager → Type 0
Kept m = HeadOnly m.keys × FileHeadOnly m.keys_file

NotPrimary-retire : (now days : ℕ) (ks : List RotationKey) → All NotPrimary (retire now days ks)
unfolding retire
NotPrimary-retire now days [] = tt
NotPrimary-retire now days (k ∷ ks) =
    let rest = NotPrimary-retire now days ks in
    elim (Bool-cases (is_kept now days k)) [ inl e ↦ rw e (refl, rest) | inr e ↦ rw e rest ]

NotPrimary-deactivate :
    (key : String) (ks : List RotationKey)
    → All NotPrimary ks
    → All NotPrimary (deactivate_first key ks)
unfolding deactivate_first
NotPrimary-deactivate key [] h = tt
NotPrimary-deactivate key (k ∷ ks) h =
    let rest = NotPrimary-deactivate key ks h.1 in
    elim (Bool-cases (k.key == key)) [ inl e ↦ rw e (h.0, h.1) | inr e ↦ rw e (h.0, rest) ]

HeadOnly-deactivate :
    (key : String) (ks : List RotationKey) → HeadOnly ks → HeadOnly (deactivate_first key ks)
unfolding deactivate_first
HeadOnly-deactivate key [] h = tt
HeadOnly-deactivate key (k ∷ ks) h =
    let rest = NotPrimary-deactivate key ks h in
    elim (Bool-cases (k.key == key)) [ inl e ↦ rw e h | inr e ↦ rw e rest ]

Kept-initialize :
    (env : Option String) (now : ℕ) (file : KeysFile)
    → FileHeadOnly file
    → Kept (initialize_from_env env now file)
unfolding initialize_from_env
Kept-initialize none now file h = (tt, h)
Kept-initialize (some s) now file h = elim (Bool-cases (s == "")) [
  | inl e ↦ rw e (tt, h)
  | inr e ↦ rw e (tt, tt)
]

Kept-load :
    (env : Option String) (now : ℕ) (file : KeysFile)
    → FileHeadOnly file
    → Kept (load_keys env now file)
unfolding load_keys
Kept-load env now missing h = Kept-initialize env now missing h
Kept-load env now broken h = Kept-initialize env now broken h
Kept-load env now (holds ks) h = (h, h)

Kept-perform : (c : Call) (m : KeyRotationManager) → Kept m → Kept (perform c m)
unfolding perform rotate_key deactivate_key
Kept-perform (rotates fresh created now days) m h =
    let old = NotPrimary-retire now days m.keys in (old, old)
Kept-perform (deactivates key) m h = let off = HeadOnly-deactivate key m.keys h.0 in (off, off)
Kept-perform (restarts env now) m h = Kept-load env now m.keys_file h.1

Kept-perform_all : (cs : List Call) (m : KeyRotationManager) → Kept m → Kept (perform_all cs m)
unfolding perform_all
Kept-perform_all [] m h = h
Kept-perform_all (c ∷ cs) m h = Kept-perform_all cs (perform c m) (Kept-perform c m h)

pub Kept-reached :
    (env : Option String) (now : ℕ) (cs : List Call)
    → Kept (perform_all cs (load_keys env now missing))
Kept-reached env now cs =
    Kept-perform_all cs (load_keys env now missing) (Kept-load env now missing tt)

abbrev pub is_primary_key : RotationKey → Bool
is_primary_key k = k.is_primary

no_primary : (ks : List RotationKey) → All NotPrimary ks → count is_primary_key ks ≡ 0
unfolding count
no_primary [] h = refl
no_primary (k ∷ ks) h = rw (h.0) (no_primary ks h.1)

HeadOnly-count : (ks : List RotationKey) → HeadOnly ks → count is_primary_key ks ≤ 1
unfolding count
HeadOnly-count [] h = omega arith
HeadOnly-count (k ∷ ks) h =
    let rest = no_primary ks h in
    elim (Bool-cases k.is_primary) [ inl e ↦ rw e (omega arith) | inr e ↦ rw e (omega arith) ]

-- After any rotations, deactivations and restarts that begin without a file, at most one key is
-- primary.
pub at_most_one_primary :
    (env : Option String) (now : ℕ) (cs : List Call)
    → count is_primary_key (perform_all cs (load_keys env now missing)).keys ≤ 1
at_most_one_primary env now cs =
    HeadOnly-count (perform_all cs (load_keys env now missing)).keys (Kept-reached env now cs).0

find_none : (ks : List RotationKey) → All NotPrimary ks → find_primary ks ≡ none
unfolding find_primary
find_none [] h = refl
find_none (k ∷ ks) h = rw (h.0) (find_none ks h.1)

-- A primary key at the head is the first key with its text.
find_primary-deactivate :
    (key : String) (ks : List RotationKey)
    → HeadOnly ks
    → find_primary ks ≡ some key
    → find_primary (deactivate_first key ks) ≡ none
unfolding find_primary deactivate_first
find_primary-deactivate key [] h e = refl
find_primary-deactivate key (k ∷ ks) h e =
    let tail_none = find_none ks h in
    let self = ==_refl key in
    elim (Bool-cases k.is_primary) [
      | inl p ↦ elim (Bool-cases k.is_active) [ inl a ↦ ground arith | inr a ↦ ground arith ]
      | inr p ↦ ground arith
    ]

falls_back :
    (env : Option String) (m : KeyRotationManager)
    → get_primary_key m ≡ none
    → get_rotatable_secret_key env m ≡ env_or_empty env
unfolding get_rotatable_secret_key
falls_back env m e = ap (λ o. key_or o (env_or_empty env)) e

-- From a manager that any calls led to, without a file at first: when the primary key is
-- deactivated, the key that signs is the text of the environment variable, also where that is the
-- key just deactivated.
pub deactivated_primary_falls_back :
    (env env' : Option String) (now : ℕ) (cs : List Call) (key : String)
    → get_primary_key (perform_all cs (load_keys env now missing)) ≡ some key
    → get_rotatable_secret_key env'
        (deactivate_key key (perform_all cs (load_keys env now missing)))
      ≡ env_or_empty env'
unfolding deactivate_key
deactivated_primary_falls_back env env' now cs key e =
    let m = perform_all cs (load_keys env now missing) in
    falls_back env' (deactivate_key key m)
      (find_primary-deactivate key m.keys (Kept-reached env now cs).0 e)
