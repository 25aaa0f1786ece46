-- ===== src/Versioning/Routing.antt =====
-- The choice of a version in framework/versioning/core.py: `all`, `active`, `canary_should_route`,
-- `resolve_for_request` and `resolve_version`.
use django_project_test.Base.{
  zero, ltb, ◌||◌, leb, string_eq, suc, ◌&&◌, ◌-◌, ◌+◌, not, false, true, ◌==◌, ◌%◌, some, none,
  if◌then◌else◌, Bool, List, ℕ, Option, String, [], ◌∷◌,
}
use Prim.Native.String.{◌++◌ as append}
use django_project_test.Base.Integers.{negsuc, pos, ℤ}
use django_project_test.Versioning.{
  get, is_canary, is_available, default, VersionRegistry, VersionSpec,
}
use django_project_test.Base.Dict.{Dict}

-- What the code takes from the language and from a request: the order of texts, `str` of a number,
-- `hash`, `str.strip`, a header and a query parameter, the match of a pattern with the path, and the
-- number of a user who is logged in.
pub record Library (Q : Type 0) : Type 0 where
  pub name_leb : String → String → Bool
  pub str : ℕ → String
  pub hash : String → ℤ
  pub strip : String → String
  pub header : Q → String → Option String
  pub query : Q → String → Option String
  pub url_version : String → Q → Option String
  pub user_pk : Q → Option String
  pub remote_addr : Q → Option String
  pub user_agent : Q → Option String
  pub api_version : Q → Option String

-- `abs(n)` and Python's `n % m`, which is not negative
abbrev pub abs : ℤ → ℕ
abs (pos n) = n
abs (negsuc n) = n + 1

abbrev pub modulo : ℤ → ℕ → ℕ
modulo (pos n) m = n % m
modulo (negsuc n) m = (m - (n + 1) % m) % m

abbrev pub or_default : Option String → String → String
or_default none s = s
or_default (some t) s = t

-- A text that is there and not empty.
abbrev pub given : Option String → Option String
given none = none
given (some s) = if s == "" then none else some s

module _ {Q : Type 0} where
  unfoldable pub specs : (ℕ → VersionSpec Q) → Dict String ℕ → List (VersionSpec Q)
  specs objects [] = []
  specs objects ((n, r) ∷ d) = objects r ∷ specs objects d

module _ {Q : Type 0} (lib : Library Q) where
  -- The order of `(not v.is_default, v.name)`.
  abbrev before : VersionSpec Q → VersionSpec Q → Bool
  before v w =
      if v.is_default
      then if w.is_default then lib.name_leb v.name w.name else true
      else if w.is_default
      then false
      else lib.name_leb v.name w.name

  unfoldable pub sort_in : VersionSpec Q → List (VersionSpec Q) → List (VersionSpec Q)
  sort_in v [] = v ∷ []
  sort_in v (w ∷ ws) = let rest = sort_in v ws in if before v w then v ∷ w ∷ ws else w ∷ rest

  unfoldable pub sorted : List (VersionSpec Q) → List (VersionSpec Q)
  sorted [] = []
  sorted (v ∷ vs) = sort_in v (sorted vs)

  unfoldable pub all : VersionRegistry Q → List (VersionSpec Q)
  all reg = sorted (specs reg.objects reg.versions)

  unfoldable pub only_available : List (VersionSpec Q) → List (VersionSpec Q)
  only_available [] = []
  only_available (v ∷ vs) =
      let rest = only_available vs in if is_available v then v ∷ rest else rest

  abbrev pub active_versions : VersionRegistry Q → List (VersionSpec Q)
  active_versions reg = only_available (all reg)

  unfoldable pub bucket_key : Q → String
  bucket_key request = elim (lib.user_pk request) [
    | some pk ↦ append "u:" pk
    | none ↦ append "a:" (
        append (or_default (lib.remote_addr request) "0.0.0.0")
          (append ":" (lib.str (modulo (lib.hash (or_default (lib.user_agent request) "")) 10000))))
  ]

  abbrev matches : Option (Q → Bool) → Q → Bool
  matches none request = false
  matches (some p) request = p request

  abbrev in_tier : Option String → String → Bool
  in_tier none value = false
  in_tier (some tier) value = not (tier == "") && tier == value

  in_weight : ℤ → ℕ → Bool
  in_weight (negsuc n) h = false
  in_weight (pos zero) h = false
  in_weight (pos (suc n)) h = leb 100 (suc n) || ltb h (suc n)

  unfoldable pub canary_should_route : VersionSpec Q → Q → Bool
  unfolding in_weight
  canary_should_route spec request =
      if not (is_canary spec)
      then is_available spec
      else if matches spec.canary_match request
      then true
      else if in_tier (lib.header request spec.canary_header) spec.canary_tier_value
      then true
      else in_weight spec.canary_weight (abs (lib.hash (bucket_key request)) % 100)

  unfoldable pub first_canary : Q → List (VersionSpec Q) → Option (VersionSpec Q)
  first_canary request [] = none
  first_canary request (v ∷ vs) =
      let rest = first_canary request vs in
      if is_canary v && canary_should_route v request then some v else rest

  abbrev or_else : Option (VersionSpec Q) → Option (VersionSpec Q) → Option (VersionSpec Q)
  or_else none b = b
  or_else (some a) b = some a

  unfoldable pub resolve_for_request : VersionRegistry Q → Q → Option (VersionSpec Q)
  resolve_for_request reg request = or_else (first_canary request (all reg)) (default reg)

  abbrev if_available : Option (VersionSpec Q) → Option (VersionSpec Q)
  if_available none = none
  if_available (some v) = if is_available v then some v else none

  abbrev named_version : VersionRegistry Q → Option String → Option (VersionSpec Q)
  named_version reg none = none
  named_version reg (some name) = if_available (get name reg)

  -- `resolve_version`; `none` stands for a call without a request.
  unfoldable pub resolve_version : VersionRegistry Q → Option Q → Option (VersionSpec Q)
  resolve_version reg none = default reg
  resolve_version reg (some request) =
      or_else (named_version reg (given (lib.api_version request))) (default reg)
