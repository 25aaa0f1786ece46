-- ===== src/Versioning/Guards.antt =====
-- framework/versioning/decorators.py: the comparison of version numbers and the guard of a view.
use django_project_test.Base.{
  string_eq, inl, inr, ◌==◌, ltb, true, some, none, ◌⊎◌, if◌then◌else◌, false, ℕ, Bool, List,
  Option, String, [], ◌∷◌,
}
use django_project_test.Base.Integers.{negsuc, is_negative, pos, ℤ}
use django_project_test.Versioning.{get, VersionSpec, VersionRegistry}

-- `v.lstrip("v")`, `split("-")[0]`, `split(".")` and `int`, with `none` where it raises.
pub record Reading : Type 0 where
  pub lstrip_v : String → String
  pub before_dash : String → String
  pub split_dot : String → List String
  pub to_int : String → Option ℕ

abbrev or_zero : Option ℕ → ℕ
or_zero none = 0
or_zero (some n) = n

-- `p < q` on tuples
unfoldable pub tuple_lt : List ℕ → List ℕ → Bool
tuple_lt [] [] = false
tuple_lt [] (y ∷ ys) = true
tuple_lt (x ∷ xs) [] = false
tuple_lt (x ∷ xs) (y ∷ ys) =
    let rest = tuple_lt xs ys in if ltb x y then true else if ltb y x then false else rest

-- `int(p) - int(q)` on truth values
abbrev pub minus : Bool → Bool → ℤ
minus true true = pos 0
minus true false = pos 1
minus false true = negsuc 0
minus false false = pos 0

-- `n > 0`
abbrev pub is_positive : ℤ → Bool
is_positive (pos n) = ltb 0 n
is_positive (negsuc n) = false

module _ (read : Reading) where
  unfoldable pub numbers : List String → List ℕ
  numbers [] = []
  numbers (part ∷ parts) = or_zero (read.to_int part) ∷ numbers parts

  abbrev pub parse : String → List ℕ
  parse v = numbers (read.split_dot (read.before_dash (read.lstrip_v v)))

  unfoldable pub version_compare : String → String → ℤ
  version_compare a b = minus (tuple_lt (parse b) (parse a)) (tuple_lt (parse a) (parse b))

-- The constraints of `versioned_view`.
pub record Constraints : Type 0 where
  pub min_version : Option String
  pub max_version : Option String
  pub removed_in : Option String
  pub only_for : Option String

pub data Refusal : Type 0 where
  only_in_version : (version : String) → Refusal
  only_since : (version : String) → Refusal
  removed_after : (version : String) → Refusal
  was_removed : (version : String) (successor : Option String) → Refusal

module _ {Q : Type 0} where
  abbrev successor_of : Option (VersionSpec Q) → Option String
  successor_of none = none
  successor_of (some spec) = spec.successor

abbrev pub is_version : Option String → String → Bool
is_version none s = false
is_version (some v) s = v == s

-- The refusal by a constraint that is there and not empty.
abbrev pub by_constraint : Option String → (String → Option Refusal) → Option Refusal
by_constraint none f = none
by_constraint (some s) f = if s == "" then none else f s

abbrev pub first_refusal : Option Refusal → Option Refusal → Option Refusal
first_refusal none r = r
first_refusal (some q) r = some q

module _ {Q : Type 0} (read : Reading) (reg : VersionRegistry Q) where
  -- The three comparisons of the version `v` with a constraint.
  unfoldable pub refuse_before : String → String → Option Refusal
  refuse_before v s = if is_negative (version_compare read v s) then some (only_since s) else none

  unfoldable pub refuse_after : String → String → Option Refusal
  refuse_after v s = if is_positive (version_compare read v s) then some (removed_after s) else none

  unfoldable pub refuse_removed : String → String → Option Refusal
  refuse_removed v s =
      if is_negative (version_compare read v s)
      then none
      else some (was_removed s (successor_of (get s reg)))

  unfoldable pub check_range : Constraints → String → Option Refusal
  check_range c v = first_refusal (by_constraint c.min_version (refuse_before v)) (
      first_refusal (by_constraint c.max_version (refuse_after v))
        (by_constraint c.removed_in (refuse_removed v)))

  abbrev pub check_active : Constraints → Option String → Option Refusal
  check_active c none = none
  check_active c (some v) = check_range c v

  -- `_check_version_constraints`
  unfoldable pub check_version_constraints : Constraints → Option String → Option Refusal
  check_version_constraints c version =
      first_refusal
        (by_constraint c.only_for
          (λ s. if is_version version s then none else some (only_in_version s)))
        (check_active c version)

-- An argument of a view, by its attribute `api_version`, `none` where it has none.
pub record Argument : Type 0 where
  pub api_version : Option String

-- `_resolve_active_version`: the keyword argument `request`, or the first positional argument.
unfoldable pub resolve_active_version : Option Argument → List Argument → Option String
resolve_active_version (some request) args = request.api_version
resolve_active_version none [] = none
resolve_active_version none (a ∷ args) = a.api_version

module _ {Q A : Type 0} (read : Reading) (reg : VersionRegistry Q) where
  abbrev pub refuse_or : Option Refusal → A → Refusal ⊎ A
  refuse_or none a = inr a
  refuse_or (some r) a = inl r

  -- The wrapper of `versioned_view`.
  unfoldable pub versioned_view :
      Constraints
      → (Option Argument → List Argument → A)
      → Option Argument
      → List Argument
      → Refusal ⊎ A
  versioned_view c func request args =
      refuse_or (check_version_constraints read reg c (resolve_active_version request args))
        (func request args)

-- `only_for`, `since` and `until`
unfoldable pub only_for : String → Constraints
only_for version = record {
  min_version = none;
  max_version = none;
  removed_in = none;
  only_for = some version;
}

unfoldable pub since : String → Constraints
since version = record {
  min_version = some version;
  max_version = none;
  removed_in = none;
  only_for = none;
}

unfoldable pub until : String → Constraints
until version = record {
  min_version = none;
  max_version = some version;
  removed_in = none;
  only_for = none;
}
