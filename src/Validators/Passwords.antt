-- ===== src/Validators/Passwords.antt =====
-- The strength of a password and its validator. What the code takes from the language on a text is a
-- parameter: its length, the matches of the four patterns, and `lower`.
use django_project_test.Base.{
  string_eq, zero, ◌&&◌, min, not, ◌||◌, suc, ltb, ◌==◌, leb, ◌+◌, if◌then◌else◌, List, Bool, ℕ,
  String, [], ◌∷◌,
}

pub record Value : Type 0 where
  pub text : String
  pub len : ℕ
  pub lowercase : Bool
  pub uppercase : Bool
  pub number : Bool
  pub special : Bool
  pub lower : String

pub data Level : Type 0 where
  very_weak weak medium strong very_strong : Level

pub data Suggestion : Type 0 where
  empty at_least at_most add_lowercase add_uppercase add_number add_special not_common : Suggestion

pub record PasswordStrengthResult : Type 0 where
  pub score : ℕ
  pub level : Level
  pub suggestions : List Suggestion

abbrev pub one : Bool → ℕ
one b = if b then 1 else 0

-- `rule_hits`
abbrev pub rule_hits : Value → ℕ
rule_hits v = one v.lowercase + one v.uppercase + one v.number + one v.special

unfoldable pub points : ℕ → Value → ℕ
points min_length v =
    one (leb min_length v.len)
    + one (v.lowercase || v.uppercase || v.number || v.special)
    + one (leb 2 (rule_hits v))
    + one (leb 3 (rule_hits v))
    + one (leb 4 (rule_hits v) && leb 12 v.len)

unfoldable pub is_common : String → Bool
is_common s =
    s == "password" || s == "12345678" || s == "qwerty" || s == "abc123" || s == "iloveyou"

-- `levels[score]`
abbrev pub level_of : ℕ → Level
level_of zero = very_weak
level_of (suc zero) = weak
level_of (suc (suc zero)) = medium
level_of (suc (suc (suc zero))) = strong
level_of (suc (suc (suc (suc n)))) = very_strong

abbrev when : Bool → Suggestion → List Suggestion → List Suggestion
when b s rest = if b then s ∷ rest else rest

unfoldable pub suggestions_for : ℕ → ℕ → Value → List Suggestion
suggestions_for min_length max_length v = when (ltb v.len min_length) at_least (
    when (ltb max_length v.len) at_most (
      when (not v.lowercase) add_lowercase (
        when (not v.uppercase) add_uppercase (
          when (not v.number) add_number
            (when (not v.special) add_special (when (is_common v.lower) not_common []))))))

unfoldable pub password_strength : ℕ → ℕ → Value → PasswordStrengthResult
password_strength min_length max_length v =
    let score = if is_common v.lower then min (points min_length v) 1 else points min_length v in
    if v.text == ""
    then record { score = 0; level = very_weak; suggestions = empty ∷ [] }
    else record {
      score = min score 5;
      level = level_of (min score 5);
      suggestions = suggestions_for min_length max_length v;
    }

pub data Verdict : Type 0 where
  valid : Verdict
  not_strong : List Suggestion → Verdict
  too_weak : List Suggestion → Verdict

unfoldable pub verdict : Bool → PasswordStrengthResult → Verdict
verdict require_strong result =
    if require_strong && ltb result.score 4
    then not_strong result.suggestions
    else if ltb result.score 2
    then too_weak result.suggestions
    else valid

-- `validate_password`, with the default `max_length` of `password_strength`
unfoldable pub validate_password : ℕ → Bool → Value → Verdict
unfolding verdict
validate_password min_length require_strong v =
    verdict require_strong (password_strength min_length 128 v)
