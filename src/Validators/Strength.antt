-- ===== src/Validators/Strength.antt =====
-- Which passwords pass.
use django_project_test.Base.{
  string_eq, inr, inl, sym, refl, subst, ◌↔◌, Bool-cases, min, ◌&&◌, ◌==◌, if◌then◌else◌, false,
  true, arith, ◌≡◌, ◌+◌, ◌||◌, leb, ◌≤◌, Bool, ℕ,
}
use django_project_test.Validators.Passwords.{
  is_common, valid, rule_hits, PasswordStrengthResult, Value, one, validate_password, verdict,
  password_strength, points,
}

by_kinds : ℕ → ℕ → ℕ → ℕ
by_kinds min_length len n =
    one (leb min_length len)
    + one (leb 1 n)
    + one (leb 2 n)
    + one (leb 3 n)
    + one (leb 4 n && leb 12 len)

any_kind : (a b c d : Bool) → one (a || b || c || d) ≡ one (leb 1 (one a + one b + one c + one d))
any_kind true b c d = ground arith
any_kind false true c d = ground arith
any_kind false false true d = ground arith
any_kind false false false true = ground arith
any_kind false false false false = ground arith

kinds_at_most : (a b c d : Bool) → one a + one b + one c + one d ≤ 4
kinds_at_most a b c d = ground arith

-- The points by the number of kinds of characters.
points-by_kinds :
    (min_length : ℕ) (v : Value) → points min_length v ≡ by_kinds min_length v.len (rule_hits v)
unfolding points by_kinds
points-by_kinds min_length v = rw (any_kind v.lowercase v.uppercase v.number v.special) refl

four_points :
    (min_length len n : ℕ)
    → min_length ≤ 12
    → 4 ≤ by_kinds min_length len n
    → (min_length ≤ len) × (3 ≤ n)
unfolding by_kinds
four_points min_length len n h p = ground arith

three_kinds : (min_length len n : ℕ) → min_length ≤ len → 3 ≤ n → 4 ≤ by_kinds min_length len n
unfolding by_kinds
three_kinds min_length len n h p = ground arith

two_kinds : (min_length len n : ℕ) → 2 ≤ n → 2 ≤ by_kinds min_length len n
unfolding by_kinds
two_kinds min_length len n p = ground arith

score_lem :
    (min_length max_length : ℕ) (v : Value)
    → (password_strength min_length max_length v).score ≡ (
        if v.text == ""
        then 0
        else min (if is_common v.lower then min (points min_length v) 1 else points min_length v) 5)
unfolding password_strength
score_lem min_length max_length v = elim (Bool-cases (v.text == "")) [
  | inl e ↦ rw e refl
  | inr e ↦ rw e refl
]

strong_verdict : (r : PasswordStrengthResult) → 4 ≤ r.score → verdict true r ≡ valid
unfolding verdict
strong_verdict r h = ground arith

verdict_strong : (r : PasswordStrengthResult) → verdict true r ≡ valid → 4 ≤ r.score
unfolding verdict
verdict_strong r h = ground arith

weak_verdict : (r : PasswordStrengthResult) → 2 ≤ r.score → verdict false r ≡ valid
unfolding verdict
weak_verdict r h = ground arith

-- What a score of 4 or more says of the three parts of `score_lem`.
high_score :
    (blank common : Bool) (p : ℕ)
    → 4 ≤ (if blank then 0 else min (if common then min p 1 else p) 5)
    → (blank ≡ false) × (common ≡ false) × (4 ≤ p)
high_score true common p h = absurd (omega arith)
high_score false true p h = absurd (omega arith)
high_score false false p h = (refl, refl, omega arith)

-- With `require_strong` and a minimum of at most 12, exactly the passwords pass that are not empty, not
-- common, long enough, and have characters of three kinds.
pub validate_strong :
    (min_length : ℕ) (v : Value)
    → min_length ≤ 12
    → (validate_password min_length true v ≡ valid) ↔ (
        ((v.text == "") ≡ false)
        × (is_common v.lower ≡ false)
        × (min_length ≤ v.len)
        × (3 ≤ rule_hits v))
unfolding validate_password
validate_strong min_length v h =
    let score = score_lem min_length 128 v in
    let points = points-by_kinds min_length v in
    (
      (λ passes.
          let high = verdict_strong (password_strength min_length 128 v) passes in
          let (filled, uncommon, enough) =
            high_score (v.text == "") (is_common v.lower) _ (subst (λ n. 4 ≤ n) score high) in
          let (long, kinds) =
            four_points min_length v.len (rule_hits v) h (subst (λ n. 4 ≤ n) points enough) in
          (filled, uncommon, long, kinds)),
      (λ (filled, uncommon, long, kinds).
          let enough = three_kinds min_length v.len (rule_hits v) long kinds in
          strong_verdict (password_strength min_length 128 v)
            (subst (λ n. 4 ≤ n) (sym score) (rw (filled, uncommon, points) (omega arith)))),
    )

-- Without `require_strong`, a password that is not common and has characters of two kinds passes,
-- however short it is and whatever the minimum is.
pub short_password_passes :
    (min_length : ℕ) (v : Value)
    → (v.text == "") ≡ false
    → is_common v.lower ≡ false
    → 2 ≤ rule_hits v
    → validate_password min_length false v ≡ valid
unfolding validate_password
short_password_passes min_length v filled uncommon kinds =
    let score = score_lem min_length 128 v in
    let points = points-by_kinds min_length v in
    let enough = two_kinds min_length v.len (rule_hits v) kinds in
    weak_verdict (password_strength min_length 128 v)
      (subst (λ n. 2 ≤ n) (sym score) (rw (filled, uncommon, points) (omega arith)))
