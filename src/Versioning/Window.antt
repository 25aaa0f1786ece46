-- ===== src/Versioning/Window.antt =====
-- Which versions a guard lets through; on a method it does not see the version.
use django_project_test.Base.{
  ==_false, if◌then◌else◌, Bool, ==→≡, subst, string_eq, ltb→lt, ◌==◌, ltb, ◌↔◌, ◌⊎◌, lt→ltb,
  Bool-cases, ◌<◌, inl, ◌≢◌, inr, refl, some, sym, none, String, Option, arith, false, true, ◌≡◌, ℕ,
  List, [], ◌∷◌,
}
use django_project_test.Versioning.Guards.{
  removed_after, only_since, is_version, minus, only_in_version, Argument, resolve_active_version,
  versioned_view, check_version_constraints, refuse_removed, refuse_after, refuse_before,
  Constraints, check_range, first_refusal, by_constraint, parse, is_positive, version_compare,
  Refusal, Reading, tuple_lt,
}
use django_project_test.Base.Integers.{is_negative}
use django_project_test.Versioning.{VersionRegistry}

tuple_lt_asym : (p q : List ℕ) → tuple_lt p q ≡ true → tuple_lt q p ≡ false
unfolding tuple_lt
tuple_lt_asym [] [] h = ground arith
tuple_lt_asym [] (y ∷ ys) h = ground arith
tuple_lt_asym (x ∷ xs) [] h = ground arith
tuple_lt_asym (x ∷ xs) (y ∷ ys) h = let rest = tuple_lt_asym xs ys in ground arith

-- The order of version numbers, as `_version_compare` documents it: the first part that differs
-- decides, and a version comes before a longer one that begins with it.
pub data Before : List ℕ → List ℕ → Type 0 where
  shorter : (y : ℕ) (ys : List ℕ) → Before [] (y ∷ ys)
  smaller : {x y : ℕ} (xs ys : List ℕ) → x < y → Before (x ∷ xs) (y ∷ ys)
  later_part : (x : ℕ) {xs ys : List ℕ} → Before xs ys → Before (x ∷ xs) (x ∷ ys)

Before-tuple_lt : (p q : List ℕ) → tuple_lt p q ≡ true → Before p q
unfolding tuple_lt
Before-tuple_lt [] [] h = ground arith
Before-tuple_lt [] (y ∷ ys) h = shorter y ys
Before-tuple_lt (x ∷ xs) [] h = ground arith
Before-tuple_lt (x ∷ xs) (y ∷ ys) h = elim (Bool-cases (ltb x y)) [
  | inl less ↦ smaller xs ys (ltb→lt x y less)
  | inr no_less ↦
      let same : y ≡ x = ground arith in
      let rest : tuple_lt xs ys ≡ true = ground arith in
      subst (λ z. Before (x ∷ xs) (z ∷ ys)) (sym same) (later_part x (Before-tuple_lt xs ys rest))
]

tuple_lt-Before : {p q : List ℕ} → Before p q → tuple_lt p q ≡ true
unfolding tuple_lt
tuple_lt-Before (shorter y ys) = refl
tuple_lt-Before (smaller {x} {y} xs ys h) = rw (lt→ltb x y h) refl
tuple_lt-Before (later_part x h) = let rest = tuple_lt-Before h in ground arith

-- A constraint that is not there or empty holds.
abbrev pub Given : Option String → (String → Type 0) → Type 0
Given none P = Unit
Given (some s) P = (s ≡ "") ⊎ P s

by_constraint-Given :
    (o : Option String) (f : String → Option Refusal) (P : String → Type 0)
    → ((s : String) → (f s ≡ none) ↔ P s)
    → (by_constraint o f ≡ none) ↔ Given o P
by_constraint-Given none f P h = (λ e. tt, λ g. refl)
by_constraint-Given (some s) f P h = elim (Bool-cases (s == "")) [
  | inl e ↦ (λ passes. inl (==→≡ {A = String} s "" e), λ g. rw e refl)
  | inr e ↦ (
    λ passes. inr ((h s).0 (rw e at passes)),
    λ g. elim g [
      | inl blank ↦ absurd (==_false {A = String} s "" e blank)
      | inr holds ↦ rw e ((h s).1 holds)
    ],
  )
]

first_refusal-none : (q r : Option Refusal) → (first_refusal q r ≡ none) ↔ ((q ≡ none) × (r ≡ none))
first_refusal-none none r = (λ e. (refl, e), λ p. p.1)
first_refusal-none (some q) r = (λ e. ground arith, λ p. ground arith)

negative-minus : (a b : Bool) → (a ≡ true → b ≡ false) → is_negative (minus b a) ≡ a
negative-minus true true h = ground arith
negative-minus true false h = refl
negative-minus false true h = refl
negative-minus false false h = refl

positive-minus : (a b : Bool) → (a ≡ true → b ≡ false) → is_positive (minus a b) ≡ a
positive-minus true true h = ground arith
positive-minus true false h = refl
positive-minus false true h = refl
positive-minus false false h = refl

module _ (read : Reading) where
  abbrev pub Earlier : String → String → Type 0
  Earlier a b = Before (parse read a) (parse read b)

  negative-compare :
      (a b : String)
      → is_negative (version_compare read a b) ≡ tuple_lt (parse read a) (parse read b)
  unfolding version_compare
  negative-compare a b =
      negative-minus (tuple_lt (parse read a) (parse read b))
        (tuple_lt (parse read b) (parse read a)) (tuple_lt_asym (parse read a) (parse read b))

  positive-compare :
      (a b : String)
      → is_positive (version_compare read a b) ≡ tuple_lt (parse read b) (parse read a)
  unfolding version_compare
  positive-compare a b =
      positive-minus (tuple_lt (parse read b) (parse read a))
        (tuple_lt (parse read a) (parse read b)) (tuple_lt_asym (parse read b) (parse read a))

  -- A refusal under a test that decides the order.
  refused_if :
      (t : Bool) (p q : List ℕ) (r : Refusal)
      → t ≡ tuple_lt p q
      → ((if t then some r else none) ≡ none) ↔ (¬ (Before p q))
  refused_if true p q r e = (λ n. ground arith, λ n. absurd (n (Before-tuple_lt p q (sym e))))
  refused_if false p q r e = (λ n b. let yes_lt = tuple_lt-Before b in ground arith, λ n. refl)

  passed_if :
      (t : Bool) (p q : List ℕ) (r : Refusal)
      → t ≡ tuple_lt p q
      → ((if t then none else some r) ≡ none) ↔ Before p q
  passed_if true p q r e = (λ n. Before-tuple_lt p q (sym e), λ b. refl)
  passed_if false p q r e = (λ n. ground arith, λ b. let yes_lt = tuple_lt-Before b in ground arith)

  only_if :
      (v s : String)
      → ((if is_version (some v) s then none else some (only_in_version s)) ≡ none) ↔ (v ≡ s)
  only_if v s = elim (Bool-cases (v == s)) [
    | inl e ↦ (λ n. ==→≡ {A = String} v s e, λ q. rw e refl)
    | inr e ↦ (λ n. let no = rw e at n in ground arith, λ q. absurd (==_false {A = String} v s e q))
  ]

  module _ {Q : Type 0} (reg : VersionRegistry Q) where
    -- A guard lets a version through exactly where it is the one version named, if one is, does not come
    -- before the minimum, the maximum does not come before it, and it comes before the version of
    -- removal, each of these where it is given and not empty.
    pub guard-Given :
        (k : Constraints) (v : String)
        → (check_version_constraints read reg k (some v) ≡ none) ↔ (
            Given k.only_for (λ s. v ≡ s)
            × Given k.min_version (λ s. ¬ (Earlier v s))
            × Given k.max_version (λ s. ¬ (Earlier s v))
            × Given k.removed_in (λ s. Earlier v s))
    unfolding check_version_constraints check_range refuse_before refuse_after refuse_removed
    guard-Given k v =
        let only =
          by_constraint-Given k.only_for
            (λ s. if is_version (some v) s then none else some (only_in_version s)) (λ s. v ≡ s)
            (only_if v) in
        let low =
          by_constraint-Given k.min_version (refuse_before read reg v) (λ s. ¬ (Earlier v s))
            (λ s.
              refused_if (is_negative (version_compare read v s)) (parse read v) (parse read s)
                (only_since s) (negative-compare v s)) in
        let high =
          by_constraint-Given k.max_version (refuse_after read reg v) (λ s. ¬ (Earlier s v))
            (λ s.
              refused_if (is_positive (version_compare read v s)) (parse read s) (parse read v)
                (removed_after s) (positive-compare v s)) in
        let removed =
          by_constraint-Given k.removed_in (refuse_removed read reg v) (λ s. Earlier v s)
            (λ s.
              passed_if (is_negative (version_compare read v s)) (parse read v) (parse read s) _
                (negative-compare v s)) in
        (
          λ n.
              let first = (first_refusal-none _ _).0 n in
              let second = (first_refusal-none _ _).0 first.1 in
              let third = (first_refusal-none _ _).0 second.1 in
              (only.0 first.0, low.0 second.0, high.0 third.0, removed.0 third.1),
          λ (o, l, h, r). (first_refusal-none _ _).1 (
            only.1 o,
            (first_refusal-none _ _).1
                (low.1 l, (first_refusal-none _ _).1 (high.1 h, removed.1 r)),
          ),
        )

-- On a method the first positional argument is the view, which has no version: the guard answers the
-- same for all requests, and refuses all of them where it is for one version only.
pub method_guard_blind :
    {Q A : Type 0} (read : Reading) (reg : VersionRegistry Q) (k : Constraints)
    (func : Option Argument → List Argument → A) (self request : Argument) (args : List Argument)
    → self.api_version ≡ none
    → (k.only_for ≡ none
        → versioned_view read reg k func none (self ∷ request ∷ args)
          ≡ inr (func none (self ∷ request ∷ args)))
      × ((version : String)
          → k.only_for ≡ some version
          → version ≢ ""
          → versioned_view read reg k func none (self ∷ request ∷ args)
            ≡ inl (only_in_version version))
unfolding versioned_view check_version_constraints resolve_active_version
method_guard_blind read reg k func self request args e =
    (λ any. ground arith, λ version only named. ground arith)
