-- ===== src/Base/Lists.antt =====
-- Lists over the native numbers, and predicates on lists by recursion.
use Prim.Native.Nat.{ℕ, zero, suc, ◌+◌, ◌-◌}
use mathlib.Core.Path.{◌≡◌, refl, ap, sym}
use mathlib.Core.List.{List, [], ◌∷◌, ◌++◌}
use native.Mathlib.Omega.{arith}
use django_project_test.Base.Tests.{if◌then◌else◌, Bool-cases}
use mathlib.Core.Bool.{Bool, true}
use mathlib.Core.Logic.{inl, inr}
use Prim.Native.Nat.{◌≤◌}

module _ {ℓ} {A : Type ℓ} where
  abbrev pub length : List A → ℕ
  length [] = 0
  length (x ∷ xs) = suc (length xs)

  pub length-append : (xs ys : List A) → length (xs ++ ys) ≡ length xs + length ys
  length-append [] ys = omega arith
  length-append (x ∷ xs) ys = omega (arith, length-append xs ys)

abbrev pub All {ℓ κ} : {A : Type ℓ} → (A → Type κ) → List A → Type κ
All P [] = Unit
All P (x ∷ xs) = P x × All P xs

pub All-append {ℓ κ} :
    {A : Type ℓ} (P : A → Type κ) (xs ys : List A) → All P xs → All P ys → All P (xs ++ ys)
All-append P [] ys hx hy = hy
All-append P (x ∷ xs) ys hx hy = (hx.0, All-append P xs ys hx.1 hy)

-- How many entries pass a test.
unfoldable pub count {ℓ} : {A : Type ℓ} → (A → Bool) → List A → ℕ
count p [] = 0
count p (a ∷ xs) = let rest = count p xs in if p a then rest + 1 else rest

pub count-length {ℓ} : {A : Type ℓ} (p : A → Bool) (xs : List A) → count p xs ≤ length xs
unfolding count
count-length p [] = omega arith
count-length p (a ∷ xs) =
    let rest = count-length p xs in
    elim (Bool-cases (p a)) [ inl e ↦ rw e (omega arith) | inr e ↦ rw e (omega arith) ]

-- A test that passes wherever another does counts at least as many.
pub count_mono {ℓ} :
    {A : Type ℓ} (p q : A → Bool)
    → ((a : A) → p a ≡ true → q a ≡ true)
    → (xs : List A) → count p xs ≤ count q xs
unfolding count
count_mono p q h [] = omega arith
count_mono p q h (a ∷ xs) =
    let rest = count_mono p q h xs in
    elim (Bool-cases (p a)) [
      | inl e ↦ rw (e, h a e) (omega arith)
      | inr e ↦
          rw e (elim (Bool-cases (q a)) [
            | inl e' ↦ rw e' (omega arith)
            | inr e' ↦ rw e' (omega arith)
          ])
    ]

pub count_ext {ℓ} :
    {A : Type ℓ} (p q : A → Bool) → ((a : A) → p a ≡ q a) → (xs : List A) → count p xs ≡ count q xs
unfolding count
count_ext p q h [] = refl
count_ext p q h (a ∷ xs) = rw (h a, count_ext p q h xs) refl

pub count_all {ℓ} : {A : Type ℓ} (xs : List A) → count (λ _. true) xs ≡ length xs
unfolding count
count_all [] = refl
count_all (a ∷ xs) = omega (arith, count_all xs)

module _ {ℓ} {A : Type ℓ} where
  -- `xs[:n]` and `xs[n:]`
  unfoldable pub take : ℕ → List A → List A
  take zero xs = []
  take (suc n) [] = []
  take (suc n) (x ∷ xs) = x ∷ take n xs

  unfoldable pub drop : ℕ → List A → List A
  drop zero xs = xs
  drop (suc n) [] = []
  drop (suc n) (x ∷ xs) = drop n xs

  -- `xs[start:end]`
  unfoldable pub slice : ℕ → ℕ → List A → List A
  slice start end xs = take (end - start) (drop start xs)

  pub length-take : (n : ℕ) (xs : List A) → length (take n xs) ≤ n
  unfolding take
  length-take zero xs = omega arith
  length-take (suc n) [] = omega arith
  length-take (suc n) (x ∷ xs) = omega (arith, length-take n xs)

  pub take_all : (n : ℕ) (xs : List A) → length xs ≤ n → take n xs ≡ xs
  unfolding take
  take_all zero [] h = refl
  take_all zero (x ∷ xs) h = absurd (omega arith)
  take_all (suc n) [] h = refl
  take_all (suc n) (x ∷ xs) h = ap (λ ys. x ∷ ys) (take_all n xs (omega arith))

  pub append-take-drop : (n : ℕ) (xs : List A) → take n xs ++ drop n xs ≡ xs
  unfolding take drop
  append-take-drop zero xs = refl
  append-take-drop (suc n) [] = refl
  append-take-drop (suc n) (x ∷ xs) = ap (λ ys. x ∷ ys) (append-take-drop n xs)

  take_nil : (n : ℕ) → take n [] ≡ []
  unfolding take
  take_nil zero = refl
  take_nil (suc n) = refl

  pub take_add : (m n k : ℕ) (xs : List A) → k ≡ m + n → take k xs ≡ take m xs ++ take n (drop m xs)
  unfolding take drop
  take_add zero n k xs e = ap (λ j. take j xs) (omega arith)
  take_add (suc m) n zero xs e = absurd (omega arith)
  take_add (suc m) n (suc k) [] e = sym (take_nil n)
  take_add (suc m) n (suc k) (x ∷ xs) e = ap (λ ys. x ∷ ys) (take_add m n k xs (omega arith))

  pub append_assoc : (xs ys zs : List A) → (xs ++ ys) ++ zs ≡ xs ++ (ys ++ zs)
  append_assoc [] ys zs = refl
  append_assoc (x ∷ xs) ys zs = ap (λ l. x ∷ l) (append_assoc xs ys zs)

  pub append-snoc :
      (xs ys : List A) (z : A) (zs : List A) → (xs ++ ys) ++ z ∷ zs ≡ (xs ++ ys ++ z ∷ []) ++ zs
  append-snoc [] [] z zs = refl
  append-snoc [] (y ∷ ys) z zs = ap (λ l. y ∷ l) (append-snoc [] ys z zs)
  append-snoc (x ∷ xs) ys z zs = ap (λ l. x ∷ l) (append-snoc xs ys z zs)
