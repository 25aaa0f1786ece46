-- ===== src/Pagination/Walk.antt =====
-- What the rows beyond a cursor are, and what the first rows of a list are.
use native.Mathlib.Omega.{arith}
use django_project_test.Pagination.Cursor.{Codec, Ordering, beyond, rows_beyond, last_field}
use django_project_test.Base.{
  zero, ap, suc, min, ◌<◌, ◌≤◌, length, string_eq, refl, [], ◌==◌, All, ◌++◌, ◌∷◌, true, false,
  some, List, drop, ◌≡◌, ℕ, take, String,
}

-- A cursor is read back as it was written, and no cursor is the empty text.
pub record IsCodec (codec : Codec) : Type 0 where
  pub decode-encode : (t : String) (v : ℕ) → codec.decode (codec.encode t v) ≡ some (t, v)
  pub encode_some : (t : String) (v : ℕ) → (codec.encode t v == "") ≡ false

pub length-take-min {ℓ} :
    {A : Type ℓ} (n : ℕ) (xs : List A) → length (take n xs) ≡ min n (length xs)
unfolding take
length-take-min zero xs = omega arith
length-take-min (suc n) [] = omega arith
length-take-min (suc n) (x ∷ xs) = omega (arith, length-take-min n xs)

pub take-take {ℓ} : {A : Type ℓ} (n k : ℕ) (xs : List A) → n ≤ k → take n (take k xs) ≡ take n xs
unfolding take
take-take zero k xs h = refl
take-take (suc n) zero xs h = absurd (omega arith)
take-take (suc n) (suc k) [] h = refl
take-take (suc n) (suc k) (x ∷ xs) h = ap (λ ys. x ∷ ys) (take-take n k xs (omega arith))

-- The last element of the first `n`, and what follows it.
pub split_last {ℓ} :
    {A : Type ℓ} (n : ℕ) (xs : List A)
    → n < length xs
    → (init : List A) × (x : A) × (take (suc n) xs ≡ init ++ x ∷ [])
      × (xs ≡ init ++ x ∷ drop (suc n) xs)
unfolding take drop
split_last zero [] h = absurd (omega arith)
split_last zero (x ∷ xs) h = ([], x, refl, refl)
split_last (suc n) [] h = absurd (omega arith)
split_last (suc n) (y ∷ xs) h =
    let (init, x, e, e') = split_last n xs (omega arith) in
    (y ∷ init, x, ap (λ ys. y ∷ ys) e, ap (λ ys. y ∷ ys) e')

beyond_irrefl : (o : Ordering) (v : ℕ) → beyond o v v ≡ false
unfolding beyond
beyond_irrefl o v = ground arith

beyond_asym : (o : Ordering) (v w : ℕ) → beyond o v w ≡ true → beyond o w v ≡ false
unfolding beyond
beyond_asym o v w h = ground arith

module _ {ℓ} {A : Type ℓ} (field : A → ℕ) (o : Ordering) where
  -- Each row lies beyond the rows before it: no two have the same value.
  abbrev pub Strict : List A → Type 0
  Strict [] = Unit
  Strict (r ∷ rows) = All (λ s. beyond o (field r) (field s) ≡ true) rows × Strict rows

  pub last_field-append :
      (init : List A) (x : A) → last_field field (init ++ x ∷ []) ≡ some (field x)
  unfolding last_field
  last_field-append [] x = refl
  last_field-append (y ∷ []) x = refl
  last_field-append (y ∷ z ∷ init) x = last_field-append (z ∷ init) x

  All-last :
      (P : A → Type 0) (init : List A) (x : A) (rest : List A) → All P (init ++ x ∷ rest) → P x
  All-last P [] x rest h = h.0
  All-last P (y ∷ init) x rest h = All-last P init x rest h.1

  rows_beyond-All :
      (v : ℕ) (rows : List A)
      → All (λ s. beyond o v (field s) ≡ true) rows
      → rows_beyond field o v rows ≡ rows
  unfolding rows_beyond
  rows_beyond-All v [] h = refl
  rows_beyond-All v (r ∷ rows) h = rw (h.0, rows_beyond-All v rows h.1) refl

  pub rows_beyond-append :
      (init : List A) (x : A) (rest : List A)
      → Strict (init ++ x ∷ rest)
      → rows_beyond field o (field x) (init ++ x ∷ rest) ≡ rest
  unfolding rows_beyond
  rows_beyond-append [] x rest h =
      rw (beyond_irrefl o (field x)) (rows_beyond-All (field x) rest h.0)
  rows_beyond-append (y ∷ init) x rest h =
      let after = All-last (λ s. beyond o (field y) (field s) ≡ true) init x rest h.0 in
      rw (beyond_asym o (field y) (field x) after) (rows_beyond-append init x rest h.1)

  rows_beyond_self :
      (r : A) (rows : List A)
      → rows_beyond field o (field r) (r ∷ rows) ≡ rows_beyond field o (field r) rows
  unfolding rows_beyond
  rows_beyond_self r rows = rw (beyond_irrefl o (field r)) refl
