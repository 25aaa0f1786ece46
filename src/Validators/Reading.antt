-- ===== src/Validators/Reading.antt =====
-- Texts of digits around one character, and texts with one character at their end.
use mathlib.Core.Option.{some-injective}
use django_project_test.Base.{
  nat_eq, zero, Bool-cases, suc, ◌==◌, length, if◌then◌else◌, drop, take, sym, ◌∙◌, inr, arith,
  refl, inl, ap, Option-cases, false, some, ◌≡◌, List, Option, ℕ, [], ◌∷◌, ◌++◌,
}
use django_project_test.Validators.{Text, ends_newline, before_newline, digits}

-- A text of digits around one character: the values before it, at it and after it.
pub record Split (digit : ℕ → Option ℕ) (xs ys : Text) (c : ℕ) (ds : List ℕ) : Type 0 where
  pub front : List ℕ
  pub middle : ℕ
  pub back : List ℕ
  pub front_read : digits digit xs ≡ some front
  pub middle_read : digit c ≡ some middle
  pub back_read : digits digit ys ≡ some back
  pub whole : ds ≡ front ++ middle ∷ back

pub Split-digits :
    (digit : ℕ → Option ℕ) (xs ys : Text) (c : ℕ) (ds : List ℕ)
    → digits digit (xs ++ c ∷ ys) ≡ some ds
    → Split digit xs ys c ds
unfolding digits
Split-digits digit [] ys c ds h = elim (Option-cases (digit c)) [
  | inl e ↦ ground arith
  | inr (d, e) ↦ elim (Option-cases (digits digit ys)) [
    | inl f ↦ ground arith
    | inr (bs, f) ↦ record {
      front = [];
      middle = d;
      back = bs;
      front_read = refl;
      middle_read = e;
      back_read = f;
      whole = ground arith;
    }
  ]
]
Split-digits digit (x ∷ xs) ys c ds h = elim (Option-cases (digit x)) [
  | inl e ↦ ground arith
  | inr (a, e) ↦ elim (Option-cases (digits digit (xs ++ c ∷ ys))) [
    | inl f ↦ ground arith
    | inr (bs, f) ↦
        let rest = Split-digits digit xs ys c bs f in
        record {
          front = a ∷ rest.front;
          middle = rest.middle;
          back = rest.back;
          front_read = rw (e, rest.front_read) refl;
          middle_read = rest.middle_read;
          back_read = rest.back_read;
          whole = let eq : ds ≡ a ∷ bs = ground arith in eq ∙ ap (λ l. a ∷ l) rest.whole;
        }
  ]
]

-- Without a line feed at its end the text is matched as a whole.
pub before_newline_all : (v : Text) → ends_newline v ≡ false → before_newline v ≡ v
unfolding before_newline ends_newline
before_newline_all [] h = refl
before_newline_all (c ∷ []) h = rw h refl
before_newline_all (c ∷ d ∷ cs) h = ap (λ l. c ∷ l) (before_newline_all (d ∷ cs) h)

-- Two texts that differ in the middle have the same values around it.
pub Split-same :
    (digit : ℕ → Option ℕ) (xs ys : Text) (c d : ℕ) (cs ds : List ℕ) (sc : Split digit xs ys c cs)
    (sd : Split digit xs ys d ds)
    → ds ≡ sc.front ++ sd.middle ∷ sc.back
Split-same digit xs ys c d cs ds sc sd =
    let same_front : sc.front ≡ sd.front = some-injective _ _ (sym sc.front_read ∙ sd.front_read) in
    let same_back : sc.back ≡ sd.back = some-injective _ _ (sym sc.back_read ∙ sd.back_read) in
    sd.whole
    ∙ ap (λ l. l ++ sd.middle ∷ sd.back) (sym same_front)
    ∙ ap (λ l. sc.front ++ sd.middle ∷ l) (sym same_back)

pub take-append_self : (n : ℕ) (l : Text) (k : ℕ) → length l ≡ n → take n (l ++ k ∷ []) ≡ l
unfolding take
take-append_self zero [] k h = refl
take-append_self zero (x ∷ l) k h = absurd (omega arith)
take-append_self (suc n) [] k h = absurd (omega arith)
take-append_self (suc n) (x ∷ l) k h = ap (λ m. x ∷ m) (take-append_self n l k (omega arith))

pub drop-append_self : (n : ℕ) (l r : Text) → length l ≡ n → drop n (l ++ r) ≡ r
unfolding drop
drop-append_self zero [] r h = refl
drop-append_self zero (x ∷ l) r h = absurd (omega arith)
drop-append_self (suc n) [] r h = absurd (omega arith)
drop-append_self (suc n) (x ∷ l) r h = drop-append_self n l r (omega arith)

pub drop_whole : (n : ℕ) (l : Text) → length l ≡ n → drop n l ≡ []
unfolding drop
drop_whole zero [] h = refl
drop_whole zero (x ∷ l) h = absurd (omega arith)
drop_whole (suc n) [] h = refl
drop_whole (suc n) (x ∷ l) h = drop_whole n l (omega arith)

pub before_newline-append :
    (l : Text) (k : ℕ) → before_newline (l ++ k ∷ []) ≡ (if k == 10 then l else l ++ k ∷ [])
unfolding before_newline
before_newline-append [] k = refl
before_newline-append (x ∷ []) k = ground arith
before_newline-append (x ∷ y ∷ l) k =
    let rest = before_newline-append (y ∷ l) k in
    elim (Bool-cases (k == 10)) [
      | inl e ↦ rw e (ap (λ m. x ∷ m) (rest ∙ rw e refl))
      | inr e ↦ rw e (ap (λ m. x ∷ m) (rest ∙ rw e refl))
    ]

pub length-middle : (xs ys : List ℕ) (a b : ℕ) → length (xs ++ a ∷ ys) ≡ length (xs ++ b ∷ ys)
length-middle [] ys a b = refl
length-middle (x ∷ xs) ys a b = ap suc (length-middle xs ys a b)
