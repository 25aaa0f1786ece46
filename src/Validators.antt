-- ===== src/Validators.antt =====
-- framework/drf/validators.py: bank cards, identity cards, mobile numbers and passwords. A text is the
-- list of its characters' codes; the value of a Unicode decimal digit is a parameter.
mod Reading
mod Luhn
mod Identity
mod Passwords
mod Strength
mod Examples
use django_project_test.Base.{
  ◌&&◌, ◌-◌, nat_eq, zero, none, drop, length, ◌||◌, true, leb, ltb, suc, take, some, ◌*◌, ◌+◌, ◌%◌,
  false, ◌==◌, ℕ, Option, Bool, if◌then◌else◌, List, [], ◌∷◌,
}
use mathlib.Core.List.{reverse}

abbrev pub Text : Type 0
Text = List ℕ

-- `$` also matches before a line feed that ends the text: the text before it.
unfoldable pub before_newline : Text → Text
before_newline [] = []
before_newline (c ∷ []) = if c == 10 then [] else c ∷ []
before_newline (c ∷ d ∷ cs) = c ∷ before_newline (d ∷ cs)

unfoldable pub ends_newline : Text → Bool
ends_newline [] = false
ends_newline (c ∷ []) = c == 10
ends_newline (c ∷ d ∷ cs) = ends_newline (d ∷ cs)

abbrev pub cons_some : Option ℕ → Option (List ℕ) → Option (List ℕ)
cons_some none ds = none
cons_some (some d) none = none
cons_some (some d) (some ds) = some (d ∷ ds)

-- A call that answers, or raises `ValueError`.
pub data Answer : Type 0 where
  says : Bool → Answer
  value_error : Answer

-- `d * 2 if i % 2 == 0 else d`, less 9 where it is more than 9
unfoldable pub weigh : ℕ → ℕ → ℕ
weigh i d = let e = if i % 2 == 0 then d * 2 else d in if ltb 9 e then e - 9 else e

-- The loop from index `i` on.
unfoldable pub checksum : ℕ → List ℕ → ℕ
checksum i [] = 0
checksum i (d ∷ ds) = weigh i d + checksum (i + 1) ds

-- The digits in reverse order, the last one first.
unfoldable pub card_total : List ℕ → ℕ
card_total [] = 0
card_total (last ∷ front) = checksum 0 front + last

-- The weights and the table of GB 11643-1999, and the total over the first 17 digits.
abbrev pub weights : List ℕ
weights = 7 ∷ 9 ∷ 10 ∷ 5 ∷ 8 ∷ 4 ∷ 2 ∷ 1 ∷ 6 ∷ 3 ∷ 7 ∷ 9 ∷ 10 ∷ 5 ∷ 8 ∷ 4 ∷ 2 ∷ []

-- The codes of `10X98765432`.
abbrev pub check_map : List ℕ
check_map = 49 ∷ 48 ∷ 88 ∷ 57 ∷ 56 ∷ 55 ∷ 54 ∷ 53 ∷ 52 ∷ 51 ∷ 50 ∷ []

-- `xs[i]`, which is used within bounds
unfoldable pub char_at : List ℕ → ℕ → ℕ
char_at [] i = 0
char_at (x ∷ xs) zero = x
char_at (x ∷ xs) (suc i) = char_at xs i

unfoldable pub weighted : List ℕ → List ℕ → ℕ
weighted [] ds = 0
weighted (w ∷ ws) [] = 0
weighted (w ∷ ws) (d ∷ ds) = d * w + weighted ws ds

-- `c.upper()` of a character that the pattern lets through
abbrev pub upper_x : ℕ → ℕ
upper_x c = if c == 120 then 88 else c

abbrev has_digits : Option (List ℕ) → Bool
has_digits none = false
has_digits (some ds) = true

module _ (digit : ℕ → Option ℕ) where
  -- The values of a text of digits.
  unfoldable pub digits : Text → Option (List ℕ)
  digits [] = some []
  digits (c ∷ cs) = cons_some (digit c) (digits cs)

  -- `bool(_RE_BANK_CARD.match(value))`; `int` raises on the line feed that the pattern lets through.
  abbrev pub card_answer : Bool → Option (List ℕ) → Answer
  card_answer newline none = says false
  card_answer newline (some ds) =
      if leb 13 (length ds) && leb (length ds) 19
      then if newline then value_error else says ((card_total (reverse ds)) % 10 == 0)
      else says false

  unfoldable pub is_valid_bank_card : Text → Answer
  is_valid_bank_card value = card_answer (ends_newline value) (digits (before_newline value))

  abbrev pub is_digit : Option ℕ → Bool
  is_digit none = false
  is_digit (some d) = true

  -- The last character of an identity number: `[\dXx]`, and the comparison with the table.
  abbrev pub is_check : List ℕ → Text → Bool
  is_check ds [] = false
  is_check ds (c ∷ []) =
      (is_digit (digit c) || c == 88 || c == 120)
      && char_at check_map (weighted weights ds % 11) == upper_x c
  is_check ds (c ∷ d ∷ cs) = false

  abbrev pub identity_answer : Option (List ℕ) → Text → Bool
  identity_answer none last = false
  identity_answer (some ds) last = length ds == 17 && is_check ds last

  unfoldable pub is_valid_id_card_cn : Text → Bool
  is_valid_id_card_cn value =
      let text = before_newline value in identity_answer (digits (take 17 text)) (drop 17 text)

  abbrev is_mobile : Text → Bool
  is_mobile [] = false
  is_mobile (a ∷ []) = false
  is_mobile (a ∷ b ∷ cs) =
      a == 49 && leb 51 b && leb b 57 && length cs == 9 && has_digits (digits cs)

  unfoldable pub is_valid_chinese_mobile : Text → Bool
  is_valid_chinese_mobile value = is_mobile (before_newline value)
