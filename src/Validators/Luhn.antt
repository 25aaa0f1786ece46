-- ===== src/Validators/Luhn.antt =====
-- The check digit of a bank card.
use django_project_test.Base.{
  subst, refl, ◌&&◌, length, leb, if◌then◌else◌, none, false, true, some, Bool, Option, nat_eq, inr,
  inl, ◌==◌, sym, ap, Bool-cases, ◌%◌, ◌∙◌, arith, ◌+◌, ◌≡◌, ◌≤◌, ℕ, List, [], ◌∷◌, ◌++◌,
  append_assoc,
}
use mathlib.Core.List.{reverse, reverse-append, reverse-cons}
use django_project_test.Validators.{
  value_error, before_newline, ends_newline, digits, says, card_answer, Text, is_valid_bank_card,
  card_total, checksum, weigh,
}
use django_project_test.Validators.Reading.{Split-same, before_newline_all, Split-digits}

-- Each weight tells two digits from each other.
weigh_tells :
    (i base d e : ℕ)
    → d ≤ 9
    → e ≤ 9
    → (base + weigh i d) % 10 ≡ 0
    → (base + weigh i e) % 10 ≡ 0
    → d ≡ e
unfolding weigh
weigh_tells i base d e hd he p q = elim (Bool-cases (i % 2 == 0)) [
  | inl b ↦ ground arith
  | inr b ↦ ground arith
]

-- The total as a number and the weight of the digit at one place.
checksum_at :
    (i : ℕ) (xs ys : List ℕ)
    → (base : ℕ) × (j : ℕ) × ((d : ℕ) → checksum i (xs ++ d ∷ ys) ≡ base + weigh j d)
unfolding checksum
checksum_at i [] ys = (checksum (i + 1) ys, i, λ d. omega arith)
checksum_at i (x ∷ xs) ys =
    let (base, j, at) = checksum_at (i + 1) xs ys in (weigh i x + base, j, λ d. omega (arith, at d))

weigh_odd : (d : ℕ) → d ≤ 9 → weigh 1 d ≡ d
unfolding weigh
weigh_odd d h = ground arith

card_total_at :
    (xs ys : List ℕ)
    → (base : ℕ) × (j : ℕ) × ((d : ℕ) → d ≤ 9 → card_total (xs ++ d ∷ ys) ≡ base + weigh j d)
unfolding card_total
card_total_at [] ys = (checksum 0 ys, 1, λ d h. let odd = weigh_odd d h in omega arith)
card_total_at (x ∷ xs) ys =
    let (base, j, at) = checksum_at 0 xs ys in (base + x, j, λ d h. omega (arith, at d))

reverse_at : (xs ys : List ℕ) (d : ℕ) → reverse (xs ++ d ∷ ys) ≡ reverse ys ++ d ∷ reverse xs
reverse_at xs ys d =
    reverse-append xs (d ∷ ys)
    ∙ ap (λ l. l ++ reverse xs) (reverse-cons d ys)
    ∙ append_assoc (reverse ys) (d ∷ []) (reverse xs)

digits_tell :
    (xs ys : List ℕ) (d e : ℕ)
    → d ≤ 9
    → e ≤ 9
    → card_total (reverse (xs ++ d ∷ ys)) % 10 ≡ 0
    → card_total (reverse (xs ++ e ∷ ys)) % 10 ≡ 0
    → d ≡ e
digits_tell xs ys d e hd he p q =
    let (base, j, at) = card_total_at (reverse ys) (reverse xs) in
    let pd =
      sym (ap (λ l. card_total l % 10) (reverse_at xs ys d) ∙ ap (λ n. n % 10) (at d hd)) ∙ p in
    let pe =
      sym (ap (λ l. card_total l % 10) (reverse_at xs ys e) ∙ ap (λ n. n % 10) (at e he)) ∙ q in
    weigh_tells j base d e hd he pd pe

answered :
    (fits newline : Bool) (n : ℕ)
    → (if fits then if newline then value_error else says (n == 0) else says false) ≡ says true
    → (newline ≡ false) × (n ≡ 0)
answered true true n h = ground arith
answered true false n h = (refl, ground arith)
answered false newline n h = ground arith

card_answered :
    (digit : ℕ → Option ℕ) (newline : Bool) (o : Option (List ℕ))
    → card_answer digit newline o ≡ says true
    → (newline ≡ false) × ((ds : List ℕ) × (o ≡ some ds) × (card_total (reverse ds) % 10 ≡ 0))
card_answered digit newline none h = ground arith
card_answered digit newline (some ds) h =
    let (whole, total) =
      answered (leb 13 (length ds) && leb (length ds) 19) newline (card_total (reverse ds) % 10)
        h in
    (whole, (ds, refl, total))

valid_card :
    (digit : ℕ → Option ℕ) (v : Text)
    → is_valid_bank_card digit v ≡ says true
    → (ds : List ℕ) × (digits digit v ≡ some ds) × (card_total (reverse ds) % 10 ≡ 0)
unfolding is_valid_bank_card
valid_card digit v h =
    let (whole, (ds, read, total)) =
      card_answered digit (ends_newline v) (digits digit (before_newline v)) h in
    (ds, sym (ap (digits digit) (before_newline_all v whole)) ∙ read, total)

-- Where digits have values up to 9: of two texts that differ in one character, both are valid card
-- numbers only if the two characters have the same value.
pub one_digit_detected :
    (digit : ℕ → Option ℕ)
    → ((c n : ℕ) → digit c ≡ some n → n ≤ 9)
    → (xs ys : Text) (c d : ℕ) → is_valid_bank_card digit (xs ++ c ∷ ys) ≡ says true
    → is_valid_bank_card digit (xs ++ d ∷ ys) ≡ says true
    → digit c ≡ digit d
one_digit_detected digit small xs ys c d hc hd =
    let (cs, read_c, total_c) = valid_card digit (xs ++ c ∷ ys) hc in
    let (ds, read_d, total_d) = valid_card digit (xs ++ d ∷ ys) hd in
    let sc = Split-digits digit xs ys c cs read_c in
    let sd = Split-digits digit xs ys d ds read_d in
    let whole_d = Split-same digit xs ys c d cs ds sc sd in
    let same =
      digits_tell sc.front sc.back sc.middle sd.middle (small c sc.middle sc.middle_read)
        (small d sd.middle sd.middle_read)
        (subst (λ l. card_total (reverse l) % 10 ≡ 0) sc.whole total_c)
        (subst (λ l. card_total (reverse l) % 10 ≡ 0) whole_d total_d) in
    sc.middle_read ∙ ap some same ∙ sym sd.middle_read
