-- ===== src/Validators/Identity.antt =====
-- The check character of an identity card number.
use django_project_test.Base.{
  subst, ==→≡, inr, none, inl, some, false, true, Bool-cases, ◌&&◌, Option, Bool, drop, take, refl,
  ap, ◌∙◌, sym, ◌<◌, ◌-◌, length, nat_eq, ◌==◌, List, if◌then◌else◌, ◌≡◌, ◌%◌, ◌*◌, arith, ◌+◌, ◌≤◌,
  All, ℕ, [], ◌∷◌, ◌++◌, zero, suc,
}
use django_project_test.Validators.{
  upper_x, digits, identity_answer, Text, is_valid_id_card_cn, before_newline, check_map, weighted,
  char_at, weights,
}
use django_project_test.Validators.Reading.{
  drop-append_self, take-append_self, drop_whole, length-middle, before_newline-append, Split-same,
  Split-digits,
}

-- A weight under which two digits leave different remainders.
abbrev Tells : ℕ → Type 0
Tells w = (base d e : ℕ) → d ≤ 9 → e ≤ 9 → (base + d * w) % 11 ≡ (base + e * w) % 11 → d ≡ e

weights_tell : All Tells weights
weights_tell = (
  λ base d e hd he h. omega arith,
  (
    λ base d e hd he h. omega arith,
    (
      λ base d e hd he h. omega arith,
      (
        λ base d e hd he h. omega arith,
        (
          λ base d e hd he h. omega arith,
          (
            λ base d e hd he h. omega arith,
            (
              λ base d e hd he h. omega arith,
              (
                λ base d e hd he h. omega arith,
                (
                  λ base d e hd he h. omega arith,
                  (
                    λ base d e hd he h. omega arith,
                    (
                      λ base d e hd he h. omega arith,
                      (
                        λ base d e hd he h. omega arith,
                        (
                          λ base d e hd he h. omega arith,
                          (
                            λ base d e hd he h. omega arith,
                            (
                              λ base d e hd he h. omega arith,
                              (
                                λ base d e hd he h. omega arith,
                                (λ base d e hd he h. omega arith, tt),
                              ),
                            ),
                          ),
                        ),
                      ),
                    ),
                  ),
                ),
              ),
            ),
          ),
        ),
      ),
    ),
  ),
)

-- The table has no character twice.
place : ℕ → ℕ
place c = if c == 49 then 0 else if c == 48 then 1 else if c == 88 then 2 else 60 - c

place-char_at : (k : ℕ) → k < 11 → place (char_at check_map k) ≡ k
unfolding place char_at nat_eq
place-char_at zero h = refl
place-char_at (suc zero) h = refl
place-char_at (suc (suc zero)) h = refl
place-char_at (suc (suc (suc zero))) h = refl
place-char_at (suc (suc (suc (suc zero)))) h = refl
place-char_at (suc (suc (suc (suc (suc zero))))) h = refl
place-char_at (suc (suc (suc (suc (suc (suc zero)))))) h = refl
place-char_at (suc (suc (suc (suc (suc (suc (suc zero))))))) h = refl
place-char_at (suc (suc (suc (suc (suc (suc (suc (suc zero)))))))) h = refl
place-char_at (suc (suc (suc (suc (suc (suc (suc (suc (suc zero))))))))) h = refl
place-char_at (suc (suc (suc (suc (suc (suc (suc (suc (suc (suc zero)))))))))) h = refl
place-char_at (suc (suc (suc (suc (suc (suc (suc (suc (suc (suc (suc k))))))))))) h =
    absurd (omega arith)

same_check :
    (m n c : ℕ) → char_at check_map (m % 11) ≡ c → char_at check_map (n % 11) ≡ c → m % 11 ≡ n % 11
same_check m n c p q =
    sym (place-char_at (m % 11) (omega arith))
    ∙ ap place (p ∙ sym q)
    ∙ place-char_at (n % 11) (omega arith)

-- The total as a number and a weight times the digit at one place.
weighted_at :
    (ws xs ys : List ℕ)
    → All Tells ws
    → length (xs ++ 0 ∷ ys) ≤ length ws
    → (base : ℕ) × (w : ℕ) × Tells w × ((d : ℕ) → weighted ws (xs ++ d ∷ ys) ≡ base + d * w)
unfolding weighted
weighted_at [] [] ys tells h = absurd (omega arith)
weighted_at [] (x ∷ xs) ys tells h = absurd (omega arith)
weighted_at (w ∷ ws) [] ys tells h = (weighted ws ys, w, tells.0, λ d. omega arith)
weighted_at (w ∷ ws) (x ∷ xs) ys tells h =
    let (base, v, tell, at) = weighted_at ws xs ys tells.1 (omega arith) in
    (x * w + base, v, tell, λ d. omega (arith, at d))

check_tells :
    (xs ys : List ℕ) (d e c : ℕ)
    → length (xs ++ 0 ∷ ys) ≡ 17
    → d ≤ 9
    → e ≤ 9
    → char_at check_map (weighted weights (xs ++ d ∷ ys) % 11) ≡ c
    → char_at check_map (weighted weights (xs ++ e ∷ ys) % 11) ≡ c
    → d ≡ e
check_tells xs ys d e c len hd he p q =
    let (base, w, tell, at) = weighted_at weights xs ys weights_tell (omega arith) in
    let same =
      same_check (weighted weights (xs ++ d ∷ ys)) (weighted weights (xs ++ e ∷ ys)) c p q in
    tell base d e hd he (sym (ap (λ n. n % 11) (at d)) ∙ same ∙ ap (λ n. n % 11) (at e))

checked : (len known same : Bool) → (len && (known && same)) ≡ true → (len ≡ true) × (same ≡ true)
checked len known same h = ground arith

read_identity :
    (digit : ℕ → Option ℕ) (o : Option (List ℕ)) (k : ℕ)
    → identity_answer digit o (k ∷ []) ≡ true
    → (ds : List ℕ) × (o ≡ some ds)
      × (length ds ≡ 17)
      × (char_at check_map (weighted weights ds % 11) ≡ upper_x k)
read_identity digit none k h = ground arith
read_identity digit (some ds) k h =
    let (len, same) = checked (length ds == 17) _ _ h in
    (
      ds,
      refl,
      ==→≡ (length ds) 17 len,
      ==→≡ (char_at check_map (weighted weights ds % 11)) (upper_x k) same,
    )

no_check : (digit : ℕ → Option ℕ) (o : Option (List ℕ)) → identity_answer digit o [] ≡ false
no_check digit none = refl
no_check digit (some ds) = ground arith

valid_identity :
    (digit : ℕ → Option ℕ) (l : Text) (k : ℕ)
    → length l ≡ 17
    → is_valid_id_card_cn digit (l ++ k ∷ []) ≡ true
    → (ds : List ℕ) × (digits digit l ≡ some ds)
      × (length ds ≡ 17)
      × (char_at check_map (weighted weights ds % 11) ≡ upper_x k)
unfolding is_valid_id_card_cn
valid_identity digit l k len h =
    let test : Text → Bool = λ t. identity_answer digit (digits digit (take 17 t)) (drop 17 t) in
    elim (Bool-cases (k == 10)) [
      | inl e ↦
          let text : before_newline (l ++ k ∷ []) ≡ l = before_newline-append l k ∙ rw e refl in
          let no : true ≡ false =
            sym h
            ∙ ap test text
            ∙ ap (identity_answer digit (digits digit (take 17 l))) (drop_whole 17 l len)
            ∙ no_check digit (digits digit (take 17 l)) in
          ground arith
      | inr e ↦
          let text = before_newline-append l k ∙ rw e refl in
          let answer =
            sym (
              ap test text
              ∙ ap (λ t. identity_answer digit (digits digit t) (drop 17 (l ++ k ∷ [])))
                  (take-append_self 17 l k len)
              ∙ ap (identity_answer digit (digits digit l)) (drop-append_self 17 l (k ∷ []) len))
            ∙ h in
          read_identity digit (digits digit l) k answer
    ]

-- Where digits have values up to 9: of two identity numbers of 17 characters and the same check
-- character, which differ in one of the 17, both are valid only if the two characters have the same
-- value.
pub id_digit_detected :
    (digit : ℕ → Option ℕ)
    → ((c n : ℕ) → digit c ≡ some n → n ≤ 9)
    → (xs ys : Text) (c d k : ℕ) → length (xs ++ c ∷ ys) ≡ 17
    → is_valid_id_card_cn digit ((xs ++ c ∷ ys) ++ k ∷ []) ≡ true
    → is_valid_id_card_cn digit ((xs ++ d ∷ ys) ++ k ∷ []) ≡ true
    → digit c ≡ digit d
id_digit_detected digit small xs ys c d k len hc hd =
    let (cs, read_c, len_c, char_c) = valid_identity digit (xs ++ c ∷ ys) k len hc in
    let (ds, read_d, len_d, char_d) =
      valid_identity digit (xs ++ d ∷ ys) k (length-middle xs ys d c ∙ len) hd in
    let sc = Split-digits digit xs ys c cs read_c in
    let sd = Split-digits digit xs ys d ds read_d in
    let whole_d = Split-same digit xs ys c d cs ds sc sd in
    let check : List ℕ → Type 0 = λ l. char_at check_map (weighted weights l % 11) ≡ upper_x k in
    let same =
      check_tells sc.front sc.back sc.middle sd.middle (upper_x k)
        (length-middle sc.front sc.back 0 sc.middle ∙ sym (ap length sc.whole) ∙ len_c)
        (small c sc.middle sc.middle_read) (small d sd.middle sd.middle_read)
        (subst check sc.whole char_c) (subst check whole_d char_d) in
    sc.middle_read ∙ ap some same ∙ sym sd.middle_read
