-- ===== src/Validators/Examples.antt =====
-- Numbers with digits of ASCII and of full width, and passwords.
use django_project_test.Base.{
  String, ◌==◌, ◌↔◌, drop, none, take, ◌-◌, refl, arith, ◌&&◌, nat_eq, ◌≤◌, leb, zero, false, some,
  if◌then◌else◌, suc, true, ◌≡◌, Option, string_eq, ℕ, [], ◌∷◌, ◌++◌,
}
use django_project_test.Validators.{
  weigh, checksum, value_error, char_at, card_total, weighted, ends_newline, before_newline, digits,
  is_valid_chinese_mobile, is_valid_id_card_cn, Text, is_valid_bank_card,
}
use django_project_test.Validators.Passwords.{
  points, password_strength, verdict, valid, validate_password, is_common, Value,
}
use django_project_test.Validators.Strength.{validate_strong}
use django_project_test.Validators.Luhn.{one_digit_detected}

abbrev digit : ℕ → Option ℕ
digit c =
    if leb 48 c && leb c 57
    then some (c - 48)
    else if leb 65296 c && leb c 65305
    then some (c - 65296)
    else none

digit_small : (c n : ℕ) → digit c ≡ some n → n ≤ 9
digit_small c n h = ground arith

abbrev ones : ℕ → Text
ones zero = []
ones (suc n) = 49 ∷ ones n

one_digit_detected_example : digit 49 ≡ digit 65297
unfolding is_valid_bank_card digits before_newline ends_newline card_total checksum weigh nat_eq
one_digit_detected_example =
    one_digit_detected digit digit_small (52 ∷ []) (ones 14) 49 65297 refl refl

-- The first 14 characters after the first of 11010519491231002X.
abbrev id_rest : Text
id_rest = 49 ∷ 48 ∷ 49 ∷ 48 ∷ 53 ∷ 49 ∷ 57 ∷ 52 ∷ 57 ∷ 49 ∷ 50 ∷ 51 ∷ 49 ∷ 48 ∷ 48 ∷ 50 ∷ []

-- A card number with a line feed raises, and a mobile number with one is valid.
card_newline : is_valid_bank_card digit (52 ∷ ones 15 ++ 10 ∷ []) ≡ value_error
unfolding is_valid_bank_card digits before_newline ends_newline nat_eq
card_newline = refl

mobile_newline :
    is_valid_chinese_mobile digit (49 ∷ 51 ∷ 56 ∷ 48 ∷ 48 ∷ 49 ∷ 51 ∷ 56 ∷ 48 ∷ 48 ∷ 48 ∷ 10 ∷ [])
    ≡ true
unfolding is_valid_chinese_mobile digits before_newline nat_eq
mobile_newline = refl

-- `a1`
abbrev a1 : Value
a1 = record {
  text = "a1";
  len = 2;
  lowercase = true;
  uppercase = false;
  number = true;
  special = false;
  lower = "a1";
}

abbrev three_kinds : Value
three_kinds = record {
  text = "Abcdefg1";
  len = 8;
  lowercase = true;
  uppercase = true;
  number = true;
  special = false;
  lower = "abcdefg1";
}

a1_passes : validate_password 8 false a1 ≡ valid
unfolding string_eq is_common validate_password verdict password_strength points
a1_passes = refl

validate_strong_example : (validate_password 8 true three_kinds ≡ valid) ↔ (
    ((◌==◌ {A = String} "Abcdefg1" "") ≡ false)
    × (is_common "abcdefg1" ≡ false)
    × (8 ≤ 8)
    × (3 ≤ 3))
validate_strong_example = validate_strong 8 three_kinds (omega arith)

-- 11010519491231002X, also with a line feed at its end.
valid_id : is_valid_id_card_cn digit ((49 ∷ id_rest) ++ 88 ∷ 10 ∷ []) ≡ true
unfolding is_valid_id_card_cn digits before_newline weighted char_at take drop nat_eq
valid_id = refl
