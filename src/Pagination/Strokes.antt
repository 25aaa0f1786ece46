-- ===== src/Pagination/Strokes.antt =====
-- A codec of cursors that keeps its promises, for the runs on concrete rows.
use Prim.Native.Char.{Char, char, code}
use Prim.Native.String.{[], ◌∷◌}
use text.Mathlib.TextLemmas.{cons≢nil}
use django_project_test.Pagination.Cursor.{Codec}
use django_project_test.Pagination.Walk.{IsCodec}
use django_project_test.Base.{
  string_eq, refl, false, ap, if◌then◌else◌, some, ◌==◌, ◌≡◌, none, ℕ, Option, String, ≢→==, zero,
  suc, nat_eq,
}

-- A codec: as many strokes as the value, a stop, and the ordering.
abbrev stroke : Char
stroke = char 49 tt

abbrev stop : Char
stop = char 45 tt

unfoldable pub encode_strokes : String → ℕ → String
encode_strokes t zero = stop ∷ t
encode_strokes t (suc n) = stroke ∷ encode_strokes t n

abbrev one_more : Option (String × ℕ) → Option (String × ℕ)
one_more none = none
one_more (some (t, n)) = some (t, suc n)

unfoldable pub decode_strokes : String → Option (String × ℕ)
decode_strokes [] = none
decode_strokes (c ∷ s) =
    let rest = decode_strokes s in if code c == 49 then one_more rest else some (s, 0)

abbrev pub strokes : Codec
strokes = record { encode = encode_strokes; decode = decode_strokes }

decode_strokes-encode : (t : String) (n : ℕ) → decode_strokes (encode_strokes t n) ≡ some (t, n)
unfolding decode_strokes encode_strokes nat_eq
decode_strokes-encode t zero = refl
decode_strokes-encode t (suc n) = ap one_more (decode_strokes-encode t n)

encode_strokes_some : (t : String) (n : ℕ) → (encode_strokes t n == "") ≡ false
unfolding encode_strokes
encode_strokes_some t zero = ≢→== {A = String} (stop ∷ t) "" cons≢nil
encode_strokes_some t (suc n) = ≢→== {A = String} (stroke ∷ encode_strokes t n) "" cons≢nil

pub strokes-IsCodec : IsCodec strokes
strokes-IsCodec = record {
  decode-encode = decode_strokes-encode;
  encode_some = encode_strokes_some;
}
