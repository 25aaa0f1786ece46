-- ===== src/Pagination/Text.antt =====
-- `_encode_cursor` and `_decode_cursor` of `CursorPagination`: the text of a cursor, base64 without its
-- padding.
use Prim.Native.Char.{char, code}
use Prim.Native.String.{[], ◌∷◌, ◌++◌ as concat, count as count_chars}
use Prim.Native.String.append
use native.Mathlib.Omega.{arith}
use django_project_test.Pagination.Cursor.{Codec}
use django_project_test.Base.{
  ◌∙◌, ap, sym, ◌≤◌, ◌%◌, string_eq, nat_eq, refl, false, if◌then◌else◌, some, ◌==◌, ◌≡◌, none, ℕ,
  Option, String, zero, suc, ◌+◌, ◌-◌, ◌&&◌,
}

-- What the code takes from the language: `json` on the object of a field and a value, and the urlsafe
-- base64 of a text; `none` where they raise.
pub record Libraries : Type 0 where
  pub dumps : String → ℕ → String
  pub loads : String → Option (String × ℕ)
  pub urlsafe_b64encode : String → String
  pub urlsafe_b64decode : String → Option String

-- `rstrip("=")`
unfoldable rstrip_equals : String → String
rstrip_equals [] = ""
rstrip_equals (c ∷ s) =
    let rest = rstrip_equals s in if (code c == 61) && (rest == "") then "" else c ∷ rest

-- `"=" * n`
unfoldable equals_signs : ℕ → String
equals_signs zero = ""
equals_signs (suc n) = char 61 tt ∷ equals_signs n

-- `-n % 4`
abbrev missing : ℕ → ℕ
missing n = (4 - n % 4) % 4

module _ (lib : Libraries) where
  unfoldable encode_cursor : String → ℕ → String
  encode_cursor ordering value = rstrip_equals (lib.urlsafe_b64encode (lib.dumps ordering value))

  abbrev read_text : Option String → Option (String × ℕ)
  read_text none = none
  read_text (some text) = lib.loads text

  unfoldable decode_cursor : String → Option (String × ℕ)
  decode_cursor cursor =
      read_text
        (lib.urlsafe_b64decode (concat cursor (equals_signs (missing (count_chars cursor)))))

  -- The codec of the paginator.
  abbrev cursor_codec : Codec
  cursor_codec = record { encode = encode_cursor; decode = decode_cursor }

-- A text of the alphabet of base64, which has no `=`.
abbrev IsUnpadded : String → Type 0
IsUnpadded [] = Unit
IsUnpadded (c ∷ s) = ((code c == 61) ≡ false) × IsUnpadded s

rstrip_equals-signs : (k : ℕ) → rstrip_equals (equals_signs k) ≡ ""
unfolding rstrip_equals equals_signs nat_eq string_eq
rstrip_equals-signs zero = refl
rstrip_equals-signs (suc k) = rw (rstrip_equals-signs k) refl

rstrip_equals-append :
    (s : String) (k : ℕ) → IsUnpadded s → rstrip_equals (concat s (equals_signs k)) ≡ s
unfolding rstrip_equals
rstrip_equals-append [] k h = rw (append.nil (equals_signs k)) (rstrip_equals-signs k)
rstrip_equals-append (c ∷ s) k h =
    rw (append.cons c s (equals_signs k), h.0, rstrip_equals-append s k h.1) refl

-- What the documentation says: the inverses, and that base64 pads its alphabet with at most two `=` to
-- a length that 4 divides.
record IsLawful (lib : Libraries) : Type 0 where
  loads-dumps :
      (ordering : String) (value : ℕ)
      → lib.loads (lib.dumps ordering value) ≡ some (ordering, value)
  decode-encode : (s : String) → lib.urlsafe_b64decode (lib.urlsafe_b64encode s) ≡ some s
  padded :
      (s : String)
      → (body : String) × (k : ℕ) × IsUnpadded body
        × (lib.urlsafe_b64encode s ≡ concat body (equals_signs k))
        × (k ≤ 2)
        × ((count_chars body + k) % 4 ≡ 0)

decode_padded :
    (lib : Libraries) (body text : String) (k : ℕ)
    → missing (count_chars body) ≡ k
    → lib.urlsafe_b64decode (concat body (equals_signs k)) ≡ some text
    → decode_cursor lib body ≡ lib.loads text
unfolding decode_cursor
decode_padded lib body text k gap inverse =
    ap (λ n. read_text lib (lib.urlsafe_b64decode (concat body (equals_signs n)))) gap
    ∙ ap (read_text lib) inverse

encode_padded :
    (lib : Libraries) (ordering : String) (value : ℕ) (body : String) (k : ℕ)
    → IsUnpadded body
    → lib.urlsafe_b64encode (lib.dumps ordering value) ≡ concat body (equals_signs k)
    → encode_cursor lib ordering value ≡ body
unfolding encode_cursor
encode_padded lib ordering value body k plain shape = rw shape (rstrip_equals-append body k plain)

-- A cursor is read back as it was written.
decode_cursor-encode_cursor :
    (lib : Libraries) (ordering : String) (value : ℕ)
    → IsLawful lib
    → decode_cursor lib (encode_cursor lib ordering value) ≡ some (ordering, value)
decode_cursor-encode_cursor lib ordering value laws =
    let text = lib.dumps ordering value in
    let (body, k, plain, shape, small, whole) = laws.padded text in
    let gap : missing (count_chars body) ≡ k = omega (arith, whole, small) in
    let inverse : lib.urlsafe_b64decode (concat body (equals_signs k)) ≡ some text =
      rw (sym shape) (laws.decode-encode text) in
    ap (decode_cursor lib) (encode_padded lib ordering value body k plain shape)
    ∙ decode_padded lib body text k gap inverse
    ∙ laws.loads-dumps ordering value
