-- ===== src/ApiSignature/Signature.antt =====
-- `generate_signature` and `verify_signature`. Timestamps are in seconds and not negative.
use Prim.Native.String.{◌++◌ as append, compare as compare_text}
use text.Mathlib.Text
use django_project_test.Base.Dict.{Dict}
use django_project_test.Base.{
  string_eq, ◌≢◌, nat_eq, not, ◌↔◌, [], none, ltb, ◌+◌, ◌==◌, true, some, ◌-◌, if◌then◌else◌, ◌∷◌,
  ◌≡◌, Bool, ℕ, Option, List, String,
}

-- The library calls: `str.upper`, `urlencode`, `json.dumps` with sorted keys, `str` of a number, the
-- HMAC-SHA256 of a text under a key in hexadecimal, and `hmac.compare_digest`.
pub record Library (Body : Type 0) : Type 0 where
  pub upper : String → String
  pub urlencode : List (String × String) → String
  pub dumps : Body → String
  pub str : ℕ → String
  pub hmac_sha256 : String → String → String
  pub compare_digest : String → String → Bool

-- What the verification relies on.
pub record IsDigest {Body : Type 0} (lib : Library Body) : Type 0 where
  pub compare_iff : (a b : String) → (lib.compare_digest a b ≡ true) ↔ (a ≡ b)
  pub digest_some : (key text : String) → lib.hmac_sha256 key text ≢ ""

-- `sorted(params.items(), key=lambda x: x[0])`
unfoldable pub insert_sorted : String × String → List (String × String) → List (String × String)
insert_sorted x [] = x ∷ []
insert_sorted x (y ∷ ys) =
    let rest = insert_sorted x ys in
    if Text.is_le (compare_text x.0 y.0) then x ∷ y ∷ ys else y ∷ rest

unfoldable pub sorted : List (String × String) → List (String × String)
sorted [] = []
sorted (x ∷ xs) = insert_sorted x (sorted xs)

-- `"|".join(parts)`
unfoldable pub join : List String → String
join [] = ""
join (p ∷ []) = p
join (p ∷ q ∷ ps) = append p (append "|" (join (q ∷ ps)))

module _ {Body : Type 0} (lib : Library Body) where
  -- The parts of a request that are signed; no body, or an empty one, is `none`.
  pub record Signed : Type 0 where
    pub method : String
    pub path : String
    pub params : Dict String String
    pub body : Option Body

  abbrev params_text : Dict String String → String
  params_text [] = ""
  params_text (p ∷ ps) = lib.urlencode (sorted (p ∷ ps))

  abbrev body_text : Option Body → String
  body_text none = ""
  body_text (some b) = lib.dumps b

  -- `timestamp or int(time.time())`, `nonce or secrets.token_hex(16)`; `now` and `token` are those.
  unfoldable pub generate_signature :
      String → Signed → ℕ → String → ℕ → String → String × ℕ × String
  generate_signature secret_key q timestamp nonce now token =
      let timestamp' = if timestamp == 0 then now else timestamp in
      let nonce' = if nonce == "" then token else nonce in
      let parts =
        lib.upper q.method
        ∷ q.path
        ∷ params_text q.params
        ∷ body_text q.body
        ∷ lib.str timestamp'
        ∷ nonce'
        ∷ [] in
      (lib.hmac_sha256 secret_key (join parts), timestamp', nonce')

  pub data SignatureResult : Type 0 where
    verified : SignatureResult
    missing_header : SignatureResult
    nonce_used : SignatureResult
    signature_expired : SignatureResult
    invalid_signature : SignatureResult

  -- `abs(a - b)`
  abbrev pub distance : ℕ → ℕ → ℕ
  distance a b = (a - b) + (b - a)

  unfoldable pub verify_signature :
      String → String → Signed → ℕ → String → ℕ → ℕ → String → SignatureResult
  verify_signature signature secret_key q timestamp nonce tolerance now token =
      let (expected, _, _) = generate_signature secret_key q timestamp nonce now token in
      if ltb tolerance (distance now timestamp)
      then signature_expired
      else if not (lib.compare_digest signature expected)
      then invalid_signature
      else verified
