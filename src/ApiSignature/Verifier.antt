-- ===== src/ApiSignature/Verifier.antt =====
-- `SignatureVerifier` over the in-memory nonce store.
use django_project_test.ApiSignature.Nonce
use django_project_test.ApiSignature.Nonce.{Nonces}
use django_project_test.ApiSignature.Signature.{
  Library, Signed, SignatureResult, verify_signature, missing_header, nonce_used, invalid_signature,
}
use django_project_test.Base.Dict.{Dict, lookup}
use django_project_test.Base.{
  nat_eq, string_eq, none, not, ◌||◌, some, ◌==◌, if◌then◌else◌, ℕ, Bool, Option, String,
}

-- The settings are the default key and `API_ACCESS_KEYS`.
pub record SignatureVerifier : Type 0 where
  pub secret_key : String
  pub api_keys : Dict String String
  pub timestamp_tolerance : ℕ
  pub nonce_ttl : ℕ

abbrev key_or : Option String → String → String
key_or none key = key
key_or (some k) key = k

-- `_get_secret_key`; an absent access key is the empty one.
unfoldable pub get_secret_key : SignatureVerifier → String → String
get_secret_key v access_key =
    if access_key == "" then v.secret_key else key_or (lookup access_key v.api_keys) v.secret_key

module _ {Body : Type 0} (lib : Library Body) where
  pub record Request : Type 0 where
    pub signed : Signed lib
    pub signature : String
    pub timestamp : ℕ
    pub nonce : String
    pub access_key : String

  -- Whether one of the three headers is missing.
  unfoldable pub incomplete : Request → Bool
  incomplete q = q.signature == "" || q.timestamp == 0 || q.nonce == ""

  -- The part after the nonce was stored.
  unfoldable pub check_signature : SignatureVerifier → Request → ℕ → String → SignatureResult lib
  check_signature v q now token =
      let key = get_secret_key v q.access_key in
      if key == ""
      then invalid_signature
      else verify_signature lib q.signature key q.signed q.timestamp q.nonce v.timestamp_tolerance
          now token

  unfoldable pub verify_request :
      SignatureVerifier → Request → ℕ → String → Nonces → SignatureResult lib × Nonces
  verify_request v q now token nonces =
      let (stored, nonces') = Nonce.store nonces q.nonce q.timestamp v.nonce_ttl now in
      if incomplete q
      then (missing_header, nonces)
      else if not stored
      then (nonce_used, nonces')
      else (check_signature v q now token, nonces')
