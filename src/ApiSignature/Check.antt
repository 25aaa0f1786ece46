-- ===== src/ApiSignature/Check.antt =====
-- What a verified request guarantees, and which requests are verified.
use native.Mathlib.Omega.{arith}
use mathlib.Core.Path.{refl}
use django_project_test.ApiSignature.Nonce
use django_project_test.ApiSignature.Nonce.{Nonces}
use django_project_test.ApiSignature.Signature.{
  Library, IsDigest, Signed, generate_signature, verify_signature, missing_header, nonce_used,
  verified, signature_expired, invalid_signature, distance,
}
use django_project_test.ApiSignature.Verifier.{
  SignatureVerifier, Request, verify_request, check_signature, get_secret_key, incomplete,
}
use django_project_test.Base.{
  ==_false, not, ltb, ap, string_eq, inr, ◌∙◌, le→not-ltb, sym, nat_eq, inl, ≢→==, ◌⊎◌, false,
  Bool-cases, true, ◌≤◌, ◌==◌, ◌≡◌, ◌≢◌, String, ℕ,
}

module _ {Body : Type 0} (lib : Library Body) where
  pub outcome :
      (v : SignatureVerifier) (q : Request lib) (now : ℕ) (token : String) (nonces : Nonces)
      → ((incomplete lib q ≡ true)
          × (verify_request lib v q now token nonces ≡ (missing_header, nonces)))
        ⊎ ((incomplete lib q ≡ false)
            × (Nonce.has nonces q.nonce ≡ true)
            × ((verify_request lib v q now token nonces).0 ≡ nonce_used)
            × ((verify_request lib v q now token nonces).1
                ≡ (Nonce.store nonces q.nonce q.timestamp v.nonce_ttl now).1))
        ⊎ ((incomplete lib q ≡ false)
            × (Nonce.has nonces q.nonce ≡ false)
            × ((verify_request lib v q now token nonces).0 ≡ check_signature lib v q now token)
            × ((verify_request lib v q now token nonces).1
                ≡ (Nonce.store nonces q.nonce q.timestamp v.nonce_ttl now).1))
  unfolding verify_request
  outcome v q now token nonces =
      let answer = Nonce.store_answer nonces q.nonce q.timestamp v.nonce_ttl now in
      elim (Bool-cases (incomplete lib q)) [
        | inl miss ↦ inl (miss, rw miss refl)
        | inr full ↦ elim (Bool-cases (Nonce.has nonces q.nonce)) [
          | inl old ↦
              let no : (Nonce.store nonces q.nonce q.timestamp v.nonce_ttl now).0 ≡ false =
                answer ∙ ap not old in
              inr (inl (full, old, rw (full, no) refl, rw (full, no) refl))
          | inr new ↦
              let stored : (Nonce.store nonces q.nonce q.timestamp v.nonce_ttl now).0 ≡ true =
                answer ∙ ap not new in
              inr (inr (full, new, rw (full, stored) refl, rw (full, stored) refl))
        ]
      ]

  verified_check :
      (v : SignatureVerifier) (q : Request lib) (now : ℕ) (token : String)
      → IsDigest lib
      → check_signature lib v q now token ≡ verified
      → (get_secret_key v q.access_key ≢ "")
        × (distance lib now q.timestamp ≤ v.timestamp_tolerance)
        × (q.signature
            ≡ (generate_signature lib
                (get_secret_key v q.access_key)
                q.signed
                q.timestamp
                q.nonce
                now
                token).0)
  unfolding check_signature verify_signature
  verified_check v q now token digest ok =
      let key = get_secret_key v q.access_key in
      let expected = (generate_signature lib key q.signed q.timestamp q.nonce now token).0 in
      let (to_equal, _) = digest.compare_iff q.signature expected in
      elim (Bool-cases (key == "")) [
        | inl no_key ↦
            let fact : check_signature lib v q now token ≡ invalid_signature = rw no_key refl in
            let no : invalid_signature ≡ verified = sym fact ∙ ok in ground arith
        | inr has_key ↦
            elim (Bool-cases (ltb v.timestamp_tolerance (distance lib now q.timestamp))) [
              | inl late ↦
                  let fact : check_signature lib v q now token ≡ signature_expired =
                    rw (has_key, late) refl in
                  let no : signature_expired ≡ verified = sym fact ∙ ok in ground arith
              | inr in_time ↦ elim (Bool-cases (lib.compare_digest q.signature expected)) [
                | inr differ ↦
                    let fact : check_signature lib v q now token ≡ invalid_signature =
                      rw (has_key, in_time, differ) refl in
                    let no : invalid_signature ≡ verified = sym fact ∙ ok in ground arith
                | inl same ↦ (==_false key "" has_key, ground arith, to_equal same)
              ]
            ]
      ]

  -- A request is verified only when none of its three headers is missing, its nonce was not stored,
  -- it has a key, its timestamp differs from the clock by no more than the tolerance, and its
  -- signature is the one that `generate_signature` makes of its parts with that key.
  pub verified_only_if :
      (v : SignatureVerifier) (q : Request lib) (now : ℕ) (token : String) (nonces : Nonces)
      → IsDigest lib
      → (verify_request lib v q now token nonces).0 ≡ verified
      → (incomplete lib q ≡ false)
        × (Nonce.has nonces q.nonce ≡ false)
        × (get_secret_key v q.access_key ≢ "")
        × (distance lib now q.timestamp ≤ v.timestamp_tolerance)
        × (q.signature
            ≡ (generate_signature lib
                (get_secret_key v q.access_key)
                q.signed
                q.timestamp
                q.nonce
                now
                token).0)
  verified_only_if v q now token nonces digest ok = elim (outcome v q now token nonces) [
    | inl (_, e) ↦ let no : missing_header ≡ verified = sym (ap (λ r. r.0) e) ∙ ok in ground arith
    | inr (inl (_, _, e, _)) ↦ let no : nonce_used ≡ verified = sym e ∙ ok in ground arith
    | inr (inr (full, new, e, _)) ↦
        let (key, in_time, signature) = verified_check v q now token digest (sym e ∙ ok) in
        (full, new, key, in_time, signature)
  ]

  generate_given :
      (key : String) (q : Signed lib) (timestamp : ℕ) (nonce : String) (now now' : ℕ)
      (token token' : String)
      → (timestamp == 0) ≡ false
      → (nonce == "") ≡ false
      → generate_signature lib key q timestamp nonce now token
        ≡ generate_signature lib key q timestamp nonce now' token'
  unfolding generate_signature
  generate_given key q timestamp nonce now now' token token' dated named = rw (dated, named) refl

  complete :
      (q : Request lib)
      → q.signature ≢ ""
      → (q.timestamp == 0) ≡ false
      → (q.nonce == "") ≡ false
      → incomplete lib q ≡ false
  unfolding incomplete
  complete q signed dated named = rw (≢→== q.signature "" signed, dated, named) refl

  check_passes :
      (v : SignatureVerifier) (q : Request lib) (now : ℕ) (token : String)
      → get_secret_key v q.access_key ≢ ""
      → distance lib now q.timestamp ≤ v.timestamp_tolerance
      → lib.compare_digest q.signature
          (generate_signature lib
            (get_secret_key v q.access_key)
            q.signed
            q.timestamp
            q.nonce
            now
            token).0
        ≡ true
      → check_signature lib v q now token ≡ verified
  unfolding check_signature verify_signature
  check_passes v q now token keyed on_time same =
      let has_key = ≢→== (get_secret_key v q.access_key) "" keyed in
      let in_time = le→not-ltb (distance lib now q.timestamp) v.timestamp_tolerance on_time in
      rw (has_key, in_time, same) refl

  signed_some :
      (key : String) (q : Signed lib) (timestamp : ℕ) (nonce : String) (now : ℕ) (token : String)
      → IsDigest lib
      → (generate_signature lib key q timestamp nonce now token).0 ≢ ""
  unfolding generate_signature
  signed_some key q timestamp nonce now token digest = digest.digest_some key _

  -- A request that its sender signed with the key of its access key, a timestamp other than 0 and a
  -- nonce other than the empty text is verified, if the nonce was not stored and the clock differs
  -- from the timestamp by no more than the tolerance.
  pub signed_request_verifies :
      (v : SignatureVerifier) (q : Request lib) (sent now : ℕ) (token token' : String)
      (nonces : Nonces)
      → IsDigest lib
      → get_secret_key v q.access_key ≢ ""
      → q.signature
        ≡ (generate_signature lib
            (get_secret_key v q.access_key)
            q.signed
            q.timestamp
            q.nonce
            sent
            token).0
      → q.timestamp ≢ 0
      → q.nonce ≢ ""
      → Nonce.has nonces q.nonce ≡ false
      → distance lib now q.timestamp ≤ v.timestamp_tolerance
      → (verify_request lib v q now token' nonces).0 ≡ verified
  signed_request_verifies v q sent now token token' nonces digest keyed signed dated named new
        on_time =
      let dated' = ≢→== q.timestamp 0 dated in
      let named' = ≢→== q.nonce "" named in
      let key = get_secret_key v q.access_key in
      let made = (generate_signature lib key q.signed q.timestamp q.nonce now token').0 in
      let again : q.signature ≡ made =
        signed
        ∙ ap (λ r. r.0)
            (generate_given key q.signed q.timestamp q.nonce sent now token token' dated' named') in
      let (_, from_equal) = digest.compare_iff q.signature made in
      let some_signature : q.signature ≢ "" =
        λ e. signed_some key q.signed q.timestamp q.nonce sent token digest (sym signed ∙ e) in
      let full = complete q some_signature dated' named' in
      elim (outcome v q now token' nonces) [
        | inl (miss, _) ↦ let no : true ≡ false = sym miss ∙ full in cc
        | inr (inl (_, old, _, _)) ↦ let no : true ≡ false = sym old ∙ new in cc
        | inr (inr (_, _, e, _)) ↦ e ∙ check_passes v q now token' keyed on_time (from_equal again)
      ]
