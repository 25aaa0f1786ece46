-- ===== src/ApiSignature/Examples.antt =====
-- Signed requests on concrete data.
use native.Mathlib.Omega.{arith}
use mathlib.Core.Path.{refl}
use django_project_test.ApiSignature.Nonce.{has}
use django_project_test.ApiSignature.Signature.{
  Library, IsDigest, generate_signature, nonce_used, verified, distance,
}
use django_project_test.ApiSignature.Verifier.{
  SignatureVerifier, Request, verify_request, get_secret_key, incomplete,
}
use django_project_test.ApiSignature.Replay.{nonce_used_up, process}
use django_project_test.ApiSignature.Check.{verified_only_if, signed_request_verifies}
use django_project_test.Base.{
  inr, ==_refl, inl, ◌∙◌, ◌≤◌, sym, Bool-cases, ==_false, false, nat_eq, none, ap, ◌≢◌, ◌==◌,
  if◌then◌else◌, ◌≡◌, [], ==→≡, string_eq, String,
}
use django_project_test.Base.Dict.{lookup}

abbrev digest_of : String → String → String
digest_of key text = if key == "secret" then "5f3c" else "9a01"

abbrev library : Library String
library = record {
  upper = λ method. method;
  urlencode = λ params. "";
  dumps = λ body. body;
  str = λ n. "";
  hmac_sha256 = digest_of;
  compare_digest = λ a b. a == b;
}

digest_1_some : ◌≢◌ {A = String} "5f3c" ""
unfolding string_eq
digest_1_some = ==_false "5f3c" "" refl

digest_2_some : ◌≢◌ {A = String} "9a01" ""
unfolding string_eq
digest_2_some = ==_false "9a01" "" refl

some_digest : (key : String) → digest_of key "" ≢ ""
some_digest key = elim (Bool-cases (key == "secret")) [
  | inl e ↦ rw e digest_1_some
  | inr e ↦ rw e digest_2_some
]

library-IsDigest : IsDigest library
library-IsDigest = record {
  compare_iff = λ a b. (==→≡ a b, λ e. ap (λ x. a == x) (sym e) ∙ ==_refl a);
  digest_some = λ key text. some_digest key;
}

abbrev verifier : SignatureVerifier
verifier = record {
  secret_key = "secret";
  api_keys = [];
  timestamp_tolerance = 300;
  nonce_ttl = 600;
}

abbrev request : Request library
request = record {
  signed = record { method = "GET"; path = "/api/"; params = []; body = none };
  signature = "5f3c";
  timestamp = 1000;
  nonce = "n1";
  access_key = "";
}

-- With another key's signature.
abbrev forged : Request library
forged = record request { signature = "9a01" }

signed_request_verifies_example : (verify_request library verifier request 1100 "t" []).0 ≡ verified
unfolding get_secret_key generate_signature has lookup string_eq nat_eq
signed_request_verifies_example =
    signed_request_verifies library verifier request 1000 1100 "t" "t" [] library-IsDigest
      (==_false "secret" "" refl) refl (==_false 1000 0 refl) (==_false "n1" "" refl) refl
      (omega arith)

verified_only_if_example :
    (incomplete library request ≡ false)
    × (has [] "n1" ≡ false)
    × (get_secret_key verifier "" ≢ "")
    × (distance library 1100 1000 ≤ 300)
    × (request.signature
        ≡ (generate_signature library
            (get_secret_key verifier "")
            request.signed
            1000
            "n1"
            1100
            "t").0)
verified_only_if_example =
    verified_only_if library verifier request 1100 "t" [] library-IsDigest
      signed_request_verifies_example

-- The forged request is refused, and the genuine one that follows it as well.
nonce_used_up_example :
    (verify_request library verifier request 1100 "t"
      (process library verifier [] (verify_request library verifier forged 1050 "t" []).1)).0
    ≡ nonce_used
unfolding incomplete string_eq nat_eq
nonce_used_up_example =
    nonce_used_up library verifier forged 1050 "t" [] [] request 1100 "t" refl refl refl
