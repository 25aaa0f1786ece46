-- ===== src/ApiSignature/Replay.antt =====
-- What a nonce is good for.
use django_project_test.ApiSignature.Check.{outcome}
use mathlib.Core.Path.{refl}
use django_project_test.ApiSignature.Nonce
use django_project_test.ApiSignature.Nonce.{Nonces}
use django_project_test.ApiSignature.Signature.{Library, nonce_used}
use django_project_test.ApiSignature.Verifier.{
  SignatureVerifier, Request, verify_request, incomplete,
}
use django_project_test.Base.{
  string_eq, inr, sym, inl, ==_refl, [], ap, ◌∙◌, ◌||◌, false, ◌∷◌, true, String, ◌≡◌, ℕ, List,
  Bool,
}

or_true : (a b : Bool) → b ≡ true → (a || b) ≡ true
or_true true b h = refl
or_true false b h = h

or_first : (a b : Bool) → a ≡ true → (a || b) ≡ true
or_first a b h = rw h refl

module _ {Body : Type 0} (lib : Library Body) where
  -- Requests with their clocks, one after the other.
  unfoldable pub process : SignatureVerifier → List (Request lib × ℕ × String) → Nonces → Nonces
  process v [] nonces = nonces
  process v (r ∷ rs) nonces = process v rs (verify_request lib v r.0 r.1 r.2 nonces).1

  has-verify_request :
      (v : SignatureVerifier) (q : Request lib) (now : ℕ) (token : String) (nonces : Nonces)
      (nonce : String)
      → Nonce.has nonces nonce ≡ true
      → Nonce.has (verify_request lib v q now token nonces).1 nonce ≡ true
  has-verify_request v q now token nonces nonce old =
      let kept : Nonce.has (Nonce.store nonces q.nonce q.timestamp v.nonce_ttl now).1 nonce ≡ true =
        Nonce.has-store nonces q.nonce q.timestamp v.nonce_ttl now nonce ∙ or_true _ _ old in
      elim (outcome lib v q now token nonces) [
        | inl (_, e) ↦ ap (λ r. Nonce.has r.1 nonce) e ∙ old
        | inr (inl (_, _, _, e)) ↦ ap (λ s. Nonce.has s nonce) e ∙ kept
        | inr (inr (_, _, _, e)) ↦ ap (λ s. Nonce.has s nonce) e ∙ kept
      ]

  has-process :
      (v : SignatureVerifier) (rs : List (Request lib × ℕ × String)) (nonces : Nonces)
      (nonce : String)
      → Nonce.has nonces nonce ≡ true
      → Nonce.has (process v rs nonces) nonce ≡ true
  unfolding process
  has-process v [] nonces nonce old = old
  has-process v (r ∷ rs) nonces nonce old =
      has-process v rs _ nonce (has-verify_request v r.0 r.1 r.2 nonces nonce old)

  has-own :
      (v : SignatureVerifier) (q : Request lib) (now : ℕ) (token : String) (nonces : Nonces)
      → incomplete lib q ≡ false
      → Nonce.has (verify_request lib v q now token nonces).1 q.nonce ≡ true
  has-own v q now token nonces full =
      let own : Nonce.has (Nonce.store nonces q.nonce q.timestamp v.nonce_ttl now).1 q.nonce
          ≡ true =
        Nonce.has-store nonces q.nonce q.timestamp v.nonce_ttl now q.nonce
        ∙ or_first _ _ (==_refl q.nonce) in
      elim (outcome lib v q now token nonces) [
        | inl (miss, _) ↦ let no : true ≡ false = sym miss ∙ full in cc
        | inr (inl (_, _, _, e)) ↦ ap (λ s. Nonce.has s q.nonce) e ∙ own
        | inr (inr (_, _, _, e)) ↦ ap (λ s. Nonce.has s q.nonce) e ∙ own
      ]

  -- A nonce is good for one request that has all its headers, also when that request was refused:
  -- after any further requests, at any times, a request with all headers and that nonce is answered
  -- that the nonce was used.
  pub nonce_used_up :
      (v : SignatureVerifier) (q : Request lib) (now : ℕ) (token : String) (nonces : Nonces)
      (between : List (Request lib × ℕ × String)) (q' : Request lib) (now' : ℕ) (token' : String)
      → incomplete lib q ≡ false
      → incomplete lib q' ≡ false
      → q'.nonce ≡ q.nonce
      → (verify_request lib v q' now' token'
          (process v between (verify_request lib v q now token nonces).1)).0
        ≡ nonce_used
  nonce_used_up v q now token nonces between q' now' token' full full' same =
      let after = process v between (verify_request lib v q now token nonces).1 in
      let used = has-process v between _ q.nonce (has-own v q now token nonces full) in
      let used' : Nonce.has after q'.nonce ≡ true = ap (Nonce.has after) same ∙ used in
      elim (outcome lib v q' now' token' after) [
        | inl (miss, _) ↦ let no : true ≡ false = sym miss ∙ full' in cc
        | inr (inl (_, _, e, _)) ↦ e
        | inr (inr (_, new, _, _)) ↦ let no : true ≡ false = sym used' ∙ new in cc
      ]
