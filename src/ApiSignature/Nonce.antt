-- ===== src/ApiSignature/Nonce.antt =====
-- `MemoryNonceStore`: the timestamp and the expiry time of each nonce, in seconds.
use django_project_test.Base.Dict.{lookup-insert, Dict, lookup, insert, erase}
use django_project_test.Base.{
  ◌∙◌, ap, arith, Option, ==→≡, Bool-cases, refl, ltb, if◌then◌else◌, inr, none, string_eq, inl,
  ◌+◌, ◌||◌, true, ◌==◌, not, false, some, ◌≡◌, Bool, ℕ, String,
}

abbrev pub Nonces : Type 0
Nonces = Dict String (ℕ × ℕ)

abbrev present : Option (ℕ × ℕ) → Bool
present none = false
present (some entry) = true

-- `nonce in self._store`
unfoldable pub has : Nonces → String → Bool
has nonces nonce = present (lookup nonce nonces)

-- A nonce counts as used whatever its expiry time.
unfoldable pub store : Nonces → String → ℕ → ℕ → ℕ → Bool × Nonces
store nonces nonce timestamp ttl now =
    if has nonces nonce then (false, nonces) else (true, insert nonce (timestamp, now + ttl) nonces)

check_expiry : Nonces → String → ℕ → Option (ℕ × ℕ) → Bool × Nonces
check_expiry nonces nonce now none = (false, nonces)
check_expiry nonces nonce now (some (timestamp, expire_at)) =
    if ltb expire_at now then (false, erase nonce nonces) else (true, nonces)

unfoldable pub exists : Nonces → String → ℕ → Bool × Nonces
unfolding check_expiry
exists nonces nonce now = check_expiry nonces nonce now (lookup nonce nonces)

pub has-insert :
    (nonces : Nonces) (nonce other : String) (entry : ℕ × ℕ)
    → has (insert nonce entry nonces) other ≡ (other == nonce || has nonces other)
unfolding has
has-insert nonces nonce other entry =
    rw (lookup-insert other nonce entry nonces)
      (elim (Bool-cases (other == nonce)) [ inl h ↦ rw h refl | inr h ↦ rw h refl ])

pub store_answer :
    (nonces : Nonces) (nonce : String) (timestamp ttl now : ℕ)
    → (store nonces nonce timestamp ttl now).0 ≡ not (has nonces nonce)
unfolding store
store_answer nonces nonce timestamp ttl now = ground arith

-- What is stored afterwards: what was, and the nonce.
pub has-store :
    (nonces : Nonces) (nonce : String) (timestamp ttl now : ℕ) (other : String)
    → has (store nonces nonce timestamp ttl now).1 other ≡ (other == nonce || has nonces other)
unfolding store
has-store nonces nonce timestamp ttl now other = elim (Bool-cases (has nonces nonce)) [
  | inr new ↦ rw new (has-insert nonces nonce other (timestamp, now + ttl))
  | inl old ↦ rw old (elim (Bool-cases (other == nonce)) [
    | inr h ↦ rw h refl
    | inl h ↦ rw h (ap (has nonces) (==→≡ other nonce h) ∙ old)
  ])
]
