-- ===== src/Gateway/Buckets.antt =====
-- Requests of one identity on paths with different rates: they share one sorted set.
use django_project_test.Gateway.Rules.{Patterns}
use django_project_test.Gateway.Rates.{Texts, Request, Sources}
use django_project_test.Gateway.Throttle.{
  ThrottleType, allow_request, get_identity, redis_key, throttle_rate,
}
use django_project_test.Gateway.Window.{Redis, IsSortedSet, check_sliding_window, second, sound}
use django_project_test.Gateway.Limit.{outcome, purged_card}
use django_project_test.Base.{
  count, count_all, leb, arith, inr, not, sym, inl, subst, count-length, ◌∙◌, refl, ap, ◌*◌,
  string_eq, true, ◌-◌, false, ◌<◌, ◌==◌, ◌≤◌, length, ◌≡◌, Bool, ℕ, List, String,
}

module _ (r : Redis) (scores : r.State → String → List ℕ) (has : r.State → String → String → Bool)
    (laws : IsSortedSet r scores has) where
  -- How many scores lie above the start of a window.
  abbrev pub used : ℕ → ℕ → List ℕ → ℕ
  used window now xs = count (λ x. not (leb x (now - window * second))) xs

  -- A request with nothing in its window leaves one score.
  one_left :
      (key : String) (limit window now : ℕ) (member : String) (s : r.State)
      → used window now (scores s key) ≡ 0
      → 0 < limit
      → has s key member ≡ false
      → length (scores (check_sliding_window r key limit window now member sound s).1 key) ≡ 1
  one_left key limit window now member s empty some_limit fresh =
      let s₁ = r.zremrangebyscore s key 0 (now - window * second) in
      let card = purged_card r scores has laws s key (now - window * second) ∙ empty in
      let before : length (scores s₁ key) ≡ 0 = sym (laws.card s₁ key) ∙ card in
      elim (outcome r scores has laws key limit window now member s) [
        | inl (full, refused, after) ↦ absurd (omega arith)
        | inr (space, given, after) ↦
            let added =
              laws.added s₁ key member now (λ _. true)
                (laws.purged_members s key 0 (now - window * second) member fresh) in
            let total = count_all (scores (r.zadd s₁ key member now) key) in
            let total' = count_all (scores s₁ key) in
            rw (after, laws.expire_kept (r.zadd s₁ key member now) key (window * 2)) (omega arith)
      ]

  allowed_after :
      (key : String) (limit window now : ℕ) (member : String) (s : r.State)
      → length (scores s key) ≡ 1
      → 1 < limit
      → (check_sliding_window r key limit window now member sound s).0.allowed ≡ true
  allowed_after key limit window now member s one more =
      let card = purged_card r scores has laws s key (now - window * second) in
      let few = count-length (λ x. not (leb x (now - window * second))) (scores s key) in
      elim (outcome r scores has laws key limit window now member s) [
        | inl (full, refused, after) ↦ absurd (omega arith)
        | inr (space, given, after) ↦ given
      ]

  refused_full :
      (key : String) (limit window now : ℕ) (member : String) (s : r.State)
      → limit ≤ used window now (scores s key)
      → (check_sliding_window r key limit window now member sound s).0.allowed ≡ false
  refused_full key limit window now member s full =
      let card = purged_card r scores has laws s key (now - window * second) in
      elim (outcome r scores has laws key limit window now member s) [
        | inl (_, refused, after) ↦ refused
        | inr (space, given, after) ↦ absurd (omega arith)
      ]

  module _ (texts : Texts) (re : Patterns) (t : ThrottleType) (sources : Sources) where
    abbrev key_of : Request → String
    key_of q = redis_key texts re t (get_identity texts t q)

    abbrev rate_of : Request → ℕ × ℕ
    rate_of q = throttle_rate texts re t sources q

    allow_request-check :
        (q : Request) (now : ℕ) (member : String) (s : r.State)
        → (get_identity texts t q == "") ≡ false
        → let out = allow_request texts re r t sources q now member sound s in
          let (limit, window) = rate_of q in
          let checked = check_sliding_window r (key_of q) limit window now member sound s in
          (out.allowed ≡ checked.0.allowed) × (out.state ≡ checked.1)
    unfolding allow_request
    allow_request-check q now member s named = (rw named refl, rw named refl)

    -- Two requests of the same identity, of which the first alone is refused, since its window is
    -- full, over a store with the laws of sorted sets and a client that does not raise: when the second
    -- has nothing in its own window, a limit above 0 and a new member, and the first a limit above 1,
    -- the first is allowed once the second has been made.
    pub short_window_forgets :
        (first other : Request) (now : ℕ) (m m' : String) (s : r.State)
        → (get_identity texts t first == "") ≡ false
        → get_identity texts t other ≡ get_identity texts t first
        → (rate_of first).0 ≤ used (rate_of first).1 now (scores s (key_of first))
        → 1 < (rate_of first).0
        → used (rate_of other).1 now (scores s (key_of first)) ≡ 0
        → 0 < (rate_of other).0
        → has s (key_of first) m' ≡ false
        → let after = (allow_request texts re r t sources other now m' sound s).state in
          ((allow_request texts re r t sources first now m sound s).allowed ≡ false)
          × ((allow_request texts re r t sources first now m sound after).allowed ≡ true)
    short_window_forgets first other now m m' s named same full more empty some_limit fresh =
        let key = key_of first in
        let (limit, window) = rate_of first in
        let (limit', window') = rate_of other in
        let same_key : key_of other ≡ key = ap (redis_key texts re t) same in
        let named' : (get_identity texts t other == "") ≡ false =
          subst (λ i. (i == "") ≡ false) (sym same) named in
        let after = (allow_request texts re r t sources other now m' sound s).state in
        let state' : after ≡ (check_sliding_window r key limit' window' now m' sound s).1 =
          (allow_request-check other now m' s named').1
          ∙ ap (λ k. (check_sliding_window r k limit' window' now m' sound s).1) same_key in
        let one : length (scores after key) ≡ 1 =
          ap (λ x. length (scores x key)) state'
          ∙ one_left key limit' window' now m' s empty some_limit fresh in
        (
          (allow_request-check first now m s named).0 ∙ refused_full key limit window now m s full,
          (allow_request-check first now m after named).0
              ∙ allowed_after key limit window now m after one more,
        )
