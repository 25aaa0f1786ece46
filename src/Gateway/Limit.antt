-- ===== src/Gateway/Limit.antt =====
-- The limit of the sliding window, for the requests of one key taken one after the other.
use django_project_test.Gateway.Window.{
  reset_after, reject, Redis, IsSortedSet, sound, second, check_sliding_window, decide,
}
use django_project_test.Base.{
  none, count_ext, some, count_all, Option, sym, ◌∙◌, not, count-length, ◌+◌, refl, leb→le, leb,
  inr, Bool-cases, inl, true, ◌∷◌, ◌<◌, if◌then◌else◌, ◌⊎◌, false, arith, ◌≡◌, ◌*◌, count_mono,
  count, ◌-◌, [], ◌≤◌, ltb, Bool, ℕ, List, String,
}

module _ (r : Redis) (scores : r.State → String → List ℕ) (has : r.State → String → String → Bool)
    (laws : IsSortedSet r scores has) where
  abbrev pub younger : ℕ → ℕ → Bool
  younger cutoff x = ltb cutoff x

  -- A score above the cutoff survives the purge up to an earlier bound.
  purge-younger :
      (s : r.State) (key : String) (high cutoff : ℕ)
      → high ≤ cutoff
      → count (younger cutoff) (scores s key)
        ≤ count (younger cutoff) (scores (r.zremrangebyscore s key 0 high) key)
  purge-younger s key high cutoff h =
      rw (laws.purged s key 0 high (younger cutoff))
        (count_mono _ _ (λ x above. ground arith) (scores s key))

  -- A call of a client that does not raise, in its two outcomes.
  pub outcome :
      (key : String) (limit window now : ℕ) (member : String) (s : r.State)
      → let s₁ = r.zremrangebyscore s key 0 (now - window * second) in
        let out = check_sliding_window r key limit window now member sound s in
        ((limit ≤ r.zcard s₁ key) × (out.0.allowed ≡ false) × (out.1 ≡ s₁))
        ⊎ ((r.zcard s₁ key < limit)
            × (out.0.allowed ≡ true)
            × (out.1 ≡ r.expire (r.zadd s₁ key member now) key (window * 2)))
  unfolding check_sliding_window decide reject
  outcome key limit window now member s =
      let current = r.zcard (r.zremrangebyscore s key 0 (now - window * second)) key in
      elim (Bool-cases (leb limit current)) [
        | inl full ↦ rw full (inl (leb→le limit current full, refl, refl))
        | inr space ↦ rw space (inr (ground arith, refl, refl))
      ]

  -- The requests of a key with a limit and a window: the times of those that were allowed, the time
  -- of the last one, and the state. Members are distinct, and what happens between two requests
  -- (other keys, keys that expire) keeps the scores of the window.
  pub data Run (key : String) (limit window : ℕ) : List ℕ → ℕ → r.State → Type 0 where
    idle : (s : r.State) (now : ℕ) → Run key limit window [] now s
    request :
        {allowed : List ℕ} {last : ℕ} {s : r.State} (now : ℕ) (member : String)
        → Run key limit window allowed last s
        → last ≤ now
        → has s key member ≡ false
        → Run key limit window
            (if (check_sliding_window r key limit window now member sound s).0.allowed
              then now ∷ allowed
              else allowed)
            now
            (check_sliding_window r key limit window now member sound s).1
    meanwhile :
        {allowed : List ℕ} {last : ℕ} {s : r.State} (s' : r.State)
        → Run key limit window allowed last s
        → ((cutoff : ℕ)
            → last - window * second ≤ cutoff
            → count (younger cutoff) (scores s key) ≤ count (younger cutoff) (scores s' key))
        → Run key limit window allowed last s'

  -- Each allowed time of the window has its score, and the window is not over its limit.
  record Inv (key : String) (limit window : ℕ) (allowed : List ℕ) (last : ℕ) (s : r.State)
      : Type 0 where
    stored :
        (cutoff : ℕ)
        → last - window * second ≤ cutoff
        → count (younger cutoff) allowed ≤ count (younger cutoff) (scores s key)
    within : count (younger (last - window * second)) allowed ≤ limit

  younger_later : (xs : List ℕ) (c d : ℕ) → c ≤ d → count (younger d) xs ≤ count (younger c) xs
  younger_later xs c d h = count_mono _ _ (λ x above. ground arith) xs

  count_cons :
      (cutoff now : ℕ) (xs : List ℕ)
      → count (younger cutoff) (now ∷ xs)
        ≡ (if younger cutoff now then count (younger cutoff) xs + 1 else count (younger cutoff) xs)
  unfolding count
  count_cons cutoff now xs = refl

  request-Inv :
      (key : String) (limit window : ℕ) (allowed : List ℕ) (last : ℕ) (s : r.State) (now : ℕ)
      (member : String)
      → Inv key limit window allowed last s
      → last ≤ now
      → has s key member ≡ false
      → Inv key limit window
          (if (check_sliding_window r key limit window now member sound s).0.allowed
            then now ∷ allowed
            else allowed)
          now
          (check_sliding_window r key limit window now member sound s).1
  request-Inv key limit window allowed last s now member inv later fresh =
      let low = now - window * second in
      let s₁ = r.zremrangebyscore s key 0 low in
      let kept : (cutoff : ℕ)
          → low ≤ cutoff
          → count (younger cutoff) allowed ≤ count (younger cutoff) (scores s₁ key) =
        λ cutoff h.
          let a = inv.stored cutoff (omega arith) in
          let b = purge-younger s key low cutoff h in omega arith in
      elim (outcome key limit window now member s) [
        | inl (full, refused, after) ↦
            rw (refused, after)
              (record {
                stored = kept;
                within =
                    let a = younger_later allowed (last - window * second) low (omega arith) in
                    let b = inv.within in omega arith;
              })
        | inr (space, given, after) ↦
            rw (given, after)
              (record {
                stored = λ cutoff h.
                    let a = kept cutoff h in
                    let grown =
                      laws.added s₁ key member now (younger cutoff)
                        (laws.purged_members s key 0 low member fresh) in
                    rw
                      (
                        laws.expire_kept (r.zadd s₁ key member now) key (window * 2),
                        grown,
                        count_cons cutoff now allowed,
                      )
                      (elim (Bool-cases (younger cutoff now)) [
                        | inl e ↦ rw e (omega arith)
                        | inr e ↦ rw e a
                      ]);
                within =
                    let a = kept low (omega arith) in
                    let b = count-length (younger low) (scores s₁ key) in
                    let c = laws.card s₁ key in
                    rw (count_cons low now allowed) (elim (Bool-cases (younger low now)) [
                      | inl e ↦ rw e (omega arith)
                      | inr e ↦ rw e (omega arith)
                    ]);
              })
      ]

  Run-Inv :
      (key : String) (limit window : ℕ) (allowed : List ℕ) (last : ℕ) (s : r.State)
      → Run key limit window allowed last s
      → Inv key limit window allowed last s
  unfolding count
  Run-Inv key limit window allowed last s (idle _ _) = record {
    stored = λ cutoff h. omega arith;
    within = omega arith;
  }
  Run-Inv key limit window allowed last s (request now member before later fresh) =
      request-Inv key limit window _ _ _ now member (Run-Inv key limit window _ _ _ before) later
        fresh
  Run-Inv key limit window allowed last s (meanwhile s' before keeps) =
      let inv = Run-Inv key limit window _ _ _ before in
      record {
        stored = λ cutoff h. let a = inv.stored cutoff h in let b = keeps cutoff h in omega arith;
        within = inv.within;
      }

  -- In a run of requests of one key, one after the other at times that do not decrease, over a store
  -- with the laws of sorted sets and a client that does not raise, with distinct members and nothing
  -- in between that takes scores out of the window: at most `limit` of the requests that were allowed
  -- lie in the window that ends with the last request.
  pub at_most_limit :
      (key : String) (limit window : ℕ) (allowed : List ℕ) (last : ℕ) (s : r.State)
      → Run key limit window allowed last s
      → count (younger (last - window * second)) allowed ≤ limit
  at_most_limit key limit window allowed last s run =
      let inv = Run-Inv key limit window allowed last s run in inv.within

  pub purged_card :
      (s : r.State) (key : String) (low : ℕ)
      → r.zcard (r.zremrangebyscore s key 0 low) key ≡ count (λ x. not (leb x low)) (scores s key)
  purged_card s key low =
      laws.card (r.zremrangebyscore s key 0 low) key
      ∙ sym (count_all (scores (r.zremrangebyscore s key 0 low) key))
      ∙ laws.purged s key 0 low (λ _. true)
      ∙ count_ext _ _ (λ x. ground arith) (scores s key)

  reset_positive : (o : Option ℕ) (now window : ℕ) → 0 < window → 1 ≤ reset_after r o now window
  unfolding reset_after
  reset_positive none now window h = omega arith
  reset_positive (some earliest) now window h = omega arith

  -- Over a store with the laws of sorted sets and a client that does not raise, with a window of a
  -- second or more, a request is refused only when the scores above the start of its window, or below 0, are at
  -- least `limit`; it then has nothing left and is told to wait a second or more. An allowed request
  -- is told how many are left, with itself counted, and to wait for the window.
  pub refused_only_when_full :
      (key : String) (limit window now : ℕ) (member : String) (s : r.State)
      → 0 < window
      → let v = (check_sliding_window r key limit window now member sound s).0 in
        let used = count (λ x. not (leb x (now - window * second))) (scores s key) in
        ((v.allowed ≡ false) × (limit ≤ used) × (v.remaining ≡ 0) × (1 ≤ v.reset_in))
        ⊎ ((v.allowed ≡ true) × (v.remaining + used + 1 ≡ limit) × (v.reset_in ≡ window))
  unfolding check_sliding_window decide reject
  refused_only_when_full key limit window now member s some_window =
      let low = now - window * second in
      let card = purged_card s key low in
      let current = r.zcard (r.zremrangebyscore s key 0 low) key in
      elim (Bool-cases (leb limit current)) [
        | inl full ↦
            let h = leb→le limit current full in
            rw full (inl (refl, omega arith, refl, reset_positive _ now window some_window))
        | inr space ↦
            let h : current < limit = ground arith in rw space (inr (refl, omega arith, refl))
      ]
