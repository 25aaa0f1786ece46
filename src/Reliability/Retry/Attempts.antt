-- ===== src/Reliability/Retry/Attempts.antt =====
-- Which attempt decides, and how long the loop sleeps.
use django_project_test.Reliability.Retry.{
  RetryPolicy, Outcome, Result, returned, gave_up, failed, uncaught, value, raised,
}
use django_project_test.Base.{All, ◌+◌, length, ◌<◌, List, ◌≡◌, ◌≤◌, ℕ}

module _ {A E : Type 0} (p : RetryPolicy) (uniform : ℕ → ℕ) where
  -- The result of the attempt that decides.
  abbrev pub Decides : Outcome A E → Result A E → Type 0
  Decides (returned a) r = r ≡ value a
  Decides (gave_up e) r = r ≡ raised e
  Decides (failed e) r = r ≡ raised e
  Decides (uncaught e) r = r ≡ raised e

  abbrev pub Fails : Outcome A E → Type 0
  Fails o = (e : E) × (o ≡ failed e)

  -- The attempt that decides, from a first one on: those before it failed, and the sleeps are as many.
  pub record Ends (call : ℕ → Outcome A E) (first : ℕ) (out : Result A E × List ℕ) : Type 0 where
    pub last : ℕ
    pub from : first ≤ last
    pub upto : last ≤ p.max_attempts
    pub before : (j : ℕ) → first ≤ j → j < last → Fails (call j)
    pub decides : Decides (call last) out.0
    pub sleeps : length out.1 + first ≡ last
    pub bounded : All (λ d. d ≤ p.max_delay) out.1
