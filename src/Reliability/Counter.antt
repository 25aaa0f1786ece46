-- ===== src/Reliability/Counter.antt =====
-- A counter that threads increase without a lock, as `d[k] += 1` does: a thread loads the value, and
-- stores one more than what it loaded, later. Increments can be lost.
use django_project_test.Base.{subst, arith, ◌≡◌, All, ◌+◌, List, ◌≤◌, ℕ, [], ◌∷◌, ◌++◌}

-- The value, what the threads between load and store have loaded, and how many stores there were.
pub record Counter : Type 0 where
  pub value : ℕ
  pub loaded : List ℕ
  pub stored : ℕ

abbrev pub zero_counter : Counter
zero_counter = record { value = 0; loaded = []; stored = 0 }

abbrev pub load_value : Counter → Counter
load_value c = record c { loaded = c.value ∷ c.loaded }

-- The store of a thread that loaded `v`; the threads that have not stored yet loaded `rest`.
abbrev pub store_value : ℕ → List ℕ → Counter → Counter
store_value v rest c = record { value = v + 1; loaded = rest; stored = c.stored + 1 }

abbrev pub AtMost : ℕ → List ℕ → Type 0
AtMost n vs = All (λ v. v ≤ n) vs

AtMost-suc : (n : ℕ) (vs : List ℕ) → AtMost n vs → AtMost (n + 1) vs
AtMost-suc n [] h = tt
AtMost-suc n (v ∷ vs) h = let first = h.0 in (omega arith, AtMost-suc n vs h.1)

AtMost-middle :
    (n v : ℕ) (before after : List ℕ)
    → AtMost n (before ++ v ∷ after)
    → (v ≤ n) × AtMost n (before ++ after)
AtMost-middle n v [] after h = h
AtMost-middle n v (w ∷ before) after h =
    let rest = AtMost-middle n v before after h.1 in (rest.0, (h.0, rest.1))

-- The value never passes the number of stores.
abbrev pub Behind : Counter → Type 0
Behind c = (c.value ≤ c.stored) × AtMost c.stored c.loaded

pub load_value-Behind : (c : Counter) → Behind c → Behind (load_value c)
load_value-Behind c h = (h.0, (h.0, h.1))

pub store_value-Behind :
    (c : Counter) (v : ℕ) (before after : List ℕ)
    → c.loaded ≡ before ++ v ∷ after
    → Behind c
    → Behind (store_value v (before ++ after) c)
store_value-Behind c v before after e h =
    let (small, rest) = AtMost-middle c.stored v before after (subst (AtMost c.stored) e h.1) in
    (omega arith, AtMost-suc c.stored (before ++ after) rest)
