-- ===== src/Locks/Exclusion.antt =====
-- Mutual exclusion between any number of lock objects over one exclusive backend.
use django_project_test.Locks.Client
use django_project_test.Locks.Client.{RedisLock}
use django_project_test.Base.{
  ◌∙◌, ==→≡, arith, ◌≢◌, inl, inr, Bool-cases, ◌⊎◌, string_eq, false, some, true, none, ◌≡◌, nat_eq,
  Option, ◌==◌, String, Bool, if◌then◌else◌, ℕ,
}
use django_project_test.Locks.Effects.{Change, acquire-Change, release-Change, renew-holder}
use django_project_test.Locks.{IsExclusive, LockBackend}

-- The object at an index is replaced.
unfoldable pub put : (ℕ → RedisLock) → ℕ → RedisLock → ℕ → RedisLock
put locks i l j = if j == i then l else locks j

module _ (b : LockBackend) where
  pub record System : Type 0 where
    pub state : b.State
    pub locks : ℕ → RedisLock

  pub data Step (s : System) : System → Type 0 where
    takes :
        (i : ℕ) (blocking : Bool)
        → Step s (record {
          state = (Client.acquire b blocking (s.locks i) s.state).2;
          locks = put s.locks i (Client.acquire b blocking (s.locks i) s.state).1;
        })
    renews :
        (i : ℕ) (ttl : Option ℕ)
        → Step s (record s { state = (Client.renew b ttl (s.locks i) s.state).1 })
    frees :
        (i : ℕ)
        → Step s (record {
          state = (Client.release b (s.locks i) s.state).2;
          locks = put s.locks i (Client.release b (s.locks i) s.state).1;
        })

  pub data Reach (s : System) : System → Type 0 where
    here : Reach s s
    next : {t u : System} → Reach s t → Step t u → Reach s u

  module _ (holder : b.State → String → Option String) (laws : IsExclusive b holder) where
    -- Each object that is held is the one the backend names, and no two held objects share a name.
    pub record Inv (s : System) : Type 0 where
      pub owned :
          (i : ℕ)
          → (s.locks i).held ≡ true
          → holder s.state (s.locks i).name ≡ some (s.locks i).owner
      pub unique :
          (i j : ℕ)
          → (s.locks i).held ≡ true
          → (s.locks j).held ≡ true
          → (s.locks i).name ≡ (s.locks j).name
          → i ≡ j

    At : System → ℕ → RedisLock → ℕ → RedisLock → Type 0
    At s i l j x = ((j ≡ i) × (x ≡ l)) ⊎ ((j ≢ i) × (x ≡ s.locks j))

    put-At : (s : System) (i : ℕ) (l : RedisLock) (j : ℕ) → At s i l j (put s.locks i l j)
    unfolding put At
    put-At s i l j = ground arith

    same-At :
        (s : System) (i : ℕ) (l : RedisLock) (state : b.State)
        → Change b holder laws (s.locks i) s.state l state
        → (j : ℕ) (x : RedisLock) → At s i l j x
        → (x.name ≡ (s.locks j).name) × (x.owner ≡ (s.locks j).owner)
    unfolding At
    same-At s i l state (same_name, same_owner, change) j x (inl (at, is)) = (cc, cc)
    same-At s i l state (same_name, same_owner, change) j x (inr (apart, is)) = (cc, cc)

    -- A held lock after the change is the one that was taken, or was held before and is apart from
    -- the lock that was taken or freed.
    Held : System → ℕ → b.State → ℕ → Type 0
    Held s i state j =
        ((j ≡ i)
          × (holder s.state (s.locks i).name ≡ none)
          × (holder state (s.locks i).name ≡ some (s.locks i).owner))
        ⊎ (((s.locks j).held ≡ true)
            × (holder state (s.locks j).name ≡ holder s.state (s.locks j).name))

    names_differ :
        (s : System) (i j : ℕ)
        → Inv s
        → (s.locks j).held ≡ true
        → holder s.state (s.locks i).name ≡ none
        → ((s.locks j).name == (s.locks i).name) ≡ false
    names_differ s i j inv held free = elim (Bool-cases ((s.locks j).name == (s.locks i).name)) [
      | inr differ ↦ differ
      | inl same ↦
          let names = ==→≡ (s.locks j).name (s.locks i).name same in
          let now = inv.owned j held in cc
    ]

    held-At :
        (s : System) (i : ℕ) (l : RedisLock) (state : b.State)
        → Inv s
        → Change b holder laws (s.locks i) s.state l state
        → (j : ℕ) (x : RedisLock) → At s i l j x
        → x.held ≡ true
        → Held s i state j
    unfolding At Held
    held-At s i l state inv (_, _, inl (same, keep)) j x (inl (at, is)) held = inr (cc, keep _)
    held-At s i l state inv (_, _, inl (same, keep)) j x (inr (apart, is)) held = inr (cc, keep _)
    held-At s i l state inv (_, _, inr (inl (free, given, keep))) j x (inl (at, is)) held =
        inl (at, free, given)
    held-At s i l state inv (_, _, inr (inl (free, given, keep))) j x (inr (apart, is)) held =
        let was : (s.locks j).held ≡ true = cc in
        inr (was, keep _ (names_differ s i j inv was free))
    held-At s i l state inv (_, _, inr (inr (was_held, idle, keep))) j x (inl (at, is)) held =
        let no : true ≡ false = cc in cc
    held-At s i l state inv (_, _, inr (inr (was_held, idle, keep))) j x (inr (apart, is)) held =
        let was : (s.locks j).held ≡ true = cc in
        inr (
          was,
          elim (Bool-cases ((s.locks j).name == (s.locks i).name)) [
            | inr differ ↦ keep _ differ
            | inl same ↦
                absurd (
                  apart (inv.unique j i was was_held (==→≡ (s.locks j).name (s.locks i).name same)))
          ],
        )

    Change-Inv :
        (s : System) (i : ℕ) (l : RedisLock) (state : b.State)
        → Inv s
        → Change b holder laws (s.locks i) s.state l state
        → Inv (record { state = state; locks = put s.locks i l })
    unfolding Held
    Change-Inv s i l state inv change = record {
      owned = λ j held_j.
          let at = put-At s i l j in
          let (n, o) = same-At s i l state change j _ at in
          elim (held-At s i l state inv change j _ at held_j) [
            | inl (at_i, free, given) ↦ cc
            | inr (was, keep) ↦ let own = inv.owned j was in cc
          ];
      unique = λ j k held_j held_k names.
          let (nj, _) = same-At s i l state change j _ (put-At s i l j) in
          let (nk, _) = same-At s i l state change k _ (put-At s i l k) in
          let same : (s.locks j).name ≡ (s.locks k).name = cc in
          elim (held-At s i l state inv change j _ (put-At s i l j) held_j) [
            | inl (at_i, free, given) ↦
                elim (held-At s i l state inv change k _ (put-At s i l k) held_k) [
                  | inl (at_i', _, _) ↦ cc
                  | inr (was_k, _) ↦ let own = inv.owned k was_k in cc
                ]
            | inr (was_j, _) ↦ elim (held-At s i l state inv change k _ (put-At s i l k) held_k) [
              | inl (at_i, free, given) ↦ let own = inv.owned j was_j in cc
              | inr (was_k, _) ↦ inv.unique j k was_j was_k same
            ]
          ];
    }

    Step-Inv : (s t : System) → Inv s → Step s t → Inv t
    Step-Inv s t inv (takes i blocking) =
        Change-Inv s i _ _ inv
          (acquire-Change b holder laws blocking (s.locks i) s.state (inv.owned i))
    Step-Inv s t inv (renews i ttl) = record {
      owned = λ j held. renew-holder b holder laws ttl (s.locks i) s.state _ ∙ inv.owned j held;
      unique = inv.unique;
    }
    Step-Inv s t inv (frees i) =
        Change-Inv s i _ _ inv (release-Change b holder laws (s.locks i) s.state (inv.owned i))

    Reach-Inv : (s t : System) → Inv s → Reach s t → Inv t
    Reach-Inv s t inv here = inv
    Reach-Inv s t inv (next reach step) = Step-Inv _ t (Reach-Inv s _ inv reach) step

    -- Over an exclusive backend, from a system in which no lock object is held, however the objects acquire, renew and
    -- release in turn: two held objects of the same name are one object, and the backend names its
    -- owner as the holder.
    pub mutual_exclusion :
        (s t : System)
        → ((i : ℕ) → (s.locks i).held ≡ false)
        → Reach s t
        → (i j : ℕ) → (t.locks i).held ≡ true
        → (t.locks j).held ≡ true
        → (t.locks i).name ≡ (t.locks j).name
        → (i ≡ j) × (holder t.state (t.locks i).name ≡ some (t.locks i).owner)
    mutual_exclusion s t idle reach i j held_i held_j names =
        let start : Inv s = record {
          owned = λ k held. let no = idle k in let f : true ≡ false = cc in cc;
          unique = λ k l held _ _. let no = idle k in let f : true ≡ false = cc in cc;
        } in
        let inv = Reach-Inv s t start reach in
        (inv.unique i j held_i held_j names, inv.owned i held_i)
