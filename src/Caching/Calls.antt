-- ===== src/Caching/Calls.antt =====
-- One call of the module, and what it leaves recorded under the tags until a later time.
use django_project_test.Base.{
  string_eq, subst, ==→≡, ap, inr, ==_refl, ◌==◌, inl, arith, sym, if◌then◌else◌, true, Bool-cases,
  ◌≢◌, ◌∙◌, false, ◌≡◌, Bool, String, [], ◌∷◌, ◌++◌, ◌≤◌, ◌<◌, ◌+◌, ℕ, not, ◌&&◌, List,
}
use django_project_test.Caching.{
  Entry, Cache, month, contains, read_mapping, write_mapping, add_tag_mapping, build_tag_pattern,
}
use django_project_test.Caching.Tagged.{
  read_mapping-write, read_mapping-same, contains-append, contains_other, contains_last,
}

abbrev pub Fresh : {C A : Type 0} → Cache C (Entry A) → ℕ → String → C → Type 0
Fresh cache ends p c = (s : String) → contains p (read_mapping cache c ends s) ≡ false

-- What is recorded stays the same from `t` to `ends`.
abbrev pub Steady : {C A : Type 0} → Cache C (Entry A) → ℕ → ℕ → C → Type 0
Steady cache t ends c =
    (s : String) (now : ℕ)
    → t ≤ now
    → now ≤ ends
    → read_mapping cache c now s ≡ read_mapping cache c ends s

not_both : (b : Bool) → (b && false) ≢ true
not_both b h = ground arith

-- A call at `t`, and a later time within the month of it.
module _ {C A : Type 0} (cache : Cache C (Entry A)) (t ends : ℕ) (le : t ≤ ends)
    (soon : ends < t + month) where
  abbrev write_at : C → String → String → C
  write_at c key s = write_mapping cache c t key s (read_mapping cache c t s)

  frozen-write :
      (c : C) (key s u : String) (now : ℕ)
      → Steady cache t ends c
      → t ≤ now
      → now ≤ ends
      → read_mapping cache (write_at c key s) now u ≡ (
          if not (contains key (read_mapping cache c ends s))
            && build_tag_pattern u == build_tag_pattern s
          then read_mapping cache c ends s ++ key ∷ []
          else read_mapping cache c ends u)
  frozen-write c key s u now steady from upto =
      let l = read_mapping cache c ends s in
      ap (λ m. read_mapping cache (write_mapping cache c t key s m) now u)
        (steady s t (omega arith) le)
      ∙ read_mapping-write cache c t now key s u l from (omega arith)
      ∙ ap
          (λ m.
            if not (contains key l) && build_tag_pattern u == build_tag_pattern s
            then l ++ key ∷ []
            else m)
          (steady u now from upto)

  Steady-write :
      (c : C) (key s : String) → Steady cache t ends c → Steady cache t ends (write_at c key s)
  Steady-write c key s steady u now from upto =
      frozen-write c key s u now steady from upto
      ∙ sym (frozen-write c key s u ends steady le (omega arith))

  contains-write :
      (c : C) (key s u k : String)
      → Steady cache t ends c
      → contains k (read_mapping cache c ends u) ≡ true
      → contains k (read_mapping cache (write_at c key s) ends u) ≡ true
  contains-write c key s u k steady h =
      let set = frozen-write c key s u ends steady le (omega arith) in
      let both = contains-append k (read_mapping cache c ends s) (key ∷ []) in
      let same = read_mapping-same cache c ends u s in ground arith

  contains-write_self :
      (c : C) (key s : String)
      → Steady cache t ends c
      → contains key (read_mapping cache (write_at c key s) ends s) ≡ true
  contains-write_self c key s steady =
      let set = frozen-write c key s s ends steady le (omega arith) in
      let both =
        contains-append key (read_mapping cache c ends s) (key ∷ []) ∙ contains_last key _ in
      let same = ==_refl (build_tag_pattern s) in ground arith

  -- A text that is not the key recorded is recorded no more than before.
  Fresh-write :
      (c : C) (key s p : String)
      → Steady cache t ends c
      → p ≢ key
      → Fresh cache ends p c
      → Fresh cache ends p (write_at c key s)
  Fresh-write c key s p steady differ fresh u =
      let set = frozen-write c key s u ends steady le (omega arith) in
      let both =
        contains-append p (read_mapping cache c ends s) (key ∷ [])
        ∙ contains_other p key (read_mapping cache c ends s) differ in
      let hs = fresh s in let hu = fresh u in ground arith

  -- What the mapping of a key's tags keeps, whichever of them are broken.
  pub Steady-add_tag_mapping :
      (key : String) (tags : List String) (broken : String → Bool) (c : C)
      → Steady cache t ends c
      → Steady cache t ends (add_tag_mapping cache c t key tags broken)
  unfolding add_tag_mapping
  Steady-add_tag_mapping key [] broken c h = h
  Steady-add_tag_mapping key (s ∷ tags) broken c h =
      let skipped = Steady-add_tag_mapping key tags broken c h in
      let rest =
        Steady-add_tag_mapping key tags broken (write_at c key s) (Steady-write c key s h) in
      elim (Bool-cases (broken s)) [ inl e ↦ rw e skipped | inr e ↦ rw e rest ]

  pub Fresh-add_tag_mapping :
      (p key : String) (tags : List String) (broken : String → Bool) (c : C)
      → p ≢ key
      → Steady cache t ends c
      → Fresh cache ends p c
      → Fresh cache ends p (add_tag_mapping cache c t key tags broken)
  unfolding add_tag_mapping
  Fresh-add_tag_mapping p key [] broken c differ h f = f
  Fresh-add_tag_mapping p key (s ∷ tags) broken c differ h f =
      let skipped = Fresh-add_tag_mapping p key tags broken c differ h f in
      let rest =
        Fresh-add_tag_mapping p key tags broken (write_at c key s) differ (Steady-write c key s h)
          (Fresh-write c key s p h differ f) in
      elim (Bool-cases (broken s)) [ inl e ↦ rw e skipped | inr e ↦ rw e rest ]

  pub contains-add_tag_mapping :
      (k key u : String) (tags : List String) (broken : String → Bool) (c : C)
      → Steady cache t ends c
      → contains k (read_mapping cache c ends u) ≡ true
      → contains k (read_mapping cache (add_tag_mapping cache c t key tags broken) ends u) ≡ true
  unfolding add_tag_mapping
  contains-add_tag_mapping k key u [] broken c h m = m
  contains-add_tag_mapping k key u (s ∷ tags) broken c h m =
      let skipped = contains-add_tag_mapping k key u tags broken c h m in
      let rest =
        contains-add_tag_mapping k key u tags broken (write_at c key s) (Steady-write c key s h)
          (contains-write c key s u k h m) in
      elim (Bool-cases (broken s)) [ inl e ↦ rw e skipped | inr e ↦ rw e rest ]

  pub recorded-add_tag_mapping :
      (key u : String) (tags : List String) (broken : String → Bool) (c : C)
      → Steady cache t ends c
      → (contains u tags && not (broken u)) ≡ true
      → contains key (read_mapping cache (add_tag_mapping cache c t key tags broken) ends u) ≡ true
  unfolding add_tag_mapping contains
  recorded-add_tag_mapping key u [] broken c h m = ground arith
  recorded-add_tag_mapping key u (s ∷ tags) broken c h m =
      let skipped = recorded-add_tag_mapping key u tags broken c h in
      let after = Steady-write c key s h in
      let rest = recorded-add_tag_mapping key u tags broken (write_at c key s) after in
      let self =
        contains-add_tag_mapping key key s tags broken (write_at c key s) after
          (contains-write_self c key s h) in
      elim (Bool-cases (broken s)) [
        | inl e ↦ rw e (elim (Bool-cases (u == s)) [
          | inl f ↦
              let same = ==→≡ {A = String} u s f in
              let b = ap broken same ∙ e in absurd (not_both _ (rw b at m))
          | inr f ↦ skipped (ground arith)
        ])
        | inr e ↦ rw e (elim (Bool-cases (u == s)) [
          | inl f ↦
              subst
                (λ x.
                  contains key (
                    read_mapping cache (add_tag_mapping cache (write_at c key s) t key tags broken)
                      ends x)
                  ≡ true)
                (sym (==→≡ {A = String} u s f)) self
          | inr f ↦ rest (ground arith)
        ])
      ]
