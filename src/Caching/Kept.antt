-- ===== src/Caching/Kept.antt =====
-- What each call of the module keeps of a key that is set with a tag.
use django_project_test.Base.{
  ==_false, ==→≡, subst, Bool-cases, refl, sym, string_eq, inr, ≢→==, ◌∙◌, ◌⊎◌, ap, false, inl,
  true, if◌then◌else◌, ◌==◌, ◌≡◌, ◌≢◌, Bool, arith, String, [], ◌∷◌, ◌≤◌, ◌<◌, ◌+◌, ℕ, Option, not,
  ◌&&◌, ◌||◌, List, none,
}
use django_project_test.Caching.{
  Entry, Cache, value, month, contains, read_mapping, set_key, invalidate_by_tag, build_tag_pattern,
  add_tag_mapping,
}
use django_project_test.Caching.Calls.{
  Fresh, Steady, Steady-add_tag_mapping, Fresh-add_tag_mapping, contains-add_tag_mapping,
  recorded-add_tag_mapping,
}
use django_project_test.Caching.Tagged.{
  get-invalidate, get-add_tag_mapping, read_mapping-same, read_mapping-invalidate,
  read_mapping-delete, read_mapping-set_value,
}

-- The calls of the module, each with its time.
pub data Call (A : Type 0) : Type 0 where
  sets :
      (now : ℕ) (key : String)
      → A
      → (timeout : Option ℕ) (tags : List String) → (broken : String → Bool) → Call A
  deletes : (now : ℕ) (key : String) → Call A
  invalidates : (now : ℕ) (tag : String) → Call A

abbrev pub time_of : {A : Type 0} → Call A → ℕ
time_of (sets now key a timeout tags broken) = now
time_of (deletes now key) = now
time_of (invalidates now tag) = now

-- The calls come one after the other from `since` to `ends`.
abbrev pub Timed : {A : Type 0} → ℕ → ℕ → List (Call A) → Type 0
Timed since ends [] = since ≤ ends
Timed since ends (call ∷ calls) = (since ≤ time_of call) × Timed (time_of call) ends calls

-- `k` is set with the tag, and recorded under it, whenever it is set; no call's key is the tag's pattern.
abbrev pub Tagging : {A : Type 0} → String → String → Call A → Type 0
Tagging k tag (sets now key a timeout tags broken) =
    (key ≢ build_tag_pattern tag)
    × ((not (key == k) || (contains tag tags && not (broken tag))) ≡ true)
Tagging k tag (deletes now key) = key ≢ build_tag_pattern tag
Tagging k tag (invalidates now t) = Unit

pub Timed-le :
    {A : Type 0} (since ends : ℕ) (calls : List (Call A)) → Timed since ends calls → since ≤ ends
Timed-le since ends [] h = h
Timed-le since ends (call ∷ calls) h =
    let first = h.0 in let rest = Timed-le (time_of call) ends calls h.1 in omega arith

-- A list that is either emptied or kept has no new members.
fresh_if :
    (p : String) (b : Bool) (l l' : List String)
    → l' ≡ (if b then [] else l)
    → contains p l ≡ false
    → contains p l' ≡ false
unfolding contains
fresh_if p true l l' e h = ap (contains p) e
fresh_if p false l l' e h = ap (contains p) e ∙ h

pub if_none {ℓ} : {A : Type ℓ} (b : Bool) (o : Option A) → o ≡ none → (if b then none else o) ≡ none
if_none true o e = refl
if_none false o e = e

if_ext {ℓ} :
    {A : Type ℓ} (b : Bool) (x y z : A) → y ≡ z → (if b then x else y) ≡ (if b then x else z)
if_ext b x y z e = ap (λ w. if b then x else w) e

module _ {C A : Type 0} (cache : Cache C (Entry A)) where
  unfoldable pub perform : Call A → C → C
  perform (sets now key a timeout tags broken) c = set_key cache c now a key timeout tags broken
  perform (deletes now key) c = cache.delete c key
  perform (invalidates now tag) c = (invalidate_by_tag cache c now tag).1

  unfoldable pub perform_all : List (Call A) → C → C
  perform_all [] c = c
  perform_all (call ∷ calls) c = perform_all calls (perform call c)

module _ {C A : Type 0} (cache : Cache C (Entry A)) (ends : ℕ) where
  -- What holds of the key `k` and the tag from the time `t` on.
  pub record Recorded (k tag : String) (t : ℕ) (c : C) : Type 0 where
    pub steady : Steady cache t ends c
    pub fresh : Fresh cache ends (build_tag_pattern tag) c
    pub kept :
        (contains k (read_mapping cache c ends tag) ≡ true)
        ⊎ ((now : ℕ) → t ≤ now → cache.get c now k ≡ none)

  module _ (k tag : String) (apart : (s : String) → k ≢ build_tag_pattern s) where
    pub Recorded-later : (t u : ℕ) (c : C) → t ≤ u → Recorded k tag t c → Recorded k tag u c
    Recorded-later t u c le inv = record {
      steady = λ s now from upto. inv.steady s now (omega arith) upto;
      fresh = inv.fresh;
      kept = elim inv.kept [ inl m ↦ inl m | inr gone ↦ inr (λ now from. gone now (omega arith)) ];
    }

    Steady-set_value :
        (key : String) (a : A) (timeout : Option ℕ) (t : ℕ) (c : C)
        → t ≤ ends
        → Steady cache t ends c
        → Steady cache t ends (cache.set c t key (value a) timeout)
    Steady-set_value key a timeout t c le steady s now from upto =
        read_mapping-set_value cache c t now key s a timeout from
        ∙ if_ext (build_tag_pattern s == key) [] _ _ (steady s now from upto)
        ∙ sym (read_mapping-set_value cache c t ends key s a timeout le)

    pub Recorded-sets :
        (t : ℕ) (key : String) (a : A) (timeout : Option ℕ) (tags : List String)
        (broken : String → Bool) (c : C)
        → t ≤ ends
        → ends < t + month
        → Tagging k tag (sets t key a timeout tags broken)
        → Recorded k tag t c
        → Recorded k tag t (set_key cache c t a key timeout tags broken)
    unfolding set_key
    Recorded-sets t key a timeout tags broken c le soon ok inv =
        let first = cache.set c t key (value a) timeout in
        let steady = Steady-set_value key a timeout t c le inv.steady in
        let at = read_mapping-set_value cache c t ends key tag a timeout le in
        let stays =
          contains-add_tag_mapping cache t ends le soon k key tag tags broken first steady in
        let new = recorded-add_tag_mapping cache t ends le soon key tag tags broken first steady in
        let other = ≢→== {A = String} (build_tag_pattern tag) key (λ e. ok.0 (sym e)) in
        record {
          steady = Steady-add_tag_mapping cache t ends le soon key tags broken first steady;
          fresh =
              Fresh-add_tag_mapping cache t ends le soon (build_tag_pattern tag) key tags broken
                first (λ e. ok.0 (sym e)) steady
                (λ s.
                  fresh_if (build_tag_pattern tag) (build_tag_pattern s == key)
                    (read_mapping cache c ends s) (read_mapping cache first ends s)
                    (read_mapping-set_value cache c t ends key s a timeout le) (inv.fresh s));
          kept = elim (Bool-cases (key == k)) [
            | inl e ↦ inl (
                subst
                  (λ j.
                    contains j
                      (read_mapping cache (add_tag_mapping cache first t key tags broken) ends tag)
                    ≡ true)
                  (==→≡ {A = String} key k e) (new (let h = ok.1 in ground arith)))
            | inr e ↦ elim inv.kept [
              | inl m ↦ inl (stays (rw (at, other) m))
              | inr gone ↦ inr (λ now from.
                  get-add_tag_mapping cache k apart first t now key tags broken from
                  ∙ cache.get-set c t now key k (value a) timeout from
                  ∙ rw (≢→== {A = String} k key (λ q. ==_false {A = String} key k e (sym q)))
                      (gone now from))
            ]
          ];
        }

    pub Recorded-deletes :
        (t : ℕ) (key : String) (c : C)
        → t ≤ ends
        → key ≢ build_tag_pattern tag
        → Recorded k tag t c
        → Recorded k tag t (cache.delete c key)
    Recorded-deletes t key c le ok inv =
        let at = read_mapping-delete cache c ends key tag in
        let other = ≢→== {A = String} (build_tag_pattern tag) key (λ e. ok (sym e)) in
        record {
          steady = λ s now from upto.
              read_mapping-delete cache c now key s
              ∙ if_ext (build_tag_pattern s == key) [] _ _ (inv.steady s now from upto)
              ∙ sym (read_mapping-delete cache c ends key s);
          fresh = λ s.
              fresh_if (build_tag_pattern tag) (build_tag_pattern s == key)
                (read_mapping cache c ends s) (read_mapping cache (cache.delete c key) ends s)
                (read_mapping-delete cache c ends key s) (inv.fresh s);
          kept = elim inv.kept [
            | inl m ↦ inl (rw (at, other) m)
            | inr gone ↦
                inr
                  (λ now from. cache.get-delete c now key k ∙ if_none (k == key) _ (gone now from))
          ];
        }

    pub Recorded-invalidates :
        (t : ℕ) (u : String) (c : C)
        → t ≤ ends
        → Recorded k tag t c
        → Recorded k tag t (invalidate_by_tag cache c t u).1
    Recorded-invalidates t u c le inv =
        let at = read_mapping-invalidate cache c t ends u tag in
        let now_ends = inv.steady u t (omega arith) le in
        let unset : contains (build_tag_pattern tag) (read_mapping cache c t u) ≡ false =
          ap (contains (build_tag_pattern tag)) now_ends ∙ inv.fresh u in
        let other = ≢→== {A = String} k (build_tag_pattern u) (apart u) in
        let same = read_mapping-same cache c ends tag u in
        record {
          steady = λ s now from upto.
              read_mapping-invalidate cache c t now u s
              ∙ if_ext
                  (build_tag_pattern s == build_tag_pattern u
                    || contains (build_tag_pattern s) (read_mapping cache c t u))
                  [] _ _ (inv.steady s now from upto)
              ∙ sym (read_mapping-invalidate cache c t ends u s);
          fresh = λ s.
              fresh_if (build_tag_pattern tag)
                (build_tag_pattern s == build_tag_pattern u
                  || contains (build_tag_pattern s) (read_mapping cache c t u))
                (read_mapping cache c ends s)
                (read_mapping cache (invalidate_by_tag cache c t u).1 ends s)
                (read_mapping-invalidate cache c t ends u s) (inv.fresh s);
          kept = elim inv.kept [
            | inl m ↦ elim (Bool-cases (build_tag_pattern tag == build_tag_pattern u)) [
              | inl e ↦
                  let listed : contains k (read_mapping cache c t u) ≡ true =
                    ap (contains k) (
                      now_ends
                      ∙ sym (
                          same (==→≡ {A = String} (build_tag_pattern tag) (build_tag_pattern u) e)))
                    ∙ m in
                  inr (λ now from. get-invalidate cache c t now u k ∙ rw (other, listed) refl)
              | inr e ↦ inl (rw (at, e, unset) m)
            ]
            | inr gone ↦ inr (λ now from.
                get-invalidate cache c t now u k
                ∙ if_none (k == build_tag_pattern u) _
                    (if_none (contains k (read_mapping cache c t u)) _ (gone now from)))
          ];
        }
