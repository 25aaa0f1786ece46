-- ===== src/Caching/Tagged.antt =====
-- What is recorded under a tag is removed with it.
use django_project_test.Base.{
  false, ==_refl, Bool, ≢→==, true, ◌≢◌, ap, string_eq, inr, ◌∙◌, inl, refl, Bool-cases, ◌==◌, none,
  arith, if◌then◌else◌, ◌||◌, ◌≡◌, List, String, [], ◌∷◌, ◌++◌, lt→ltb, ◌≤◌, ◌<◌, ◌+◌, not, ◌&&◌,
  some, ℕ, Option,
}
use django_project_test.Caching.{
  add_tag_mapping, keys_of, write_mapping, keys, read_mapping, build_tag_pattern, invalidate_by_tag,
  delete_all, Entry, Cache, contains, month, alive, value,
}

pub contains-append :
    (k : String) (xs ys : List String) → contains k (xs ++ ys) ≡ (contains k xs || contains k ys)
unfolding contains
contains-append k [] ys = refl
contains-append k (x ∷ xs) ys = let rest = contains-append k xs ys in ground arith

pub contains_last : (k : String) (b : Bool) → (b || contains k (k ∷ [])) ≡ true
unfolding contains
contains_last k b = let same = ==_refl k in ground arith

pub contains_other :
    (k j : String) (xs : List String)
    → k ≢ j
    → (contains k xs || contains k (j ∷ [])) ≡ contains k xs
unfolding contains
contains_other k j xs differ =
    let other = ≢→== {A = String} k j differ in
    elim (Bool-cases (contains k xs)) [ inl e ↦ ground arith | inr e ↦ ground arith ]

if_off {ℓ} : {A : Type ℓ} {b : Bool} (x y : A) → b ≡ false → (if b then x else y) ≡ y
if_off x y e = rw e refl

module _ {C A : Type 0} (cache : Cache C (Entry A)) where
  pub get-delete_all :
      (c : C) (now : ℕ) (ks : List String) (j : String)
      → cache.get (delete_all cache c ks) now j
        ≡ (if contains j ks then none else cache.get c now j)
  unfolding delete_all contains
  get-delete_all c now [] j = refl
  get-delete_all c now (k ∷ ks) j =
      let rest = get-delete_all (cache.delete c k) now ks j in
      let gone = cache.get-delete c now k j in
      elim (Bool-cases (contains j ks)) [ inl e ↦ ground arith | inr e ↦ ground arith ]

  pub get-invalidate :
      (c : C) (t now : ℕ) (tag j : String)
      → cache.get (invalidate_by_tag cache c t tag).1 now j ≡ (
          if j == build_tag_pattern tag
          then none
          else if contains j (read_mapping cache c t tag)
          then none
          else cache.get c now j)
  unfolding invalidate_by_tag
  get-invalidate c t now tag j =
      let gone = get-delete_all c now (read_mapping cache c t tag) j in
      cache.get-delete (delete_all cache c (read_mapping cache c t tag)) now (build_tag_pattern tag)
        j
      ∙ rw gone refl

  pub read_mapping-set :
      (c : C) (t now : ℕ) (p tag : String) (l : List String) (timeout : Option ℕ)
      → t ≤ now
      → alive t timeout now ≡ true
      → read_mapping cache (cache.set c t p (keys l) timeout) now tag
        ≡ (if build_tag_pattern tag == p then l else read_mapping cache c now tag)
  unfolding read_mapping
  read_mapping-set c t now p tag l timeout le on =
      ap keys_of (cache.get-set c t now p (build_tag_pattern tag) (keys l) timeout le)
      ∙ elim (Bool-cases (build_tag_pattern tag == p)) [
        | inl e ↦ rw (e, on) refl
        | inr e ↦ rw e refl
      ]

  -- A value is no mapping, alive or not.
  pub read_mapping-set_value :
      (c : C) (t now : ℕ) (key s : String) (a : A) (timeout : Option ℕ)
      → t ≤ now
      → read_mapping cache (cache.set c t key (value a) timeout) now s
        ≡ (if build_tag_pattern s == key then [] else read_mapping cache c now s)
  unfolding read_mapping
  read_mapping-set_value c t now key s a timeout le =
      ap keys_of (cache.get-set c t now key (build_tag_pattern s) (value a) timeout le)
      ∙ elim (Bool-cases (build_tag_pattern s == key)) [
        | inl e ↦
            rw e (elim (Bool-cases (alive t timeout now)) [ inl f ↦ rw f refl | inr f ↦ rw f refl ])
        | inr e ↦ rw e refl
      ]

  pub read_mapping-delete :
      (c : C) (now : ℕ) (key s : String)
      → read_mapping cache (cache.delete c key) now s
        ≡ (if build_tag_pattern s == key then [] else read_mapping cache c now s)
  unfolding read_mapping
  read_mapping-delete c now key s =
      ap keys_of (cache.get-delete c now key (build_tag_pattern s))
      ∙ elim (Bool-cases (build_tag_pattern s == key)) [ inl e ↦ rw e refl | inr e ↦ rw e refl ]

  pub read_mapping-invalidate :
      (c : C) (t now : ℕ) (tag s : String)
      → read_mapping cache (invalidate_by_tag cache c t tag).1 now s ≡ (
          if build_tag_pattern s == build_tag_pattern tag
            || contains (build_tag_pattern s) (read_mapping cache c t tag)
          then []
          else read_mapping cache c now s)
  unfolding read_mapping
  read_mapping-invalidate c t now tag s =
      ap keys_of (get-invalidate c t now tag (build_tag_pattern s))
      ∙ elim (Bool-cases (build_tag_pattern s == build_tag_pattern tag)) [
        | inl e ↦ rw e refl
        | inr e ↦
            rw e
              (elim (Bool-cases (
                contains (build_tag_pattern s) (keys_of (cache.get c t (build_tag_pattern tag))))) [
                  | inl f ↦ rw f refl
                  | inr f ↦ rw f refl
                ])
      ]

  pub read_mapping-same :
      (c : C) (now : ℕ) (t s : String)
      → build_tag_pattern t ≡ build_tag_pattern s
      → read_mapping cache c now t ≡ read_mapping cache c now s
  unfolding read_mapping
  read_mapping-same c now t s e = ap (λ p. keys_of (cache.get c now p)) e

  -- A write at `t`, read while it is alive: the key is added where it was not there.
  pub read_mapping-write :
      (c : C) (t now : ℕ) (key s u : String) (l : List String)
      → t ≤ now
      → now < t + month
      → read_mapping cache (write_mapping cache c t key s l) now u ≡ (
          if not (contains key l) && build_tag_pattern u == build_tag_pattern s
          then l ++ key ∷ []
          else read_mapping cache c now u)
  unfolding write_mapping
  read_mapping-write c t now key s u l le soon =
      let set =
        read_mapping-set c t now (build_tag_pattern s) u (l ++ key ∷ []) (some month) le
          (lt→ltb now (t + month) soon) in
      elim (Bool-cases (contains key l)) [ inl e ↦ rw e refl | inr e ↦ rw e set ]

  -- `k` is a key, and no tag's pattern is `k`.
  module _ (k : String) (apart : (s : String) → k ≢ build_tag_pattern s) where
    pub get-write :
        (c : C) (t now : ℕ) (key s : String) (l : List String)
        → t ≤ now
        → cache.get (write_mapping cache c t key s l) now k ≡ cache.get c now k
    unfolding write_mapping
    get-write c t now key s l le =
        let set =
          cache.get-set c t now (build_tag_pattern s) k (keys (l ++ key ∷ [])) (some month) le in
        let other = ≢→== {A = String} k (build_tag_pattern s) (apart s) in
        elim (Bool-cases (contains key l)) [
          | inl e ↦ rw e refl
          | inr e ↦ rw e (set ∙ if_off _ _ other)
        ]

    pub get-add_tag_mapping :
        (c : C) (t now : ℕ) (key : String) (tags : List String) (broken : String → Bool)
        → t ≤ now
        → cache.get (add_tag_mapping cache c t key tags broken) now k ≡ cache.get c now k
    unfolding add_tag_mapping
    get-add_tag_mapping c t now key [] broken le = refl
    get-add_tag_mapping c t now key (s ∷ tags) broken le =
        let skipped = get-add_tag_mapping c t now key tags broken le in
        let written = write_mapping cache c t key s (read_mapping cache c t s) in
        let rest =
          get-add_tag_mapping written t now key tags broken le
          ∙ get-write c t now key s (read_mapping cache c t s) le in
        elim (Bool-cases (broken s)) [ inl e ↦ rw e skipped | inr e ↦ rw e rest ]
