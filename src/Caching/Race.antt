-- ===== src/Caching/Race.antt =====
-- Two threads that set keys with one tag at the same time.
use django_project_test.Base.{
  refl, ==_refl, lt→ltb, sym, ap, arith, ≢→==, true, false, ◌∙◌, ◌≡◌, List, ◌≢◌, String, [], ◌∷◌,
  ◌++◌, ◌≤◌, ◌<◌, ◌+◌, ℕ, Option, some,
}
use django_project_test.Caching.{
  Entry, Cache, value, keys, month, alive, contains, read_mapping, write_mapping, invalidate_by_tag,
  build_tag_pattern,
}
use django_project_test.Caching.Tagged.{
  contains_other, contains-append, read_mapping-set, get-invalidate, read_mapping-set_value,
}

module _ {C A : Type 0} (cache : Cache C (Entry A)) where
  -- At one time, both keys are set, both threads read what is recorded under the tag, and then both
  -- write.
  abbrev pub race : ℕ → String → String → A → String → A → Option ℕ → C → C
  race t tag k a j b timeout c =
      let c1 = cache.set c t k (value a) timeout in
      let c2 = cache.set c1 t j (value b) timeout in
      let seen = read_mapping cache c2 t tag in
      write_mapping cache (write_mapping cache c2 t k tag seen) t j tag seen

  get-set_other :
      (c : C) (t now : ℕ) (k j : String) (e : Entry A) (timeout : Option ℕ)
      → t ≤ now
      → j ≢ k
      → cache.get (cache.set c t k e timeout) now j ≡ cache.get c now j
  get-set_other c t now k j e timeout le differ =
      cache.get-set c t now k j e timeout le ∙ rw (≢→== {A = String} j k differ) refl

  get-invalidate_unlisted :
      (c : C) (now : ℕ) (tag k : String)
      → k ≢ build_tag_pattern tag
      → contains k (read_mapping cache c now tag) ≡ false
      → cache.get (invalidate_by_tag cache c now tag).1 now k ≡ cache.get c now k
  get-invalidate_unlisted c now tag k apart out =
      get-invalidate cache c now now tag k
      ∙ rw (≢→== {A = String} k (build_tag_pattern tag) apart, out) refl

  write_new :
      (c : C) (t : ℕ) (key tag : String) (l : List String)
      → contains key l ≡ false
      → write_mapping cache c t key tag l
        ≡ cache.set c t (build_tag_pattern tag) (keys (l ++ key ∷ [])) (some month)
  unfolding write_mapping
  write_new c t key tag l new = rw new refl

  -- Setting a key that is not the pattern leaves what is recorded.
  read_mapping-set_other :
      (c : C) (t : ℕ) (key tag : String) (a : A) (timeout : Option ℕ)
      → key ≢ build_tag_pattern tag
      → read_mapping cache (cache.set c t key (value a) timeout) t tag ≡ read_mapping cache c t tag
  read_mapping-set_other c t key tag a timeout apart =
      read_mapping-set_value cache c t t key tag a timeout (omega arith)
      ∙ rw (≢→== {A = String} (build_tag_pattern tag) key (λ e. apart (sym e))) refl

  -- The second write takes the place of the first.
  last_write :
      (t now : ℕ) (tag k j : String) (c : C) (seen : List String)
      → t ≤ now
      → now < t + month
      → k ≢ j
      → k ≢ build_tag_pattern tag
      → contains k seen ≡ false
      → contains j seen ≡ false
      → cache.get
          (invalidate_by_tag cache
            (write_mapping cache (write_mapping cache c t k tag seen) t j tag seen)
            now
            tag).1
          now
          k
        ≡ cache.get c now k
  last_write t now tag k j c seen le soon differ apart new_k new_j =
      let p = build_tag_pattern tag in
      let c3 = write_mapping cache c t k tag seen in
      let c4 = cache.set c3 t p (keys (seen ++ j ∷ [])) (some month) in
      let mapped : read_mapping cache c4 now tag ≡ seen ++ j ∷ [] =
        read_mapping-set cache c3 t now p tag (seen ++ j ∷ []) (some month) le
          (lt→ltb now (t + month) soon)
        ∙ rw (==_refl p) refl in
      let unlisted : contains k (read_mapping cache c4 now tag) ≡ false =
        ap (contains k) mapped
        ∙ contains-append k seen (j ∷ [])
        ∙ contains_other k j seen differ
        ∙ new_k in
      ap (λ x. cache.get (invalidate_by_tag cache x now tag).1 now k)
        (write_new c3 t j tag seen new_j)
      ∙ get-invalidate_unlisted c4 now tag k apart unlisted
      ∙ get-set_other c3 t now p k (keys (seen ++ j ∷ [])) (some month) le apart
      ∙ ap (λ x. cache.get x now k) (write_new c t k tag seen new_k)
      ∙ get-set_other c t now p k (keys (seen ++ k ∷ [])) (some month) le apart

  -- Two threads set two keys with a tag, neither of which was recorded under it or is its pattern, and
  -- both read what is recorded before either writes: when the tag is then invalidated, within the 30
  -- days of the mapping and while the first thread's value is alive, that value stays in the cache.
  pub race_keeps_key :
      (t now : ℕ) (tag k j : String) (a b : A) (timeout : Option ℕ) (c : C)
      → t ≤ now
      → now < t + month
      → alive t timeout now ≡ true
      → k ≢ j
      → k ≢ build_tag_pattern tag
      → j ≢ build_tag_pattern tag
      → contains k (read_mapping cache c t tag) ≡ false
      → contains j (read_mapping cache c t tag) ≡ false
      → cache.get (invalidate_by_tag cache (race t tag k a j b timeout c) now tag).1 now k
        ≡ some (value a)
  race_keeps_key t now tag k j a b timeout c le soon on differ apart_k apart_j new_k new_j =
      let c1 = cache.set c t k (value a) timeout in
      let c2 = cache.set c1 t j (value b) timeout in
      let same : read_mapping cache c2 t tag ≡ read_mapping cache c t tag =
        read_mapping-set_other c1 t j tag b timeout apart_j
        ∙ read_mapping-set_other c t k tag a timeout apart_k in
      last_write t now tag k j c2 (read_mapping cache c2 t tag) le soon differ apart_k
        (ap (contains k) same ∙ new_k) (ap (contains j) same ∙ new_j)
      ∙ get-set_other c1 t now j k (value b) timeout le differ
      ∙ cache.get-set c t now k k (value a) timeout le
      ∙ rw (==_refl k, on) refl
