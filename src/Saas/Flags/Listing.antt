-- ===== src/Saas/Flags/Listing.antt =====
-- `get_user_features` against `is_enabled`.
use django_project_test.Base.{
  subst, ==_false, ==→≡, ≢→==, ap, true, if◌then◌else◌, refl, string_eq, inr, arith, ◌∙◌, sym, inl,
  ◌==◌, Bool-cases, [], ◌∷◌,
}
use django_project_test.Saas.Flags.{
  FeatureFlag, Flags, User, by_key, enabled_row, is_enabled, is_enabled_for_user, is_active_status,
  set_features, get_user_features,
}
use django_project_test.Base.{some, none, ◌≡◌, false, Bool, String, Option, ℕ}
use django_project_test.Base.Dict.{
  lookup-insert, lookup-insert_self, insert, lookup-nil, lookup, Dict,
}

-- A key that the result does not have is a feature that is off.
abbrev pub is_on : Option Bool → Bool
is_on none = false
is_on (some b) = b

put_other :
    (test on : Bool) (key k : String) (result : Dict String Bool)
    → (k == key) ≡ false
    → lookup key (if test then insert k on result else result) ≡ lookup key result
put_other test on key k result h =
    let other : (key == k) ≡ false = ≢→== key k (λ e. ==_false k key h (sym e)) in
    elim (Bool-cases test) [
      | inl t ↦ rw t (lookup-insert key k on result ∙ rw other refl)
      | inr t ↦ rw t refl
    ]

put_self :
    (test on : Bool) (k : String) (result : Dict String Bool)
    → lookup k result ≡ none
    → (test ≡ false → on ≡ false)
    → is_on (lookup k (if test then insert k on result else result)) ≡ on
put_self test on k result h off = elim (Bool-cases test) [
  | inl t ↦ rw t (ap is_on (lookup-insert_self k on result))
  | inr t ↦ rw t (ap is_on h ∙ sym (off t))
]

module _ {M : Type 0} (bucket : ℕ → ℕ) where
  -- No two rows have the same key, as the column is unique.
  abbrev pub UniqueKeys : Flags M → Type 0
  UniqueKeys [] = Unit
  UniqueKeys ((i, f) ∷ fs) = (by_key bucket f.key fs ≡ none) × UniqueKeys fs

  by_key_first :
      (key : String) (i : ℕ) (f : FeatureFlag M) (fs : Flags M)
      → (f.key == key) ≡ true
      → by_key bucket key ((i, f) ∷ fs) ≡ some f
  unfolding by_key
  by_key_first key i f fs e = rw e refl

  by_key_later :
      (key : String) (i : ℕ) (f : FeatureFlag M) (fs : Flags M)
      → (f.key == key) ≡ false
      → by_key bucket key ((i, f) ∷ fs) ≡ by_key bucket key fs
  unfolding by_key
  by_key_later key i f fs e = rw e refl

  set_features_other :
      (key : String) (user : User) (tenant : Option ℕ) (now : ℕ) (fs : Flags M)
      (result : Dict String Bool)
      → by_key bucket key fs ≡ none
      → lookup key (set_features bucket user tenant now fs result) ≡ lookup key result
  unfolding set_features
  set_features_other key user tenant now [] result h = refl
  set_features_other key user tenant now ((i, f) ∷ fs) result h = elim (Bool-cases (f.key == key)) [
    | inl e ↦ absurd (let no : none ≡ some f = sym h ∙ by_key_first key i f fs e in ground arith)
    | inr e ↦
        set_features_other key user tenant now fs _ (sym (by_key_later key i f fs e) ∙ h)
        ∙ put_other (is_active_status f.status) (is_enabled_for_user bucket f user tenant now) key
            f.key result e
  ]

  inactive_off :
      (f : FeatureFlag M) (user : User) (tenant : Option ℕ) (now : ℕ)
      → is_active_status f.status ≡ false
      → is_enabled_for_user bucket f user tenant now ≡ false
  unfolding is_enabled_for_user
  inactive_off f user tenant now h = rw h refl

  set_features_lem :
      (key : String) (user : User) (tenant : Option ℕ) (now : ℕ) (fs : Flags M)
      (result : Dict String Bool)
      → UniqueKeys fs
      → lookup key result ≡ none
      → is_on (lookup key (set_features bucket user tenant now fs result))
        ≡ enabled_row bucket (by_key bucket key fs) (some user) tenant now
  unfolding set_features enabled_row
  set_features_lem key user tenant now [] result unique h = ap is_on h ∙ unfold by_key in refl
  set_features_lem key user tenant now ((i, f) ∷ fs) result unique h =
      let on = is_enabled_for_user bucket f user tenant now in
      let result' = if is_active_status f.status then insert f.key on result else result in
      elim (Bool-cases (f.key == key)) [
        | inl e ↦
            let same = ==→≡ f.key key e in
            let last = subst (λ k. by_key bucket k fs ≡ none) same unique.0 in
            rw (by_key_first key i f fs e) (
              ap is_on (set_features_other key user tenant now fs result' last)
              ∙ subst (λ k. is_on (lookup k result') ≡ on) same
                  (put_self (is_active_status f.status) on f.key result
                    (subst (λ k. lookup k result ≡ none) (sym same) h)
                    (inactive_off f user tenant now)))
        | inr e ↦ rw (by_key_later key i f fs e) (
            set_features_lem key user tenant now fs result' unique.1
              (put_other (is_active_status f.status) on key f.key result e ∙ h))
      ]

  -- With keys that are unique, the listing of a user's features says of each key, stored or not, what
  -- `is_enabled` says of it.
  pub get_user_features-is_enabled :
      (key : String) (user : User) (tenant : Option ℕ) (now : ℕ) (fs : Flags M)
      → UniqueKeys fs
      → is_on (lookup key (get_user_features bucket user tenant now fs))
        ≡ is_enabled bucket false key (some user) tenant now fs
  unfolding get_user_features is_enabled
  get_user_features-is_enabled key user tenant now fs unique =
      set_features_lem key user tenant now fs [] unique (lookup-nil key)
