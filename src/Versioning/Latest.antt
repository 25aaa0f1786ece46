-- ===== src/Versioning/Latest.antt =====
-- Which version is the default after a default object is registered, once and twice.
use django_project_test.Base.{
  ==_refl, ◌∙◌, ap, some, subst, string_eq, inr, inl, refl, ◌==◌, true, none, Bool-cases, false,
  ◌≡◌, String, All, ℕ, [], ◌∷◌,
}
use django_project_test.Versioning.{
  object_of, default, clear_default, VersionSpec, register, first_default, clear_defaults,
  VersionRegistry,
}
use django_project_test.Base.Dict.{lookup, Dict, insert}
use django_project_test.Versioning.Default.{
  lookup-register, name-register, clear_defaults-registered, clear_default_self, clear_defaults_off,
}

All-insert :
    (P : String × ℕ → Type 0) (k : String) (v : ℕ) (d : Dict String ℕ)
    → P (k, v)
    → All P d
    → All P (insert k v d)
unfolding insert
All-insert P k v [] p h = (p, tt)
All-insert P k v ((j, w) ∷ d) p h =
    let rest = All-insert P k v d p h.1 in
    elim (Bool-cases (k == j)) [ inl e ↦ rw e (p, h.1) | inr e ↦ rw e (h.0, rest) ]

module _ {Q : Type 0} where
  Off : (ℕ → VersionSpec Q) → String × ℕ → Type 0
  Off objects e = (objects e.1).is_default ≡ false

  AllOff : VersionRegistry Q → Type 0
  AllOff reg = All (Off reg.objects) reg.versions

  All-cleared :
      (d : Dict String ℕ) (objects : ℕ → VersionSpec Q) → All (Off (clear_defaults d objects)) d
  unfolding clear_defaults Off
  All-cleared [] objects = tt
  All-cleared ((n, r) ∷ d) objects = (
    clear_defaults_off d (clear_default r objects) r (clear_default_self r objects),
    All-cleared d (clear_default r objects),
  )

  none_of_Off :
      (objects : ℕ → VersionSpec Q) (d : Dict String ℕ)
      → All (Off objects) d
      → first_default objects d ≡ none
  unfolding first_default Off
  none_of_Off objects [] h = refl
  none_of_Off objects ((n, r) ∷ d) h = rw (h.0) (none_of_Off objects d h.1)

  AllOff-insert :
      (reg : VersionRegistry Q) (r : ℕ) (objects : ℕ → VersionSpec Q)
      → objects ≡ (register r reg).objects
      → All (Off objects) reg.versions
      → (objects r).is_default ≡ false
      → AllOff (register r reg)
  unfolding AllOff Off register
  AllOff-insert reg r objects same h off =
      subst (λ o. All (Off o) (insert (reg.objects r).name r reg.versions)) same
        (All-insert (Off objects) (reg.objects r).name r reg.versions off h)

  cleared_objects :
      (r : ℕ) (reg : VersionRegistry Q)
      → (reg.objects r).is_default ≡ true
      → clear_defaults reg.versions reg.objects ≡ (register r reg).objects
  unfolding register
  cleared_objects r reg d = rw d refl

  kept_objects :
      (r : ℕ) (reg : VersionRegistry Q)
      → (reg.objects r).is_default ≡ false
      → reg.objects ≡ (register r reg).objects
  unfolding register
  kept_objects r reg d = rw d refl

  -- When a default object loses its own flag, no default is left.
  AllOff-clear :
      (r : ℕ) (reg : VersionRegistry Q)
      → (reg.objects r).is_default ≡ true
      → (clear_defaults reg.versions reg.objects r).is_default ≡ false
      → AllOff (register r reg)
  AllOff-clear r reg d off =
      AllOff-insert reg r (clear_defaults reg.versions reg.objects) (cleared_objects r reg d)
        (All-cleared reg.versions reg.objects) off

  AllOff-register :
      (r : ℕ) (reg : VersionRegistry Q)
      → (reg.objects r).is_default ≡ false
      → AllOff reg
      → AllOff (register r reg)
  unfolding AllOff
  AllOff-register r reg d h = AllOff-insert reg r reg.objects (kept_objects r reg d) h d

  lookup-register_self :
      (r : ℕ) (reg : VersionRegistry Q)
      → lookup ((register r reg).objects r).name (register r reg).versions ≡ some r
  lookup-register_self r reg =
      rw
        (
          name-register r reg r,
          lookup-register r reg (reg.objects r).name,
          ==_refl (reg.objects r).name,
        )
        refl

  AllOff-twice :
      (r : ℕ) (reg : VersionRegistry Q)
      → (reg.objects r).is_default ≡ true
      → AllOff (register r (register r reg))
  AllOff-twice r reg d =
      let once = register r reg in
      elim (Bool-cases (once.objects r).is_default) [
        | inl on ↦ AllOff-clear r once on (
            clear_defaults-registered once.versions once.objects (once.objects r).name r
              (lookup-register_self r reg))
        | inr off ↦
            AllOff-register r once off
              (AllOff-clear r reg d (ap (λ o. (o r).is_default) (cleared_objects r reg d) ∙ off))
      ]

  -- When one default object is registered twice in a row, no version is default any more.
  pub registered_twice_no_default :
      (r : ℕ) (reg : VersionRegistry Q)
      → (reg.objects r).is_default ≡ true
      → default (register r (register r reg)) ≡ none
  unfolding default AllOff
  registered_twice_no_default r reg d =
      let twice = register r (register r reg) in
      ap (object_of twice) (none_of_Off twice.objects twice.versions (AllOff-twice r reg d))
