-- ===== src/Versioning/Default.antt =====
-- At most one default, and the object that is registered twice.
use django_project_test.Base.{inr, inl, ◌==◌, refl, sym, if◌then◌else◌, Bool-cases, ◌∙◌, [], ◌∷◌}
use django_project_test.Versioning.{
  unregister, VersionSpec, register, clear_defaults, clear_default, VersionRegistry,
}
use django_project_test.Base.{string_eq, true, false, arith, some, ◌≡◌, [], String, ℕ}
use django_project_test.Base.Dict.{lookup-nil, lookup-insert, lookup-erase, lookup, Dict}

module _ {Q : Type 0} where
  -- The calls on a registry.
  pub data Step (reg : VersionRegistry Q) : VersionRegistry Q → Type 0 where
    registers : (r : ℕ) → Step reg (register r reg)
    unregisters : (name : String) → Step reg (unregister name reg).1

  pub data Reach (reg : VersionRegistry Q) : VersionRegistry Q → Type 0 where
    here : Reach reg reg
    next : {mid after : VersionRegistry Q} → Reach reg mid → Step mid after → Reach reg after

  -- An empty registry over some objects.
  abbrev pub no_versions : (ℕ → VersionSpec Q) → VersionRegistry Q
  no_versions objects = record { objects = objects; versions = [] }

  -- A version is registered under its object's name, and only one of them is default.
  pub record OneDefault (reg : VersionRegistry Q) : Type 0 where
    pub named : (n : String) (r : ℕ) → lookup n reg.versions ≡ some r → (reg.objects r).name ≡ n
    pub unique :
        (n m : String) (r s : ℕ)
        → lookup n reg.versions ≡ some r
        → lookup m reg.versions ≡ some s
        → (reg.objects r).is_default ≡ true
        → (reg.objects s).is_default ≡ true
        → n ≡ m

  pub name-clear_default :
      (r : ℕ) (objects : ℕ → VersionSpec Q) (i : ℕ)
      → (clear_default r objects i).name ≡ (objects i).name
  unfolding clear_default
  name-clear_default r objects i = ground arith

  pub name-clear_defaults :
      (d : Dict String ℕ) (objects : ℕ → VersionSpec Q) (i : ℕ)
      → (clear_defaults d objects i).name ≡ (objects i).name
  unfolding clear_defaults
  name-clear_defaults [] objects i = refl
  name-clear_defaults ((n, r) ∷ d) objects i =
      name-clear_defaults d (clear_default r objects) i ∙ name-clear_default r objects i

  -- Clearing sets no flag.
  pub clear_default_off :
      (r : ℕ) (objects : ℕ → VersionSpec Q) (i : ℕ)
      → (objects i).is_default ≡ false
      → (clear_default r objects i).is_default ≡ false
  unfolding clear_default
  clear_default_off r objects i h = ground arith

  pub clear_default_self :
      (r : ℕ) (objects : ℕ → VersionSpec Q) → (clear_default r objects r).is_default ≡ false
  unfolding clear_default
  clear_default_self r objects = ground arith

  pub clear_defaults_off :
      (d : Dict String ℕ) (objects : ℕ → VersionSpec Q) (i : ℕ)
      → (objects i).is_default ≡ false
      → (clear_defaults d objects i).is_default ≡ false
  unfolding clear_defaults
  clear_defaults_off [] objects i h = h
  clear_defaults_off ((n, r) ∷ d) objects i h =
      clear_defaults_off d (clear_default r objects) i (clear_default_off r objects i h)

  -- Every object that is registered loses its flag.
  pub clear_defaults-registered :
      (d : Dict String ℕ) (objects : ℕ → VersionSpec Q) (n : String) (r : ℕ)
      → lookup n d ≡ some r
      → (clear_defaults d objects r).is_default ≡ false
  unfolding clear_defaults lookup
  clear_defaults-registered [] objects n r h = ground arith
  clear_defaults-registered ((m, s) ∷ d) objects n r h =
      let later = clear_defaults-registered d (clear_default s objects) n r in
      let off = clear_defaults_off d (clear_default s objects) r in
      let self = clear_default_self s objects in ground arith

  pub name-register :
      (r : ℕ) (reg : VersionRegistry Q) (i : ℕ)
      → ((register r reg).objects i).name ≡ (reg.objects i).name
  unfolding register
  name-register r reg i =
      let cleared = name-clear_defaults reg.versions reg.objects i in
      elim (Bool-cases (reg.objects r).is_default) [ inl e ↦ rw e cleared | inr e ↦ rw e refl ]

  pub lookup-register :
      (r : ℕ) (reg : VersionRegistry Q) (n : String)
      → lookup n (register r reg).versions
        ≡ (if n == (reg.objects r).name then some r else lookup n reg.versions)
  unfolding register
  lookup-register r reg n = lookup-insert n (reg.objects r).name r reg.versions

  -- A default that was registered under another name is the default no more.
  only_new_default :
      (r : ℕ) (reg : VersionRegistry Q) (s : ℕ) (n : String)
      → (reg.objects r).is_default ≡ true
      → lookup n reg.versions ≡ some s
      → ((register r reg).objects s).is_default ≡ false
  unfolding register
  only_new_default r reg s n d h =
      let off = clear_defaults-registered reg.versions reg.objects n s h in rw d off

  pub flags_stay :
      (r : ℕ) (reg : VersionRegistry Q) (s : ℕ)
      → (reg.objects r).is_default ≡ false
      → ((register r reg).objects s).is_default ≡ (reg.objects s).is_default
  unfolding register
  flags_stay r reg s d = rw d refl

  OneDefault-register :
      (r : ℕ) (reg : VersionRegistry Q) → OneDefault reg → OneDefault (register r reg)
  OneDefault-register r reg inv = record {
    named = λ n s h.
        let found = sym (lookup-register r reg n) ∙ h in
        let old = inv.named n s in
        name-register r reg s ∙ elim (Bool-cases (n == (reg.objects r).name)) [
          | inl e ↦ ground arith
          | inr e ↦ ground arith
        ];
    unique = λ n m s t hn hm dn dm.
        let fn = sym (lookup-register r reg n) ∙ hn in
        let fm = sym (lookup-register r reg m) ∙ hm in
        elim (Bool-cases (reg.objects r).is_default) [
          | inl d ↦
              let no_n = only_new_default r reg s n d in
              let no_m = only_new_default r reg t m d in ground arith
          | inr d ↦
              let same_n = flags_stay r reg s d in
              let same_m = flags_stay r reg t d in let old = inv.unique n m s t in ground arith
        ];
  }

  OneDefault-unregister :
      (name : String) (reg : VersionRegistry Q)
      → OneDefault reg
      → OneDefault (unregister name reg).1
  unfolding unregister
  OneDefault-unregister name reg inv = record {
    named = λ n s h.
        let found = sym (lookup-erase n name reg.versions) ∙ h in
        let old = inv.named n s in ground arith;
    unique = λ n m s t hn hm dn dm.
        let fn = sym (lookup-erase n name reg.versions) ∙ hn in
        let fm = sym (lookup-erase m name reg.versions) ∙ hm in
        let old = inv.unique n m s t in ground arith;
  }

  -- After any calls on an empty registry, each version is registered under the name of its object, and
  -- two registered names whose objects are both default are one name.
  pub reached-OneDefault :
      (objects : ℕ → VersionSpec Q) (reg : VersionRegistry Q)
      → Reach (no_versions objects) reg
      → OneDefault reg
  reached-OneDefault objects reg here = record {
    named = λ n s h. let no = sym (lookup-nil {V = ℕ} n) ∙ h in ground arith;
    unique = λ n m s t hn hm dn dm. let no = sym (lookup-nil {V = ℕ} n) ∙ hn in ground arith;
  }
  reached-OneDefault objects reg (next {mid} before (registers r)) =
      OneDefault-register r mid (reached-OneDefault objects mid before)
  reached-OneDefault objects reg (next {mid} before (unregisters name)) =
      OneDefault-unregister name mid (reached-OneDefault objects mid before)
