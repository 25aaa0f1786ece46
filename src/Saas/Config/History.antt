-- ===== src/Saas/Config/History.antt =====
-- The history of changes says what the table holds.
use django_project_test.Saas.Config.{
  Library, ConfigCenter, ConfigHistory, Database, GlobalConfig, Setting, OperationType, set_config,
  delete_config, record_history,
}
use django_project_test.Saas.Config.Reads.{
  set_config_effect, delete_config_effect, written, deleted, written-configs, deleted-configs,
}
use django_project_test.Base.Dict.{lookup-erase, lookup-insert, lookup-nil, lookup}
use django_project_test.Base.{
  refl, false, ◌∙◌, Bool-cases, subst, ==_refl, Bool, inr, string_eq, inl, ◌&&◌, ◌==◌, ap,
  if◌then◌else◌, ◌∷◌, sym, true, none, some, ◌≡◌, ℕ, List, [], Option, String,
}

-- The value of a key that the newest entry about it leaves; entries about feature flags are another
-- matter.
unfoldable pub replay : String → List ConfigHistory → Option String
replay key [] = none
replay key (e ∷ es) =
    let rest = replay key es in
    if key == e.config_key && e.config_type == "global_config" then e.new_value else rest

abbrev pub text_of : Option GlobalConfig → Option String
text_of none = none
text_of (some c) = some c.value

branch :
    (test : Bool) (new old : Option GlobalConfig) {v : Option String}
    → text_of old ≡ v
    → text_of (if test then new else old) ≡ (if test then text_of new else v)
branch true new old h = refl
branch false new old h = h

module _ {V J : Type 0} (lib : Library V J) where
  -- Changes by any processes, each with its own cache, whose history rows are all written.
  pub data Changes : Database → Type 0 where
    start : Changes (record { configs = []; history = [] })
    sets :
        {db : Database} (q : Setting lib) (now : ℕ) (m : ConfigCenter lib)
        → Changes db
        → Changes (set_config lib true q now db m).1
    deletes :
        {db : Database} (key : String) (user : Option ℕ) (now : ℕ) (m : ConfigCenter lib)
        → Changes db
        → Changes (delete_config lib true key user now db m).1

  written-replay :
      (q : Setting lib) (o : OperationType) (old : Option String) (c : GlobalConfig) (now : ℕ)
      (db : Database) (m : ConfigCenter lib) (key : String)
      → replay key (written lib true q o old c now db m).1.history
        ≡ (if key == q.key then some c.value else replay key db.history)
  unfolding written record_history replay
  written-replay q o old c now db m key =
      rw (==_refl {A = String} "global_config")
        (elim (Bool-cases (key == q.key)) [ inl e ↦ rw e refl | inr e ↦ rw e refl ])

  deleted-replay :
      (k : String) (user : Option ℕ) (old : String) (now : ℕ) (db : Database) (m : ConfigCenter lib)
      (key : String)
      → replay key (deleted lib true k user old now db m).1.history
        ≡ (if key == k then none else replay key db.history)
  unfolding deleted record_history replay
  deleted-replay k user old now db m key =
      rw (==_refl {A = String} "global_config")
        (elim (Bool-cases (key == k)) [ inl e ↦ rw e refl | inr e ↦ rw e refl ])

  -- From empty tables, where only `set_config` and `delete_config` change them and each history row they
  -- write is stored: after any such calls, the newest history entry about a key gives the text that the
  -- table holds for it, and none for a key that is not stored.
  pub replay-configs :
      (db : Database) (key : String)
      → Changes db
      → replay key db.history ≡ text_of (lookup key db.configs)
  unfolding replay
  replay-configs db key start = sym (ap text_of (lookup-nil key))
  replay-configs db key (sets {db = d} q now m before) =
      let ih = replay-configs d key before in
      let Agrees : Database → Type 0 = λ t. replay key t.history ≡ text_of (lookup key t.configs) in
      elim (set_config_effect lib true q now d m) [
        | inl e ↦ subst (λ r. Agrees r.1) (sym e) ih
        | inr (o, old, c, text, e) ↦
            subst (λ r. Agrees r.1) (sym e)
              (written-replay q o old c now d m key
                ∙ sym (
                    ap (λ t. text_of (lookup key t)) (written-configs lib true q o old c now d m)
                    ∙ ap text_of (lookup-insert key q.key c d.configs)
                    ∙ branch (key == q.key) (some c) (lookup key d.configs) (sym ih)))
      ]
  replay-configs db key (deletes {db = d} k user now m before) =
      let ih = replay-configs d key before in
      let Agrees : Database → Type 0 = λ t. replay key t.history ≡ text_of (lookup key t.configs) in
      elim (delete_config_effect lib true k user now d m) [
        | inl e ↦ subst (λ r. Agrees r.1) (sym e) ih
        | inr (old, e) ↦
            subst (λ r. Agrees r.1) (sym e)
              (deleted-replay k user old now d m key
                ∙ sym (
                    ap (λ t. text_of (lookup key t)) (deleted-configs lib true k user old now d m)
                    ∙ ap text_of (lookup-erase key k d.configs)
                    ∙ branch (key == k) none (lookup key d.configs) (sym ih)))
      ]
