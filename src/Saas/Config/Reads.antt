-- ===== src/Saas/Config/Reads.antt =====
-- What `get_config` answers after a change, and how long it answers with an old value.
use django_project_test.Saas.Config.{
  update, create, delete, stored_text, OperationType, Library, ConfigCenter, Database, GlobalConfig,
  Setting, SetResult, ok, no_name, delete_row, get_config, set_config, delete_config, parsed_value,
  clear_cache, refreshed, from_table, cache_key, record_history, updated, new_config, is_old,
  active, from_row, set_row, finish,
}
use django_project_test.Base.Dict.{
  lookup-insert_self, lookup-erase_self, lookup-nil, lookup, insert, erase,
}
use django_project_test.Base.{
  arith, sym, true, ◌⊎◌, ap, ◌∙◌, refl, Bool, Option-cases, inr, string_eq, inl, ◌==◌, false,
  Bool-cases, none, ◌≡◌, if◌then◌else◌, some, ℕ, String, Option,
}

module _ {V J : Type 0} (lib : Library V J) where
  -- What the table says of a key: the parsed value of an active row, or the default.
  abbrev pub answer : Option GlobalConfig → Option J → Option J
  answer none default = default
  answer (some c) default = if c.is_active then parsed_value lib c else default

  refreshed_missing :
      (key : String) (now : ℕ) (m : ConfigCenter lib)
      → lookup (cache_key lib key) m.cache ≡ none
      → lookup (cache_key lib key) (refreshed lib now m).cache ≡ none
  unfolding refreshed is_old clear_cache
  refreshed_missing key now m h = elim (Bool-cases (is_old lib m.cache_updated_at now)) [
    | inl old ↦ rw old (lookup-nil (cache_key lib key))
    | inr young ↦ rw young h
  ]

  -- On a cache miss the answer is the table's.
  pub get_config_missing :
      (key : String) (default : Option J) (now : ℕ) (db : Database) (m : ConfigCenter lib)
      → lookup (cache_key lib key) m.cache ≡ none
      → (get_config lib key default now false db m).0 ≡ answer (lookup key db.configs) default
  unfolding get_config from_table active from_row
  get_config_missing key default now db m h =
      rw (refreshed_missing key now m h) (elim (Option-cases (lookup key db.configs)) [
        | inl e ↦ rw e refl
        | inr (c, e) ↦
            rw e (elim (Bool-cases c.is_active) [ inl a ↦ rw a refl | inr a ↦ rw a refl ])
      ])

  clear_cache_missing :
      (key : String) (now : ℕ) (m : ConfigCenter lib)
      → lookup (cache_key lib key) (clear_cache lib (some key) now m).cache ≡ none
  unfolding clear_cache
  clear_cache_missing key now m = elim (Bool-cases (key == "")) [
    | inl e ↦ rw e (lookup-nil (cache_key lib key))
    | inr e ↦ rw e (lookup-erase_self (cache_key lib key) m.cache)
  ]

  pub record_history-configs :
      (kept : Bool) (key t : String) (o : OperationType) (old new : Option String) (user : Option ℕ)
      (db : Database)
      → (record_history lib kept key t o old new user db).configs ≡ db.configs
  unfolding record_history
  record_history-configs kept key t o old new user db = elim (Bool-cases kept) [
    | inl e ↦ rw e refl
    | inr e ↦ rw e refl
  ]

  -- What `set_config` does when it is not refused.
  unfoldable pub written :
      Bool
      → Setting lib
      → OperationType
      → Option String
      → GlobalConfig
      → ℕ
      → Database
      → ConfigCenter lib
      → SetResult lib × Database × ConfigCenter lib
  written kept q o old c now db m = (
    ok c,
    record_history lib kept q.key "global_config" o old (some c.value) q.user
        (record db { configs = insert q.key c db.configs }),
    clear_cache lib (some q.key) now m,
  )

  pub set_config_effect :
      (kept : Bool) (q : Setting lib) (now : ℕ) (db : Database) (m : ConfigCenter lib)
      → (set_config lib kept q now db m ≡ (no_name, db, m))
        ⊎ ((o : OperationType) × (old : Option String) × (c : GlobalConfig) × (c.value
              ≡ stored_text lib q.config_type q.value)
            × (set_config lib kept q now db m ≡ written kept q o old c now db m))
  unfolding set_config set_row finish updated new_config written
  set_config_effect kept q now db m = elim (Option-cases (lookup q.key db.configs)) [
    | inl e ↦ elim (Bool-cases (q.name == "")) [
      | inl unnamed ↦ inl (rw (e, unnamed) refl)
      | inr named ↦ inr (create, none, new_config lib q, refl, rw (e, named) refl)
    ]
    | inr (old, e) ↦ inr (update, some old.value, updated lib q old, refl, rw e refl)
  ]

  pub written-configs :
      (kept : Bool) (q : Setting lib) (o : OperationType) (old : Option String) (c : GlobalConfig)
      (now : ℕ) (db : Database) (m : ConfigCenter lib)
      → (written kept q o old c now db m).1.configs ≡ insert q.key c db.configs
  unfolding written
  written-configs kept q o old c now db m =
      record_history-configs kept q.key "global_config" o old (some c.value) q.user _

  read_written :
      (kept : Bool) (q : Setting lib) (o : OperationType) (old : Option String) (c : GlobalConfig)
      (now later : ℕ) (default : Option J) (db : Database) (m : ConfigCenter lib)
      → let (_, db', m') = written kept q o old c now db m in
        (get_config lib q.key default later false db' m').0
        ≡ (if c.is_active then parsed_value lib c else default)
  unfolding written
  read_written kept q o old c now later default db m =
      let (_, db', m') = written kept q o old c now db m in
      get_config_missing q.key default later db' m' (clear_cache_missing q.key now m)
      ∙ ap (λ row. answer row default)
          (ap (lookup q.key) (unfold written in written-configs kept q o old c now db m)
            ∙ lookup-insert_self q.key c db.configs)

  -- What `delete_config` does to a stored key.
  unfoldable pub deleted :
      Bool
      → String
      → Option ℕ
      → String
      → ℕ
      → Database
      → ConfigCenter lib
      → Bool × Database × ConfigCenter lib
  deleted kept key user old now db m = (
    true,
    record_history lib kept key "global_config" delete (some old) none user
        (record db { configs = erase key db.configs }),
    clear_cache lib (some key) now m,
  )

  pub delete_config_effect :
      (kept : Bool) (key : String) (user : Option ℕ) (now : ℕ) (db : Database)
      (m : ConfigCenter lib)
      → (delete_config lib kept key user now db m ≡ (false, db, m))
        ⊎ ((old : String) × (delete_config lib kept key user now db m
              ≡ deleted kept key user old now db m))
  unfolding delete_config delete_row deleted
  delete_config_effect kept key user now db m = elim (Option-cases (lookup key db.configs)) [
    | inl e ↦ inl (rw e refl)
    | inr (c, e) ↦ inr (c.value, rw e refl)
  ]

  pub deleted-configs :
      (kept : Bool) (key : String) (user : Option ℕ) (old : String) (now : ℕ) (db : Database)
      (m : ConfigCenter lib)
      → (deleted kept key user old now db m).1.configs ≡ erase key db.configs
  unfolding deleted
  deleted-configs kept key user old now db m =
      record_history-configs kept key "global_config" delete (some old) none user _

  read_deleted :
      (kept : Bool) (key : String) (user : Option ℕ) (now later : ℕ) (default : Option J)
      (db : Database) (m : ConfigCenter lib)
      → (delete_config lib kept key user now db m).0 ≡ true
      → (get_config lib key default later false
          (delete_config lib kept key user now db m).1
          (delete_config lib kept key user now db m).2).0
        ≡ default
  unfolding deleted
  read_deleted kept key user now later default db m done =
      elim (delete_config_effect kept key user now db m) [
        | inl e ↦ let no : false ≡ true = sym (ap (λ r. r.0) e) ∙ done in cc
        | inr (old, e) ↦
            let (_, db', m') = deleted kept key user old now db m in
            ap (λ r. (get_config lib key default later false r.1 r.2).0) e
            ∙ get_config_missing key default later db' m' (clear_cache_missing key now m)
            ∙ ap (λ row. answer row default)
                (ap (lookup key) (unfold deleted in deleted-configs kept key user old now db m)
                  ∙ lookup-erase_self key db.configs)
      ]

  -- In the process that changed a configuration, the next read sees the change: after a `set_config`
  -- that is not refused, `get_config` answers with the parsed value of the row with the new text if
  -- the row is active, and with the default if it is not; after a `delete_config` of a stored key it
  -- answers with the default.
  pub reads_follow_writes :
      (kept : Bool) (q : Setting lib) (key : String) (user : Option ℕ) (now later : ℕ)
      (default : Option J) (db : Database) (m : ConfigCenter lib)
      → ((set_config lib kept q now db m ≡ (no_name, db, m))
          ⊎ ((c : GlobalConfig) × ((set_config lib kept q now db m).0 ≡ ok c)
              × (c.value ≡ stored_text lib q.config_type q.value)
              × ((get_config lib q.key default later false
                    (set_config lib kept q now db m).1
                    (set_config lib kept q now db m).2).0
                  ≡ (if c.is_active then parsed_value lib c else default))))
        × (((delete_config lib kept key user now db m).0 ≡ false)
            ⊎ ((get_config lib key default later false
                  (delete_config lib kept key user now db m).1
                  (delete_config lib kept key user now db m).2).0
                ≡ default))
  unfolding written
  reads_follow_writes kept q key user now later default db m = (
    elim (set_config_effect kept q now db m) [
      | inl e ↦ inl e
      | inr (o, old, c, text, e) ↦ inr (
        c,
        ap (λ r. r.0) e,
        text,
        ap (λ r. (get_config lib q.key default later false r.1 r.2).0) e
            ∙ read_written kept q o old c now later default db m,
      )
    ],
    elim (Bool-cases (delete_config lib kept key user now db m).0) [
      | inl gone ↦ inr (read_deleted kept key user now later default db m gone)
      | inr missing ↦ inl missing
    ],
  )

  refreshed_never :
      (now : ℕ) (m : ConfigCenter lib) → m.cache_updated_at ≡ none → refreshed lib now m ≡ m
  unfolding refreshed is_old
  refreshed_never now m never = ground arith

  active_on : (c : GlobalConfig) → c.is_active ≡ true → active lib (some c) ≡ some c
  unfolding active
  active_on c on = ground arith

  first_read :
      (key : String) (default : Option J) (c : GlobalConfig) (now : ℕ) (db : Database)
      (m : ConfigCenter lib)
      → m.cache_updated_at ≡ none
      → lookup (cache_key lib key) m.cache ≡ none
      → lookup key db.configs ≡ some c
      → c.is_active ≡ true
      → (get_config lib key default now false db m).1
        ≡ record m { cache = insert (cache_key lib key) (parsed_value lib c) m.cache }
  unfolding get_config from_table from_row
  first_read key default c now db m never missing row on =
      rw (refreshed_never now m never, missing, row, active_on c on) refl

  cached_read :
      (key : String) (default : Option J) (v : Option J) (now : ℕ) (raises : Bool) (db : Database)
      (m : ConfigCenter lib)
      → m.cache_updated_at ≡ none
      → lookup (cache_key lib key) m.cache ≡ some v
      → (get_config lib key default now raises db m).0 ≡ v
  unfolding get_config from_table
  cached_read key default v now raises db m never cached =
      rw (refreshed_never now m never, cached) refl

  -- In a process whose cache was never cleared, a value that was read once is answered at every later
  -- time, whatever the table holds by then.
  pub read_never_expires :
      (key : String) (default default' : Option J) (c : GlobalConfig) (now later : ℕ)
      (raises : Bool) (db db' : Database) (m : ConfigCenter lib)
      → m.cache_updated_at ≡ none
      → lookup (cache_key lib key) m.cache ≡ none
      → lookup key db.configs ≡ some c
      → c.is_active ≡ true
      → (get_config lib key default' later raises db'
          (get_config lib key default now false db m).1).0
        ≡ parsed_value lib c
  read_never_expires key default default' c now later raises db db' m never missing row on =
      let k = cache_key lib key in
      let m' : ConfigCenter lib = record m { cache = insert k (parsed_value lib c) m.cache } in
      ap (λ n. (get_config lib key default' later raises db' n).0)
        (first_read key default c now db m never missing row on)
      ∙ cached_read key default' (parsed_value lib c) later raises db' m' never
          (lookup-insert_self k (parsed_value lib c) m.cache)
