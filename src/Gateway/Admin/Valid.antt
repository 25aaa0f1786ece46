-- ===== src/Gateway/Admin/Valid.antt =====
-- The rules that the administration keeps, and the numbers of its dashboard.
use django_project_test.Gateway.Admin.Rows.{All-insert, All-erase, All-lookup, one_type}
use django_project_test.Base.{
  inr, inl, count-length, ◌∙◌, nat_eq, Option-cases, ◌+◌, ap, Bool-cases, [], ◌∷◌, count,
}
use django_project_test.Base.Dict.{lookup}
use django_project_test.Gateway.Admin.{
  Row, Table, Checks, Data, create_rule, update_rule, delete_rule, toggle_rule, get_dashboard,
  is_active_of, is_active_row, is_rule_type, new_row, refusal, updated, toggled, create_row,
  update_row, toggle_row, delete_row,
}
use django_project_test.Base.{string_eq, arith, true, none, false, All, ◌≡◌, ◌==◌, ℕ}

module _ (checks : Checks) where
  -- What `create_rule` asks of a row.
  pub record IsValid (row : Row) : Type 0 where
    pub named : (row.name == "") ≡ false
    pub has_pattern : (row.rule.url_pattern == "") ≡ false
    pub typed : is_rule_type row.rule.throttle_type ≡ true
    pub rated : checks.is_rate row.rule.rate ≡ true

  refusal-IsValid : (row : Row) → refusal checks row ≡ none → IsValid row
  unfolding refusal
  refusal-IsValid row h = record {
    named = ground arith;
    has_pattern = ground arith;
    typed = ground arith;
    rated = ground arith;
  }

  by_type :
      (rows : Table)
      → All (λ e. IsValid e.1) rows
      → count (is_active_of "ip") rows
          + count (is_active_of "user") rows
          + count (is_active_of "tenant") rows
          + count (is_active_of "endpoint") rows
        ≡ count is_active_row rows
  unfolding count
  by_type [] all = omega arith
  by_type ((id, row) ∷ rows) all =
      let rest = by_type rows all.1 in
      let typed = all.0.typed in
      elim (Bool-cases row.is_active) [
        | inr off ↦ rw off rest
        | inl on ↦ rw on (one_type row.rule.throttle_type _ _ _ _ typed ∙ ap (λ k. k + 1) rest)
      ]

  -- Tables that the administration makes, with new ids, and with updates that set no name, pattern,
  -- type or rate.
  pub data Kept : Table → Type 0 where
    start : Kept []
    creates :
        {rows : Table} (id : ℕ) (data_ : Data)
        → Kept rows
        → Kept (create_rule checks id data_ rows).1
    deletes : {rows : Table} (id : ℕ) → Kept rows → Kept (delete_rule id rows).1
    toggles : {rows : Table} (id : ℕ) → Kept rows → Kept (toggle_rule id rows).1
    updates :
        {rows : Table} (id : ℕ) (data_ : Data)
        → data_.name ≡ none
        → data_.url_pattern ≡ none
        → data_.throttle_type ≡ none
        → data_.rate ≡ none
        → Kept rows
        → Kept (update_rule id data_ rows).1

  abbrev pub AllValid : Table → Type 0
  AllValid rows = All (λ e. IsValid e.1) rows

  create_rule-AllValid :
      (id : ℕ) (data_ : Data) (rows : Table)
      → AllValid rows
      → AllValid (create_rule checks id data_ rows).1
  unfolding create_rule create_row
  create_rule-AllValid id data_ rows all =
      elim (Option-cases (refusal checks (new_row checks data_))) [
        | inl e ↦ rw e (All-insert IsValid id (new_row checks data_) rows (refusal-IsValid _ e) all)
        | inr (err, e) ↦ rw e all
      ]

  toggled-IsValid : (row : Row) → IsValid row → IsValid (toggled row)
  toggled-IsValid row v = record {
    named = v.named;
    has_pattern = v.has_pattern;
    typed = v.typed;
    rated = v.rated;
  }

  updated-IsValid :
      (data_ : Data) (row : Row)
      → data_.name ≡ none
      → data_.url_pattern ≡ none
      → data_.throttle_type ≡ none
      → data_.rate ≡ none
      → IsValid row
      → IsValid (updated data_ row)
  unfolding updated
  updated-IsValid data_ row a b c d v = record {
    named = rw a v.named;
    has_pattern = rw b v.has_pattern;
    typed = rw c v.typed;
    rated = rw d v.rated;
  }

  Kept-AllValid : (rows : Table) → Kept rows → AllValid rows
  unfolding delete_rule toggle_rule update_rule delete_row toggle_row update_row
  Kept-AllValid rows start = tt
  Kept-AllValid rows (creates {rows = old} id data_ before) =
      create_rule-AllValid id data_ old (Kept-AllValid old before)
  Kept-AllValid rows (deletes {rows = old} id before) =
      let all = Kept-AllValid old before in
      elim (Option-cases (lookup id old)) [
        | inl e ↦ rw e all
        | inr (row, e) ↦ rw e (All-erase IsValid id old all)
      ]
  Kept-AllValid rows (toggles {rows = old} id before) =
      let all = Kept-AllValid old before in
      elim (Option-cases (lookup id old)) [
        | inl e ↦ rw e all
        | inr (row, e) ↦ rw e (
            All-insert IsValid id (toggled row) old
              (toggled-IsValid row (All-lookup IsValid id row old all e)) all)
      ]
  Kept-AllValid rows (updates {rows = old} id data_ a b c d before) =
      let all = Kept-AllValid old before in
      elim (Option-cases (lookup id old)) [
        | inl e ↦ rw e all
        | inr (row, e) ↦ rw e (
            All-insert IsValid id (updated data_ row) old
              (updated-IsValid data_ row a b c d (All-lookup IsValid id row old all e)) all)
      ]

  -- In every table that the administration made from an empty one, with updates that set no name,
  -- pattern, type or rate: each rule has a name, a pattern, one of the four types and a rate in the
  -- format, and on the dashboard the active rules of the four types add up to the active ones, and
  -- those and the inactive ones to all.
  pub kept_rules_valid :
      (rows : Table)
      → Kept rows
      → let d = get_dashboard rows in
        AllValid rows
        × (d.ip + d.user + d.tenant + d.endpoint ≡ d.active_rules)
        × (d.active_rules + d.inactive_rules ≡ d.total_rules)
  unfolding get_dashboard
  kept_rules_valid rows kept =
      let all = Kept-AllValid rows kept in
      let few = count-length is_active_row rows in (all, by_type rows all, omega arith)
