-- ===== src/Gateway/Admin/Rows.antt =====
-- Lemmas on the rows of the table of rules.
use django_project_test.Base.{
  ==→≡, if◌then◌else◌, String, subst, refl, inr, inl, ◌∙◌, nat_eq, ◌+◌, sym, ap, Bool-cases, [],
  ◌∷◌,
}
use django_project_test.Base.Dict.{lookup-nil, lookup, insert, erase}
use django_project_test.Gateway.Admin.{Row, Table, is_rule_type}
use django_project_test.Base.{string_eq, arith, true, some, none, false, All, ◌≡◌, ◌==◌, ℕ}

-- Entries of a table stay where they are, change their row or go.
pub All-insert :
    (P : Row → Type 0) (id : ℕ) (row : Row) (rows : Table)
    → P row
    → All (λ e. P e.1) rows
    → All (λ e. P e.1) (insert id row rows)
unfolding insert
All-insert P id row [] p all = (p, tt)
All-insert P id row ((j, r) ∷ rows) p all = elim (Bool-cases (id == j)) [
  | inl e ↦ rw e (p, all.1)
  | inr e ↦ rw e (all.0, All-insert P id row rows p all.1)
]

pub All-erase :
    (P : Row → Type 0) (id : ℕ) (rows : Table)
    → All (λ e. P e.1) rows
    → All (λ e. P e.1) (erase id rows)
unfolding erase
All-erase P id [] all = tt
All-erase P id ((j, r) ∷ rows) all =
    let rest = All-erase P id rows all.1 in
    elim (Bool-cases (id == j)) [ inl e ↦ rw e rest | inr e ↦ rw e (all.0, rest) ]

lookup-here :
    (id j : ℕ) (r : Row) (rows : Table) → (id == j) ≡ true → lookup id ((j, r) ∷ rows) ≡ some r
unfolding lookup
lookup-here id j r rows e = rw e refl

lookup-there :
    (id j : ℕ) (r : Row) (rows : Table)
    → (id == j) ≡ false
    → lookup id ((j, r) ∷ rows) ≡ lookup id rows
unfolding lookup
lookup-there id j r rows e = rw e refl

some_inj : (a b : Row) → some a ≡ some b → a ≡ b
some_inj a b h = ap (λ o. elim o [ none ↦ a | some x ↦ x ]) h

pub All-lookup :
    (P : Row → Type 0) (id : ℕ) (row : Row) (rows : Table)
    → All (λ e. P e.1) rows
    → lookup id rows ≡ some row
    → P row
All-lookup P id row [] all h = absurd (let no = sym h ∙ lookup-nil id in ground arith)
All-lookup P id row ((j, r) ∷ rows) all h = elim (Bool-cases (id == j)) [
  | inl e ↦ subst P (some_inj r row (sym (lookup-here id j r rows e) ∙ h)) all.0
  | inr e ↦ All-lookup P id row rows all.1 (sym (lookup-there id j r rows e) ∙ h)
]

-- A rule type is counted once.
pub one_type :
    (t : String) (a b c d : ℕ)
    → is_rule_type t ≡ true
    → (if t == "ip" then a + 1 else a)
        + (if t == "user" then b + 1 else b)
        + (if t == "tenant" then c + 1 else c)
        + (if t == "endpoint" then d + 1 else d)
      ≡ a + b + c + d + 1
unfolding is_rule_type
one_type t a b c d h =
    let Once : String → Type 0 = λ s.
      (if s == "ip" then a + 1 else a)
        + (if s == "user" then b + 1 else b)
        + (if s == "tenant" then c + 1 else c)
        + (if s == "endpoint" then d + 1 else d)
      ≡ a + b + c + d + 1 in
    elim (Bool-cases (t == "ip")) [
      | inl e ↦ subst Once (sym (==→≡ {A = String} t "ip" e)) (unfold string_eq in omega arith)
      | inr not_ip ↦ elim (Bool-cases (t == "user")) [
        | inl e ↦ subst Once (sym (==→≡ {A = String} t "user" e)) (unfold string_eq in omega arith)
        | inr not_user ↦ elim (Bool-cases (t == "tenant")) [
          | inl e ↦
              subst Once (sym (==→≡ {A = String} t "tenant" e)) (unfold string_eq in omega arith)
          | inr not_tenant ↦
              let e : (t == "endpoint") ≡ true = ground arith in
              subst Once (sym (==→≡ {A = String} t "endpoint" e)) (unfold string_eq in omega arith)
        ]
      ]
    ]
