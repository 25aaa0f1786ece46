-- ===== src/Alerts/Handling.antt =====
-- Acknowledging and resolving: who handled an alert first stays on record.
use native.Mathlib.Omega.{arith}
use django_project_test.Alerts.History.{
  AlertHistory, get, save, acknowledge, resolve, acknowledged_now, resolved_now,
}
use django_project_test.Base.{
  subst, ==→≡, Option-cases, ap, nat_eq, [], inr, ◌==◌, inl, if◌then◌else◌, ◌∷◌, refl, Bool-cases,
  sym, some, false, true, List, ◌∙◌, ◌≡◌, ℕ,
}

pub get_pk : (pk : ℕ) (db : List AlertHistory) (h : AlertHistory) → get pk db ≡ some h → h.pk ≡ pk
unfolding get
get_pk pk [] h e = ground arith
get_pk pk (x ∷ xs) h e = elim (Bool-cases (x.pk == pk)) [
  | inl same ↦ ground arith
  | inr other ↦ get_pk pk xs h (ground arith)
]

pub get-save :
    (pk : ℕ) (h g : AlertHistory) (db : List AlertHistory)
    → get h.pk db ≡ some g
    → get pk (save h db) ≡ (if h.pk == pk then some h else get pk db)
unfolding get save
get-save pk h g [] e = ground arith
get-save pk h g (x ∷ xs) e = elim (Bool-cases (x.pk == h.pk)) [
  | inl same ↦ ground arith
  | inr other ↦ let rest = get-save pk h g xs (ground arith) in ground arith
]

-- What was recorded of who acknowledged and who resolved is still recorded.
abbrev pub Later : AlertHistory → AlertHistory → Type 0
Later h h' =
    (h.acknowledged ≡ true
      → (h'.acknowledged ≡ true)
        × (h'.acknowledged_by ≡ h.acknowledged_by)
        × (h'.acknowledged_at ≡ h.acknowledged_at))
    × (h.resolved ≡ true
        → (h'.resolved ≡ true)
          × (h'.resolved_by ≡ h.resolved_by)
          × (h'.resolved_at ≡ h.resolved_at))

Later-self : (h : AlertHistory) → Later h h
Later-self h = (λ a. (a, refl, refl), λ r. (r, refl, refl))

Later-chain : (h g f : AlertHistory) → Later h g → Later g f → Later h f
Later-chain h g f (a, r) (a', r') = (
  λ x. let (b, c, d) = a x in let (b', c', d') = a' b in (b', c' ∙ c, d' ∙ d),
  λ x. let (b, c, d) = r x in let (b', c', d') = r' b in (b', c' ∙ c, d' ∙ d),
)

Later-acknowledged_now :
    (user now : ℕ) (h : AlertHistory)
    → h.acknowledged ≡ false
    → Later h (acknowledged_now user now h)
unfolding acknowledged_now
Later-acknowledged_now user now h new =
    (λ a. let no : true ≡ false = sym a ∙ new in cc, λ r. (r, refl, refl))

Later-resolved_now :
    (user now : ℕ) (h : AlertHistory) → h.resolved ≡ false → Later h (resolved_now user now h)
unfolding resolved_now acknowledged_now
Later-resolved_now user now h undone = elim (Bool-cases h.acknowledged) [
  | inl a ↦ rw a (λ _. (refl, refl, refl), λ r. let no : true ≡ false = sym r ∙ undone in cc)
  | inr a ↦ rw a (λ n. ground arith, λ r. let no : true ≡ false = sym r ∙ undone in cc)
]

save-Later :
    (db : List AlertHistory) (k pk : ℕ) (g h' h : AlertHistory)
    → get k db ≡ some g
    → h'.pk ≡ g.pk
    → Later g h'
    → get pk db ≡ some h
    → (f : AlertHistory) × (get pk (save h' db) ≡ some f) × Later h f
save-Later db k pk g h' h found_g same_pk later found_h =
    let own = get_pk k db g found_g in
    let stored : get h'.pk db ≡ some g = ap (λ x. get x db) (same_pk ∙ own) ∙ found_g in
    let law = get-save pk h' g db stored in
    elim (Bool-cases (h'.pk == pk)) [
      | inl here ↦
          let at : h'.pk ≡ pk = ==→≡ h'.pk pk here in
          let one : some g ≡ some h = sym stored ∙ ap (λ x. get x db) at ∙ found_h in
          let same : g ≡ h = cc in (h', law ∙ rw here refl, subst (λ x. Later x h') same later)
      | inr elsewhere ↦ (h, law ∙ rw elsewhere found_h, Later-self h)
    ]

acknowledge-Later :
    (db : List AlertHistory) (k user now pk : ℕ) (h : AlertHistory)
    → get pk db ≡ some h
    → (f : AlertHistory) × (get pk (acknowledge k user now db).1 ≡ some f) × Later h f
unfolding acknowledge acknowledged_now
acknowledge-Later db k user now pk h found = elim (Option-cases (get k db)) [
  | inl missing ↦ rw missing (h, found, Later-self h)
  | inr (g, found_g) ↦ elim (Bool-cases g.acknowledged) [
    | inl done ↦ rw (found_g, done) (h, found, Later-self h)
    | inr new ↦
        rw (found_g, new)
          (save-Later db k pk g (acknowledged_now user now g) h found_g refl
            (Later-acknowledged_now user now g new) found)
  ]
]

resolved_pk : (user now : ℕ) (g : AlertHistory) → (resolved_now user now g).pk ≡ g.pk
unfolding resolved_now acknowledged_now
resolved_pk user now g = elim (Bool-cases g.acknowledged) [ inl a ↦ rw a refl | inr a ↦ rw a refl ]

resolve-Later :
    (db : List AlertHistory) (k user now pk : ℕ) (h : AlertHistory)
    → get pk db ≡ some h
    → (f : AlertHistory) × (get pk (resolve k user now db).1 ≡ some f) × Later h f
unfolding resolve resolved_now
resolve-Later db k user now pk h found = elim (Option-cases (get k db)) [
  | inl missing ↦ rw missing (h, found, Later-self h)
  | inr (g, found_g) ↦ elim (Bool-cases g.resolved) [
    | inl done ↦ rw (found_g, done) (h, found, Later-self h)
    | inr new ↦
        rw (found_g, new)
          (save-Later db k pk g (resolved_now user now g) h found_g (resolved_pk user now g)
            (Later-resolved_now user now g new) found)
  ]
]

-- Requests to acknowledge and to resolve alerts, in any order.
pub data Handled (db : List AlertHistory) : List AlertHistory → Type 0 where
  start : Handled db db
  acknowledges :
      {db' : List AlertHistory} (pk user now : ℕ)
      → Handled db db'
      → Handled db (acknowledge pk user now db').1
  resolves :
      {db' : List AlertHistory} (pk user now : ℕ)
      → Handled db db'
      → Handled db (resolve pk user now db').1

-- After any requests to acknowledge and to resolve, a stored alert is still stored; if it was
-- acknowledged, it still is, by the same user and at the same time, and likewise if it was resolved.
pub first_handler_stays :
    (db db' : List AlertHistory) (pk : ℕ) (h : AlertHistory)
    → Handled db db'
    → get pk db ≡ some h
    → (f : AlertHistory) × (get pk db' ≡ some f) × Later h f
first_handler_stays db db' pk h start found = (h, found, Later-self h)
first_handler_stays db db' pk h (acknowledges k user now before) found =
    let (g, found_g, later) = first_handler_stays db _ pk h before found in
    let (f, found_f, later') = acknowledge-Later _ k user now pk g found_g in
    (f, found_f, Later-chain h g f later later')
first_handler_stays db db' pk h (resolves k user now before) found =
    let (g, found_g, later) = first_handler_stays db _ pk h before found in
    let (f, found_f, later') = resolve-Later _ k user now pk g found_g in
    (f, found_f, Later-chain h g f later later')
