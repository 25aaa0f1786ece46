-- ===== src/Alerts/Suppression.antt =====
-- The suppression window: a burst of one alert is announced once.
use native.Mathlib.Omega.{arith}
use django_project_test.Alerts.Rules.{AlertRule}
use django_project_test.Alerts.History.{
  AlertHistory, save, newer, suppress, is_rule, created, check_suppression, latest_hit, is_hit,
  repeated, pending,
}
use django_project_test.Base.{
  string_eq, Option-cases, ==_refl, none, ◌*◌, ◌∙◌, refl, ◌+◌, sym, ltb, nat_eq, if◌then◌else◌, ◌≤◌,
  ap, false, Option, inr, inl, ◌==◌, [], Bool-cases, some, ◌⊎◌, true, ◌≡◌, ◌∷◌, List, ℕ, String,
}

-- An alert of the rule and the title that occurred in the window before `now`.
unfoldable pub Recent : AlertRule → String → ℕ → List AlertHistory → Type 0
Recent rule title now [] = ⊥
Recent rule title now (h ∷ hs) = (is_hit rule title now h ≡ true) ⊎ Recent rule title now hs

Stored : ℕ → List AlertHistory → Type 0
Stored pk [] = ⊥
Stored pk (h ∷ hs) = (h.pk ≡ pk) ⊎ Stored pk hs

newer_defined :
    (h : AlertHistory) (o : Option AlertHistory) → (g : AlertHistory) × (newer h o ≡ some g)
unfolding newer
newer_defined h none = (h, refl)
newer_defined h (some g) = elim (Bool-cases (ltb h.last_occurred_at g.last_occurred_at)) [
  | inl later ↦ (g, rw later refl)
  | inr earlier ↦ (h, rw earlier refl)
]

newer_from :
    (x h : AlertHistory) (o : Option AlertHistory) → newer x o ≡ some h → (x ≡ h) ⊎ (o ≡ some h)
unfolding newer
newer_from x h none e = inl (ground arith)
newer_from x h (some g) e = elim (Bool-cases (ltb x.last_occurred_at g.last_occurred_at)) [
  | inl later ↦ inr (ground arith)
  | inr earlier ↦ inl (ground arith)
]

latest_hit-Recent :
    (rule : AlertRule) (title : String) (now : ℕ) (db : List AlertHistory)
    → Recent rule title now db
    → (h : AlertHistory) × (latest_hit rule title now db ≡ some h)
unfolding Recent latest_hit
latest_hit-Recent rule title now [] r = elim r [ ]
latest_hit-Recent rule title now (h ∷ hs) r = elim (Bool-cases (is_hit rule title now h)) [
  | inl hit ↦ rw hit (newer_defined h _)
  | inr miss ↦ rw miss (elim r [
    | inl hit ↦ let no : true ≡ false = sym hit ∙ miss in ground arith
    | inr rest ↦ latest_hit-Recent rule title now hs rest
  ])
]

latest_hit-Stored :
    (rule : AlertRule) (title : String) (now : ℕ) (db : List AlertHistory) (h : AlertHistory)
    → latest_hit rule title now db ≡ some h
    → Stored h.pk db × (is_hit rule title now h ≡ true)
unfolding Stored latest_hit
latest_hit-Stored rule title now [] h e = ground arith
latest_hit-Stored rule title now (x ∷ xs) h e = elim (Bool-cases (is_hit rule title now x)) [
  | inl hit ↦
      let e' : newer x (latest_hit rule title now xs) ≡ some h = ground arith in
      elim (newer_from x h _ e') [
        | inl same ↦ (inl (ap (λ y. y.pk) same), ap (is_hit rule title now) (sym same) ∙ hit)
        | inr rest ↦
            let (stored, hit') = latest_hit-Stored rule title now xs h rest in (inr stored, hit')
      ]
  | inr miss ↦
      let e' : latest_hit rule title now xs ≡ some h = ground arith in
      let (stored, hit') = latest_hit-Stored rule title now xs h e' in (inr stored, hit')
]

save-Recent :
    (rule : AlertRule) (title : String) (now : ℕ) (db : List AlertHistory) (h : AlertHistory)
    → Stored h.pk db
    → is_hit rule title now h ≡ true
    → Recent rule title now (save h db)
unfolding Recent Stored save
save-Recent rule title now [] h stored hit = elim stored [ ]
save-Recent rule title now (x ∷ xs) h stored hit = elim (Bool-cases (x.pk == h.pk)) [
  | inl same ↦ rw same (inl hit)
  | inr other ↦ rw other (elim stored [
    | inl same ↦ ground arith
    | inr later ↦ inr (save-Recent rule title now xs h later hit)
  ])
]

hit-created :
    (pk : ℕ) (rule : AlertRule) (title content : String) (now later : ℕ)
    → later ≤ now + rule.suppression_window * 60
    → is_hit rule title later (created pk rule title content pending now) ≡ true
unfolding is_hit is_rule
hit-created pk rule title content now later close =
    let a = ==_refl rule.pk in let b = ==_refl title in ground arith

hit-repeated :
    (rule : AlertRule) (title : String) (now later : ℕ) (h : AlertHistory)
    → is_hit rule title now h ≡ true
    → later ≤ now + rule.suppression_window * 60
    → is_hit rule title later (repeated now h) ≡ true
unfolding is_hit repeated
hit-repeated rule title now later h hit close = ground arith

-- After a check at `now`, the alert is in the window of each check up to the end of that window.
pub Recent-check_suppression :
    (pk : ℕ) (rule : AlertRule) (title content : String) (now later : ℕ) (db : List AlertHistory)
    → later ≤ now + rule.suppression_window * 60
    → Recent rule title later (check_suppression pk rule title content now db).2
unfolding check_suppression suppress repeated
Recent-check_suppression pk rule title content now later db close =
    elim (Option-cases (latest_hit rule title now db)) [
      | inl missing ↦
          rw missing (unfold Recent in inl (hit-created pk rule title content now later close))
      | inr (h, found) ↦
          let (stored, hit) = latest_hit-Stored rule title now db h found in
          rw found (
            save-Recent rule title later db (repeated now h) stored
              (hit-repeated rule title now later h hit close))
    ]

-- The next checks of a rule and a title: the key that a new alert would get, its content, the time.
unfoldable pub checks :
    AlertRule → String → List (ℕ × String × ℕ) → List AlertHistory → ℕ × List AlertHistory
checks rule title [] db = (0, db)
checks rule title (c ∷ cs) db =
    let (send, _, db') = check_suppression c.0 rule title c.1 c.2 db in
    let (n, db'') = checks rule title cs db' in (if send then n + 1 else n, db'')

-- Each check comes at most the suppression window after the one before it.
abbrev pub Close : AlertRule → ℕ → List (ℕ × String × ℕ) → Type 0
Close rule last [] = Unit
Close rule last (c ∷ cs) = (c.2 ≤ last + rule.suppression_window * 60) × Close rule c.2 cs

pub suppressed_check :
    (pk : ℕ) (rule : AlertRule) (title content : String) (now : ℕ) (db : List AlertHistory)
    → Recent rule title now db
    → (check_suppression pk rule title content now db).0 ≡ false
unfolding check_suppression suppress
suppressed_check pk rule title content now db recent =
    let (h, found) = latest_hit-Recent rule title now db recent in rw found refl

-- After a check at `last`, whether it was announced or not, the next checks of that rule and title
-- announce nothing, if each comes at most the suppression window after the one before it.
pub burst_sends_once :
    (rule : AlertRule) (title content : String) (pk last : ℕ) (cs : List (ℕ × String × ℕ))
    (db : List AlertHistory)
    → Close rule last cs
    → (checks rule title cs (check_suppression pk rule title content last db).2).0 ≡ 0
unfolding checks
burst_sends_once rule title content pk last [] db close = refl
burst_sends_once rule title content pk last (c ∷ cs) db close =
    let db' = (check_suppression pk rule title content last db).2 in
    let recent = Recent-check_suppression pk rule title content last c.2 db close.0 in
    rw (suppressed_check c.0 rule title c.1 c.2 db' recent)
      (burst_sends_once rule title c.1 c.0 c.2 cs db' close.1)
