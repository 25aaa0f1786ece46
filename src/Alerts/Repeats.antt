-- ===== src/Alerts/Repeats.antt =====
-- Escalation with two levels, run after run.
use django_project_test.Alerts.Escalation.{
  Escalation, Tracked, check_one, escalate_alert, escalated, is_due, rules_of,
}
use django_project_test.Base.{
  refl, ap, ◌∙◌, sym, string_eq, ==_false, length, ≢→==, true, ◌==◌, [], arith, ◌*◌, false, ◌≤◌,
  ◌+◌, ◌≡◌, ◌∷◌, ℕ, String, List,
}

module _ (unique : List String → List String) (rules : ℕ → List Escalation) where
  -- How often the runs at the given times escalate one alert.
  unfoldable pub escalations : List ℕ → Tracked → ℕ
  escalations [] h = 0
  escalations (now ∷ ts) h = let (h', n) = check_one unique rules now h in n + escalations ts h'

  -- Unresolved, of a rule with these two escalations, which are due at a time, and not last escalated
  -- to the level of the first.
  pub record TwoDue (first second : Escalation) (now : ℕ) (h : Tracked) : Type 0 where
    pub unresolved : h.alert.resolved ≡ false
    pub both : rules_of unique rules h.alert.rule ≡ first ∷ second ∷ []
    pub differ : (first.level == second.level) ≡ false
    pub first_due : h.alert.first_occurred_at + first.delay_minutes * 60 ≤ now
    pub second_due : h.alert.first_occurred_at + second.delay_minutes * 60 ≤ now
    pub elsewhere : (h.escalated_to == first.level) ≡ false

  due :
      (h : Tracked) (e : Escalation) (now : ℕ)
      → h.alert.first_occurred_at + e.delay_minutes * 60 ≤ now
      → is_due unique now h e ≡ true
  unfolding is_due
  due h e now le = ground arith

  escalate_step :
      (e : Escalation) (es : List Escalation) (now : ℕ) (h : Tracked)
      → h.alert.first_occurred_at + e.delay_minutes * 60 ≤ now
      → (h.escalated_to == e.level) ≡ false
      → escalate_alert unique now (e ∷ es) h ≡ (
        (escalate_alert unique now es (escalated unique now e h)).0,
        (escalate_alert unique now es (escalated unique now e h)).1 + 1,
      )
  unfolding escalate_alert
  escalate_step e es now h le other = rw (due h e now le, other) refl

  nothing_left : (now : ℕ) (h : Tracked) → escalate_alert unique now [] h ≡ (h, 0)
  unfolding escalate_alert
  nothing_left now h = refl

  check_one_unresolved :
      (now : ℕ) (h : Tracked)
      → h.alert.resolved ≡ false
      → check_one unique rules now h
        ≡ escalate_alert unique now (rules_of unique rules h.alert.rule) h
  unfolding check_one
  check_one_unresolved now h unresolved = ground arith

  after_two : Escalation → Escalation → ℕ → Tracked → Tracked
  after_two first second now h = escalated unique now second (escalated unique now first h)

  check_one-two :
      (first second : Escalation) (now : ℕ) (h : Tracked)
      → TwoDue first second now h
      → check_one unique rules now h ≡ (after_two first second now h, 2)
  unfolding after_two
  check_one-two first second now h d =
      let h₁ = escalated unique now first h in
      let then_second : escalate_alert unique now (second ∷ []) h₁
          ≡ (after_two first second now h, 1) =
        escalate_step second [] now h₁ (unfold escalated in d.second_due)
          (unfold escalated in d.differ)
        ∙ ap (λ r. (r.0, r.1 + 1)) (nothing_left now (escalated unique now second h₁)) in
      check_one_unresolved now h d.unresolved
      ∙ ap (λ es. escalate_alert unique now es h) d.both
      ∙ escalate_step first (second ∷ []) now h d.first_due d.elsewhere
      ∙ ap (λ r. (r.0, r.1 + 1)) then_second

  after_two-TwoDue :
      (first second : Escalation) (now later : ℕ) (h : Tracked)
      → now ≤ later
      → TwoDue first second now h
      → TwoDue first second later (after_two first second now h)
  unfolding after_two escalated
  after_two-TwoDue first second now later h le d = record {
    unresolved = d.unresolved;
    both = d.both;
    differ = d.differ;
    first_due = let a = d.first_due in omega arith;
    second_due = let a = d.second_due in omega arith;
    elsewhere =
        ≢→== {A = String} second.level first.level
          (λ e. ==_false {A = String} first.level second.level d.differ (sym e));
  }

  abbrev pub NotBefore : ℕ → List ℕ → Type 0
  NotBefore now [] = Unit
  NotBefore now (t ∷ ts) = (now ≤ t) × NotBefore t ts

  -- An unresolved alert of a rule with two escalations to different levels, both due, is escalated twice
  -- by every run from then on, at times that do not decrease, for as long as it is unresolved.
  pub two_levels_repeat :
      (first second : Escalation) (now : ℕ) (ts : List ℕ) (h : Tracked)
      → TwoDue first second now h
      → NotBefore now ts
      → escalations ts h ≡ 2 * length ts
  unfolding escalations
  two_levels_repeat first second now [] h d le = omega arith
  two_levels_repeat first second now (t ∷ ts) h d le =
      let now_due : TwoDue first second t h = record {
        unresolved = d.unresolved;
        both = d.both;
        differ = d.differ;
        first_due = let a = d.first_due in omega (arith, le.0);
        second_due = let a = d.second_due in omega (arith, le.0);
        elsewhere = d.elsewhere;
      } in
      let step = check_one-two first second t h now_due in
      let later =
        two_levels_repeat first second t ts (after_two first second t h)
          (after_two-TwoDue first second t t h (omega arith) now_due) le.1 in
      rw (step, later) (omega arith)
