-- ===== src/Alerts/Announced.antt =====
-- What `evaluate` announces of one rule and one message, time after time.
use django_project_test.Base.{◌∙◌, [], ◌∷◌}
use django_project_test.Alerts.Rules.{AlertRule, AlertSilence, Texts, check_silence}
use django_project_test.Alerts.History.{
  AlertHistory, created, silenced, is_hit, is_rule, check_suppression, record_silenced,
}
use django_project_test.Alerts.Suppression.{Recent, Recent-check_suppression, suppressed_check}
use django_project_test.Alerts.Engine.{Engine, fire, build_title}
use django_project_test.Base.{
  string_eq, nat_eq, refl, arith, inr, ==_refl, inl, true, Bool-cases, ◌*◌, ◌≡◌, ◌+◌, List, ◌≤◌,
  String, ℕ,
}

hit-silenced :
    (pk : ℕ) (rule : AlertRule) (title content : String) (now later : ℕ)
    → later ≤ now + rule.suppression_window * 60
    → is_hit rule title later (created pk rule title content silenced now) ≡ true
unfolding is_hit is_rule
hit-silenced pk rule title content now later close =
    let a = ==_refl rule.pk in let b = ==_refl title in ground arith

Recent-record_silenced :
    (pk : ℕ) (rule : AlertRule) (title content : String) (now later : ℕ) (db : List AlertHistory)
    → later ≤ now + rule.suppression_window * 60
    → Recent rule title later (record_silenced pk rule title content now db).1
unfolding record_silenced Recent
Recent-record_silenced pk rule title content now later db close =
    inl (hit-silenced pk rule title content now later close)

module _ (t : Texts) (content : AlertRule → String → String) (message : String)
    (rule : AlertRule) where
  -- The rule fires again and again, each time with the silences of that time.
  unfoldable pub fires : List (List AlertSilence × ℕ) → Engine → Engine
  fires [] s = s
  fires ((silences, now) ∷ cs) s = fires cs (fire t content silences message now rule s).1

  -- Each time is at most the suppression window after the one before it.
  abbrev pub Close : ℕ → List (List AlertSilence × ℕ) → Type 0
  Close last [] = Unit
  Close last ((silences, now) ∷ cs) = (now ≤ last + rule.suppression_window * 60) × Close now cs

  Recent-fire :
      (silences : List AlertSilence) (now later : ℕ) (s : Engine)
      → later ≤ now + rule.suppression_window * 60
      → Recent rule
          (build_title rule message)
          later
          (fire t content silences message now rule s).1.db
  unfolding fire
  Recent-fire silences now later s close =
      let title = build_title rule message in
      let text = content rule message in
      let checked = Recent-check_suppression s.next rule title text now later s.db close in
      elim (Bool-cases (check_silence t rule title text now silences)) [
        | inl quiet ↦ rw quiet (Recent-record_silenced s.next rule title text now later s.db close)
        | inr loud ↦
            rw loud (elim (Bool-cases (check_suppression s.next rule title text now s.db).0) [
              | inl send ↦ rw send checked
              | inr keep ↦ rw keep checked
            ])
      ]

  fire-Recent :
      (silences : List AlertSilence) (now : ℕ) (s : Engine)
      → Recent rule (build_title rule message) now s.db
      → (fire t content silences message now rule s).1.dispatched ≡ s.dispatched
  unfolding fire
  fire-Recent silences now s recent =
      let title = build_title rule message in
      let text = content rule message in
      let kept = suppressed_check s.next rule title text now s.db recent in
      elim (Bool-cases (check_silence t rule title text now silences)) [
        | inl quiet ↦ rw quiet refl
        | inr loud ↦ rw (loud, kept) refl
      ]

  -- Once a rule has fired for a message, silenced or not, and fires for it again and again, each time
  -- at most the suppression window after the time before: nothing is dispatched after the first time,
  -- also when the silence of the first time has ended.
  pub only_first_dispatched :
      (silences : List AlertSilence) (last : ℕ) (cs : List (List AlertSilence × ℕ)) (s : Engine)
      → Close last cs
      → let first = (fire t content silences message last rule s).1 in
        (fires cs first).dispatched ≡ first.dispatched
  unfolding fires
  only_first_dispatched silences last [] s close = refl
  only_first_dispatched silences last ((silences', now) ∷ cs) s close =
      let first = (fire t content silences message last rule s).1 in
      only_first_dispatched silences' now cs first close.1
      ∙ fire-Recent silences' now first (Recent-fire silences last now s close.0)
