-- ===== src/Alerts/Escalation.antt =====
-- `AlertEngine.check_escalations` of services/alert_engine.py. Times are in seconds.
use django_project_test.Alerts.History.{AlertHistory}
use django_project_test.Base.{
  ◌++◌, string_eq, ◌&&◌, ◌*◌, ◌||◌, none, ◌+◌, not, leb, ◌==◌, some, [], ◌∷◌, if◌then◌else◌, Bool,
  List, Option, String, ℕ,
}

-- An entry of a rule's `escalation_rules`; without channels it takes those of the alert.
pub record Escalation : Type 0 where
  pub delay_minutes : ℕ
  pub level : String
  pub channels : Option (List String)

-- A stored alert with the entries that escalation keeps in its context, "" where there is none.
pub record Tracked : Type 0 where
  pub alert : AlertHistory
  pub escalated_to : String
  pub escalated_from : String
  pub escalated_at : Option ℕ

-- The codes of `AlertLevel`
unfoldable pub is_level : String → Bool
is_level s = s == "info" || (s == "warning" || (s == "error" || s == "critical"))

abbrev channels_or : Option (List String) → List String → List String
channels_or none own = own
channels_or (some cs) own = cs

-- `unique` is `list(set(...))`.
module _ (unique : List String → List String) where
  unfoldable pub is_due : ℕ → Tracked → Escalation → Bool
  is_due now h e = leb (h.alert.first_occurred_at + e.delay_minutes * 60) now

  unfoldable pub escalated : ℕ → Escalation → Tracked → Tracked
  escalated now e h = record {
    alert = record h.alert {
      level = if not (e.level == "") && is_level e.level then e.level else h.alert.level;
      channels = unique (h.alert.channels ++ channels_or e.channels h.alert.channels);
    };
    escalated_to = e.level;
    escalated_from = h.alert.level;
    escalated_at = some now;
  }

  -- The loop over the rules of one alert, and how many of them escalated it, each with a notice.
  unfoldable pub escalate_alert : ℕ → List Escalation → Tracked → Tracked × ℕ
  escalate_alert now [] h = (h, 0)
  escalate_alert now (e ∷ es) h =
      let skipped = escalate_alert now es h in
      let (h', n) = escalate_alert now es (escalated now e h) in
      if not (is_due now h e)
      then skipped
      else if h.escalated_to == e.level
      then skipped
      else (h', n + 1)

  -- The escalation rules of the alert's rule, none without a rule.
  abbrev pub rules_of : (ℕ → List Escalation) → Option ℕ → List Escalation
  rules_of rules none = []
  rules_of rules (some rule) = rules rule

  unfoldable pub check_one : (ℕ → List Escalation) → ℕ → Tracked → Tracked × ℕ
  check_one rules now h =
      if h.alert.resolved then (h, 0) else escalate_alert now (rules_of rules h.alert.rule) h

  -- The table, and the number of escalations, each of which dispatched its alert.
  unfoldable pub check_escalations : (ℕ → List Escalation) → ℕ → List Tracked → List Tracked × ℕ
  check_escalations rules now [] = ([], 0)
  check_escalations rules now (h ∷ hs) =
      let (h', n) = check_one rules now h in
      let (hs', k) = check_escalations rules now hs in (h' ∷ hs', n + k)
