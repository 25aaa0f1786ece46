-- ===== src/Alerts/Examples.antt =====
-- Alerts on concrete data.
use django_project_test.Alerts.Engine.{Engine, fire}
use django_project_test.Alerts.Announced.{fires, only_first_dispatched}
use native.Mathlib.Omega.{arith}
use mathlib.Core.Path.{refl}
use django_project_test.Alerts.Rules.{AlertRule, AlertSilence, Texts, log_level}
use django_project_test.Alerts.Escalation.{Escalation, Tracked}
use django_project_test.Alerts.History.{
  AlertHistory, get, acknowledge, resolve, check_suppression, created, sent,
}
use django_project_test.Alerts.Handling.{Later, first_handler_stays, start, acknowledges, resolves}
use django_project_test.Alerts.Suppression.{checks, burst_sends_once}
use django_project_test.Base.{false, none, ◌≡◌, [], nat_eq, true, string_eq, some, ◌∷◌}

abbrev rule : AlertRule
rule = record {
  pk = 1;
  name = "errors";
  enabled = true;
  level = "error";
  condition_type = log_level;
  condition_value = "error";
  channels = "mail" ∷ [];
  suppression_window = 5;
}

burst_sends_once_example :
    (checks rule "db down"
      ((8, "c", 1200) ∷ (9, "c", 1500) ∷ [])
      (check_suppression 7 rule "db down" "c" 1000 []).2).0
    ≡ 0
burst_sends_once_example =
    burst_sends_once rule "db down" "c" 7 1000 ((8, "c", 1200) ∷ (9, "c", 1500) ∷ []) []
      (omega arith, (omega arith, tt))

abbrev stored_alert : AlertHistory
stored_alert = record (created 7 rule "db down" "c" sent 1000) {
  acknowledged = true;
  acknowledged_at = some 1100;
  acknowledged_by = some 3;
}

first_handler_stays_example :
    (f : AlertHistory) × (get 7 (acknowledge 7 4 1300 (resolve 7 5 1200 (stored_alert ∷ [])).1).1
      ≡ some f)
    × Later stored_alert f
unfolding get nat_eq
first_handler_stays_example =
    first_handler_stays (stored_alert ∷ []) _ 7 stored_alert
      (acknowledges 7 4 1300 (resolves 7 5 1200 start)) refl

-- After half an hour an error, after an hour critical.
abbrev to_error : Escalation
to_error = record { delay_minutes = 30; level = "error"; channels = none }

abbrev to_critical : Escalation
to_critical = record { delay_minutes = 60; level = "critical"; channels = some ("phone" ∷ []) }

abbrev waiting : Tracked
waiting = record {
  alert = stored_alert;
  escalated_to = "";
  escalated_from = "";
  escalated_at = none;
}

abbrev texts : Texts
texts = record { lower = λ s. s; strip = λ s. s; search = λ pattern text. some false }

-- A silence of the rule, up to 1100.
abbrev maintenance : AlertSilence
maintenance = record {
  enabled = true;
  rule_id = some 1;
  match_pattern = "";
  start_time = 900;
  end_time = 1100;
}

abbrev no_alerts : Engine
no_alerts = record { db = []; next = 7; dispatched = [] }

only_first_dispatched_example :
    let first = (fire texts (λ r m. m) (maintenance ∷ []) "db down" 1000 rule no_alerts).1 in
    (fires texts
      (λ r m. m)
      "db down"
      rule
      ((maintenance ∷ [], 1200) ∷ (maintenance ∷ [], 1500) ∷ [])
      first).dispatched
    ≡ first.dispatched
only_first_dispatched_example =
    only_first_dispatched texts (λ r m. m) "db down" rule (maintenance ∷ []) 1000
      ((maintenance ∷ [], 1200) ∷ (maintenance ∷ [], 1500) ∷ []) no_alerts
      (omega arith, (omega arith, tt))
