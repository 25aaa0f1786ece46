-- ===== src/Alerts/Engine.antt =====
-- `AlertEngine.evaluate` and `trigger` of services/alert_engine.py. The clock stands still during one
-- call; `content` is the text of `_build_content`, and a new row takes the next key.
use Prim.Native.String.{◌++◌ as append, count as count_chars}
use django_project_test.Alerts.Rules.{AlertRule, AlertSilence, Texts, match_rule, check_silence}
use django_project_test.Alerts.History.{AlertHistory, pending, check_suppression, record_silenced}
use django_project_test.Base.{
  [], zero, none, true, ◌&&◌, ◌+◌, ltb, some, suc, false, Bool, ◌∷◌, if◌then◌else◌, Option, List,
  String, ℕ,
}

-- `s[:n]`
unfoldable pub prefix : ℕ → String → String
prefix zero s = ""
prefix (suc n) String.[] = ""
prefix (suc n) (String.◌∷◌ c s) = String.◌∷◌ c (prefix n s)

unfoldable pub build_title : AlertRule → String → String
build_title rule message =
    let dots = if ltb 80 (count_chars message) then "..." else "" in
    append "[" (append rule.name (append "] " (append (prefix 80 message) dots)))

-- The rows, the next key, and the keys of the alerts that were dispatched, the last one first.
pub record Engine : Type 0 where
  pub db : List AlertHistory
  pub next : ℕ
  pub dispatched : List ℕ

module _ (t : Texts) (content : AlertRule → String → String) (silences : List AlertSilence)
    (message : String) (now : ℕ) where
  -- The part of the loop for a rule that matches.
  unfoldable pub fire : AlertRule → Engine → AlertHistory × Engine
  fire rule s =
      let title = build_title rule message in
      let text = content rule message in
      let (silent, db') = record_silenced s.next rule title text now s.db in
      let (send, h, db'') = check_suppression s.next rule title text now s.db in
      if check_silence t rule title text now silences
      then (silent, record s { db = db'; next = s.next + 1 })
      else if send
      then (h, record { db = db''; next = s.next + 1; dispatched = h.pk ∷ s.dispatched })
      else (h, record s { db = db'' })

  unfoldable pub evaluate : String → List AlertRule → Engine → List AlertHistory × Engine
  evaluate level [] s = ([], s)
  evaluate level (rule ∷ rules) s =
      let (h, s') = fire rule s in
      let (hs, s'') = evaluate level rules s' in
      let skipped = evaluate level rules s in
      if rule.enabled && match_rule t rule level message then (h ∷ hs, s'') else skipped

-- `trigger`; the channels are None or given.
channels_of : Option (List String) → Option AlertRule → List String
channels_of (some cs) rule = cs
channels_of none none = []
channels_of none (some rule) = rule.channels

pk_of : Option AlertRule → Option ℕ
pk_of none = none
pk_of (some rule) = some rule.pk

is_empty : List String → Bool
is_empty [] = true
is_empty (c ∷ cs) = false

unfoldable pub trigger :
    String
    → String
    → Option AlertRule
    → String
    → Option (List String)
    → ℕ
    → Engine
    → AlertHistory × Engine
unfolding channels_of pk_of is_empty
trigger title content rule level channels now s =
    let h : AlertHistory = record {
      pk = s.next;
      rule = pk_of rule;
      level = level;
      title = title;
      content = content;
      status = pending;
      channels = channels_of channels rule;
      occurrences = 1;
      first_occurred_at = now;
      last_occurred_at = now;
      acknowledged = false;
      acknowledged_at = none;
      acknowledged_by = none;
      resolved = false;
      resolved_at = none;
      resolved_by = none;
    } in
    let sent =
      if is_empty (channels_of channels rule) then s.dispatched else s.next ∷ s.dispatched in
    (h, record { db = h ∷ s.db; next = s.next + 1; dispatched = sent })
