-- ===== src/Alerts/History.antt =====
-- `AlertHistory` and the operations of `AlertEngine` on it. Times are in seconds, users are their
-- ids, and a new alert's key and place in the table are those that the database gives.
use django_project_test.Alerts.Rules.{AlertRule}
use django_project_test.Base.{
  string_eq, ◌*◌, ◌-◌, nat_eq, leb, [], ltb, ◌==◌, ◌&&◌, false, if◌then◌else◌, ◌+◌, some, true, ◌∷◌,
  none, Bool, String, Option, List, ℕ,
}

pub data AlertStatus : Type 0 where
  pending : AlertStatus
  sent : AlertStatus
  failed : AlertStatus
  suppressed : AlertStatus
  silenced : AlertStatus

pub record AlertHistory : Type 0 where
  pub pk : ℕ
  pub rule : Option ℕ
  pub level : String
  pub title : String
  pub content : String
  pub status : AlertStatus
  pub channels : List String
  pub occurrences : ℕ
  pub first_occurred_at : ℕ
  pub last_occurred_at : ℕ
  pub acknowledged : Bool
  pub acknowledged_at : Option ℕ
  pub acknowledged_by : Option ℕ
  pub resolved : Bool
  pub resolved_at : Option ℕ
  pub resolved_by : Option ℕ

-- `objects.get(pk=...)`
unfoldable pub get : ℕ → List AlertHistory → Option AlertHistory
get pk [] = none
get pk (h ∷ hs) = let rest = get pk hs in if h.pk == pk then some h else rest

-- `history.save()` of a stored alert
unfoldable pub save : AlertHistory → List AlertHistory → List AlertHistory
save h [] = []
save h (g ∷ gs) = let rest = save h gs in if g.pk == h.pk then h ∷ gs else g ∷ rest

unfoldable pub acknowledged_now : ℕ → ℕ → AlertHistory → AlertHistory
acknowledged_now user now h = record h {
  acknowledged = true;
  acknowledged_at = some now;
  acknowledged_by = some user;
}

unfoldable pub resolved_now : ℕ → ℕ → AlertHistory → AlertHistory
resolved_now user now h =
    let h' = record h { resolved = true; resolved_at = some now; resolved_by = some user } in
    if h.acknowledged then h' else acknowledged_now user now h'

ack_found :
    Option AlertHistory → ℕ → ℕ → List AlertHistory → Option AlertHistory × List AlertHistory
ack_found none user now db = (none, db)
ack_found (some h) user now db =
    let h' = acknowledged_now user now h in
    if h.acknowledged then (some h, db) else (some h', save h' db)

unfoldable pub acknowledge : ℕ → ℕ → ℕ → List AlertHistory → Option AlertHistory × List AlertHistory
unfolding ack_found
acknowledge pk user now db = ack_found (get pk db) user now db

resolve_found :
    Option AlertHistory → ℕ → ℕ → List AlertHistory → Option AlertHistory × List AlertHistory
resolve_found none user now db = (none, db)
resolve_found (some h) user now db =
    let h' = resolved_now user now h in if h.resolved then (some h, db) else (some h', save h' db)

unfoldable pub resolve : ℕ → ℕ → ℕ → List AlertHistory → Option AlertHistory × List AlertHistory
unfolding resolve_found
resolve pk user now db = resolve_found (get pk db) user now db

-- `AlertHistory.objects.create(...)` for a rule
abbrev pub created : ℕ → AlertRule → String → String → AlertStatus → ℕ → AlertHistory
created pk rule title content status now = record {
  pk = pk;
  rule = some rule.pk;
  level = rule.level;
  title = title;
  content = content;
  status = status;
  channels = rule.channels;
  occurrences = 1;
  first_occurred_at = now;
  last_occurred_at = now;
  acknowledged = false;
  acknowledged_at = none;
  acknowledged_by = none;
  resolved = false;
  resolved_at = none;
  resolved_by = none;
}

unfoldable pub record_silenced :
    ℕ → AlertRule → String → String → ℕ → List AlertHistory → AlertHistory × List AlertHistory
record_silenced pk rule title content now db =
    let h = created pk rule title content silenced now in (h, h ∷ db)

unfoldable pub is_rule : Option ℕ → ℕ → Bool
is_rule none pk = false
is_rule (some id) pk = id == pk

-- The filter of `_check_suppression`; a window is in minutes.
unfoldable pub is_hit : AlertRule → String → ℕ → AlertHistory → Bool
unfolding is_rule
is_hit rule title now h =
    is_rule h.rule rule.pk
    && h.title == title
    && leb (now - rule.suppression_window * 60) h.last_occurred_at

unfoldable pub newer : AlertHistory → Option AlertHistory → Option AlertHistory
newer h none = some h
newer h (some g) = if ltb h.last_occurred_at g.last_occurred_at then some g else some h

-- `.order_by("-last_occurred_at").first()`
unfoldable pub latest_hit : AlertRule → String → ℕ → List AlertHistory → Option AlertHistory
unfolding newer
latest_hit rule title now [] = none
latest_hit rule title now (h ∷ hs) =
    let rest = latest_hit rule title now hs in
    if is_hit rule title now h then newer h rest else rest

unfoldable pub repeated : ℕ → AlertHistory → AlertHistory
repeated now h = record h {
  occurrences = h.occurrences + 1;
  last_occurred_at = now;
  status = suppressed;
}

unfoldable pub suppress :
    Option AlertHistory
    → AlertHistory
    → ℕ
    → List AlertHistory
    → Bool × AlertHistory × List AlertHistory
suppress none new now db = (true, new, new ∷ db)
suppress (some h) new now db = (false, repeated now h, save (repeated now h) db)

unfoldable pub check_suppression :
    ℕ
    → AlertRule
    → String
    → String
    → ℕ
    → List AlertHistory
    → Bool × AlertHistory × List AlertHistory
unfolding suppress
check_suppression pk rule title content now db =
    suppress (latest_hit rule title now db) (created pk rule title content pending now) now db
