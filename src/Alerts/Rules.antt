-- ===== src/Alerts/Rules.antt =====
-- `_match_rule` and `_check_silence` of services/alert_engine.py.
use text.Mathlib.Text
use Prim.Native.Char.{Char, code}
use Prim.Native.String.{◌++◌ as append}
use django_project_test.Base.{
  nat_eq, string_eq, none, true, some, ◌||◌, ltb, not, [], ◌==◌, ◌&&◌, leb, false, ◌∷◌,
  if◌then◌else◌, Option, List, String, Bool, ℕ,
}

pub data ConditionType : Type 0 where
  log_level : ConditionType
  keyword : ConditionType
  custom : ConditionType
  unknown : ConditionType

pub record AlertRule : Type 0 where
  pub pk : ℕ
  pub name : String
  pub enabled : Bool
  pub level : String
  pub condition_type : ConditionType
  pub condition_value : String
  pub channels : List String
  pub suppression_window : ℕ

-- No rule is `none`, no pattern the empty text.
pub record AlertSilence : Type 0 where
  pub enabled : Bool
  pub rule_id : Option ℕ
  pub match_pattern : String
  pub start_time : ℕ
  pub end_time : ℕ

-- `str.lower`, `str.strip`, and `re.search`, `none` where the pattern raises `re.error`.
pub record Texts : Type 0 where
  pub lower : String → String
  pub strip : String → String
  pub search : String → String → Option Bool

unfoldable pub level_priority : String → ℕ
level_priority s =
    if s == "debug"
    then 10
    else if s == "info"
    then 20
    else if s == "warning"
    then 30
    else if s == "error"
    then 40
    else if s == "critical"
    then 50
    else 0

cons_head : Char → List String → List String
cons_head c [] = String.◌∷◌ c String.[] ∷ []
cons_head c (s ∷ ss) = String.◌∷◌ c s ∷ ss

-- `split(",")`
unfoldable pub split_commas : String → List String
unfolding cons_head
split_commas String.[] = "" ∷ []
split_commas (String.◌∷◌ c s) =
    let rest = split_commas s in if code c == 44 then "" ∷ rest else cons_head c rest

is_found : Option ℕ → Bool
is_found none = false
is_found (some n) = true

-- `any(kw in message for kw in keywords)`, without the keywords that are empty once stripped
unfoldable pub any_keyword : Texts → List String → String → Bool
unfolding is_found
any_keyword t [] message = false
any_keyword t (w ∷ ws) message =
    (not (t.strip w == "") && is_found (Text.find? message (t.strip w))) || any_keyword t ws message

searched : Option Bool → Bool
searched none = false
searched (some b) = b

-- No log level is the empty text.
unfoldable pub match_rule : Texts → AlertRule → String → String → Bool
unfolding searched
match_rule t rule level message =
    let threshold = level_priority (t.lower rule.condition_value) in
    let actual = level_priority (t.lower level) in
    elim rule.condition_type [
      | log_level ↦ leb threshold actual && ltb 0 threshold
      | keyword ↦ any_keyword t (split_commas rule.condition_value) message
      | custom ↦ searched (t.search rule.condition_value message)
      | unknown ↦ false
    ]

is_other : Option ℕ → ℕ → Bool
is_other none pk = false
is_other (some id) pk = not (id == pk)

is_same : Option ℕ → ℕ → Bool
is_same none pk = false
is_same (some id) pk = id == pk

-- One round of the loop over the silences.
unfoldable pub silences : Texts → AlertRule → String → String → AlertSilence → Bool
unfolding searched is_other is_same
silences t rule title content s =
    if is_other s.rule_id rule.pk
    then false
    else if not (s.match_pattern == "")
    then searched (t.search s.match_pattern (append title (append "\n" content)))
    else is_same s.rule_id rule.pk

abbrev pub active : ℕ → AlertSilence → Bool
active now s = s.enabled && leb s.start_time now && leb now s.end_time

unfoldable pub check_silence : Texts → AlertRule → String → String → ℕ → List AlertSilence → Bool
check_silence t rule title content now [] = false
check_silence t rule title content now (s ∷ ss) =
    (active now s && silences t rule title content s) || check_silence t rule title content now ss
