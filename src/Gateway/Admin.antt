-- ===== src/Gateway/Admin.antt =====
-- `GatewayService` of apps/system/saas/services.py: the administration of the rules. A rule is its row
-- of `APILimitRule`, under its id.
mod Rows
mod Valid
mod Examples
use django_project_test.Gateway.Rules.{ApiLimitRule}
use django_project_test.Base.Dict.{Dict, lookup, insert, erase}
use django_project_test.Base.Integers.{ℤ, pos}
use django_project_test.Base.{
  ◌-◌, count, string_eq, ◌||◌, nat_eq, ◌&&◌, none, ◌==◌, some, if◌then◌else◌, true, Bool, length,
  not, false, Option, ℕ, String,
}

pub record Row : Type 0 where
  pub rule : ApiLimitRule
  pub name : String
  pub is_active : Bool
  pub priority : ℤ
  pub description : String

abbrev pub Table : Type 0
Table = Dict ℕ Row

-- What the code takes from the language: `str.strip`, and whether `re.match` finds the format of a
-- rate, a number, a slash and one of s, m, h and d.
pub record Checks : Type 0 where
  pub strip : String → String
  pub is_rate : String → Bool

-- The entries of the request that are present. In `create_rule` an entry that is present is no None.
pub record Data : Type 0 where
  pub name : Option String
  pub url_pattern : Option String
  pub throttle_type : Option String
  pub rate : Option String
  pub is_active : Option Bool
  pub use_regex : Option Bool
  pub priority : Option ℤ
  pub description : Option String

pub data RuleError : Type 0 where
  no_name no_url_pattern bad_type bad_rate missing : RuleError

abbrev pub given {ℓ} : {A : Type ℓ} → Option A → A → A
given none default = default
given (some a) default = a

-- `APILimitRule.RuleType`
unfoldable pub is_rule_type : String → Bool
is_rule_type t = t == "ip" || (t == "user" || (t == "tenant" || t == "endpoint"))

module _ (checks : Checks) where
  unfoldable pub new_row : Data → Row
  new_row data_ = record {
    rule = record {
      url_pattern = checks.strip (given data_.url_pattern "");
      throttle_type = given data_.throttle_type "ip";
      rate = given data_.rate "100/h";
      use_regex = given data_.use_regex false;
    };
    name = checks.strip (given data_.name "");
    is_active = given data_.is_active true;
    priority = given data_.priority (pos 0);
    description = given data_.description "";
  }

  -- The checks on a new row, in their order.
  unfoldable pub refusal : Row → Option RuleError
  refusal row =
      if row.name == ""
      then some no_name
      else if row.rule.url_pattern == ""
      then some no_url_pattern
      else if not (is_rule_type row.rule.throttle_type)
      then some bad_type
      else if not (checks.is_rate row.rule.rate)
      then some bad_rate
      else none

  create_row : Option RuleError → ℕ → Row → Table → Option RuleError × Table
  create_row (some e) id row rows = (some e, rows)
  create_row none id row rows = (none, insert id row rows)

  -- `id` is the new UUID. The error, if any, and the table.
  unfoldable pub create_rule : ℕ → Data → Table → Option RuleError × Table
  unfolding create_row
  create_rule id data_ rows = create_row (refusal (new_row data_)) id (new_row data_) rows

-- The fields that `setattr` sets.
unfoldable pub updated : Data → Row → Row
updated data_ row = record {
  rule = record {
    url_pattern = given data_.url_pattern row.rule.url_pattern;
    throttle_type = given data_.throttle_type row.rule.throttle_type;
    rate = given data_.rate row.rule.rate;
    use_regex = given data_.use_regex row.rule.use_regex;
  };
  name = given data_.name row.name;
  is_active = given data_.is_active row.is_active;
  priority = given data_.priority row.priority;
  description = given data_.description row.description;
}

update_row : Option Row → ℕ → Data → Table → Option RuleError × Table
update_row none id data_ rows = (some missing, rows)
update_row (some row) id data_ rows = (none, insert id (updated data_ row) rows)

unfoldable pub update_rule : ℕ → Data → Table → Option RuleError × Table
unfolding update_row
update_rule id data_ rows = update_row (lookup id rows) id data_ rows

delete_row : Option Row → ℕ → Table → Option RuleError × Table
delete_row none id rows = (some missing, rows)
delete_row (some row) id rows = (none, erase id rows)

unfoldable pub delete_rule : ℕ → Table → Option RuleError × Table
unfolding delete_row
delete_rule id rows = delete_row (lookup id rows) id rows

abbrev pub toggled : Row → Row
toggled row = record row { is_active = not row.is_active }

toggle_row : Option Row → ℕ → Table → Option Bool × Table
toggle_row none id rows = (none, rows)
toggle_row (some row) id rows = (some (not row.is_active), insert id (toggled row) rows)

-- The new state of the rule, `none` for a missing one.
unfoldable pub toggle_rule : ℕ → Table → Option Bool × Table
unfolding toggle_row
toggle_rule id rows = toggle_row (lookup id rows) id rows

abbrev pub is_active_row : ℕ × Row → Bool
is_active_row (id, row) = row.is_active

abbrev pub is_active_of : String → ℕ × Row → Bool
is_active_of t (id, row) = row.is_active && row.rule.throttle_type == t

-- The numbers of `get_dashboard`.
pub record Dashboard : Type 0 where
  pub total_rules : ℕ
  pub active_rules : ℕ
  pub inactive_rules : ℕ
  pub ip : ℕ
  pub user : ℕ
  pub tenant : ℕ
  pub endpoint : ℕ

unfoldable pub get_dashboard : Table → Dashboard
get_dashboard rows = record {
  total_rules = length rows;
  active_rules = count is_active_row rows;
  inactive_rules = length rows - count is_active_row rows;
  ip = count (is_active_of "ip") rows;
  user = count (is_active_of "user") rows;
  tenant = count (is_active_of "tenant") rows;
  endpoint = count (is_active_of "endpoint") rows;
}
