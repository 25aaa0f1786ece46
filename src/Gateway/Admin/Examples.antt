-- ===== src/Gateway/Admin/Examples.antt =====
-- The administration of the rules on concrete data.
use django_project_test.Base.{string_eq, refl, ◌≡◌, ◌||◌, ◌+◌, [], some, none, ◌==◌}
use django_project_test.Base.Integers.{pos}
use django_project_test.Gateway.Admin.{
  Checks, Data, Table, create_rule, update_rule, toggle_rule, get_dashboard,
}
use django_project_test.Gateway.Admin.Valid
use django_project_test.Gateway.Admin.Valid.{Kept, AllValid, kept_rules_valid}

abbrev checks : Checks
checks = record { strip = λ s. s; is_rate = λ s. s == "100/h" || s == "10/m" }

abbrev no_data : Data
no_data = record {
  name = none;
  url_pattern = none;
  throttle_type = none;
  rate = none;
  is_active = none;
  use_regex = none;
  priority = none;
  description = none;
}

abbrev exports : Data
exports = record no_data {
  name = some "exports";
  url_pattern = some "/api/export/";
  throttle_type = some "user";
}

abbrev created : Table
created = (create_rule checks 1 exports []).1

abbrev rows : Table
rows = (update_rule 1 (record no_data { priority = some (pos 5) }) (toggle_rule 1 created).1).1

kept_rules_valid_example :
    let d = get_dashboard rows in
    AllValid checks rows
    × (d.ip + d.user + d.tenant + d.endpoint ≡ d.active_rules)
    × (d.active_rules + d.inactive_rules ≡ d.total_rules)
kept_rules_valid_example = kept_rules_valid checks rows (
    Valid.updates 1 (record no_data { priority = some (pos 5) }) refl refl refl refl
      (Valid.toggles 1 (Valid.creates 1 exports Valid.start)))
