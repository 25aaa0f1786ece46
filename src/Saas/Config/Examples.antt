-- ===== src/Saas/Config/Examples.antt =====
-- Configuration values, changes and reads on concrete data. Values are texts.
use django_project_test.Saas.Config.{
  Library, Setting, ConfigCenter, Database, GlobalConfig, integer, set_config, new_config,
}
use django_project_test.Saas.Config.History
use django_project_test.Saas.Config.History.{replay-configs, replay, text_of}
use django_project_test.Base.Dict.{lookup}
use django_project_test.Base.{if◌then◌else◌, none, some, ◌≡◌, string_eq, true, [], String}

abbrev lib : Library String String
lib = record {
  to_int = λ s. some s;
  to_float = λ s. some s;
  loads = λ s. some s;
  of_text = λ s. s;
  of_bool = λ b. if b then "True" else "False";
  lower = λ s. s;
  str = λ v. v;
  dumps = λ v. v;
}

abbrev fresh : ConfigCenter lib
fresh = record { cache = []; cache_updated_at = none }

abbrev nothing_stored : Database
nothing_stored = record { configs = []; history = [] }

abbrev setting : String → String → Setting lib
setting key value = record {
  key = key;
  value = value;
  user = some 1;
  name = "Page size";
  description = "";
  category = "general";
  config_type = integer;
}

abbrev stored : Database
stored = (set_config lib true (setting "page.size" "20") 100 nothing_stored fresh).1

abbrev row : GlobalConfig
row = new_config lib (setting "page.size" "20")

replay-configs_example :
    replay "page.size" stored.history ≡ text_of (lookup "page.size" stored.configs)
replay-configs_example =
    replay-configs lib stored "page.size"
      (History.sets (setting "page.size" "20") 100 fresh History.start)
