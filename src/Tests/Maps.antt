-- ===== src/Tests/Maps.antt =====
-- internal/controller/common/config.go: the theorems on the config map, at a webserver.
use airflow_operator.Prelude.{String, ◌≡◌, ◌↔◌, refl, none, some, [], ◌∷◌, ◌++◌}
use airflow_operator.Go.Outcome.{ok, panic}
use airflow_operator.Go.Map.{lookup, string_key}
use airflow_operator.Api.{ConfigSpec, LoggingConfigSpec}
use airflow_operator.Platform.{ConfigMapBase, Object}
use airflow_operator.ConfigMap.Builder.{ConfigMapBuilder}
use airflow_operator.ConfigMap.Logging.{levels, get_logging}
use airflow_operator.ConfigMap.Build.{get_airflow_config, get_vector, build}
use airflow_operator.ConfigMap.Laws.{build-items, get_logging-panic_iff}
use airflow_operator.ConfigMap.Levels.{HasLevels, get_logging-HasLevels}
use airflow_operator.ConfigMap.Texts.{log_config}
use airflow_operator.Go.FilePath.{path_join}
use airflow_operator.Tests.Setup.{
  test_platform, cluster_config, test_options, same_order, swapped_order,
}

abbrev levels_of : String → LoggingConfigSpec
levels_of level = record {
  loggers = ("root", record { level = level }) ∷ [];
  console = some (record { level = level });
  file = none;
}

abbrev builder : ConfigMapBuilder
builder = record {
  base = test_platform.new_config_map "air" (test_options "webservers");
  cluster_config = some (cluster_config []);
  role_group_config = some (record {
    role_group_config_spec = some (record {
      logging = some (record { containers = ("webservers", levels_of "DEBUG") ∷ [] });
      others = "";
    });
  });
  auth = none;
}

-- A role group whose configuration is empty.
abbrev empty_builder : ConfigMapBuilder
empty_builder = record builder {
  role_group_config = some (record { role_group_config_spec = none });
}

built :
    (object : Object) × (base : ConfigMapBase) × (build test_platform same_order swapped_order
        builder
      ≡ ok (object, base))
unfolding build get_airflow_config get_logging levels get_vector
built = (_, _, refl)

build-items_example :
    (airflow : String) × (logging : String) × (vector : String) × (get_airflow_config test_platform
        same_order swapped_order builder
      ≡ ok airflow)
    × (get_logging test_platform builder ≡ ok logging)
    × (get_vector test_platform builder ≡ ok vector)
    × (built.1.items
        ≡ []
          ++ ("webserver_config.py", airflow)
            ∷ ("log_config.py", logging)
            ∷ ("vector.yaml", vector)
            ∷ [])
    × (built.0 ≡ test_platform.config_map_object built.1)
build-items_example =
    build-items test_platform same_order swapped_order builder built.0 built.1 built.2

get_logging-panic_iff_example : (get_logging test_platform empty_builder ≡ panic) ↔ (
    (c : ConfigSpec) × (empty_builder.role_group_config ≡ some c)
    × (c.role_group_config_spec ≡ none))
get_logging-panic_iff_example = get_logging-panic_iff test_platform empty_builder

builder_logging :
    get_logging test_platform builder
    ≡ ok (
        test_platform.indent_tab_4_spaces (
          log_config
            (path_join (test_platform.kubedoop_log_dir ∷ "webservers" ∷ []))
            (path_join (test_platform.kubedoop_log_dir ∷ "webservers" ∷ "airflow.log.json" ∷ []))
            "DEBUG"
            "INFO"
            "DEBUG"))
unfolding get_logging levels lookup
builder_logging = refl

get_logging-HasLevels_example : (get_logging test_platform builder ≡ ok "") ↔ (
    (file console root : String) × HasLevels builder file console root
    × (""
        ≡ test_platform.indent_tab_4_spaces (
            log_config
              (path_join (test_platform.kubedoop_log_dir ∷ "webservers" ∷ []))
              (path_join (test_platform.kubedoop_log_dir ∷ "webservers" ∷ "airflow.log.json" ∷ []))
              console
              file
              root)))
get_logging-HasLevels_example = get_logging-HasLevels test_platform builder ""
