-- ===== src/ConfigMap/Logging.antt =====
-- internal/controller/common/config.go: `getLogging`.
use airflow_operator.Prelude.{String, Option, none, some, [], ◌∷◌}
use airflow_operator.Go.FilePath.{path_join}
use airflow_operator.Go.Outcome.{Outcome, ok, deref, ◌>>=◌}
use airflow_operator.Go.Map.{lookup, string_key}
use airflow_operator.Api.{ConfigSpec, LoggingSpec, LoggingConfigSpec, LogLevelSpec}
use airflow_operator.Platform.{Platform}
use airflow_operator.ConfigMap.Texts.{log_config}
use airflow_operator.ConfigMap.Builder.{ConfigMapBuilder}

abbrev pub default_log_level : String
default_log_level = "INFO"

pub record Levels : Type 0 where
  pub file : String
  pub console : String
  pub root : String

abbrev pub default_levels : Levels
default_levels = record {
  file = default_log_level;
  console = default_log_level;
  root = default_log_level;
}

-- The level of a logger that is configured, or the default.
unfoldable pub level_or_default : Option LogLevelSpec → String
level_or_default none = default_log_level
level_or_default (some l) = l.level

-- `logConfig, ok := …; if ok { … }`
container_levels : Option LoggingConfigSpec → Levels
container_levels none = default_levels
container_levels (some c) = record {
  file = level_or_default c.file;
  console = level_or_default c.console;
  root = level_or_default (lookup "root" c.loggers);
}

logging_levels : Option LoggingSpec → String → Levels
logging_levels none role = default_levels
logging_levels (some l) role = container_levels (lookup role l.containers)

-- `Logging` is a field of the embedded pointer, which panics where that is nil.
config_levels : Option ConfigSpec → String → Outcome Levels
config_levels none role = ok default_levels
config_levels (some c) role = do
  spec ← deref c.role_group_config_spec
  ok (logging_levels spec.logging role)

unfoldable pub levels : ConfigMapBuilder → Outcome Levels
unfolding config_levels logging_levels container_levels level_or_default
levels b = config_levels b.role_group_config b.base.role_name

unfoldable pub get_logging : Platform → ConfigMapBuilder → Outcome String
get_logging p b = do
  l ← levels b
  ok (
      p.indent_tab_4_spaces (
        log_config (path_join (p.kubedoop_log_dir ∷ b.base.role_name ∷ []))
          (path_join (p.kubedoop_log_dir ∷ b.base.role_name ∷ "airflow.log.json" ∷ [])) l.console
          l.file l.root))
