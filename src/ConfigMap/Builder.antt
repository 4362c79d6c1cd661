-- ===== src/ConfigMap/Builder.antt =====
-- internal/controller/common/config.go: the builder of the config map and its constructors.
use airflow_operator.Prelude.{String, Option}
use airflow_operator.Api.{ClusterConfigSpec, ConfigSpec}
use airflow_operator.Platform.{Platform, Options, ConfigMapBase}
use airflow_operator.Auth.Types.{Authentication}

pub record ConfigMapBuilder : Type 0 where
  pub base : ConfigMapBase
  pub cluster_config : Option ClusterConfigSpec
  pub role_group_config : Option ConfigSpec
  pub auth : Option Authentication

unfoldable pub new_config_map_builder :
    Platform
    → (name : String) → Option ClusterConfigSpec
    → Option ConfigSpec
    → Option Authentication
    → Options
    → ConfigMapBuilder
new_config_map_builder p name cluster_config role_group_config auth options = record {
  base = p.new_config_map name options;
  cluster_config = cluster_config;
  role_group_config = role_group_config;
  auth = auth;
}

-- The reconciler is its builder; `full_name` is `roleGroupInfo.GetFullName()`.
unfoldable pub new_config_reconciler :
    Platform
    → Option ClusterConfigSpec
    → Option ConfigSpec
    → (full_name : String) → Option Authentication
    → Options
    → ConfigMapBuilder
unfolding new_config_map_builder
new_config_reconciler p cluster_config role_group_config full_name auth options =
    new_config_map_builder p full_name cluster_config role_group_config auth options
