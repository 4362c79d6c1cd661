-- ===== src/ConfigMap/Build.antt =====
-- internal/controller/common/config.go: `getAirflowConfig`, `getVector` and `Build`.
use airflow_operator.Prelude.{String, Option, none, some, [], ◌∷◌, ◌++◌, ◌==◌, if◌then◌else◌}
use airflow_operator.Go.Text.{concat}
use airflow_operator.Go.Outcome.{Outcome, ok, ◌>>=◌}
use airflow_operator.Api.{ClusterConfigSpec}
use airflow_operator.Platform.{Platform, ConfigMapBase, Object}
use airflow_operator.Auth.Types.{Authentication}
use airflow_operator.Auth.Gather.{MapOrder}
use airflow_operator.Auth.Config.{get_config}
use airflow_operator.ConfigMap.Texts.{webserver_config}
use airflow_operator.ConfigMap.Builder.{ConfigMapBuilder}
use airflow_operator.ConfigMap.Logging.{get_logging}

-- The text of the authentication, if there is one.
auth_config : Platform → MapOrder → MapOrder → Option Authentication → Outcome String
auth_config p l o none = ok ""
auth_config p l o (some auth) = get_config p l o auth

unfoldable pub get_airflow_config :
    Platform → MapOrder → MapOrder → ConfigMapBuilder → Outcome String
unfolding auth_config
get_airflow_config p l o b = do
  auth ← auth_config p l o b.auth
  ok (p.indent_tab_4_spaces (concat (webserver_config ∷ auth ∷ [])))

vector_of : Platform → ConfigMapBase → Option ClusterConfigSpec → Outcome String
vector_of p base none = ok ""
vector_of p base (some c) =
    if c.vector_aggregator_config_map_name == ""
    then ok ""
    else p.make_vector_yaml base.cluster_name base.role_name base.role_group_name
        c.vector_aggregator_config_map_name

unfoldable pub get_vector : Platform → ConfigMapBuilder → Outcome String
unfolding vector_of
get_vector p b = vector_of p b.base b.cluster_config

-- `b.AddItem(key, value)`
abbrev pub add_item : String → String → ConfigMapBase → ConfigMapBase
add_item key value base = record base { items = base.items ++ (key, value) ∷ [] }

-- The three items, in the order in which they are added.
unfoldable pub with_items : String → String → String → ConfigMapBase → ConfigMapBase
with_items airflow logging vector base =
    add_item "vector.yaml" vector
      (add_item "log_config.py" logging (add_item "webserver_config.py" airflow base))

-- `Build`: the object, and the base builder that it leaves.
unfoldable pub build :
    Platform → MapOrder → MapOrder → ConfigMapBuilder → Outcome (Object × ConfigMapBase)
build p l o b = do
  airflow ← get_airflow_config p l o b
  logging ← get_logging p b
  vector ← get_vector p b
  let base = with_items airflow logging vector b.base
  ok (p.config_map_object base, base)
