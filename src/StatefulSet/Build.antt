-- ===== src/StatefulSet/Build.antt =====
-- internal/controller/common/statefulset.go: `getMainContainer`, `getMetricContainer`, `Build`.
use airflow_operator.Prelude.{
  String, Bool, false, not, Option, none, some, List, [], ◌∷◌, ◌++◌, ◌==◌, if◌then◌else◌,
}
use airflow_operator.Go.Text.{pos}
use airflow_operator.Go.Outcome.{Outcome, ok, err, panic, ◌>>=◌}
use airflow_operator.Kube.{Volume, VolumeMount, config_map, empty_dir}
use airflow_operator.Api.{ClusterConfigSpec}
use airflow_operator.Platform.{
  Platform, Container, StatefulSetCall, add_container, add_volumes, StatefulSetBase, Object,
}
use airflow_operator.Auth.Gather.{MapOrder}
use airflow_operator.StatefulSet.Scripts.{
  config_volume_mount_name, log_volume_mount_name, get_main_container_args, metric_script,
}
use airflow_operator.StatefulSet.Builder.{StatefulSetBuilder}
use airflow_operator.StatefulSet.Env.{set_main_container_env}

unfoldable pub get_main_container_volume_mount : Platform → List VolumeMount
get_main_container_volume_mount p =
    record { name = config_volume_mount_name; mount_path = p.kubedoop_config_dir_mount }
    ∷ record { name = log_volume_mount_name; mount_path = p.kubedoop_log_dir }
    ∷ []

abbrev bash_command : List String
bash_command = "/bin/bash" ∷ "-x" ∷ "-euo" ∷ "pipefail" ∷ "-c" ∷ []

unfoldable pub get_main_container : Platform → MapOrder → StatefulSetBuilder → Outcome Container
get_main_container p order b = do
  args ← get_main_container_args p b.base.role_name
  envs ← set_main_container_env p order b
  ok (record {
    name = b.base.role_name;
    image = b.base.image;
    command = bash_command;
    args = args ∷ [];
    env = envs;
    volume_mounts = get_main_container_volume_mount p;
  })

unfoldable pub get_metric_container : Platform → StatefulSetBuilder → Container
get_metric_container p b = record {
  name = "metric";
  image = b.base.image;
  command = bash_command;
  args = p.indent_tab_4_spaces (metric_script p) ∷ [];
  env = [];
  volume_mounts = [];
}

-- The volumes of the configuration and of the logs.
abbrev pub own_volumes : StatefulSetBase → List Volume
own_volumes base =
    record { name = config_volume_mount_name; source = config_map (pos 420) base.name }
    ∷ record { name = log_volume_mount_name; source = empty_dir "500Mi" }
    ∷ []

-- A call that changes the base builder.
abbrev pub call : StatefulSetCall → StatefulSetBuilder → StatefulSetBuilder
call c b = record b { base = record b.base { calls = b.base.calls ++ c ∷ [] } }

-- `b.ClusterConfig != nil && b.ClusterConfig.VectorAggregatorConfigMapName != ""`
unfoldable pub has_vector : Option ClusterConfigSpec → Bool
has_vector none = false
has_vector (some c) = not (c.vector_aggregator_config_map_name == "")

-- The container of the log agent, and the builder's own volumes once more.
unfoldable pub with_vector : Platform → StatefulSetBuilder → StatefulSetBuilder
with_vector p b =
    let b₁ =
      call (add_container (p.vector_container b.base.name log_volume_mount_name b.base.image)) b in
    call (add_volumes (p.statefulset_volumes b₁.base)) b₁

-- The calls in front of `GetObject`.
unfoldable pub with_main : Platform → Container → StatefulSetBuilder → StatefulSetBuilder
unfolding get_metric_container
with_main p main b =
    call (add_volumes (own_volumes b.base))
      (call (add_container (get_metric_container p b)) (call (add_container main) b))

-- The object is taken in front of the test for the log agent.
unfoldable pub finish :
    Platform → Outcome Object → StatefulSetBuilder → Outcome Object × StatefulSetBuilder
finish p (ok object) b = (ok object, if has_vector b.cluster_config then with_vector p b else b)
finish p (err e) b = (err e, b)
finish p panic b = (panic, b)

unfoldable pub build_with :
    Platform → Outcome Container → StatefulSetBuilder → Outcome Object × StatefulSetBuilder
build_with p (ok main) b = let b' = with_main p main b in finish p (p.statefulset_object b'.base) b'
build_with p (err e) b = (err e, b)
build_with p panic b = (panic, b)

-- `Build`, and the builder that it leaves.
unfoldable pub build :
    Platform → MapOrder → StatefulSetBuilder → Outcome Object × StatefulSetBuilder
unfolding build_with finish with_main with_vector has_vector
build p order b = build_with p (get_main_container p order b) b
