-- ===== src/Tests/Sets.antt =====
-- internal/controller/common/statefulset.go: the theorems on the stateful set, at a scheduler and a
-- webserver.
use airflow_operator.Prelude.{
  String, ◌↔◌, ◌≡◌, ◌≢◌, refl, true, none, some, List, [], ◌∷◌, map, All, arith, eq_iff,
}
use airflow_operator.Go.Text.{pos}
use airflow_operator.Go.Outcome.{ok}
use airflow_operator.Executor.{celery_executor}
use airflow_operator.Kube.{EnvVar, Volume, config_map, empty_dir}
use airflow_operator.Platform.{Object, added_volumes}
use airflow_operator.StatefulSet.Scripts.{get_main_container_args, main_command}
use airflow_operator.StatefulSet.Builder.{StatefulSetBuilder}
use airflow_operator.StatefulSet.Env.{set_main_container_env}
use airflow_operator.StatefulSet.Build.{get_main_container, build}
use airflow_operator.StatefulSet.Laws.{
  expected_names, env_name, IsDistinct, ReadsOnly, set_main_container_env-names,
}
use airflow_operator.StatefulSet.Built.{build-object, build-volumes}
use airflow_operator.StatefulSet.Calls.{for_object, for_agent}
use airflow_operator.Tests.Setup.{
  test_platform, cluster_config, test_image, test_options, same_order, test_platform-ListsVolumes,
}

abbrev builder : String → StatefulSetBuilder
builder role = record {
  base =
      test_platform.new_statefulset "air" (some (pos 1)) test_image none none (test_options role);
  cluster_config = some (cluster_config []);
  executor = celery_executor;
  auth = none;
}

credentials_named : (cluster_config []).credentials ≢ ""
credentials_named h = ground (arith, h, eq_iff "airflow-credentials" "")

set_main_container_env-names_example :
    (envs : List EnvVar) × (set_main_container_env test_platform same_order (builder "schedulers")
      ≡ ok envs)
    × (map env_name envs ≡ expected_names true true)
    × IsDistinct (map env_name envs)
    × All (ReadsOnly "airflow-credentials") envs
set_main_container_env-names_example =
    set_main_container_env-names test_platform same_order (builder "schedulers") (cluster_config [])
      refl credentials_named refl

abbrev air_object : Object
air_object = record { object_text = "air" }

webservers_built : (build test_platform same_order (builder "webservers")).0 ≡ ok air_object
unfolding build get_main_container get_main_container_args main_command set_main_container_env
webservers_built = refl

build-object_example :
    (build test_platform same_order (builder "webservers")
      ≡ (ok air_object, (build test_platform same_order (builder "webservers")).1))
    ↔ ((args : String) × (envs : List EnvVar) × (get_main_container_args test_platform "webservers"
          ≡ ok args)
        × (set_main_container_env test_platform same_order (builder "webservers") ≡ ok envs)
        × (test_platform.statefulset_object
              (for_object test_platform args envs (builder "webservers")).base
            ≡ ok air_object)
        × ((build test_platform same_order (builder "webservers")).1
            ≡ for_agent test_platform (for_object test_platform args envs (builder "webservers"))))
build-object_example =
    build-object test_platform same_order (builder "webservers")
      (build test_platform same_order (builder "webservers")).1 air_object

vector_named : (cluster_config []).vector_aggregator_config_map_name ≢ ""
vector_named h = ground (arith, h, eq_iff "vector" "")

abbrev config_volume : Volume
config_volume = record {
  name = "config";
  source = config_map (pos 420) (builder "webservers").base.name;
}

abbrev log_volume : Volume
log_volume = record { name = "log"; source = empty_dir "500Mi" }

build-volumes_example :
    added_volumes (build test_platform same_order (builder "webservers")).1.base.calls
    ≡ config_volume ∷ log_volume ∷ config_volume ∷ log_volume ∷ []
build-volumes_example =
    build-volumes test_platform same_order (builder "webservers") air_object (cluster_config [])
      test_platform-ListsVolumes webservers_built refl refl vector_named
