-- ===== src/Tests/Setup/Specs.antt =====
-- A framework on the test platform, and a cluster with two role groups for each role.
use airflow_operator.Prelude.{String, true, false, none, some, List, [], ◌∷◌}
use airflow_operator.Go.Text.{pos, concat}
use airflow_operator.Go.Outcome.{ok}
use airflow_operator.Go.Map.{string_key}
use airflow_operator.Api.{
  AuthenticationSpec, ClusterConfigSpec, RoleGroupSpec, CeleryExecutorsSpec, SchedulersSpec,
  WebserversSpec, ImageSpec, AirflowCluster,
}
use airflow_operator.Platform.{found, not_found, Image, Options}
use airflow_operator.Framework.{Framework, NamespacedName}
use airflow_operator.Tests.Setup.Platforms.{test_platform}

-- The metadata of the test cluster's role groups.
abbrev pub info_labels : List (String × String)
info_labels = ("app.kubernetes.io/name", "airflow") ∷ []

-- Every merge keeps the group's own spec.
abbrev pub test_framework : Framework
test_framework = record {
  platform = test_platform;
  group_cluster_name = λ i. i.role_info.cluster_info.cluster_name;
  group_role_name = λ i. i.role_info.role_name;
  group_name = λ i. i.role_group_name;
  group_full_name = λ i. concat (
      i.role_info.cluster_info.cluster_name ∷ "-" ∷ i.role_info.role_name ∷ "-" ∷ i.role_group_name
      ∷ []);
  group_labels = λ i. some info_labels;
  group_annotations = λ i. some [];
  merge_config = λ a b. ok b;
  merge_overrides = λ a b. ok b;
  new_base_role =
      λ S stopped info spec. record { cluster_stopped = stopped; role_info = info; spec = spec };
  new_base_cluster =
      λ info operation spec. record { cluster_info = info; stopped = false; spec = spec };
  get_cluster = λ n. not_found;
}

abbrev pub entry : String → AuthenticationSpec
entry class = record {
  authentication_class = class;
  oidc = some (record { client_credentials_secret = "client"; extra_scopes = [] });
  sync_roles_at = "Registration";
  user_registration = true;
  user_registration_role = "Admin";
}

abbrev pub cluster_config : List AuthenticationSpec → ClusterConfigSpec
cluster_config auths = record {
  authentication = auths;
  credentials = "airflow-credentials";
  dags_git_sync = [];
  expose_config = false;
  load_examples = true;
  listener_class = "";
  vector_aggregator_config_map_name = "vector";
  volumes = [];
  volume_mounts = [];
}

abbrev pub group_spec : RoleGroupSpec
group_spec = record { replicas = some (pos 1); config = none; overrides_spec = none }

abbrev pub groups : List (String × RoleGroupSpec)
groups = ("default", group_spec) ∷ ("large", group_spec) ∷ []

abbrev pub celery_spec : CeleryExecutorsSpec
celery_spec = record {
  role_groups = groups;
  role_config = none;
  config = none;
  overrides_spec = none;
}

abbrev pub schedulers_spec : SchedulersSpec
schedulers_spec = record {
  role_groups = groups;
  role_config = none;
  config = none;
  overrides_spec = none;
}

abbrev pub webservers_spec : WebserversSpec
webservers_spec = record {
  role_groups = groups;
  role_config = none;
  config = none;
  overrides_spec = none;
}

abbrev pub image_spec : ImageSpec
image_spec = record {
  custom = "";
  repo = "quay.io/zncdatadev";
  kubedoop_version = "";
  product_version = "2.10.4";
  pull_policy = "IfNotPresent";
  pull_secret_name = "";
}

abbrev pub cluster : List AuthenticationSpec → AirflowCluster
cluster auths = record {
  name = "air";
  spec = record {
    image = some image_spec;
    cluster_operation = none;
    cluster_config = some (cluster_config auths);
    celery_executors = some celery_spec;
    kubernetes_executors = none;
    schedulers = some schedulers_spec;
    webservers = some webservers_spec;
  };
}

-- The API server has this cluster, whatever name is asked for.
abbrev pub serving : List AuthenticationSpec → Framework
serving auths = record test_framework { get_cluster = λ n. found (cluster auths) }

abbrev pub request : NamespacedName
request = record { namespace = "default"; name = "air" }

abbrev pub test_image : Image
test_image =
    test_platform.new_image "airflow" "0.0.0" "2.10.4"
      (record { custom = ""; repo = "quay.io/zncdatadev"; pull_policy = "IfNotPresent" })

abbrev pub test_options : String → Options
test_options role = record {
  cluster_name = "air";
  role_name = role;
  role_group_name = "default";
  labels = none;
  annotations = none;
}
