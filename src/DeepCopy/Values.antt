-- ===== src/DeepCopy/Values.antt =====
-- The values that the structs of the memory stand for, from those of their pointers.
use airflow_operator.Prelude.{String, Option, List}
use airflow_operator.Go.Text.{ℤ}
use airflow_operator.Api.{
  ImageSpec, ClusterOperationSpec, OidcSpec, OverridesSpec, RoleConfigSpec, RoleGroupConfigSpec,
  AuthenticationSpec, ConfigSpec, RoleGroupSpec, KubernetesExecutorsSpec,
}
use airflow_operator.DeepCopy.Types.{
  Foreign, AuthenticationStruct, DagsGitSyncStruct, ClusterConfigStruct, ConfigStruct,
  RoleGroupStruct, CeleryExecutorsStruct, KubernetesExecutorsStruct, SchedulersStruct,
  WebserversStruct, SpecStruct, ClusterStruct, ClusterListStruct,
}
use airflow_operator.DeepCopy.ViewTypes.{
  DagsGitSyncView, ClusterConfigView, RoleView, SpecView, ClusterView, ClusterListView,
}

abbrev pub make_authentication : AuthenticationStruct → Option OidcSpec → AuthenticationSpec
make_authentication in_ f = record {
  authentication_class = in_.authentication_class;
  oidc = f;
  sync_roles_at = in_.sync_roles_at;
  user_registration = in_.user_registration;
  user_registration_role = in_.user_registration_role;
}

abbrev pub make_config : ConfigStruct → Option RoleGroupConfigSpec → ConfigSpec
make_config in_ f = record { role_group_config_spec = f }

abbrev pub make_git_sync :
    DagsGitSyncStruct → Option ℤ × (Option (List (String × String)) × Option ℤ) → DagsGitSyncView
make_git_sync in_ f = record {
  branch = in_.branch;
  crdentials_secret = in_.crdentials_secret;
  depth = f.0;
  git_folder = in_.git_folder;
  git_sync_conf = f.1.0;
  repo = in_.repo;
  wait = f.1.1;
}

abbrev pub make_cluster_config :
    ClusterConfigStruct
    → Option (List AuthenticationSpec)
      × (Option (List DagsGitSyncView) × (Option (List String) × Option (List String)))
    → ClusterConfigView
make_cluster_config in_ f = record {
  authentication = f.0;
  credentials = in_.credentials;
  dags_git_sync = f.1.0;
  expose_config = in_.expose_config;
  load_examples = in_.load_examples;
  listener_class = in_.listener_class;
  vector_aggregator_config_map_name = in_.vector_aggregator_config_map_name;
  volumes = f.1.1.0;
  volume_mounts = f.1.1.1;
}

abbrev pub make_role_group :
    RoleGroupStruct → Option ℤ × (Option ConfigSpec × Option OverridesSpec) → RoleGroupSpec
make_role_group in_ f = record { replicas = f.0; config = f.1.0; overrides_spec = f.1.1 }

abbrev pub make_celery_executors :
    CeleryExecutorsStruct
    → Option (List (String × RoleGroupSpec))
      × (Option RoleConfigSpec × (Option ConfigSpec × Option OverridesSpec))
    → RoleView
make_celery_executors in_ f = record {
  role_groups = f.0;
  role_config = f.1.0;
  config = f.1.1.0;
  overrides_spec = f.1.1.1;
}

abbrev pub make_kubernetes_executors :
    KubernetesExecutorsStruct
    → Option RoleConfigSpec
      × (Option ConfigSpec × (Option OverridesSpec × Option RoleGroupConfigSpec))
    → KubernetesExecutorsSpec
make_kubernetes_executors in_ f = record {
  role_config = f.0;
  config = f.1.0;
  overrides_spec = f.1.1.0;
  role_group_config_spec = f.1.1.1;
}

abbrev pub make_schedulers :
    SchedulersStruct
    → Option (List (String × RoleGroupSpec))
      × (Option RoleConfigSpec × (Option ConfigSpec × Option OverridesSpec))
    → RoleView
make_schedulers in_ f = record {
  role_groups = f.0;
  role_config = f.1.0;
  config = f.1.1.0;
  overrides_spec = f.1.1.1;
}

abbrev pub make_webservers :
    WebserversStruct
    → Option (List (String × RoleGroupSpec))
      × (Option RoleConfigSpec × (Option ConfigSpec × Option OverridesSpec))
    → RoleView
make_webservers in_ f = record {
  role_groups = f.0;
  role_config = f.1.0;
  config = f.1.1.0;
  overrides_spec = f.1.1.1;
}

abbrev pub make_spec :
    SpecStruct
    → Option ImageSpec
      × (Option ClusterOperationSpec
          × (Option ClusterConfigView
              × (Option RoleView
                  × (Option KubernetesExecutorsSpec × (Option RoleView × Option RoleView)))))
    → SpecView
make_spec in_ f = record {
  image = f.0;
  cluster_operation = f.1.0;
  cluster_config = f.1.1.0;
  celery_executors = f.1.1.1.0;
  kubernetes_executors = f.1.1.1.1.0;
  schedulers = f.1.1.1.1.1.0;
  webservers = f.1.1.1.1.1.1;
}

abbrev pub make_cluster : {X : Foreign} → ClusterStruct X → String × SpecView → ClusterView
make_cluster in_ f = record {
  type_meta = in_.type_meta;
  object_meta = f.0;
  spec = f.1;
  status = in_.status;
}

abbrev pub make_cluster_list :
    {X : Foreign} → ClusterListStruct X → String × Option (List ClusterView) → ClusterListView
make_cluster_list in_ f = record { type_meta = in_.type_meta; list_meta = f.0; items = f.1 }
