-- ===== src/Role/CeleryExecutor.antt =====
-- internal/controller/role/celeryexecutor.go
use airflow_operator.Prelude.{String, Bool, Option, List, [], ◌∷◌}
use airflow_operator.Go.Text.{ℤ}
use airflow_operator.Go.Outcome.{Done, Outcome, ok, deref, ◌>>=◌}
use airflow_operator.Go.Map.{Order}
use airflow_operator.Executor.{celery_executor}
use airflow_operator.Api.{
  ClusterConfigSpec, ConfigSpec, OverridesSpec, RoleGroupSpec, CeleryExecutorsSpec,
}
use airflow_operator.Platform.{Image}
use airflow_operator.Framework.{Framework, RoleInfo, RoleGroupInfo, BaseRole, ServiceReconciler}
use airflow_operator.StatefulSet.Builder.{new_statefulset_reconciler}
use airflow_operator.ConfigMap.Builder.{new_config_reconciler}
use airflow_operator.Service.{get_service_reconciler}
use airflow_operator.Auth.Types.{Authentication}
use airflow_operator.Role.Ports.{ports}
use airflow_operator.Role.Groups.{
  Resource, RoleSpec, config_map_resource, stateful_set_resource, service_resource,
  commons_role_group_config, authentication_of, options_of, register_spec,
}

-- The resources are those that `AddResource` was called with, the first one in front.
pub record CeleryExecutorsReconciler : Type 0 where
  pub base : BaseRole CeleryExecutorsSpec
  pub cluster_config : Option ClusterConfigSpec
  pub image : Image
  pub resources : List Resource

unfoldable pub new_celery_executors_reconciler :
    Framework
    → (cluster_stopped : Bool) → Option ClusterConfigSpec
    → RoleInfo
    → Image
    → Option CeleryExecutorsSpec
    → CeleryExecutorsReconciler
new_celery_executors_reconciler f cluster_stopped cluster_config role_info image spec = record {
  base = f.new_base_role CeleryExecutorsSpec cluster_stopped role_info spec;
  cluster_config = cluster_config;
  image = image;
  resources = [];
}

-- The resources of a role group, given its authentication and its metrics service.
unfoldable pub resources_of :
    Framework
    → CeleryExecutorsReconciler
    → RoleGroupInfo
    → (replicas : Option ℤ) → Option ConfigSpec
    → Option OverridesSpec
    → Option Authentication
    → Option ServiceReconciler
    → List Resource
resources_of f r info replicas config overrides auth metrics =
    let options = options_of f info in
    let config_map =
      new_config_reconciler f.platform r.cluster_config config (f.group_full_name info) auth
        options in
    let stateful_set =
      new_statefulset_reconciler f.platform (f.group_full_name info) r.cluster_config [] r.image
        replicas r.base.cluster_stopped overrides (commons_role_group_config config) celery_executor
        auth options in
    config_map_resource config_map
    ∷ stateful_set_resource stateful_set
    ∷ service_resource metrics
    ∷ []

-- `RegisterResourceWithRoleGroup`
unfoldable pub register_resource_with_role_group :
    Framework
    → CeleryExecutorsReconciler
    → RoleGroupInfo
    → (replicas : Option ℤ) → Option ConfigSpec
    → Option OverridesSpec
    → Outcome (List Resource)
register_resource_with_role_group f r info replicas config overrides = do
  cluster_config ← deref r.cluster_config
  auth ← authentication_of f.platform cluster_config.authentication
  metrics ← get_service_reconciler f info ports
  ok (resources_of f r info replicas config overrides auth metrics)

abbrev pub spec_view : CeleryExecutorsSpec → RoleSpec
spec_view spec = record {
  role_groups = spec.role_groups;
  config = spec.config;
  overrides_spec = spec.overrides_spec;
}

-- `RegisterResources`, and the reconciler that it leaves.
unfoldable pub register_resources :
    Framework
    → Order (String × RoleGroupSpec)
    → CeleryExecutorsReconciler
    → Outcome Done × CeleryExecutorsReconciler
register_resources f order r =
    let (outcome, resources) =
      register_spec spec_view f r.base.role_info (register_resource_with_role_group f r) r.resources
        order r.base.spec in
    (outcome, record r { resources = resources })
