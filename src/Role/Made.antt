-- ===== src/Role/Made.antt =====
-- internal/controller/role: the builders of the resources that the three roles register.
use airflow_operator.Prelude.{String, ◌≡◌, refl, ◌∙◌, Option, none, some, [], All}
use airflow_operator.Go.Outcome.{ok}
use airflow_operator.Go.Map.{Order}
use airflow_operator.Api.{RoleGroupSpec, ClusterConfigSpec}
use airflow_operator.Executor.{celery_executor}
use airflow_operator.Platform.{Platform, KeepsArguments}
use airflow_operator.Framework.{Framework, KeepsRoleName}
use airflow_operator.StatefulSet.Builder.{new_statefulset_builder, new_statefulset_reconciler}
use airflow_operator.ConfigMap.Builder.{new_config_map_builder, new_config_reconciler}
use airflow_operator.Role.Groups.{
  Resource, config_map_resource, stateful_set_resource, service_resource, options_of,
  authentication_of,
}
use airflow_operator.Role.Every.{register_spec-All}
use airflow_operator.Role.Fresh.{celery_executors_loop, schedulers_loop, webservers_loop}
use airflow_operator.Role.Scheduler.{SchedulersReconciler}
use airflow_operator.Role.CeleryExecutor.{CeleryExecutorsReconciler}
use airflow_operator.Role.Webserver.{WebserversReconciler}
use airflow_operator.Role.Scheduler
use airflow_operator.Role.CeleryExecutor
use airflow_operator.Role.Webserver

-- What a role puts into the builders of its resources; the authentication is the one that
-- NewAuthentication made of the cluster's entries.
abbrev pub MadeFor : Platform → Option ClusterConfigSpec → String → Resource → Type 0
MadeFor p cluster_config role (config_map_resource b) =
    (c : ClusterConfigSpec) × (cluster_config ≡ some c)
    × (b.cluster_config ≡ cluster_config)
    × (authentication_of p c.authentication ≡ ok b.auth)
MadeFor p cluster_config role (stateful_set_resource s) =
    (s.builder.cluster_config ≡ cluster_config)
    × (s.builder.auth ≡ none)
    × (s.builder.executor ≡ celery_executor)
    × (s.builder.base.role_name ≡ role)
MadeFor p cluster_config role (service_resource s) = Unit

module _ (f : Framework) (keeps : KeepsArguments f.platform) (roles : KeepsRoleName f)
    (order : Order (String × RoleGroupSpec)) where
  pub celery_executors-MadeFor :
      (r r' : CeleryExecutorsReconciler)
      → r.resources ≡ []
      → CeleryExecutor.register_resources f order r ≡ (ok tt, r')
      → All (MadeFor f.platform r.cluster_config r.base.role_info.role_name) r'.resources
  unfolding CeleryExecutor.register_resource_with_role_group CeleryExecutor.resources_of
      new_config_map_builder new_config_reconciler new_statefulset_builder
      new_statefulset_reconciler options_of
  celery_executors-MadeFor r r' fresh h =
      register_spec-All (MadeFor f.platform r.cluster_config r.base.role_info.role_name) f
        r.cluster_config (CeleryExecutor.resources_of f r) r.base.role_info
        (λ name replicas c o a s d hd ha.
          ((d, hd, refl, ha), ((refl, refl, refl, (keeps.kept _ _ _ _ _ _).1 ∙ roles _), (tt, tt))))
        CeleryExecutor.spec_view r'.resources order r.base.spec
        (celery_executors_loop f order r r' fresh h)

  pub schedulers-MadeFor :
      (r r' : SchedulersReconciler)
      → r.resources ≡ []
      → Scheduler.register_resources f order r ≡ (ok tt, r')
      → All (MadeFor f.platform r.cluster_config r.base.role_info.role_name) r'.resources
  unfolding Scheduler.register_resource_with_role_group Scheduler.resources_of
      new_config_map_builder new_config_reconciler new_statefulset_builder
      new_statefulset_reconciler options_of
  schedulers-MadeFor r r' fresh h =
      register_spec-All (MadeFor f.platform r.cluster_config r.base.role_info.role_name) f
        r.cluster_config (Scheduler.resources_of f r) r.base.role_info
        (λ name replicas c o a s d hd ha.
          ((d, hd, refl, ha), ((refl, refl, refl, (keeps.kept _ _ _ _ _ _).1 ∙ roles _), (tt, tt))))
        Scheduler.spec_view r'.resources order r.base.spec (schedulers_loop f order r r' fresh h)

  pub webservers-MadeFor :
      (r r' : WebserversReconciler)
      → r.resources ≡ []
      → Webserver.register_resources f order r ≡ (ok tt, r')
      → All (MadeFor f.platform r.cluster_config r.base.role_info.role_name) r'.resources
  unfolding Webserver.register_resource_with_role_group Webserver.resources_of
      new_config_map_builder new_config_reconciler new_statefulset_builder
      new_statefulset_reconciler options_of
  webservers-MadeFor r r' fresh h =
      register_spec-All (MadeFor f.platform r.cluster_config r.base.role_info.role_name) f
        r.cluster_config (Webserver.resources_of f r) r.base.role_info
        (λ name replicas c o a s d hd ha. (
          (d, hd, refl, ha),
          ((refl, refl, refl, (keeps.kept _ _ _ _ _ _).1 ∙ roles _), (tt, (tt, tt))),
        ))
        Webserver.spec_view r'.resources order r.base.spec (webservers_loop f order r r' fresh h)
