-- ===== src/Role/PlannedRoles.antt =====
-- internal/controller/role: the objects that the three roles register are those that are planned for
-- their role groups.
use mathlib.Core.List.{Permᴰ}
use airflow_operator.Prelude.{String, ◌≡◌, some, List, [], ◌∷◌, map}
use airflow_operator.Go.Outcome.{ok}
use airflow_operator.Go.Map.{Order}
use airflow_operator.Api.{RoleGroupSpec, CeleryExecutorsSpec, SchedulersSpec, WebserversSpec}
use airflow_operator.Platform.{NamesObjects}
use airflow_operator.Framework.{Framework}
use airflow_operator.StatefulSet.Builder.{new_statefulset_builder, new_statefulset_reconciler}
use airflow_operator.ConfigMap.Builder.{new_config_map_builder, new_config_reconciler}
use airflow_operator.Role.Steps.{Kind, a_config_map, a_stateful_set, a_service}
use airflow_operator.Role.Plan.{identity, role_plan}
use airflow_operator.Role.Planned.{register_spec-identity}
use airflow_operator.Role.Fresh.{celery_executors_loop, schedulers_loop, webservers_loop}
use airflow_operator.Role.Scheduler.{SchedulersReconciler}
use airflow_operator.Role.CeleryExecutor.{CeleryExecutorsReconciler}
use airflow_operator.Role.Webserver.{WebserversReconciler}
use airflow_operator.Role.Scheduler
use airflow_operator.Role.CeleryExecutor
use airflow_operator.Role.Webserver

-- A config map, a stateful set and a metrics service.
abbrev pub worker_kinds : List Kind
worker_kinds = a_config_map ∷ a_stateful_set ∷ a_service ∷ []

-- A config map, a stateful set, a service and a metrics service.
abbrev pub webserver_kinds : List Kind
webserver_kinds = a_config_map ∷ a_stateful_set ∷ a_service ∷ a_service ∷ []

module _ (f : Framework) (names : NamesObjects f.platform)
    (order : Order (String × RoleGroupSpec)) where
  pub celery_executors-planned :
      (r r' : CeleryExecutorsReconciler) (spec : CeleryExecutorsSpec)
      → r.resources ≡ []
      → r.base.spec ≡ some spec
      → CeleryExecutor.register_resources f order r ≡ (ok tt, r')
      → Permᴰ
          (map identity r'.resources)
          (role_plan f worker_kinds r.base.role_info spec.role_groups)
  unfolding CeleryExecutor.register_resource_with_role_group CeleryExecutor.resources_of
      new_config_map_builder new_config_reconciler new_statefulset_builder
      new_statefulset_reconciler
  celery_executors-planned r r' spec fresh there h =
      register_spec-identity f r.cluster_config (CeleryExecutor.resources_of f r) worker_kinds
        (λ info replicas c o a s named. rw (names.config_map_name, names.stateful_set_name, named))
        CeleryExecutor.spec_view r.base.role_info r'.resources order r.base.spec spec there
        (celery_executors_loop f order r r' fresh h)

  pub schedulers-planned :
      (r r' : SchedulersReconciler) (spec : SchedulersSpec)
      → r.resources ≡ []
      → r.base.spec ≡ some spec
      → Scheduler.register_resources f order r ≡ (ok tt, r')
      → Permᴰ
          (map identity r'.resources)
          (role_plan f worker_kinds r.base.role_info spec.role_groups)
  unfolding Scheduler.register_resource_with_role_group Scheduler.resources_of
      new_config_map_builder new_config_reconciler new_statefulset_builder
      new_statefulset_reconciler
  schedulers-planned r r' spec fresh there h =
      register_spec-identity f r.cluster_config (Scheduler.resources_of f r) worker_kinds
        (λ info replicas c o a s named. rw (names.config_map_name, names.stateful_set_name, named))
        Scheduler.spec_view r.base.role_info r'.resources order r.base.spec spec there
        (schedulers_loop f order r r' fresh h)

  pub webservers-planned :
      (r r' : WebserversReconciler) (spec : WebserversSpec)
      → r.resources ≡ []
      → r.base.spec ≡ some spec
      → Webserver.register_resources f order r ≡ (ok tt, r')
      → Permᴰ
          (map identity r'.resources)
          (role_plan f webserver_kinds r.base.role_info spec.role_groups)
  unfolding Webserver.register_resource_with_role_group Webserver.resources_of
      new_config_map_builder new_config_reconciler new_statefulset_builder
      new_statefulset_reconciler
  webservers-planned r r' spec fresh there h =
      register_spec-identity f r.cluster_config (Webserver.resources_of f r) webserver_kinds
        (λ info replicas c o a s named. rw (names.config_map_name, names.stateful_set_name, named))
        Webserver.spec_view r.base.role_info r'.resources order r.base.spec spec there
        (webservers_loop f order r r' fresh h)
