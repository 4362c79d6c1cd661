-- ===== src/Cluster/Plan.antt =====
-- internal/controller/cluster.go, described without its code: the objects of a cluster, in no order.
use mathlib.Core.List.{Permᴰ, flat_map}
use mathlib.Core.Quot.{Quot}
use airflow_operator.Prelude.{String, Option, none, some, List, [], ◌++◌, map}
use airflow_operator.Api.{
  AirflowClusterSpec, RoleGroupSpec, RoleName, celery_executors, schedulers, webservers, role_name,
}
use airflow_operator.Framework.{Framework, ClusterInfo}
use airflow_operator.Role.Groups.{RoleSpec}
use airflow_operator.Role.Steps.{Kind}
use airflow_operator.Role.Plan.{Identity, identity, role_plan}
use airflow_operator.Role.PlannedRoles.{worker_kinds, webserver_kinds}
use airflow_operator.Role.Scheduler
use airflow_operator.Role.CeleryExecutor
use airflow_operator.Role.Webserver
use airflow_operator.Cluster.Defs.{
  Role, celery_role, schedulers_role, webservers_role, ClusterReconciler,
}

-- Lists, however they are ordered.
abbrev pub Bag : Type 0 → Type 0
Bag A = Quot (Permᴰ {A = A})

-- The role groups of a role that may have no spec.
abbrev pub groups_of : {S : Type 0} → (S → RoleSpec) → Option S → List (String × RoleGroupSpec)
groups_of view none = []
groups_of view (some s) = (view s).role_groups

abbrev pub plan_of_role :
    {S : Type 0}
    → Framework
    → ClusterInfo
    → RoleName
    → List Kind
    → (S → RoleSpec)
    → Option S
    → List Identity
plan_of_role f info name kinds view x =
    role_plan f kinds (record { cluster_info = info; role_name = role_name name })
      (groups_of view x)

-- The objects that a cluster is to have.
abbrev pub planned_objects : Framework → ClusterInfo → AirflowClusterSpec → Bag Identity
planned_objects f info spec = Quot.mk (
    plan_of_role f info celery_executors worker_kinds CeleryExecutor.spec_view spec.celery_executors
    ++ (plan_of_role f info schedulers worker_kinds Scheduler.spec_view spec.schedulers
        ++ plan_of_role f info webservers webserver_kinds Webserver.spec_view spec.webservers))

abbrev pub role_identities : Role → List Identity
role_identities (celery_role c) = map identity c.resources
role_identities (schedulers_role s) = map identity s.resources
role_identities (webservers_role w) = map identity w.resources

-- The objects that a reconciler has registered.
abbrev pub registered_objects : ClusterReconciler → Bag Identity
registered_objects r = Quot.mk (flat_map role_identities r.resources)
