-- ===== src/Framework/Laws.antt =====
-- What the operator relies on in the framework that it is built on.
use airflow_operator.Prelude.{◌≡◌, Option, Bool}
use airflow_operator.Api.{AirflowClusterSpec, ClusterOperationSpec}
use airflow_operator.Framework.Defs.{Framework, RoleInfo, RoleGroupInfo, ClusterInfo}

-- The constructors of the base reconcilers keep their arguments.
abbrev pub KeepsBase : Framework → Type 1
KeepsBase f =
    ((S : Type 0) (stopped : Bool) (info : RoleInfo) (spec : Option S)
      → f.new_base_role S stopped info spec
        ≡ record { cluster_stopped = stopped; role_info = info; spec = spec })
    × ((info : ClusterInfo) (operation : Option ClusterOperationSpec) (spec : AirflowClusterSpec)
        → (f.new_base_cluster info operation spec).spec ≡ spec)

-- The base reconciler of a cluster keeps the cluster's identity.
abbrev pub KeepsClusterInfo : Framework → Type 0
KeepsClusterInfo f =
    (info : ClusterInfo) (operation : Option ClusterOperationSpec) (spec : AirflowClusterSpec)
    → (f.new_base_cluster info operation spec).cluster_info ≡ info

-- A role group knows the name of its role.
abbrev pub KeepsRoleName : Framework → Type 0
KeepsRoleName f = (info : RoleGroupInfo) → f.group_role_name info ≡ info.role_info.role_name
