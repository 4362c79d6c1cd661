-- ===== src/Framework/Defs.antt =====
-- The types and functions of operator-go's `reconciler` and `util` packages that the roles, the
-- cluster and the controller use.
use airflow_operator.Prelude.{String, Option, List, Bool}
use airflow_operator.Go.Outcome.{Outcome}
use airflow_operator.Kube.{ContainerPort}
use airflow_operator.Api.{
  AirflowCluster, AirflowClusterSpec, ClusterOperationSpec, ConfigSpec, OverridesSpec,
}
use airflow_operator.Platform.{Platform, Got}

pub record GroupVersionKind : Type 0 where
  pub group : String
  pub version : String
  pub kind : String

pub record ClusterInfo : Type 0 where
  pub gvk : GroupVersionKind
  pub cluster_name : String

pub record RoleInfo : Type 0 where
  pub cluster_info : ClusterInfo
  pub role_name : String

pub record RoleGroupInfo : Type 0 where
  pub role_info : RoleInfo
  pub role_group_name : String

-- `BaseRoleReconciler[*S]`: what `ClusterStopped()`, `RoleInfo` and `Spec` give.
pub record BaseRole (S : Type 0) : Type 0 where
  pub cluster_stopped : Bool
  pub role_info : RoleInfo
  pub spec : Option S

-- `builder.ServiceBuilderOptions`, with the fields that the operator sets.
pub record ServiceBuilderOptions : Type 0 where
  pub annotations : List (String × String)
  pub labels : List (String × String)

-- `reconciler.Service`: the arguments of `NewServiceReconciler`.
pub record ServiceReconciler : Type 0 where
  pub full_name : String
  pub ports : List ContainerPort
  pub options : List ServiceBuilderOptions

-- `BaseCluster[*AirflowClusterSpec]`: `ClusterInfo`, what `IsStopped()` gives, and `Spec`.
pub record BaseCluster : Type 0 where
  pub cluster_info : ClusterInfo
  pub stopped : Bool
  pub spec : AirflowClusterSpec

-- `ctrl.Result`
pub record Result : Type 0 where
  pub requeue : Bool

pub record NamespacedName : Type 0 where
  pub namespace : String
  pub name : String

pub record Framework : Type 1 where
  pub platform : Platform
  -- `GetClusterName`, `GetRoleName`, `GetGroupName`, `GetFullName` of a role group
  pub group_cluster_name : RoleGroupInfo → String
  pub group_role_name : RoleGroupInfo → String
  pub group_name : RoleGroupInfo → String
  pub group_full_name : RoleGroupInfo → String
  -- `GetLabels` and `GetAnnotations`; a nil map is `none`
  pub group_labels : RoleGroupInfo → Option (List (String × String))
  pub group_annotations : RoleGroupInfo → Option (List (String × String))
  -- `util.MergeObject` at the two types it is used at
  pub merge_config : Option ConfigSpec → Option ConfigSpec → Outcome (Option ConfigSpec)
  pub merge_overrides : Option OverridesSpec → Option OverridesSpec → Outcome (Option OverridesSpec)
  -- `reconciler.NewBaseRoleReconciler(client, stopped, info, spec)`
  pub new_base_role : (S : Type 0) → Bool → RoleInfo → Option S → BaseRole S
  -- `reconciler.NewBaseCluster(client, info, operation, spec)`
  pub new_base_cluster :
      ClusterInfo → Option ClusterOperationSpec → AirflowClusterSpec → BaseCluster
  -- `r.Get(ctx, name, instance)` of an `AirflowCluster`
  pub get_cluster : NamespacedName → Got AirflowCluster
