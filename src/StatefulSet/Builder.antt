-- ===== src/StatefulSet/Builder.antt =====
-- internal/controller/common/statefulset.go: the builder and its constructors.
use airflow_operator.Prelude.{String, Bool, Option, none, List}
use airflow_operator.Go.Text.{ℤ}
use airflow_operator.Executor.{ExecutorType}
use airflow_operator.Kube.{ContainerPort}
use airflow_operator.Api.{ClusterConfigSpec, OverridesSpec, RoleGroupConfigSpec}
use airflow_operator.Platform.{Platform, Image, Options, StatefulSetBase}
use airflow_operator.Auth.Types.{Authentication}

pub record StatefulSetBuilder : Type 0 where
  pub base : StatefulSetBase
  pub cluster_config : Option ClusterConfigSpec
  pub executor : ExecutorType
  pub auth : Option Authentication

-- The parameter `auth` is not stored: the field keeps its zero value, nil.
unfoldable pub new_statefulset_builder :
    Platform
    → (name : String) → Option ClusterConfigSpec
    → (replicas : Option ℤ) → Image
    → List ContainerPort
    → Option OverridesSpec
    → Option RoleGroupConfigSpec
    → ExecutorType
    → Option Authentication
    → Options
    → StatefulSetBuilder
new_statefulset_builder p name cluster_config replicas image ports overrides config executor auth
      options =
    record {
      base = p.new_statefulset name replicas image overrides config options;
      cluster_config = cluster_config;
      executor = executor;
      auth = none;
    }

-- `reconciler.StatefulSet`: the builder, and whether the cluster is stopped.
pub record StatefulSetReconciler : Type 0 where
  pub builder : StatefulSetBuilder
  pub stopped : Bool

-- `full_name` is `roleGroupInfo.GetFullName()`; the error is always nil.
unfoldable pub new_statefulset_reconciler :
    Platform
    → (full_name : String) → Option ClusterConfigSpec
    → List ContainerPort
    → Image
    → (replicas : Option ℤ) → (stopped : Bool) → Option OverridesSpec
    → Option RoleGroupConfigSpec
    → ExecutorType
    → Option Authentication
    → Options
    → StatefulSetReconciler
unfolding new_statefulset_builder
new_statefulset_reconciler p full_name cluster_config ports image replicas stopped overrides config
      executor auth options =
    record {
      builder =
          new_statefulset_builder p full_name cluster_config replicas image ports overrides config
            executor auth options;
      stopped = stopped;
    }
