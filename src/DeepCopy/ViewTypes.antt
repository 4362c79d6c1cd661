-- ===== src/DeepCopy/ViewTypes.antt =====
-- What the structs of DeepCopy/Types stand for: the specs of Api, in which a slice or a map may also be
-- nil.
use airflow_operator.Prelude.{String, Option, List, Bool}
use airflow_operator.Go.Text.{ℤ}
use airflow_operator.Api.{
  ImageSpec, ClusterOperationSpec, OverridesSpec, RoleConfigSpec, AuthenticationSpec, ConfigSpec,
  RoleGroupSpec, KubernetesExecutorsSpec,
}
use airflow_operator.DeepCopy.Types.{TypeMeta, AirflowClusterStatus}

pub record DagsGitSyncView : Type 0 where
  pub branch : String
  pub crdentials_secret : String
  pub depth : Option ℤ
  pub git_folder : String
  pub git_sync_conf : Option (List (String × String))
  pub repo : String
  pub wait : Option ℤ

pub record ClusterConfigView : Type 0 where
  pub authentication : Option (List AuthenticationSpec)
  pub credentials : String
  pub dags_git_sync : Option (List DagsGitSyncView)
  pub expose_config : Bool
  pub load_examples : Bool
  pub listener_class : String
  pub vector_aggregator_config_map_name : String
  pub volumes : Option (List String)
  pub volume_mounts : Option (List String)

-- The Celery executors, the schedulers and the webservers have the same fields.
pub record RoleView : Type 0 where
  pub role_groups : Option (List (String × RoleGroupSpec))
  pub role_config : Option RoleConfigSpec
  pub config : Option ConfigSpec
  pub overrides_spec : Option OverridesSpec

pub record SpecView : Type 0 where
  pub image : Option ImageSpec
  pub cluster_operation : Option ClusterOperationSpec
  pub cluster_config : Option ClusterConfigView
  pub celery_executors : Option RoleView
  pub kubernetes_executors : Option KubernetesExecutorsSpec
  pub schedulers : Option RoleView
  pub webservers : Option RoleView

-- The metadata of Kubernetes by their text.
pub record ClusterView : Type 0 where
  pub type_meta : TypeMeta
  pub object_meta : String
  pub spec : SpecView
  pub status : AirflowClusterStatus

pub record ClusterListView : Type 0 where
  pub type_meta : TypeMeta
  pub list_meta : String
  pub items : Option (List ClusterView)
