-- ===== src/Api.antt =====
-- api/v1alpha1/airflowcluster_types.go: the custom resource, and the types of operator-go that it
-- embeds, with the fields that the operator reads.
use airflow_operator.Prelude.{String, Option, List, Bool}
use airflow_operator.Go.Text.{ℤ}

-- `OidcSpec` of operator-go.
pub record OidcSpec : Type 0 where
  pub client_credentials_secret : String
  pub extra_scopes : List String

pub record AuthenticationSpec : Type 0 where
  pub authentication_class : String
  pub oidc : Option OidcSpec
  pub sync_roles_at : String
  pub user_registration : Bool
  pub user_registration_role : String

-- `depth` is an `int8` and `wait` an `int16`.
pub record DagsGitSyncSpec : Type 0 where
  pub branch : String
  pub crdentials_secret : String
  pub depth : Option ℤ
  pub git_folder : String
  pub git_sync_conf : List (String × String)
  pub repo : String
  pub wait : Option ℤ

-- The raw extensions are kept as their text.
pub record ClusterConfigSpec : Type 0 where
  pub authentication : List AuthenticationSpec
  pub credentials : String
  pub dags_git_sync : List DagsGitSyncSpec
  pub expose_config : Bool
  pub load_examples : Bool
  pub listener_class : String
  pub vector_aggregator_config_map_name : String
  pub volumes : List String
  pub volume_mounts : List String

-- `LogLevelSpec` of operator-go.
pub record LogLevelSpec : Type 0 where
  pub level : String

-- `LoggingConfigSpec` of operator-go: one container's levels.
pub record LoggingConfigSpec : Type 0 where
  pub loggers : List (String × LogLevelSpec)
  pub console : Option LogLevelSpec
  pub file : Option LogLevelSpec

-- `LoggingSpec` of operator-go.
pub record LoggingSpec : Type 0 where
  pub containers : List (String × LoggingConfigSpec)

-- `RoleGroupConfigSpec` of operator-go: the logging, and the rest as its text.
pub record RoleGroupConfigSpec : Type 0 where
  pub logging : Option LoggingSpec
  pub others : String

-- `OverridesSpec` of operator-go, which the operator hands on unread: its text.
pub record OverridesSpec : Type 0 where
  pub text : String

pub record ConfigSpec : Type 0 where
  pub role_group_config_spec : Option RoleGroupConfigSpec

-- `replicas` is an `int32`.
pub record RoleGroupSpec : Type 0 where
  pub replicas : Option ℤ
  pub config : Option ConfigSpec
  pub overrides_spec : Option OverridesSpec

-- `RoleConfigSpec` of operator-go, handed on unread: its text.
pub record RoleConfigSpec : Type 0 where
  pub text : String

pub record CeleryExecutorsSpec : Type 0 where
  pub role_groups : List (String × RoleGroupSpec)
  pub role_config : Option RoleConfigSpec
  pub config : Option ConfigSpec
  pub overrides_spec : Option OverridesSpec

pub record KubernetesExecutorsSpec : Type 0 where
  pub role_config : Option RoleConfigSpec
  pub config : Option ConfigSpec
  pub overrides_spec : Option OverridesSpec
  pub role_group_config_spec : Option RoleGroupConfigSpec

pub record SchedulersSpec : Type 0 where
  pub role_groups : List (String × RoleGroupSpec)
  pub role_config : Option RoleConfigSpec
  pub config : Option ConfigSpec
  pub overrides_spec : Option OverridesSpec

pub record WebserversSpec : Type 0 where
  pub role_groups : List (String × RoleGroupSpec)
  pub role_config : Option RoleConfigSpec
  pub config : Option ConfigSpec
  pub overrides_spec : Option OverridesSpec

pub record ImageSpec : Type 0 where
  pub custom : String
  pub repo : String
  pub kubedoop_version : String
  pub product_version : String
  pub pull_policy : String
  pub pull_secret_name : String

-- `ClusterOperationSpec` of operator-go.
pub record ClusterOperationSpec : Type 0 where
  pub stopped : Bool
  pub reconciliation_paused : Bool

pub record AirflowClusterSpec : Type 0 where
  pub image : Option ImageSpec
  pub cluster_operation : Option ClusterOperationSpec
  pub cluster_config : Option ClusterConfigSpec
  pub celery_executors : Option CeleryExecutorsSpec
  pub kubernetes_executors : Option KubernetesExecutorsSpec
  pub schedulers : Option SchedulersSpec
  pub webservers : Option WebserversSpec

-- The name of the object's metadata stands for the metadata; the status has no field.
pub record AirflowCluster : Type 0 where
  pub name : String
  pub spec : AirflowClusterSpec

pub data RoleName : Type 0 where
  schedulers webservers celery_executors kubernetes_executors : RoleName

-- The constants of type `RoleName`.
abbrev pub role_name : RoleName → String
role_name schedulers = "schedulers"
role_name webservers = "webservers"
role_name celery_executors = "celeryexecutors"
role_name kubernetes_executors = "kubernetesexecutors"

abbrev pub default_repository : String
default_repository = "quay.io/zncdatadev"

abbrev pub default_product_version : String
default_product_version = "2.10.5"

abbrev pub default_product_name : String
default_product_name = "airflow"

-- api/v1alpha1/groupversion_info.go
abbrev pub group : String
group = "airflow.kubedoop.dev"

abbrev pub version : String
version = "v1alpha1"
