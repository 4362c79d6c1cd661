-- ===== src/DeepCopy/Types.antt =====
-- The structs of api/v1alpha1/airflowcluster_types.go as they lie in the memory: a field that is a
-- pointer, a slice or a map is an address. Structs without one are those of Api.
use airflow_operator.Prelude.{String, Bool}
use airflow_operator.DeepCopy.Memory.{Pointer}

-- The structs of operator-go and of Kubernetes, as they lie in the memory, and `Own`, what the
-- cells that only they point to hold.
pub record Foreign : Type 1 where
  pub Oidc : Type 0
  pub Overrides : Type 0
  pub RoleConfig : Type 0
  pub RoleGroupConfig : Type 0
  pub RawExtension : Type 0
  pub ObjectMeta : Type 0
  pub ListMeta : Type 0
  pub Own : Type 0

pub record AuthenticationStruct : Type 0 where
  pub authentication_class : String
  pub oidc : Pointer
  pub sync_roles_at : String
  pub user_registration : Bool
  pub user_registration_role : String

pub record DagsGitSyncStruct : Type 0 where
  pub branch : String
  pub crdentials_secret : String
  pub depth : Pointer
  pub git_folder : String
  pub git_sync_conf : Pointer
  pub repo : String
  pub wait : Pointer

pub record ClusterConfigStruct : Type 0 where
  pub authentication : Pointer
  pub credentials : String
  pub dags_git_sync : Pointer
  pub expose_config : Bool
  pub load_examples : Bool
  pub listener_class : String
  pub vector_aggregator_config_map_name : String
  pub volumes : Pointer
  pub volume_mounts : Pointer

pub record ConfigStruct : Type 0 where
  pub role_group_config_spec : Pointer

pub record RoleGroupStruct : Type 0 where
  pub replicas : Pointer
  pub config : Pointer
  pub overrides_spec : Pointer

pub record CeleryExecutorsStruct : Type 0 where
  pub role_groups : Pointer
  pub role_config : Pointer
  pub config : Pointer
  pub overrides_spec : Pointer

pub record KubernetesExecutorsStruct : Type 0 where
  pub role_config : Pointer
  pub config : Pointer
  pub overrides_spec : Pointer
  pub role_group_config_spec : Pointer

pub record SchedulersStruct : Type 0 where
  pub role_groups : Pointer
  pub role_config : Pointer
  pub config : Pointer
  pub overrides_spec : Pointer

pub record WebserversStruct : Type 0 where
  pub role_groups : Pointer
  pub role_config : Pointer
  pub config : Pointer
  pub overrides_spec : Pointer

pub record SpecStruct : Type 0 where
  pub image : Pointer
  pub cluster_operation : Pointer
  pub cluster_config : Pointer
  pub celery_executors : Pointer
  pub kubernetes_executors : Pointer
  pub schedulers : Pointer
  pub webservers : Pointer

-- The struct has no field.
pub data AirflowClusterStatus : Type 0 where
  empty_status : AirflowClusterStatus

-- `TypeMeta` of apimachinery.
pub record TypeMeta : Type 0 where
  pub kind : String
  pub api_version : String

pub record ClusterStruct (X : Foreign) : Type 0 where
  pub type_meta : TypeMeta
  pub object_meta : X.ObjectMeta
  pub spec : SpecStruct
  pub status : AirflowClusterStatus

pub record ClusterListStruct (X : Foreign) : Type 0 where
  pub type_meta : TypeMeta
  pub list_meta : X.ListMeta
  pub items : Pointer
