-- ===== src/Kube.antt =====
-- The Kubernetes objects that the operator builds by itself, with the fields that it sets
-- (k8s.io/api/core/v1).
use airflow_operator.Prelude.{String, Option, none, some, List, Bool}
use airflow_operator.Go.Text.{ℤ}

pub record SecretKeySelector : Type 0 where
  pub key : String
  pub name : String

-- `EnvVar`, with a literal value or a reference to a key of a secret.
pub record EnvVar : Type 0 where
  pub name : String
  pub value : String
  pub secret_key_ref : Option SecretKeySelector

abbrev pub literal_env : String → String → EnvVar
literal_env n v = record { name = n; value = v; secret_key_ref = none }

abbrev pub secret_env : String → String → String → EnvVar
secret_env n secret k = record {
  name = n;
  value = "";
  secret_key_ref = some (record { key = k; name = secret });
}

-- `builder.SecretVolumeScope`
pub record SecretVolumeScope : Type 0 where
  pub pod : Bool
  pub node : Bool
  pub service : List String

-- `VolumeSource`; `ephemeral` is what the secret volume builder makes of a class and a scope.
pub data VolumeSource : Type 0 where
  config_map : (default_mode : ℤ) (name : String) → VolumeSource
  empty_dir : (size_limit : String) → VolumeSource
  ephemeral : (secret_class : String) (scope : SecretVolumeScope) → VolumeSource

pub record Volume : Type 0 where
  pub name : String
  pub source : VolumeSource

pub record VolumeMount : Type 0 where
  pub name : String
  pub mount_path : String

-- `container_port` is an `int32`.
pub record ContainerPort : Type 0 where
  pub name : String
  pub container_port : ℤ
  pub protocol : String
