-- ===== src/Platform/Defs.antt =====
-- What the operator is given: constants, reads of the API server, builders of other objects.
use airflow_operator.Prelude.{String, Option, List, Bool}
use airflow_operator.Go.Text.{ℤ}
use airflow_operator.Go.Outcome.{Error, Outcome}
use airflow_operator.Kube.{EnvVar, Volume, VolumeMount, SecretVolumeScope}
use airflow_operator.Api.{OverridesSpec, RoleGroupConfigSpec}

-- `CredentialsScope` and `Credentials` of operator-go.
pub record CredentialsScope : Type 0 where
  pub pod : Bool
  pub node : Bool
  pub services : List String

pub record Credentials : Type 0 where
  pub secret_class : String
  pub scope : Option CredentialsScope

pub record LdapFieldNames : Type 0 where
  pub email : String
  pub given_name : String
  pub group : String
  pub surname : String
  pub uid : String

pub record LdapProvider : Type 0 where
  pub hostname : String
  pub port : ℤ
  pub search_base : String
  pub search_filter : String
  pub ldap_field_names : Option LdapFieldNames
  pub bind_credentials : Option Credentials

pub record OidcProvider : Type 0 where
  pub hostname : String
  pub port : ℤ
  pub root_path : String
  pub scopes : List String
  pub provider_hint : String

-- `AuthenticationProvider`, a union by optional fields.
pub record AuthenticationProvider : Type 0 where
  pub oidc : Option OidcProvider
  pub ldap : Option LdapProvider

-- What a read of the API server gives; `ctrlclient.IgnoreNotFound` tells the last two apart.
pub data Got {ℓ} (A : Type ℓ) : Type ℓ where
  found : A → Got A
  not_found : Got A
  failed : Error → Got A

-- A value of the data of a template.
pub data Value : Type 0 where
  text : String → Value
  text_pointer : Option String → Value
  bool_pointer : Option Bool → Value
  texts : List (String × String) → Value

-- `util.Image` and `util.ImageOptions`.
pub record Image : Type 0 where
  pub custom : String
  pub repo : String
  pub kubedoop_version : String
  pub product_name : String
  pub product_version : String
  pub pull_policy : String

pub record ImageOptions : Type 0 where
  pub custom : String
  pub repo : String
  pub pull_policy : String

-- `builder.Options`; nil maps are `none`.
pub record Options : Type 0 where
  pub cluster_name : String
  pub role_name : String
  pub role_group_name : String
  pub labels : Option (List (String × String))
  pub annotations : Option (List (String × String))

-- A container as its builder is told to make it.
pub record Container : Type 0 where
  pub name : String
  pub image : Image
  pub command : List String
  pub args : List String
  pub env : List EnvVar
  pub volume_mounts : List VolumeMount

-- The calls that change a `builder.StatefulSet`.
pub data StatefulSetCall : Type 0 where
  add_container : Container → StatefulSetCall
  add_volumes : List Volume → StatefulSetCall

-- `builder.StatefulSet`: the fields that the operator reads, what the constructor was given, and
-- the calls made since, the first one in front.
pub record StatefulSetBase : Type 0 where
  pub name : String
  pub role_name : String
  pub role_group_name : String
  pub image : Image
  pub replicas : Option ℤ
  pub overrides : Option OverridesSpec
  pub role_group_config : Option RoleGroupConfigSpec
  pub options : Options
  pub calls : List StatefulSetCall

-- `builder.ConfigMapBuilder`, with the calls of `AddItem`.
pub record ConfigMapBase : Type 0 where
  pub name : String
  pub cluster_name : String
  pub role_name : String
  pub role_group_name : String
  pub options : Options
  pub items : List (String × String)

-- An object for the API server: its text.
pub record Object : Type 0 where
  pub object_text : String

pub record Platform : Type 0 where
  -- `constants` of operator-go
  pub kubedoop_root : String
  pub kubedoop_config_dir_mount : String
  pub kubedoop_log_dir : String
  pub kubedoop_secret_dir : String
  pub service_scope : String
  -- `client.Get` of an `AuthenticationClass`, down to the provider of its spec
  pub get_authentication_class : String → Got (Option AuthenticationProvider)
  -- `builder.NewSecretOperatorVolume(name, class)`, `SetScope(scope)`, `Builde()`
  pub secret_operator_volume : String → String → SecretVolumeScope → Volume
  -- `Keys` and `Get` of a `properties.Properties`, after these calls of `Add`
  pub property_keys : List (String × String) → List String
  pub property_get : List (String × String) → String → String
  -- `config.TemplateParser{Template, Value}.Parse()`
  pub parse_template : String → List (String × Value) → Outcome String
  -- `util.IndentTab4Spaces`
  pub indent_tab_4_spaces : String → String
  pub vector_shutdown_file : String
  pub vector_watcher_dir : String
  -- `builder.NewStatefulSetBuilder(client, name, replicas, image, overrides, config, options)`
  pub new_statefulset :
      String
      → Option ℤ
      → Image
      → Option OverridesSpec
      → Option RoleGroupConfigSpec
      → Options
      → StatefulSetBase
  -- `GetObject` and `GetVolumes` of the stateful set's builder
  pub statefulset_object : StatefulSetBase → Outcome Object
  pub statefulset_volumes : StatefulSetBase → List Volume
  -- `builder.NewVector(name, logVolume, image).GetContainer()`
  pub vector_container : String → String → Image → Container
  -- `builder.NewConfigMapBuilder(client, name, options)` and `GetObject`
  pub new_config_map : String → Options → ConfigMapBase
  pub config_map_object : ConfigMapBase → Object
  -- `productlogging.MakeVectorYaml` of the cluster, the role, the role group and the aggregator
  pub make_vector_yaml : String → String → String → String → Outcome String
  -- `util.NewImage(product, kubedoopVersion, productVersion, options)`
  pub new_image : String → String → String → ImageOptions → Image
