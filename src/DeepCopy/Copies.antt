-- ===== src/DeepCopy/Copies.antt =====
-- api/v1alpha1/zz_generated.deepcopy.go: `DeepCopyInto`, `DeepCopy` and `DeepCopyObject` of each type. A
-- `DeepCopyInto` takes the struct `*in` and returns what it leaves in `*out`.
use airflow_operator.Prelude.{String, none, some, List}
use airflow_operator.Go.Text.{ℤ}
use airflow_operator.Api.{ImageSpec, ClusterOperationSpec}
use airflow_operator.DeepCopy.Memory.{
  Action, Pointer, new_copy, each, copy_of, entries, fields, ◌⊗◌, pure, ◌>>=◌,
}
use airflow_operator.DeepCopy.Types.{
  Foreign, AuthenticationStruct, DagsGitSyncStruct, ClusterConfigStruct, ConfigStruct,
  RoleGroupStruct, CeleryExecutorsStruct, KubernetesExecutorsStruct, SchedulersStruct,
  WebserversStruct, SpecStruct, AirflowClusterStatus, ClusterStruct, ClusterListStruct,
}
use airflow_operator.DeepCopy.Cells.{
  Cell, image_stored, operation_stored, number_stored, texts_stored, authentication_stored,
  authentications_stored, git_sync_stored, git_syncs_stored, cluster_config_stored, config_stored,
  role_group_stored, role_groups_stored, celery_executors_stored, kubernetes_executors_stored,
  schedulers_stored, webservers_stored, spec_stored, status_stored, cluster_stored, clusters_stored,
  cluster_list_stored, oidc_stored, overrides_stored, role_config_stored, role_group_config_stored,
  raw_extensions_stored,
}
use airflow_operator.DeepCopy.Parts.{
  authentication_parts, with_authentication, git_sync_parts, with_git_sync, cluster_config_parts,
  with_cluster_config, config_parts, with_config, role_group_parts, with_role_group,
  celery_executors_parts, with_celery_executors, kubernetes_executors_parts,
  with_kubernetes_executors, schedulers_parts, with_schedulers, webservers_parts, with_webservers,
  spec_parts, with_spec, cluster_parts, with_cluster, cluster_list_parts, with_cluster_list,
}

-- `DeepCopyInto` of the structs of operator-go and of Kubernetes.
pub record ForeignCopies (X : Foreign) : Type 0 where
  pub oidc_deep_copy_into : X.Oidc → Action (Cell X) X.Oidc
  pub overrides_deep_copy_into : X.Overrides → Action (Cell X) X.Overrides
  pub role_config_deep_copy_into : X.RoleConfig → Action (Cell X) X.RoleConfig
  pub role_group_config_deep_copy_into : X.RoleGroupConfig → Action (Cell X) X.RoleGroupConfig
  pub raw_extension_deep_copy_into : X.RawExtension → Action (Cell X) X.RawExtension
  pub object_meta_deep_copy_into : X.ObjectMeta → Action (Cell X) X.ObjectMeta
  pub list_meta_deep_copy_into : X.ListMeta → Action (Cell X) X.ListMeta

module _ {X : Foreign} where
  unfoldable pub image_deep_copy_into : ImageSpec → Action (Cell X) ImageSpec
  image_deep_copy_into = pure

  unfoldable pub image_deep_copy : Pointer → Action (Cell X) Pointer
  image_deep_copy = new_copy image_deep_copy_into

  unfoldable pub status_deep_copy_into : AirflowClusterStatus → Action (Cell X) AirflowClusterStatus
  status_deep_copy_into = pure

  unfoldable pub status_deep_copy : Pointer → Action (Cell X) Pointer
  status_deep_copy = new_copy status_deep_copy_into

-- `if c := …; c != nil { return c }; return nil`: an interface that is nil for a nil pointer.
abbrev pub object_of : {C : Type 0} → Pointer → Action C Pointer
object_of none = pure none
object_of (some q) = pure (some q)

module _ {X : Foreign} (F : ForeignCopies X) where
  unfoldable pub authentication_deep_copy_into :
      AuthenticationStruct → Action (Cell X) AuthenticationStruct
  authentication_deep_copy_into =
      fields authentication_parts with_authentication (new_copy F.oidc_deep_copy_into)

  unfoldable pub authentication_deep_copy : Pointer → Action (Cell X) Pointer
  authentication_deep_copy = new_copy authentication_deep_copy_into

  unfoldable pub config_deep_copy_into : ConfigStruct → Action (Cell X) ConfigStruct
  config_deep_copy_into =
      fields config_parts with_config (new_copy F.role_group_config_deep_copy_into)

  unfoldable pub config_deep_copy : Pointer → Action (Cell X) Pointer
  config_deep_copy = new_copy config_deep_copy_into

  unfoldable pub git_sync_deep_copy_into : DagsGitSyncStruct → Action (Cell X) DagsGitSyncStruct
  git_sync_deep_copy_into = fields git_sync_parts with_git_sync (
      new_copy {A = ℤ} pure
      ⊗ new_copy {A = List (String × String)} (entries pure)
      ⊗ new_copy {A = ℤ} pure)

  unfoldable pub git_sync_deep_copy : Pointer → Action (Cell X) Pointer
  git_sync_deep_copy = new_copy git_sync_deep_copy_into

  unfoldable pub cluster_config_deep_copy_into :
      ClusterConfigStruct → Action (Cell X) ClusterConfigStruct
  cluster_config_deep_copy_into = fields cluster_config_parts with_cluster_config (
      new_copy (each authentication_deep_copy_into)
      ⊗ new_copy (each git_sync_deep_copy_into)
      ⊗ new_copy (each F.raw_extension_deep_copy_into)
      ⊗ new_copy (each F.raw_extension_deep_copy_into))

  unfoldable pub cluster_config_deep_copy : Pointer → Action (Cell X) Pointer
  cluster_config_deep_copy = new_copy cluster_config_deep_copy_into

  unfoldable pub role_group_deep_copy_into : RoleGroupStruct → Action (Cell X) RoleGroupStruct
  role_group_deep_copy_into =
      fields role_group_parts with_role_group (
        new_copy {A = ℤ} pure
        ⊗ new_copy config_deep_copy_into
        ⊗ new_copy F.overrides_deep_copy_into)

  unfoldable pub role_group_deep_copy : Pointer → Action (Cell X) Pointer
  role_group_deep_copy = new_copy role_group_deep_copy_into

  unfoldable pub celery_executors_deep_copy_into :
      CeleryExecutorsStruct → Action (Cell X) CeleryExecutorsStruct
  celery_executors_deep_copy_into = fields celery_executors_parts with_celery_executors (
      new_copy (entries (copy_of role_group_deep_copy_into))
      ⊗ new_copy F.role_config_deep_copy_into
      ⊗ new_copy config_deep_copy_into
      ⊗ new_copy F.overrides_deep_copy_into)

  unfoldable pub celery_executors_deep_copy : Pointer → Action (Cell X) Pointer
  celery_executors_deep_copy = new_copy celery_executors_deep_copy_into

  unfoldable pub kubernetes_executors_deep_copy_into :
      KubernetesExecutorsStruct → Action (Cell X) KubernetesExecutorsStruct
  kubernetes_executors_deep_copy_into =
      fields kubernetes_executors_parts with_kubernetes_executors (
        new_copy F.role_config_deep_copy_into
        ⊗ new_copy config_deep_copy_into
        ⊗ new_copy F.overrides_deep_copy_into
        ⊗ new_copy F.role_group_config_deep_copy_into)

  unfoldable pub kubernetes_executors_deep_copy : Pointer → Action (Cell X) Pointer
  kubernetes_executors_deep_copy = new_copy kubernetes_executors_deep_copy_into

  unfoldable pub schedulers_deep_copy_into : SchedulersStruct → Action (Cell X) SchedulersStruct
  schedulers_deep_copy_into = fields schedulers_parts with_schedulers (
      new_copy (entries (copy_of role_group_deep_copy_into))
      ⊗ new_copy F.role_config_deep_copy_into
      ⊗ new_copy config_deep_copy_into
      ⊗ new_copy F.overrides_deep_copy_into)

  unfoldable pub schedulers_deep_copy : Pointer → Action (Cell X) Pointer
  schedulers_deep_copy = new_copy schedulers_deep_copy_into

  unfoldable pub webservers_deep_copy_into : WebserversStruct → Action (Cell X) WebserversStruct
  webservers_deep_copy_into = fields webservers_parts with_webservers (
      new_copy (entries (copy_of role_group_deep_copy_into))
      ⊗ new_copy F.role_config_deep_copy_into
      ⊗ new_copy config_deep_copy_into
      ⊗ new_copy F.overrides_deep_copy_into)

  unfoldable pub webservers_deep_copy : Pointer → Action (Cell X) Pointer
  webservers_deep_copy = new_copy webservers_deep_copy_into

  unfoldable pub spec_deep_copy_into : SpecStruct → Action (Cell X) SpecStruct
  spec_deep_copy_into = fields spec_parts with_spec (
      new_copy {A = ImageSpec} pure
      ⊗ new_copy {A = ClusterOperationSpec} pure
      ⊗ new_copy cluster_config_deep_copy_into
      ⊗ new_copy celery_executors_deep_copy_into
      ⊗ new_copy kubernetes_executors_deep_copy_into
      ⊗ new_copy schedulers_deep_copy_into
      ⊗ new_copy webservers_deep_copy_into)

  unfoldable pub spec_deep_copy : Pointer → Action (Cell X) Pointer
  spec_deep_copy = new_copy spec_deep_copy_into

  unfoldable pub cluster_deep_copy_into : ClusterStruct X → Action (Cell X) (ClusterStruct X)
  cluster_deep_copy_into =
      fields cluster_parts with_cluster (F.object_meta_deep_copy_into ⊗ spec_deep_copy_into)

  unfoldable pub cluster_deep_copy : Pointer → Action (Cell X) Pointer
  cluster_deep_copy = new_copy cluster_deep_copy_into

  unfoldable pub cluster_list_deep_copy_into :
      ClusterListStruct X → Action (Cell X) (ClusterListStruct X)
  cluster_list_deep_copy_into =
      fields cluster_list_parts with_cluster_list
        (F.list_meta_deep_copy_into ⊗ new_copy (each cluster_deep_copy_into))

  unfoldable pub cluster_list_deep_copy : Pointer → Action (Cell X) Pointer
  cluster_list_deep_copy = new_copy cluster_list_deep_copy_into

  unfoldable pub cluster_deep_copy_object : Pointer → Action (Cell X) Pointer
  cluster_deep_copy_object in_ = do c ← cluster_deep_copy in_; object_of c

  unfoldable pub cluster_list_deep_copy_object : Pointer → Action (Cell X) Pointer
  cluster_list_deep_copy_object in_ = do c ← cluster_list_deep_copy in_; object_of c
