-- ===== src/DeepCopy/Reads.antt =====
-- What the structs of the memory stand for, with every pointer followed: the values of ViewTypes and
-- of Api.
use airflow_operator.Prelude.{String, Option}
use airflow_operator.Go.Text.{ℤ}
use airflow_operator.Api.{
  ImageSpec, ClusterOperationSpec, OidcSpec, OverridesSpec, RoleConfigSpec, RoleGroupConfigSpec,
  AuthenticationSpec, ConfigSpec, RoleGroupSpec, KubernetesExecutorsSpec,
}
use airflow_operator.DeepCopy.Memory.{Heap}
use airflow_operator.DeepCopy.Types.{
  Foreign, AuthenticationStruct, DagsGitSyncStruct, ClusterConfigStruct, ConfigStruct,
  RoleGroupStruct, CeleryExecutorsStruct, KubernetesExecutorsStruct, SchedulersStruct,
  WebserversStruct, SpecStruct, ClusterStruct, ClusterListStruct,
}
use airflow_operator.DeepCopy.Cells.{
  Cell, image_stored, operation_stored, number_stored, texts_stored, authentication_stored,
  authentications_stored, git_sync_stored, git_syncs_stored, cluster_config_stored, config_stored,
  role_group_stored, role_groups_stored, celery_executors_stored, kubernetes_executors_stored,
  schedulers_stored, webservers_stored, spec_stored, status_stored, cluster_stored, clusters_stored,
  cluster_list_stored, oidc_stored, overrides_stored, role_config_stored, role_group_config_stored,
  raw_extensions_stored,
}
use airflow_operator.DeepCopy.Parts.{
  authentication_parts, git_sync_parts, cluster_config_parts, config_parts, role_group_parts,
  celery_executors_parts, kubernetes_executors_parts, schedulers_parts, webservers_parts,
  spec_parts, cluster_parts, cluster_list_parts,
}
use airflow_operator.DeepCopy.Views.{
  read_pointer, read_flat, read_fields, ◌⊕◌, read_slice, read_map,
}
use airflow_operator.DeepCopy.Values.{
  make_authentication, make_config, make_git_sync, make_cluster_config, make_role_group,
  make_celery_executors, make_kubernetes_executors, make_schedulers, make_webservers, make_spec,
  make_cluster, make_cluster_list,
}
use airflow_operator.DeepCopy.ViewTypes.{
  DagsGitSyncView, ClusterConfigView, RoleView, SpecView, ClusterView, ClusterListView,
}

-- What the structs of operator-go and of Kubernetes stand for.
pub record ForeignViews (X : Foreign) : Type 0 where
  pub oidc_read : Heap (Cell X) → X.Oidc → Option OidcSpec
  pub overrides_read : Heap (Cell X) → X.Overrides → Option OverridesSpec
  pub role_config_read : Heap (Cell X) → X.RoleConfig → Option RoleConfigSpec
  pub role_group_config_read : Heap (Cell X) → X.RoleGroupConfig → Option RoleGroupConfigSpec
  pub raw_extension_read : Heap (Cell X) → X.RawExtension → Option String
  pub object_meta_read : Heap (Cell X) → X.ObjectMeta → Option String
  pub list_meta_read : Heap (Cell X) → X.ListMeta → Option String

module _ {X : Foreign} (G : ForeignViews X) where
  unfoldable pub authentication_read :
      Heap (Cell X) → AuthenticationStruct → Option AuthenticationSpec
  authentication_read =
      read_fields authentication_parts make_authentication (read_pointer G.oidc_read)

  unfoldable pub config_read : Heap (Cell X) → ConfigStruct → Option ConfigSpec
  config_read = read_fields config_parts make_config (read_pointer G.role_group_config_read)

  unfoldable pub git_sync_read : Heap (Cell X) → DagsGitSyncStruct → Option DagsGitSyncView
  git_sync_read = read_fields git_sync_parts make_git_sync (
      read_pointer {A = ℤ} (read_flat (λ z. z))
      ⊕ read_map {A = String} (read_flat (λ z. z))
      ⊕ read_pointer {A = ℤ} (read_flat (λ z. z)))

  unfoldable pub cluster_config_read :
      Heap (Cell X) → ClusterConfigStruct → Option ClusterConfigView
  cluster_config_read = read_fields cluster_config_parts make_cluster_config (
      read_slice authentication_read
      ⊕ read_slice git_sync_read
      ⊕ read_slice G.raw_extension_read
      ⊕ read_slice G.raw_extension_read)

  unfoldable pub role_group_read : Heap (Cell X) → RoleGroupStruct → Option RoleGroupSpec
  role_group_read = read_fields role_group_parts make_role_group (
      read_pointer {A = ℤ} (read_flat (λ z. z))
      ⊕ read_pointer config_read
      ⊕ read_pointer G.overrides_read)

  unfoldable pub celery_executors_read : Heap (Cell X) → CeleryExecutorsStruct → Option RoleView
  celery_executors_read = read_fields celery_executors_parts make_celery_executors (
      read_map role_group_read
      ⊕ read_pointer G.role_config_read
      ⊕ read_pointer config_read
      ⊕ read_pointer G.overrides_read)

  unfoldable pub kubernetes_executors_read :
      Heap (Cell X) → KubernetesExecutorsStruct → Option KubernetesExecutorsSpec
  kubernetes_executors_read = read_fields kubernetes_executors_parts make_kubernetes_executors (
      read_pointer G.role_config_read
      ⊕ read_pointer config_read
      ⊕ read_pointer G.overrides_read
      ⊕ read_pointer G.role_group_config_read)

  unfoldable pub schedulers_read : Heap (Cell X) → SchedulersStruct → Option RoleView
  schedulers_read = read_fields schedulers_parts make_schedulers (
      read_map role_group_read
      ⊕ read_pointer G.role_config_read
      ⊕ read_pointer config_read
      ⊕ read_pointer G.overrides_read)

  unfoldable pub webservers_read : Heap (Cell X) → WebserversStruct → Option RoleView
  webservers_read = read_fields webservers_parts make_webservers (
      read_map role_group_read
      ⊕ read_pointer G.role_config_read
      ⊕ read_pointer config_read
      ⊕ read_pointer G.overrides_read)

  unfoldable pub spec_read : Heap (Cell X) → SpecStruct → Option SpecView
  spec_read = read_fields spec_parts make_spec (
      read_pointer {A = ImageSpec} (read_flat (λ z. z))
      ⊕ read_pointer {A = ClusterOperationSpec} (read_flat (λ z. z))
      ⊕ read_pointer cluster_config_read
      ⊕ read_pointer celery_executors_read
      ⊕ read_pointer kubernetes_executors_read
      ⊕ read_pointer schedulers_read
      ⊕ read_pointer webservers_read)

  unfoldable pub cluster_read : Heap (Cell X) → ClusterStruct X → Option ClusterView
  cluster_read = read_fields cluster_parts make_cluster (G.object_meta_read ⊕ spec_read)

  unfoldable pub cluster_list_read : Heap (Cell X) → ClusterListStruct X → Option ClusterListView
  cluster_list_read =
      read_fields cluster_list_parts make_cluster_list (G.list_meta_read ⊕ read_slice cluster_read)
