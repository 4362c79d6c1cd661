-- ===== src/Tests/Copies/Shapes.antt =====
-- The structs of operator-go and of Kubernetes with their copies, written out for the tests.
use airflow_operator.Prelude.{[], String, refl, Option, none, some, List}
use airflow_operator.Api.{OidcSpec, OverridesSpec, RoleConfigSpec, RoleGroupConfigSpec}
use airflow_operator.DeepCopy.Memory.{Heap, Action, Pointer, Stored, new_copy, fields, pure}
use airflow_operator.DeepCopy.Views.{read_pointer, read_flat, read_fields}
use airflow_operator.DeepCopy.Types.{Foreign}
use airflow_operator.DeepCopy.Cells.{
  Cell, own_cell, image_stored, operation_stored, number_stored, texts_stored,
  authentication_stored, authentications_stored, git_sync_stored, git_syncs_stored,
  cluster_config_stored, config_stored, role_group_stored, role_groups_stored,
  celery_executors_stored, kubernetes_executors_stored, schedulers_stored, webservers_stored,
  spec_stored, status_stored, cluster_stored, clusters_stored, cluster_list_stored, oidc_stored,
  overrides_stored, role_config_stored, role_group_config_stored, raw_extensions_stored,
}
use airflow_operator.DeepCopy.Loops.{flat-IsDeep, new_copy-IsDeep}
use airflow_operator.DeepCopy.Fields.{fields-IsDeep}
use airflow_operator.DeepCopy.Reads.{ForeignViews}
use airflow_operator.DeepCopy.Copies.{ForeignCopies}
use airflow_operator.DeepCopy.AreDeep.{ForeignAreDeep}

-- `OidcSpec` has a slice of scopes, whose array is a cell of its own; the other structs of the
-- libraries are taken without pointers.
abbrev pub shapes : Foreign
shapes = record {
  Oidc = String × Pointer;
  Overrides = OverridesSpec;
  RoleConfig = RoleConfigSpec;
  RoleGroupConfig = RoleGroupConfigSpec;
  RawExtension = String;
  ObjectMeta = String;
  ListMeta = String;
  Own = List String;
}

abbrev pub scopes_stored : Stored (Cell shapes) (List String)
scopes_stored = record {
  inj = own_cell;
  proj = λ c. elim c [ own_cell a ↦ some a | _ ↦ none ];
  proj-inj = λ a. refl;
}

abbrev pub scopes_of : String × Pointer → Pointer
scopes_of o = o.1

abbrev pub with_scopes : String × Pointer → Pointer → String × Pointer
with_scopes o p = (o.0, p)

-- A nil slice of scopes has no scopes.
abbrev elements : Option (List String) → List String
elements none = []
elements (some ws) = ws

abbrev pub make_oidc : String × Pointer → Option (List String) → OidcSpec
make_oidc o scopes = record { client_credentials_secret = o.0; extra_scopes = elements scopes }

abbrev pub oidc_copy : String × Pointer → Action (Cell shapes) (String × Pointer)
oidc_copy = fields scopes_of with_scopes (new_copy ⦃s = scopes_stored⦄ pure)

abbrev pub oidc_view : Heap (Cell shapes) → String × Pointer → Option OidcSpec
oidc_view = read_fields scopes_of make_oidc (read_pointer ⦃s = scopes_stored⦄ (read_flat (λ z. z)))

abbrev pub flat_view : {A : Type 0} → Heap (Cell shapes) → A → Option A
flat_view = read_flat (λ z. z)

abbrev pub views : ForeignViews shapes
views = record {
  oidc_read = oidc_view;
  overrides_read = flat_view;
  role_config_read = flat_view;
  role_group_config_read = flat_view;
  raw_extension_read = flat_view;
  object_meta_read = flat_view;
  list_meta_read = flat_view;
}

abbrev pub copies : ForeignCopies shapes
copies = record {
  oidc_deep_copy_into = oidc_copy;
  overrides_deep_copy_into = pure;
  role_config_deep_copy_into = pure;
  role_group_config_deep_copy_into = pure;
  raw_extension_deep_copy_into = pure;
  object_meta_deep_copy_into = pure;
  list_meta_deep_copy_into = pure;
}

pub copies-AreDeep : ForeignAreDeep views copies
copies-AreDeep = record {
  oidc-IsDeep =
      fields-IsDeep _ _ (new_copy-IsDeep _ _ ⦃s = scopes_stored⦄ (flat-IsDeep (λ z. z))) scopes_of
        with_scopes make_oidc (λ a f. refl) (λ a f. refl);
  overrides-IsDeep = flat-IsDeep (λ z. z);
  role_config-IsDeep = flat-IsDeep (λ z. z);
  role_group_config-IsDeep = flat-IsDeep (λ z. z);
  raw_extension-IsDeep = flat-IsDeep (λ z. z);
  object_meta-IsDeep = flat-IsDeep (λ z. z);
  list_meta-IsDeep = flat-IsDeep (λ z. z);
}
