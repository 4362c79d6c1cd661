-- ===== src/Role/Groups.antt =====
-- internal/controller/role: what the three roles share, a resource as the interface
-- `reconciler.Reconciler` holds it, and the loop of `RegisterResources`.
use airflow_operator.Prelude.{String, Option, none, some, List, [], ◌∷◌, ◌++◌}
use airflow_operator.Go.Text.{ℤ}
use airflow_operator.Go.Outcome.{Done, Outcome, ok, err, panic, ◌>>=◌}
use airflow_operator.Go.Map.{Order}
use airflow_operator.Api.{
  AuthenticationSpec, ConfigSpec, OverridesSpec, RoleGroupConfigSpec, RoleGroupSpec,
}
use airflow_operator.Platform.{Platform, Options}
use airflow_operator.Framework.{Framework, RoleInfo, RoleGroupInfo, ServiceReconciler}
use airflow_operator.Auth.Types.{Authentication}
use airflow_operator.Auth.New.{new_authentication}
use airflow_operator.StatefulSet.Builder.{StatefulSetReconciler}
use airflow_operator.ConfigMap.Builder.{ConfigMapBuilder}

-- A service is a pointer, which may be nil inside the interface.
pub data Resource : Type 0 where
  config_map_resource : ConfigMapBuilder → Resource
  stateful_set_resource : StatefulSetReconciler → Resource
  service_resource : Option ServiceReconciler → Resource

-- `if config != nil { commonsRoleGroupConfig = config.RoleGroupConfigSpec }`
unfoldable pub commons_role_group_config : Option ConfigSpec → Option RoleGroupConfigSpec
commons_role_group_config none = none
commons_role_group_config (some c) = c.role_group_config_spec

-- `if len(authentication) > 0 { auth, err = NewAuthentication(…) }`
unfoldable pub authentication_of :
    Platform → List AuthenticationSpec → Outcome (Option Authentication)
authentication_of p [] = ok none
authentication_of p (auth ∷ auths) = do a ← new_authentication p (auth ∷ auths); ok (some a)

-- The options of the builders.
unfoldable pub options_of : Framework → RoleGroupInfo → Options
options_of f info = record {
  cluster_name = f.group_cluster_name info;
  role_name = f.group_role_name info;
  role_group_name = f.group_name info;
  labels = f.group_labels info;
  annotations = f.group_annotations info;
}

-- `RegisterResourceWithRoleGroup` of a role.
abbrev pub RegisterGroup : Type 0
RegisterGroup =
    RoleGroupInfo
    → (replicas : Option ℤ) → Option ConfigSpec
    → Option OverridesSpec
    → Outcome (List Resource)

-- One round in front of `AddResource`: the two merges and the role group's resources.
unfoldable pub group_resources :
    Framework
    → RoleInfo
    → Option ConfigSpec
    → Option OverridesSpec
    → RegisterGroup
    → String × RoleGroupSpec
    → Outcome (List Resource)
group_resources f role_info config overrides register (name, group) = do
  merged_config ← f.merge_config config group.config
  merged_overrides ← f.merge_overrides overrides group.overrides_spec
  let info : RoleGroupInfo = record { role_info = role_info; role_group_name = name }
  register info group.replicas merged_config merged_overrides

-- The end of a round: `AddResource` of each resource and the rounds after it, or a return.
abbrev pub after_round :
    Outcome (List Resource)
    → List Resource
    → (List Resource → Outcome Done × List Resource)
    → Outcome Done × List Resource
after_round (ok resources) added rounds = rounds (added ++ resources)
after_round (err e) added rounds = (err e, added)
after_round panic added rounds = (panic, added)

-- The loop over the role groups, with the resources that the role holds.
unfoldable pub register_groups {ℓ} :
    {G : Type ℓ}
    → (G → Outcome (List Resource))
    → List Resource
    → List G
    → Outcome Done × List Resource
register_groups resources added [] = (ok tt, added)
register_groups resources added (g ∷ gs) =
    after_round (resources g) added (λ added'. register_groups resources added' gs)

-- What the loop reads of a role's spec.
pub record RoleSpec : Type 0 where
  pub role_groups : List (String × RoleGroupSpec)
  pub config : Option ConfigSpec
  pub overrides_spec : Option OverridesSpec

-- The loop over the role groups of a spec; a nil spec panics.
abbrev pub register_spec :
    {S : Type 0}
    → (S → RoleSpec)
    → Framework
    → RoleInfo
    → RegisterGroup
    → List Resource
    → Order (String × RoleGroupSpec)
    → Option S
    → Outcome Done × List Resource
register_spec view f role_info register added order none = (panic, added)
register_spec view f role_info register added order (some s) =
    let spec = view s in
    register_groups (group_resources f role_info spec.config spec.overrides_spec register) added
      (order.visit spec.role_groups)
