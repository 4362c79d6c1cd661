-- ===== src/Role/Ranged.antt =====
-- internal/controller/role: `RegisterResourceWithRoleGroup` and `RegisterResources` as the three
-- roles have them, for any list of resources that a role makes.
use airflow_operator.Prelude.{
  length, String, ◌≡◌, refl, sym, ap, ◌∙◌, ◌↔◌, Option, none, some, List, ◌++◌, map, All,
}
use airflow_operator.Go.Text.{ℤ}
use airflow_operator.Go.Outcome.{Done, Outcome, ok, panic, >>=-eq-ok}
use airflow_operator.Go.Map.{Order}
use airflow_operator.Api.{ClusterConfigSpec, ConfigSpec, OverridesSpec, RoleGroupSpec}
use airflow_operator.Framework.{Framework, RoleInfo, RoleGroupInfo, ServiceReconciler}
use airflow_operator.Auth.Types.{Authentication}
use airflow_operator.Service.{get_service_reconciler, metrics_service}
use airflow_operator.Role.Ports.{ports}
use airflow_operator.Role.Groups.{
  Resource, RegisterGroup, RoleSpec, authentication_of, group_resources, register_spec,
}
use airflow_operator.Role.Ready.{
  Ready, GroupReady, own_ports_lem, own_ports-ok_iff, register_groups-ok_iff,
}
use airflow_operator.Role.Steps.{
  steps, steps-ok, steps-ok_inv, Kind, kind, copies, register_groups-kinds,
}

module _ (f : Framework) (cluster_config : Option ClusterConfigSpec)
    (resources : RoleGroupInfo
      → Option ℤ
      → Option ConfigSpec
      → Option OverridesSpec
      → Option Authentication
      → Option ServiceReconciler
      → List Resource) where
  -- The steps of a role whose resources these are.
  abbrev pub registers : RegisterGroup
  registers info replicas c o =
      steps cluster_config (λ d. authentication_of f.platform d.authentication)
        (get_service_reconciler f info ports) (resources info replicas c o)

  pub registers-ok_iff :
      (info : RoleGroupInfo) (replicas : Option ℤ) (c : Option ConfigSpec)
      (o : Option OverridesSpec)
      → ((rs : List Resource) × (registers info replicas c o ≡ ok rs)) ↔ Ready f cluster_config info
  registers-ok_iff info replicas c o = (
    λ h.
        let (d, a, s, hd, ha, hs, _) =
          steps-ok_inv cluster_config (λ d. authentication_of f.platform d.authentication)
            (get_service_reconciler f info ports) (resources info replicas c o) h.1 in
        ((d, a, hd, ha), (own_ports-ok_iff f info).0 (s, hs)),
    λ h.
        let (s, hs) = (own_ports-ok_iff f info).1 h.1 in
        let (d, a, hd, ha) = h.0 in
        (
          resources info replicas c o a s,
          steps-ok cluster_config (λ d. authentication_of f.platform d.authentication)
              (get_service_reconciler f info ports) (resources info replicas c o) d a s hd ha hs,
        ),
  )

  module _ (kinds : List Kind)
      (made : (info : RoleGroupInfo) (replicas : Option ℤ) (c : Option ConfigSpec)
          (o : Option OverridesSpec) (a : Option Authentication) (s : ServiceReconciler)
        → map kind (resources info replicas c o a (some s)) ≡ kinds) where
    registers-kinds :
        (info : RoleGroupInfo) (replicas : Option ℤ) (c : Option ConfigSpec)
        (o : Option OverridesSpec) (rs : List Resource)
        → registers info replicas c o ≡ ok rs
        → map kind rs ≡ kinds
    registers-kinds info replicas c o rs h =
        let (d, a, s, _, _, hs, e) =
          steps-ok_inv cluster_config (λ d. authentication_of f.platform d.authentication)
            (get_service_reconciler f info ports) (resources info replicas c o) h in
        let (t, _, ht) = >>=-eq-ok (metrics_service f info _) _ (sym (own_ports_lem f info) ∙ hs) in
        let same : some t ≡ s = cc ht in
        ap (map kind) (e ∙ ap (resources info replicas c o a) (sym same))
        ∙ made info replicas c o a t

    pub group_resources-kinds :
        (role_info : RoleInfo) (config : Option ConfigSpec) (overrides : Option OverridesSpec)
        (g : String × RoleGroupSpec) (rs : List Resource)
        → group_resources f role_info config overrides registers g ≡ ok rs
        → map kind rs ≡ kinds
    unfolding group_resources
    group_resources-kinds role_info config overrides (name, group) rs h =
        let (c, hc, h₁) = >>=-eq-ok (f.merge_config config group.config) _ h in
        let info : RoleGroupInfo = record { role_info = role_info; role_group_name = name } in
        let (o, ho, h₂) =
          >>=-eq-ok (f.merge_overrides overrides group.overrides_spec)
            (λ o. registers info group.replicas c o) h₁ in
        registers-kinds info group.replicas c o rs h₂

    -- The kinds that the loop over a spec adds.
    pub register_spec-kinds :
        {S : Type 0} (view : S → RoleSpec) (role_info : RoleInfo) (added ys : List Resource)
        (order : Order (String × RoleGroupSpec)) (x : Option S) (s : S)
        → x ≡ some s
        → register_spec view f role_info registers added order x ≡ (ok tt, ys)
        → map kind ys ≡ map kind added ++ copies (length (view s).role_groups) kinds
    register_spec-kinds view role_info added ys order x s there h =
        register_groups-kinds
          (group_resources f role_info (view s).config (view s).overrides_spec registers) kinds
          (group_resources-kinds role_info (view s).config (view s).overrides_spec) added ys order
          (view s).role_groups
          (sym (ap (register_spec view f role_info registers added order) there) ∙ h)

  groups-ok_iff :
      (spec : RoleSpec) (role_info : RoleInfo) (added : List Resource)
      (order : Order (String × RoleGroupSpec))
      → ((ys : List Resource) × (register_spec
              (λ s. s)
              f
              role_info
              registers
              added
              order
              (some spec)
            ≡ (ok tt, ys)))
        ↔ All
            (GroupReady f role_info spec.config spec.overrides_spec cluster_config)
            spec.role_groups
  groups-ok_iff spec role_info added order =
      register_groups-ok_iff f role_info spec.config spec.overrides_spec cluster_config registers
        registers-ok_iff added order spec.role_groups

  -- The loop over a spec ends without an error exactly if there is a spec and each of its role
  -- groups is ready.
  pub register_spec-ok_iff :
      {S : Type 0} (view : S → RoleSpec) (role_info : RoleInfo) (added : List Resource)
      (order : Order (String × RoleGroupSpec)) (x : Option S)
      → ((ys : List Resource) × (register_spec view f role_info registers added order x
            ≡ (ok tt, ys)))
        ↔ ((s : S) × (x ≡ some s)
            × All
                (GroupReady f role_info (view s).config (view s).overrides_spec cluster_config)
                (view s).role_groups)
  register_spec-ok_iff view role_info added order none = (
    λ h.
        let q : panic ≡ ok tt = ap (λ (r : Outcome Done × List Resource). r.0) h.1 in absurd (cc q),
    λ h. let e = h.1 in absurd (cc e),
  )
  register_spec-ok_iff view role_info added order (some s) = (
    λ h. (s, refl, (groups-ok_iff (view s) role_info added order).0 h),
    λ h.
        let (t, e, ready) = h in
        let (ys, k) = (groups-ok_iff (view t) role_info added order).1 ready in
        (ys, ap (register_spec view f role_info registers added order) e ∙ k),
  )
