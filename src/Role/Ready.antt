-- ===== src/Role/Ready.antt =====
-- internal/controller/role: when a role group has its resources, and when the loop over all of
-- them ends without an error.
use airflow_operator.Prelude.{
  String, ◌≡◌, refl, sym, ap, ◌∙◌, ◌↔◌, Option, some, List, ◌++◌, All, All-map,
}
use mathlib.Core.List.Permᴰ
use airflow_operator.Go.Text.{ℤ, pos}
use airflow_operator.Go.Outcome.{deref-eq-ok, deref-bind, Outcome, ok, >>=-eq-ok, deref, ◌>>=◌}
use airflow_operator.Go.Map.{Order}
use airflow_operator.Go.Collect.{collect-ok_iff, All-perm}
use airflow_operator.Api.{ClusterConfigSpec, ConfigSpec, OverridesSpec, RoleGroupSpec}
use airflow_operator.Framework.{Framework, RoleInfo, RoleGroupInfo, ServiceReconciler}
use airflow_operator.Auth.Types.{Authentication}
use airflow_operator.Service.{get_service_reconciler, metrics_service, metrics_port}
use airflow_operator.Role.Ports.{ports}
use airflow_operator.Role.Groups.{
  Resource, RegisterGroup, authentication_of, group_resources, register_groups,
}
use airflow_operator.Role.Registered.{register_groups-ok, register_groups-ok_inv}

-- What a role group needs: a cluster configuration, an authentication that is accepted, and
-- annotations that can be written to.
abbrev pub Ready : Framework → Option ClusterConfigSpec → RoleGroupInfo → Type 0
Ready f cluster_config info =
    ((c : ClusterConfigSpec) × (auth : Option Authentication) × (cluster_config ≡ some c)
      × (authentication_of f.platform c.authentication ≡ ok auth))
    × ((m : List (String × String)) × (f.group_annotations info ≡ some m))

-- The metrics service of the roles' own ports, which name a positive metrics port.
pub own_ports_lem :
    (f : Framework) (info : RoleGroupInfo)
    → get_service_reconciler f info ports ≡ (metrics_service f info (pos 9102) >>= λ s. ok (some s))
unfolding get_service_reconciler metrics_port
own_ports_lem f info = refl

pub own_ports-ok_iff :
    (f : Framework) (info : RoleGroupInfo)
    → ((s : Option ServiceReconciler) × (get_service_reconciler f info ports ≡ ok s))
      ↔ ((m : List (String × String)) × (f.group_annotations info ≡ some m))
unfolding metrics_service
own_ports-ok_iff f info = (
  λ h.
      let (s, hs, _) =
        >>=-eq-ok (metrics_service f info (pos 9102)) _ (sym (own_ports_lem f info) ∙ h.1) in
      let (m, hm, _) = >>=-eq-ok (deref (f.group_annotations info)) _ hs in (m, deref-eq-ok _ hm),
  λ h. (
    _,
    own_ports_lem f info
        ∙ ap (λ (m : Outcome ServiceReconciler). m >>= λ s. ok (some s))
            (deref-bind (f.group_annotations info) _ h.1),
  ),
)

module _ (f : Framework) (role_info : RoleInfo) (config : Option ConfigSpec)
    (overrides : Option OverridesSpec) where
  -- A role group that can be merged and is ready.
  abbrev pub GroupReady : Option ClusterConfigSpec → String × RoleGroupSpec → Type 0
  GroupReady cluster_config (name, group) =
      ((c : Option ConfigSpec) × (f.merge_config config group.config ≡ ok c))
      × ((o : Option OverridesSpec) × (f.merge_overrides overrides group.overrides_spec ≡ ok o))
      × Ready f cluster_config (record { role_info = role_info; role_group_name = name })

  module _ (cluster_config : Option ClusterConfigSpec) (register : RegisterGroup)
      (register-ok_iff : (info : RoleGroupInfo) (replicas : Option ℤ) (c : Option ConfigSpec)
          (o : Option OverridesSpec)
        → ((rs : List Resource) × (register info replicas c o ≡ ok rs))
          ↔ Ready f cluster_config info) where
    pub group_resources-ok_iff :
        (g : String × RoleGroupSpec)
        → ((rs : List Resource) × (group_resources f role_info config overrides register g ≡ ok rs))
          ↔ GroupReady cluster_config g
    unfolding group_resources
    group_resources-ok_iff (name, group) = (
      λ h.
          let (c, hc, h₁) = >>=-eq-ok (f.merge_config config group.config) _ h.1 in
          let (o, ho, h₂) =
            >>=-eq-ok (f.merge_overrides overrides group.overrides_spec)
              (λ o. register info group.replicas c o) h₁ in
          ((c, hc), (o, ho), (register-ok_iff info group.replicas c o).0 (h.0, h₂)),
      λ h.
          let (rs, hr) = (register-ok_iff info group.replicas h.0.0 h.1.0).1 h.2 in
          (rs, rw (h.0.1, h.1.1) hr),
    )
      where
        info : RoleGroupInfo
        info = record { role_info = role_info; role_group_name = name }

    -- The loop over the role groups ends without an error exactly if each of them is ready, in
    -- whatever order they are visited.
    pub register_groups-ok_iff :
        (added : List Resource) (order : Order (String × RoleGroupSpec))
        (gs : List (String × RoleGroupSpec))
        → ((ys : List Resource) × (register_groups
                (group_resources f role_info config overrides register)
                added
                (order.visit gs)
              ≡ (ok tt, ys)))
          ↔ All (GroupReady cluster_config) gs
    register_groups-ok_iff added order gs = (
      λ h.
          let (xs, hx, _) = register_groups-ok_inv _ added (order.visit gs) h.0 h.1 in
          All-perm _ (order.visits gs) (
            All-map _ _ (λ g. (group_resources-ok_iff g).0) _
              ((collect-ok_iff _ (order.visit gs)).0 (xs, hx))),
      λ h.
          let (xs, hx) =
            (collect-ok_iff (group_resources f role_info config overrides register)
                (order.visit gs)).1
              (All-map _ _ (λ g. (group_resources-ok_iff g).1) _
                (All-perm _ (Permᴰ.symm (order.visits gs)) h)) in
          (added ++ xs, register_groups-ok _ added (order.visit gs) xs hx),
    )
