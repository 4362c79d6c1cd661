-- ===== src/Role/Planned.antt =====
-- internal/controller/role: the loop of `RegisterResources` makes the planned objects, whatever the
-- order of the role groups.
use mathlib.Core.List.{Permᴰ, flat_map}
use mathlib.Core.Path.{ap₂, subst}
use airflow_operator.Prelude.{String, ◌≡◌, sym, ap, ◌∙◌, Option, some, List, [], ◌∷◌, ◌++◌, map}
use airflow_operator.Go.Text.{ℤ}
use airflow_operator.Go.Outcome.{Outcome, ok, deref, collect, >>=-eq-ok, ok-injective}
use airflow_operator.Go.Map.{Order}
use airflow_operator.Go.Collect.{flat_map-perm}
use airflow_operator.Api.{ClusterConfigSpec, ConfigSpec, OverridesSpec, RoleGroupSpec}
use airflow_operator.Framework.{Framework, RoleInfo, RoleGroupInfo, ServiceReconciler}
use airflow_operator.Auth.Types.{Authentication}
use airflow_operator.Service.{get_service_reconciler, metrics_service}
use airflow_operator.Role.Ports.{ports}
use airflow_operator.Role.Groups.{
  Resource, RoleSpec, authentication_of, group_resources, register_groups, register_spec,
}
use airflow_operator.Role.Registered.{register_groups-ok_inv}
use airflow_operator.Role.Ready.{own_ports_lem}
use airflow_operator.Role.Steps.{Kind, steps-ok_inv, map-append}
use airflow_operator.Role.Ranged.{registers}
use airflow_operator.Role.Plan.{Identity, identity, group_plan, role_plan}

-- The metrics service has the role group's full name.
metrics_service-full_name :
    (f : Framework) (info : RoleGroupInfo) (port : ℤ) (s : ServiceReconciler)
    → metrics_service f info port ≡ ok s
    → s.full_name ≡ f.group_full_name info
unfolding metrics_service
metrics_service-full_name f info port s h =
    let (m, _, made) = >>=-eq-ok (deref (f.group_annotations info)) _ h in
    sym (ap (λ (t : ServiceReconciler). t.full_name) (ok-injective made))

module _ {G : Type 0} (resources : G → Outcome (List Resource)) (plan : G → List Identity)
    (each : (g : G) (rs : List Resource) → resources g ≡ ok rs → map identity rs ≡ plan g) where
  collect-identity :
      (gs : List G) {xs : List Resource}
      → collect resources gs ≡ ok xs
      → map identity xs ≡ flat_map plan gs
  unfolding collect flat_map
  collect-identity [] h = ap (map identity) (sym (ok-injective h))
  collect-identity (g ∷ gs) {xs} h =
      let (x, hx, h₁) = >>=-eq-ok (resources g) _ h in
      let (y, hy, h₂) = >>=-eq-ok (collect resources gs) (λ ys. ok (x ++ ys)) h₁ in
      let same : x ++ y ≡ xs = ok-injective h₂ in
      ap (map identity) (sym same)
      ∙ (map-append identity x y ∙ ap₂ (λ a b. a ++ b) (each g x hx) (collect-identity gs hy))

  register_groups-identity :
      (ys : List Resource) (order : Order G) (gs : List G)
      → register_groups resources [] (order.visit gs) ≡ (ok tt, ys)
      → Permᴰ (map identity ys) (flat_map plan gs)
  register_groups-identity ys order gs h =
      let (xs, hx, e) = register_groups-ok_inv resources [] (order.visit gs) ys h in
      subst (λ l. Permᴰ l (flat_map plan gs))
        (sym (ap (map identity) e ∙ collect-identity (order.visit gs) hx))
        (flat_map-perm plan (order.visits gs))

module _ (f : Framework) (cluster_config : Option ClusterConfigSpec)
    (resources : RoleGroupInfo
      → Option ℤ
      → Option ConfigSpec
      → Option OverridesSpec
      → Option Authentication
      → Option ServiceReconciler
      → List Resource)
    (kinds : List Kind)
    (made : (info : RoleGroupInfo) (replicas : Option ℤ) (c : Option ConfigSpec)
        (o : Option OverridesSpec) (a : Option Authentication) (s : ServiceReconciler)
      → s.full_name ≡ f.group_full_name info
      → map identity (resources info replicas c o a (some s)) ≡ group_plan f kinds info) where
  registers-identity :
      (info : RoleGroupInfo) (replicas : Option ℤ) (c : Option ConfigSpec)
      (o : Option OverridesSpec) (rs : List Resource)
      → registers f cluster_config resources info replicas c o ≡ ok rs
      → map identity rs ≡ group_plan f kinds info
  registers-identity info replicas c o rs h =
      let (d, a, s, _, _, hs, e) =
        steps-ok_inv cluster_config (λ d. authentication_of f.platform d.authentication)
          (get_service_reconciler f info ports) (resources info replicas c o) h in
      let (t, there, ht) =
        >>=-eq-ok (metrics_service f info _) _ (sym (own_ports_lem f info) ∙ hs) in
      let same : some t ≡ s = cc ht in
      ap (map identity) (e ∙ ap (resources info replicas c o a) (sym same))
      ∙ made info replicas c o a t (metrics_service-full_name f info _ t there)

  group_resources-identity :
      (role_info : RoleInfo) (config : Option ConfigSpec) (overrides : Option OverridesSpec)
      (g : String × RoleGroupSpec) (rs : List Resource)
      → group_resources f role_info config overrides (registers f cluster_config resources) g
        ≡ ok rs
      → map identity rs
        ≡ group_plan f kinds (record { role_info = role_info; role_group_name = g.0 })
  unfolding group_resources
  group_resources-identity role_info config overrides (name, group) rs h =
      let (c, hc, h₁) = >>=-eq-ok (f.merge_config config group.config) _ h in
      let info : RoleGroupInfo = record { role_info = role_info; role_group_name = name } in
      let (o, ho, h₂) =
        >>=-eq-ok (f.merge_overrides overrides group.overrides_spec)
          (λ o. registers f cluster_config resources info group.replicas c o) h₁ in
      registers-identity info group.replicas c o rs h₂

  -- The objects of the loop over a spec.
  pub register_spec-identity :
      {S : Type 0} (view : S → RoleSpec) (role_info : RoleInfo) (ys : List Resource)
      (order : Order (String × RoleGroupSpec)) (x : Option S) (s : S)
      → x ≡ some s
      → register_spec view f role_info (registers f cluster_config resources) [] order x
        ≡ (ok tt, ys)
      → Permᴰ (map identity ys) (role_plan f kinds role_info (view s).role_groups)
  register_spec-identity view role_info ys order x s there h =
      register_groups-identity
        (group_resources f role_info (view s).config (view s).overrides_spec
          (registers f cluster_config resources))
        (λ g. group_plan f kinds (record { role_info = role_info; role_group_name = g.0 }))
        (group_resources-identity role_info (view s).config (view s).overrides_spec) ys order
        (view s).role_groups
        (sym (
            ap (register_spec view f role_info (registers f cluster_config resources) [] order)
              there)
          ∙ h)
