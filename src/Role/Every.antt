-- ===== src/Role/Every.antt =====
-- internal/controller/role: what holds of every resource that a round makes holds of every resource
-- that the loop of `RegisterResources` adds.
use airflow_operator.Prelude.{
  String, ◌≡◌, sym, ap, Option, none, some, List, [], ◌∷◌, ◌++◌, All, All-append,
}
use mathlib.Core.Path.{subst}
use airflow_operator.Go.Text.{ℤ}
use airflow_operator.Go.Outcome.{Done, Outcome, ok, panic, collect, >>=-eq-ok, ok-injective}
use airflow_operator.Go.Map.{Order}
use airflow_operator.Api.{ClusterConfigSpec, ConfigSpec, OverridesSpec, RoleGroupSpec}
use airflow_operator.Framework.{Framework, RoleInfo, RoleGroupInfo, ServiceReconciler}
use airflow_operator.Auth.Types.{Authentication}
use airflow_operator.Service.{get_service_reconciler}
use airflow_operator.Role.Ports.{ports}
use airflow_operator.Role.Groups.{
  Resource, RoleSpec, authentication_of, group_resources, register_spec,
}
use airflow_operator.Role.Registered.{register_groups-ok_inv}
use airflow_operator.Role.Steps.{steps-ok_inv}
use airflow_operator.Role.Ranged.{registers}

module _ {G : Type 0} (P : Resource → Type 0) (resources : G → Outcome (List Resource))
    (each : (g : G) (rs : List Resource) → resources g ≡ ok rs → All P rs) where
  collect-All : (gs : List G) (xs : List Resource) → collect resources gs ≡ ok xs → All P xs
  unfolding collect
  collect-All [] xs h = subst (All P) (ok-injective h) tt
  collect-All (g ∷ gs) xs h =
      let (x, hx, h₁) = >>=-eq-ok (resources g) _ h in
      let (y, hy, h₂) = >>=-eq-ok (collect resources gs) (λ ys. ok (x ++ ys)) h₁ in
      subst (All P) (ok-injective h₂) (All-append P x y (each g x hx) (collect-All gs y hy))

module _ (P : Resource → Type 0) (f : Framework) (cluster_config : Option ClusterConfigSpec)
    (resources : RoleGroupInfo
      → Option ℤ
      → Option ConfigSpec
      → Option OverridesSpec
      → Option Authentication
      → Option ServiceReconciler
      → List Resource)
    (role_info : RoleInfo)
    (made : (name : String) (replicas : Option ℤ) (c : Option ConfigSpec) (o : Option OverridesSpec)
        (a : Option Authentication) (s : Option ServiceReconciler) (d : ClusterConfigSpec)
      → cluster_config ≡ some d
      → authentication_of f.platform d.authentication ≡ ok a
      → All P (
          resources
            (record { role_info = role_info; role_group_name = name })
            replicas
            c
            o
            a
            s)) where
  group_resources-All :
      (config : Option ConfigSpec) (overrides : Option OverridesSpec) (g : String × RoleGroupSpec)
      (rs : List Resource)
      → group_resources f role_info config overrides (registers f cluster_config resources) g
        ≡ ok rs
      → All P rs
  unfolding group_resources
  group_resources-All config overrides (name, group) rs h =
      let (c, hc, h₁) = >>=-eq-ok (f.merge_config config group.config) _ h in
      let info : RoleGroupInfo = record { role_info = role_info; role_group_name = name } in
      let (o, ho, h₂) =
        >>=-eq-ok (f.merge_overrides overrides group.overrides_spec)
          (λ o. registers f cluster_config resources info group.replicas c o) h₁ in
      let (d, a, s, hd, ha, _, e) =
        steps-ok_inv cluster_config (λ d. authentication_of f.platform d.authentication)
          (get_service_reconciler f info ports) (resources info group.replicas c o) h₂ in
      subst (All P) (sym e) (made name group.replicas c o a s d hd ha)

  pub register_spec-All :
      {S : Type 0} (view : S → RoleSpec) (ys : List Resource)
      (order : Order (String × RoleGroupSpec)) (x : Option S)
      → register_spec view f role_info (registers f cluster_config resources) [] order x
        ≡ (ok tt, ys)
      → All P ys
  register_spec-All view ys order none h =
      let q : panic ≡ ok tt = ap (λ (r : Outcome Done × List Resource). r.0) h in absurd (cc q)
  register_spec-All view ys order (some s) h =
      let (xs, hx, e) = register_groups-ok_inv _ [] (order.visit (view s).role_groups) ys h in
      subst (All P) (sym e) (
        collect-All P
          (group_resources f role_info (view s).config (view s).overrides_spec
            (registers f cluster_config resources))
          (group_resources-All (view s).config (view s).overrides_spec)
          (order.visit (view s).role_groups) xs hx)
