-- ===== src/Cluster/Made.antt =====
-- internal/controller/cluster.go: the builders of the roles of a registered cluster.
use mathlib.Core.Path.{subst}
use airflow_operator.Prelude.{
  String, ◌≡◌, refl, sym, ap, ◌∙◌, Option, List, [], ◌∷◌, ◌++◌, All, All-map, inl, inr,
}
use airflow_operator.Go.Outcome.{ok}
use airflow_operator.Api.{RoleName, celery_executors, schedulers, webservers, role_name}
use airflow_operator.Platform.{Image, KeepsArguments}
use airflow_operator.Framework.{Framework, KeepsBase, KeepsRoleName, BaseRole}
use airflow_operator.StatefulSet.Containers.{IsKnownRole}
use airflow_operator.Role.Groups.{Resource}
use airflow_operator.Role.Made.{
  MadeFor, celery_executors-MadeFor, schedulers-MadeFor, webservers-MadeFor,
}
use airflow_operator.Role.Scheduler.{SchedulersReconciler, new_schedulers_reconciler}
use airflow_operator.Role.CeleryExecutor.{
  CeleryExecutorsReconciler, new_celery_executors_reconciler,
}
use airflow_operator.Role.Webserver.{WebserversReconciler, new_webservers_reconciler}
use airflow_operator.Cluster.Defs.{
  Role, celery_role, schedulers_role, webservers_role, ClusterReconciler, GroupOrder, role_info,
  register_celery, register_schedulers, register_webservers, register_resource,
}
use airflow_operator.Cluster.Laws.{register_resource-ok}

-- `P`, at the role's name, holds of every resource of the role.
abbrev pub OfRole : (String → Resource → Type 0) → Role → Type 0
OfRole P (celery_role c) = All (P (role_name celery_executors)) c.resources
OfRole P (schedulers_role s) = All (P (role_name schedulers)) s.resources
OfRole P (webservers_role w) = All (P (role_name webservers)) w.resources

module _ (f : Framework) (keeps : KeepsBase f) (arguments : KeepsArguments f.platform)
    (roles : KeepsRoleName f) (order : GroupOrder) (image : Image) (r : ClusterReconciler) where
  -- The base reconciler of a role keeps the role's name.
  base-MadeFor :
      {S : Type 0} (n : RoleName) (x : Option S) (rs : List Resource)
      → All
          (MadeFor f.platform r.cluster_config
            (f.new_base_role S r.base.stopped (role_info r n) x).role_info.role_name)
          rs
      → All (MadeFor f.platform r.cluster_config (role_name n)) rs
  unfolding role_info
  base-MadeFor {S} n x rs =
      subst (λ (b : BaseRole S). All (MadeFor f.platform r.cluster_config b.role_info.role_name) rs)
        (keeps.0 S r.base.stopped (role_info r n) x)

  register_celery-MadeFor :
      (c : CeleryExecutorsReconciler)
      → register_celery f order image r ≡ (ok tt, c)
      → OfRole (MadeFor f.platform r.cluster_config) (celery_role c)
  unfolding register_celery new_celery_executors_reconciler
  register_celery-MadeFor c h =
      base-MadeFor celery_executors r.base.spec.celery_executors c.resources
        (celery_executors-MadeFor f arguments roles order _ c refl h)

  register_schedulers-MadeFor :
      (s : SchedulersReconciler)
      → register_schedulers f order image r ≡ (ok tt, s)
      → OfRole (MadeFor f.platform r.cluster_config) (schedulers_role s)
  unfolding register_schedulers new_schedulers_reconciler
  register_schedulers-MadeFor s h =
      base-MadeFor schedulers r.base.spec.schedulers s.resources
        (schedulers-MadeFor f arguments roles order _ s refl h)

  register_webservers-MadeFor :
      (w : WebserversReconciler)
      → register_webservers f order image r ≡ (ok tt, w)
      → OfRole (MadeFor f.platform r.cluster_config) (webservers_role w)
  unfolding register_webservers new_webservers_reconciler
  register_webservers-MadeFor w h =
      base-MadeFor webservers r.base.spec.webservers w.resources
        (webservers-MadeFor f arguments roles order _ w refl h)

-- The builders of a cluster that had no resources are made for their roles.
pub register_resource-MadeFor :
    (f : Framework) (build_version : String) (order : GroupOrder) (r r' : ClusterReconciler)
    → KeepsBase f
    → KeepsArguments f.platform
    → KeepsRoleName f
    → r.resources ≡ []
    → register_resource f build_version order r ≡ (ok tt, r')
    → All (OfRole (MadeFor f.platform r.cluster_config)) r'.resources
register_resource-MadeFor f build_version order r r' keeps arguments roles fresh h =
    let (image, c, s, w, _, hc, hs, hw, e, _) = register_resource-ok f build_version order r r' h in
    let added : r'.resources ≡ celery_role c ∷ schedulers_role s ∷ webservers_role w ∷ [] =
      e ∙ ap (λ l. l ++ celery_role c ∷ schedulers_role s ∷ webservers_role w ∷ []) fresh in
    subst (All (OfRole (MadeFor f.platform r.cluster_config))) (sym added) (
      register_celery-MadeFor f keeps arguments roles order image r c hc,
      (
        register_schedulers-MadeFor f keeps arguments roles order image r s hs,
        (register_webservers-MadeFor f keeps arguments roles order image r w hw, tt),
      ),
    )

-- What holds of every resource that is made for a known role holds of those of the cluster.
pub OfRole-map :
    (P Q : String → Resource → Type 0) (x : Role)
    → ((role : String) (a : Resource) → IsKnownRole role → P role a → Q role a)
    → OfRole P x
    → OfRole Q x
OfRole-map P Q (celery_role c) g =
    All-map _ _ (λ a. g (role_name celery_executors) a (inr (inr refl))) c.resources
OfRole-map P Q (schedulers_role s) g =
    All-map _ _ (λ a. g (role_name schedulers) a (inr (inl refl))) s.resources
OfRole-map P Q (webservers_role w) g =
    All-map _ _ (λ a. g (role_name webservers) a (inl refl)) w.resources
