-- ===== src/Cluster/Refines.antt =====
-- internal/controller/cluster.go: the registered objects are the planned ones.
use mathlib.Core.List.{Permᴰ, flat_map}
use mathlib.Core.List.Permᴰ
use mathlib.Core.Path.{subst}
use mathlib.Core.Quot
use airflow_operator.Prelude.{
  String, ◌≡◌, refl, sym, ap, ◌∙◌, Option, some, List, [], ◌∷◌, ◌++◌, map, append-nil,
}
use airflow_operator.Go.Outcome.{ok}
use airflow_operator.Api.{
  CeleryExecutorsSpec, SchedulersSpec, WebserversSpec, RoleName, celery_executors, schedulers,
  webservers, role_name,
}
use airflow_operator.Platform.{Image, NamesObjects}
use airflow_operator.Framework.{Framework, KeepsBase, BaseRole}
use airflow_operator.Role.Groups.{RoleSpec}
use airflow_operator.Role.Steps.{Kind}
use airflow_operator.Role.Plan.{identity, role_plan}
use airflow_operator.Role.PlannedRoles.{
  worker_kinds, webserver_kinds, celery_executors-planned, schedulers-planned, webservers-planned,
}
use airflow_operator.Role.Scheduler.{SchedulersReconciler, new_schedulers_reconciler}
use airflow_operator.Role.CeleryExecutor.{
  CeleryExecutorsReconciler, new_celery_executors_reconciler,
}
use airflow_operator.Role.Webserver.{WebserversReconciler, new_webservers_reconciler}
use airflow_operator.Role.Scheduler
use airflow_operator.Role.CeleryExecutor
use airflow_operator.Role.Webserver
use airflow_operator.Cluster.Defs.{
  celery_role, schedulers_role, webservers_role, ClusterReconciler, GroupOrder, role_info,
  register_celery, register_schedulers, register_webservers, register_resource,
}
use airflow_operator.Cluster.Laws.{register_resource-ok}
use airflow_operator.Cluster.Complete.{register_resource-ok_iff}
use airflow_operator.Cluster.Plan.{
  groups_of, plan_of_role, planned_objects, role_identities, registered_objects,
}

-- Permutations side by side.
Permᴰ-append :
    {A : Type 0} {xs ys zs ws : List A} → Permᴰ xs ys → Permᴰ zs ws → Permᴰ (xs ++ zs) (ys ++ ws)
Permᴰ-append {ys} {zs} p q = Permᴰ.trans (Permᴰ.append_right zs p) (Permᴰ.append_left ys q)

Permᴰ_append-nil : {A : Type 0} {xs ys : List A} → Permᴰ xs ys → Permᴰ (xs ++ []) ys
Permᴰ_append-nil {xs} {ys} = subst (λ l. Permᴰ l ys) (sym (append-nil xs))

module _ (f : Framework) (keeps : KeepsBase f) (names : NamesObjects f.platform)
    (order : GroupOrder) (image : Image) (r : ClusterReconciler) where
  -- The plan of a role, from the identity and the spec that its base reconciler holds.
  base-plan :
      {S : Type 0} (name : RoleName) (kinds : List Kind) (view : S → RoleSpec) (x : Option S)
      (s : S)
      → x ≡ some s
      → role_plan f kinds
          (f.new_base_role S r.base.stopped (role_info r name) x).role_info
          (view s).role_groups
        ≡ plan_of_role f r.base.cluster_info name kinds view x
  unfolding role_info
  base-plan {S} name kinds view x s there =
      ap (λ (b : BaseRole S). role_plan f kinds b.role_info (view s).role_groups)
        (keeps.0 S r.base.stopped (role_info r name) x)
      ∙ ap
          (λ y.
            role_plan f kinds
              (record { cluster_info = r.base.cluster_info; role_name = role_name name })
              (groups_of view y))
          (sym there)

  base-spec :
      {S : Type 0} (name : RoleName) (x : Option S) (s : S)
      → x ≡ some s
      → (f.new_base_role S r.base.stopped (role_info r name) x).spec ≡ some s
  base-spec {S} name x s there =
      ap (λ (b : BaseRole S). b.spec) (keeps.0 S r.base.stopped (role_info r name) x) ∙ there

  register_celery-planned :
      (c : CeleryExecutorsReconciler) (s : CeleryExecutorsSpec)
      → r.base.spec.celery_executors ≡ some s
      → register_celery f order image r ≡ (ok tt, c)
      → Permᴰ (map identity c.resources) (
          plan_of_role f r.base.cluster_info celery_executors worker_kinds CeleryExecutor.spec_view
            r.base.spec.celery_executors)
  unfolding register_celery new_celery_executors_reconciler
  register_celery-planned c s there h =
      subst (Permᴰ (map identity c.resources))
        (base-plan celery_executors worker_kinds CeleryExecutor.spec_view
          r.base.spec.celery_executors s there)
        (celery_executors-planned f names order _ c s refl
          (base-spec celery_executors r.base.spec.celery_executors s there) h)

  register_schedulers-planned :
      (c : SchedulersReconciler) (s : SchedulersSpec)
      → r.base.spec.schedulers ≡ some s
      → register_schedulers f order image r ≡ (ok tt, c)
      → Permᴰ (map identity c.resources) (
          plan_of_role f r.base.cluster_info schedulers worker_kinds Scheduler.spec_view
            r.base.spec.schedulers)
  unfolding register_schedulers new_schedulers_reconciler
  register_schedulers-planned c s there h =
      subst (Permᴰ (map identity c.resources))
        (base-plan schedulers worker_kinds Scheduler.spec_view r.base.spec.schedulers s there)
        (schedulers-planned f names order _ c s refl
          (base-spec schedulers r.base.spec.schedulers s there) h)

  register_webservers-planned :
      (c : WebserversReconciler) (s : WebserversSpec)
      → r.base.spec.webservers ≡ some s
      → register_webservers f order image r ≡ (ok tt, c)
      → Permᴰ (map identity c.resources) (
          plan_of_role f r.base.cluster_info webservers webserver_kinds Webserver.spec_view
            r.base.spec.webservers)
  unfolding register_webservers new_webservers_reconciler
  register_webservers-planned c s there h =
      subst (Permᴰ (map identity c.resources))
        (base-plan webservers webserver_kinds Webserver.spec_view r.base.spec.webservers s there)
        (webservers-planned f names order _ c s refl
          (base-spec webservers r.base.spec.webservers s there) h)

-- The objects of a cluster that had none are the planned ones, in no order.
pub register_resource_refines :
    (f : Framework) (build_version : String) (order : GroupOrder) (r r' : ClusterReconciler)
    → KeepsBase f
    → NamesObjects f.platform
    → r.resources ≡ []
    → register_resource f build_version order r ≡ (ok tt, r')
    → registered_objects r' ≡ planned_objects f r.base.cluster_info r.base.spec
unfolding flat_map
register_resource_refines f build_version order r r' keeps names fresh h =
    let (image, c, s, w, _, hc, hs, hw, e, _) = register_resource-ok f build_version order r r' h in
    let (_, celery, scheduling, serving) =
      (register_resource-ok_iff f build_version order r keeps).0 (r', h) in
    let roles : r'.resources ≡ celery_role c ∷ schedulers_role s ∷ webservers_role w ∷ [] =
      e ∙ ap (λ l. l ++ celery_role c ∷ schedulers_role s ∷ webservers_role w ∷ []) fresh in
    ap (λ l. Quot.mk (flat_map role_identities l)) roles
    ∙ Quot.sound (
        Permᴰ-append (register_celery-planned f keeps names order image r c celery.0 celery.1 hc) (
          Permᴰ-append
            (register_schedulers-planned f keeps names order image r s scheduling.0 scheduling.1 hs)
            (Permᴰ_append-nil
              (register_webservers-planned f keeps names order image r w serving.0 serving.1 hw))))
