-- ===== src/Cluster/Complete.antt =====
-- internal/controller/cluster.go: exactly when `RegisterResource` returns nil.
use mathlib.Core.Path.{subst}
use airflow_operator.Prelude.{
  String, ◌≡◌, refl, sym, ap, ◌∙◌, ◌↔◌, Option, none, some, [], ◌∷◌, ◌++◌, All,
}
use airflow_operator.Go.Outcome.{Done, Outcome, ok, deref, >>=-eq-ok, deref-eq-ok, ◌>>=◌}
use airflow_operator.Api.{ImageSpec, ClusterConfigSpec, celery_executors, schedulers, webservers}
use airflow_operator.Platform.{Image}
use airflow_operator.Framework.{Framework, KeepsBase, RoleInfo, BaseRole}
use airflow_operator.Role.Groups.{RoleSpec}
use airflow_operator.Role.Ready.{GroupReady}
use airflow_operator.Role.Scheduler.{SchedulersReconciler, new_schedulers_reconciler}
use airflow_operator.Role.CeleryExecutor.{
  CeleryExecutorsReconciler, new_celery_executors_reconciler,
}
use airflow_operator.Role.Webserver.{WebserversReconciler, new_webservers_reconciler}
use airflow_operator.Role.Scheduler
use airflow_operator.Role.CeleryExecutor
use airflow_operator.Role.Webserver
use airflow_operator.Role.SchedulerLaws.{schedulers-ok_iff}
use airflow_operator.Role.CeleryExecutorLaws.{celery_executors-ok_iff}
use airflow_operator.Role.WebserverLaws.{webservers-ok_iff}
use airflow_operator.Cluster.Defs.{
  Role, celery_role, schedulers_role, webservers_role, ClusterReconciler, get_image, image_of,
  GroupOrder, role_info, after_role, with_image, register_celery, register_schedulers,
  register_webservers, webservers_part, schedulers_part, register_resource,
}
use airflow_operator.Cluster.Laws.{register_resource-ok}

pub get_image-some :
    (f : Framework) (build_version : String) (r : ClusterReconciler) (spec : ImageSpec)
    → r.base.spec.image ≡ some spec
    → (image : Image) × (get_image f build_version r ≡ ok image)
unfolding get_image
get_image-some f build_version r spec there =
    elim r.base.spec.image
        as (λ s.
          s ≡ some spec
          → (image : Image) × ((deref s >>= λ t. ok (image_of f.platform build_version t))
              ≡ ok image)) [ none ↦ λ h. cc h | some t ↦ λ h. (_, refl) ]
      there

get_image-ok_inv :
    (f : Framework) (build_version : String) (r : ClusterReconciler) (image : Image)
    → get_image f build_version r ≡ ok image
    → (spec : ImageSpec) × (r.base.spec.image ≡ some spec)
unfolding get_image
get_image-ok_inv f build_version r image h =
    let (spec, hs, _) = >>=-eq-ok (deref r.base.spec.image) _ h in (spec, deref-eq-ok _ hs)

-- A role that has a spec, and whose role groups are ready.
abbrev pub RoleReady :
    {S : Type 0}
    → (S → RoleSpec)
    → Framework
    → RoleInfo
    → Option ClusterConfigSpec
    → Option S
    → Type 0
RoleReady {S} view f info cluster_config x =
    (s : S) × (x ≡ some s)
    × All (GroupReady f info (view s).config (view s).overrides_spec cluster_config)
        (view s).role_groups

module _ (f : Framework) (keeps : KeepsBase f) (order : GroupOrder) (image : Image)
    (r : ClusterReconciler) where
  kept :
      {S : Type 0} (view : S → RoleSpec) (info : RoleInfo) (x : Option S)
      → RoleReady view f
          (f.new_base_role S r.base.stopped info x).role_info
          r.cluster_config
          (f.new_base_role S r.base.stopped info x).spec
        ↔ RoleReady view f info r.cluster_config x
  kept {S} view info x = (
    subst ready (keeps.0 S r.base.stopped info x),
    subst ready (sym (keeps.0 S r.base.stopped info x)),
  )
    where
      ready : BaseRole S → Type 0
      ready b = RoleReady view f b.role_info r.cluster_config b.spec

  celery_iff :
      ((c : CeleryExecutorsReconciler) × (register_celery f order image r ≡ (ok tt, c)))
      ↔ RoleReady CeleryExecutor.spec_view f
          (role_info r celery_executors)
          r.cluster_config
          r.base.spec.celery_executors
  unfolding register_celery new_celery_executors_reconciler
  celery_iff =
      let role =
        new_celery_executors_reconciler f r.base.stopped r.cluster_config
          (role_info r celery_executors) image r.base.spec.celery_executors in
      let base =
        kept CeleryExecutor.spec_view (role_info r celery_executors) r.base.spec.celery_executors in
      (
        λ h. base.0 ((celery_executors-ok_iff f role order).0 h),
        λ h. (celery_executors-ok_iff f role order).1 (base.1 h),
      )

  schedulers_iff :
      ((s : SchedulersReconciler) × (register_schedulers f order image r ≡ (ok tt, s)))
      ↔ RoleReady Scheduler.spec_view f
          (role_info r schedulers)
          r.cluster_config
          r.base.spec.schedulers
  unfolding register_schedulers new_schedulers_reconciler
  schedulers_iff =
      let role =
        new_schedulers_reconciler f r.base.stopped r.cluster_config (role_info r schedulers) image
          r.base.spec.schedulers in
      let base = kept Scheduler.spec_view (role_info r schedulers) r.base.spec.schedulers in
      (
        λ h. base.0 ((schedulers-ok_iff f role order).0 h),
        λ h. (schedulers-ok_iff f role order).1 (base.1 h),
      )

  webservers_iff :
      ((w : WebserversReconciler) × (register_webservers f order image r ≡ (ok tt, w)))
      ↔ RoleReady Webserver.spec_view f
          (role_info r webservers)
          r.cluster_config
          r.base.spec.webservers
  unfolding register_webservers new_webservers_reconciler
  webservers_iff =
      let role =
        new_webservers_reconciler f r.base.stopped r.cluster_config (role_info r webservers) image
          r.base.spec.webservers in
      let base = kept Webserver.spec_view (role_info r webservers) r.base.spec.webservers in
      (
        λ h. base.0 ((webservers-ok_iff f role order).0 h),
        λ h. (webservers-ok_iff f role order).1 (base.1 h),
      )

-- A part whose image is there and whose role has registered goes on with the role added.
part-made {ℓ} :
    {R : Type ℓ} (role : R → Role) (i : Outcome Image) (image : Image)
    (register : Image → Outcome Done × R) (a : R) (r : ClusterReconciler)
    (next : ClusterReconciler → Outcome Done × ClusterReconciler)
    → i ≡ ok image
    → register image ≡ (ok tt, a)
    → with_image i r (λ j. after_role role (register j) r next)
      ≡ next (record r { resources = r.resources ++ role a ∷ [] })
part-made role i image register a r next hi ha =
    ap (λ j. with_image j r (λ k. after_role role (register k) r next)) hi
    ∙ ap (λ q. after_role role q r next) ha

-- If the base constructors keep their arguments, RegisterResource of a cluster returns nil exactly
-- if it has an image spec and each of the three roles has a spec whose role groups are all ready:
-- each can be merged with the role's config and overrides, has a cluster configuration whose
-- authentication is empty or accepted, and has annotations that are not a nil map.
pub register_resource-ok_iff :
    (f : Framework) (build_version : String) (order : GroupOrder) (r : ClusterReconciler)
    → KeepsBase f
    → ((r' : ClusterReconciler) × (register_resource f build_version order r ≡ (ok tt, r'))) ↔ (
        ((image : ImageSpec) × (r.base.spec.image ≡ some image))
        × RoleReady CeleryExecutor.spec_view f
            (role_info r celery_executors)
            r.cluster_config
            r.base.spec.celery_executors
        × RoleReady Scheduler.spec_view f
            (role_info r schedulers)
            r.cluster_config
            r.base.spec.schedulers
        × RoleReady Webserver.spec_view f
            (role_info r webservers)
            r.cluster_config
            r.base.spec.webservers)
unfolding register_resource schedulers_part webservers_part get_image register_schedulers
    register_webservers
register_resource-ok_iff f build_version order r keeps = (
  λ h.
      let (image, c, s, w, hi, hc, hs, hw, _, _) =
        register_resource-ok f build_version order r h.0 h.1 in
      (
        get_image-ok_inv f build_version r image hi,
        (celery_iff f keeps order image r).0 (c, hc),
        (schedulers_iff f keeps order image r).0 (s, hs),
        (webservers_iff f keeps order image r).0 (w, hw),
      ),
  λ h.
      let (image, hi) = get_image-some f build_version r h.0.0 h.0.1 in
      let (c, hc) = (celery_iff f keeps order image r).1 h.1 in
      let (s, hs) = (schedulers_iff f keeps order image r).1 h.2 in
      let (w, hw) = (webservers_iff f keeps order image r).1 h.3 in
      (
        _,
        part-made celery_role (get_image f build_version r) image (λ i. register_celery f order i r)
              c r _ hi hc
            ∙ (part-made schedulers_role (get_image f build_version r) image
                  (λ i. register_schedulers f order i r) s _ _ hi hs
                ∙ part-made webservers_role (get_image f build_version r) image
                    (λ i. register_webservers f order i r) w _ _ hi hw),
      ),
)
