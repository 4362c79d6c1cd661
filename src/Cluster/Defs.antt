-- ===== src/Cluster/Defs.antt =====
-- internal/controller/cluster.go: `NewClusterReconciler`, `GetImage` and `RegisterResource`.
use airflow_operator.Prelude.{String, Option, List, [], ◌∷◌, ◌++◌, ◌==◌, if◌then◌else◌}
use airflow_operator.Go.Outcome.{Done, Outcome, ok, err, panic, deref, ◌>>=◌}
use airflow_operator.Go.Map.{Order}
use airflow_operator.Api.{
  ClusterConfigSpec, ImageSpec, RoleGroupSpec, AirflowClusterSpec, default_product_version,
  default_product_name, RoleName, role_name, schedulers, webservers, celery_executors,
}
use airflow_operator.Platform.{Platform, Image}
use airflow_operator.Framework.{Framework, ClusterInfo, RoleInfo, BaseCluster}
use airflow_operator.Role.Scheduler.{SchedulersReconciler, new_schedulers_reconciler}
use airflow_operator.Role.CeleryExecutor.{
  CeleryExecutorsReconciler, new_celery_executors_reconciler,
}
use airflow_operator.Role.Webserver.{WebserversReconciler, new_webservers_reconciler}
use airflow_operator.Role.Scheduler
use airflow_operator.Role.CeleryExecutor
use airflow_operator.Role.Webserver

-- A role, as the cluster's list of resources holds it.
pub data Role : Type 0 where
  celery_role : CeleryExecutorsReconciler → Role
  schedulers_role : SchedulersReconciler → Role
  webservers_role : WebserversReconciler → Role

-- The resources are those that `AddResource` was called with, the first one in front.
pub record ClusterReconciler : Type 0 where
  pub base : BaseCluster
  pub cluster_config : Option ClusterConfigSpec
  pub resources : List Role

unfoldable pub new_cluster_reconciler :
    Framework → ClusterInfo → AirflowClusterSpec → ClusterReconciler
new_cluster_reconciler f cluster_info spec = record {
  base = f.new_base_cluster cluster_info spec.cluster_operation spec;
  cluster_config = spec.cluster_config;
  resources = [];
}

-- `if s != "" { … }` over a default.
abbrev pub or_default : String → String → String
or_default s default = if s == "" then default else s

unfoldable pub image_of : Platform → (build_version : String) → ImageSpec → Image
image_of p build_version spec =
    let image : Image =
      p.new_image default_product_name build_version
        (or_default spec.product_version default_product_version)
        (record { custom = spec.custom; repo = spec.repo; pull_policy = spec.pull_policy }) in
    record image { kubedoop_version = or_default spec.kubedoop_version image.kubedoop_version }

-- `GetImage`, with `version.BuildVersion` of the build; a nil image spec panics.
unfoldable pub get_image : Framework → (build_version : String) → ClusterReconciler → Outcome Image
unfolding image_of
get_image f build_version r = do
  spec ← deref r.base.spec.image
  ok (image_of f.platform build_version spec)

-- The role's identity.
unfoldable pub role_info : ClusterReconciler → RoleName → RoleInfo
role_info r n = record { cluster_info = r.base.cluster_info; role_name = role_name n }

abbrev pub GroupOrder : Type 0
GroupOrder = Order (String × RoleGroupSpec)

-- `if err := role.RegisterResources(ctx); err != nil { return err }`, the call of `AddResource`,
-- and what follows; the reconciler is the second component.
abbrev pub after_role {ℓ} :
    {R : Type ℓ}
    → (R → Role)
    → Outcome Done × R
    → ClusterReconciler
    → (ClusterReconciler → Outcome Done × ClusterReconciler)
    → Outcome Done × ClusterReconciler
after_role role (ok d, added) r next =
    next (record r { resources = r.resources ++ role added ∷ [] })
after_role role (err e, added) r next = (err e, r)
after_role role (panic, added) r next = (panic, r)

-- The image is the last argument of a constructor that can panic.
abbrev pub with_image :
    Outcome Image
    → ClusterReconciler
    → (Image → Outcome Done × ClusterReconciler)
    → Outcome Done × ClusterReconciler
with_image (ok image) r next = next image
with_image (err e) r next = (err e, r)
with_image panic r next = (panic, r)

unfoldable pub register_celery :
    Framework → GroupOrder → Image → ClusterReconciler → Outcome Done × CeleryExecutorsReconciler
unfolding role_info
register_celery f order image r = CeleryExecutor.register_resources f order (
    new_celery_executors_reconciler f r.base.stopped r.cluster_config (role_info r celery_executors)
      image r.base.spec.celery_executors)

unfoldable pub register_schedulers :
    Framework → GroupOrder → Image → ClusterReconciler → Outcome Done × SchedulersReconciler
unfolding role_info
register_schedulers f order image r = Scheduler.register_resources f order (
    new_schedulers_reconciler f r.base.stopped r.cluster_config (role_info r schedulers) image
      r.base.spec.schedulers)

unfoldable pub register_webservers :
    Framework → GroupOrder → Image → ClusterReconciler → Outcome Done × WebserversReconciler
unfolding role_info
register_webservers f order image r = Webserver.register_resources f order (
    new_webservers_reconciler f r.base.stopped r.cluster_config (role_info r webservers) image
      r.base.spec.webservers)

-- The three parts of `RegisterResource`, the last one first.
unfoldable pub webservers_part :
    Framework
    → (build_version : String) → GroupOrder
    → ClusterReconciler
    → Outcome Done × ClusterReconciler
unfolding register_webservers
webservers_part f build_version order r = with_image (get_image f build_version r) r (λ image.
    after_role webservers_role (register_webservers f order image r) r (λ r'. (ok tt, r')))

unfoldable pub schedulers_part :
    Framework
    → (build_version : String) → GroupOrder
    → ClusterReconciler
    → Outcome Done × ClusterReconciler
unfolding register_schedulers webservers_part
schedulers_part f build_version order r = with_image (get_image f build_version r) r (λ image.
    after_role schedulers_role (register_schedulers f order image r) r
      (λ r'. webservers_part f build_version order r'))

-- `RegisterResource`, and the reconciler that it leaves.
unfoldable pub register_resource :
    Framework
    → (build_version : String) → GroupOrder
    → ClusterReconciler
    → Outcome Done × ClusterReconciler
unfolding register_celery schedulers_part
register_resource f build_version order r = with_image (get_image f build_version r) r (λ image.
    after_role celery_role (register_celery f order image r) r
      (λ r'. schedulers_part f build_version order r'))
