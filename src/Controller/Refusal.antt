-- ===== src/Controller/Refusal.antt =====
-- internal/controller: a cluster whose authentication is refused is not run.
use airflow_operator.Prelude.{String, ◌≡◌, ap, ◌∙◌, Option, some, List, ◌∷◌}
use airflow_operator.Go.Outcome.{Done, Outcome, ok, err, panic, Error}
use airflow_operator.Go.Map.{Order}
use airflow_operator.Api.{
  AuthenticationSpec, AirflowCluster, AirflowClusterSpec, ClusterConfigSpec, CeleryExecutorsSpec,
  RoleGroupSpec, ImageSpec, ConfigSpec, OverridesSpec, celery_executors,
}
use airflow_operator.Platform.{Image, found}
use airflow_operator.Cluster.Complete.{get_image-some}
use airflow_operator.Framework.{KeepsBase, Framework, NamespacedName, BaseRole}
use airflow_operator.Auth.New.{new_authentication}
use airflow_operator.Role.Groups.{
  register_spec, Resource, authentication_of, group_resources, register_groups,
}
use airflow_operator.Role.CeleryExecutor.{
  CeleryExecutorsReconciler, spec_view, register_resources, register_resource_with_role_group,
  new_celery_executors_reconciler,
}
use airflow_operator.Cluster.Defs.{
  ClusterReconciler, new_cluster_reconciler, GroupOrder, get_image, register_celery, role_info,
  register_resource, with_image, after_role, celery_role, schedulers_part,
}
use airflow_operator.Controller.Defs.{
  cluster_info, Run, reconcile, after_register, after_get, reconcile_instance,
}

module _ (f : Framework) (r : CeleryExecutorsReconciler) (c : ClusterConfigSpec)
    (a : AuthenticationSpec) (auths : List AuthenticationSpec) (e : Error)
    (configured : r.cluster_config ≡ some c) (listed : c.authentication ≡ a ∷ auths)
    (refused : new_authentication f.platform (a ∷ auths) ≡ err e) where
  -- The first role group that can be merged meets the refusal.
  group-refused :
      (config : Option ConfigSpec) (overrides : Option OverridesSpec) (g : String × RoleGroupSpec)
      (mc : Option ConfigSpec) (mo : Option OverridesSpec)
      → f.merge_config config g.1.config ≡ ok mc
      → f.merge_overrides overrides g.1.overrides_spec ≡ ok mo
      → group_resources f r.base.role_info config overrides
          (register_resource_with_role_group f r)
          g
        ≡ err e
  unfolding group_resources register_resource_with_role_group authentication_of
  group-refused config overrides (name, group) mc mo hc ho =
      rw (hc, ho, configured, listed, refused)

  celery-refused :
      (order : Order (String × RoleGroupSpec)) (spec : CeleryExecutorsSpec)
      (g : String × RoleGroupSpec) (gs : List (String × RoleGroupSpec)) (mc : Option ConfigSpec)
      (mo : Option OverridesSpec)
      → r.base.spec ≡ some spec
      → order.visit spec.role_groups ≡ g ∷ gs
      → f.merge_config spec.config g.1.config ≡ ok mc
      → f.merge_overrides spec.overrides_spec g.1.overrides_spec ≡ ok mo
      → (register_resources f order r).0 ≡ err e
  unfolding register_resources register_groups
  celery-refused order spec g gs mc mo there visited hc ho =
      let q = group-refused spec.config spec.overrides_spec g mc mo hc ho in
      ap (λ s. (rounds order s).0) there ∙ rw (visited, q)
    where
      rounds :
          Order (String × RoleGroupSpec) → Option CeleryExecutorsSpec → Outcome Done × List Resource
      rounds =
          register_spec spec_view f r.base.role_info (register_resource_with_role_group f r)
            r.resources

register_resource-stop :
    (f : Framework) (build_version : String) (order : GroupOrder) (r : ClusterReconciler)
    (image : Image) (e : Error)
    → get_image f build_version r ≡ ok image
    → (register_celery f order image r).0 ≡ err e
    → (register_resource f build_version order r).0 ≡ err e
unfolding register_resource
register_resource-stop f build_version order r image e hi h =
    ap
      (λ i.
        (with_image i r (λ j.
          after_role celery_role (register_celery f order j r) r
            (schedulers_part f build_version order))).0)
      hi
    ∙ stopped (register_celery f order image r) h
  where
    stopped :
        (q : Outcome Done × CeleryExecutorsReconciler)
        → q.0 ≡ err e
        → (after_role celery_role q r (λ r'. schedulers_part f build_version order r')).0 ≡ err e
    stopped (ok d, c) k = cc k
    stopped (err d, c) k = k
    stopped (panic, c) k = cc k

after_register-err :
    (run : Run) (q : Outcome Done × ClusterReconciler) (e : Error)
    → q.0 ≡ err e
    → after_register run q ≡ err e
unfolding after_register
after_register-err run (ok d, r) e h = cc h
after_register-err run (err d, r) e h = let same : d ≡ e = cc h in ap err same
after_register-err run (panic, r) e h = cc h

-- If the base constructors keep their arguments, the object is there with an image spec and a
-- cluster configuration whose non-empty authentication NewAuthentication refuses with an error,
-- and the role group of the Celery executors that is visited first can be merged, then Reconcile
-- returns that error, whatever running a cluster would do.
pub reconcile-refused :
    (f : Framework) (run : Run) (build_version : String) (order : GroupOrder)
    (request : NamespacedName) (i : AirflowCluster) (image : ImageSpec) (c : ClusterConfigSpec)
    (a : AuthenticationSpec) (auths : List AuthenticationSpec) (e : Error)
    (spec : CeleryExecutorsSpec) (g : String × RoleGroupSpec) (gs : List (String × RoleGroupSpec))
    (mc : Option ConfigSpec) (mo : Option OverridesSpec)
    → KeepsBase f
    → f.get_cluster request ≡ found i
    → i.spec.image ≡ some image
    → i.spec.cluster_config ≡ some c
    → c.authentication ≡ a ∷ auths
    → new_authentication f.platform (a ∷ auths) ≡ err e
    → i.spec.celery_executors ≡ some spec
    → order.visit spec.role_groups ≡ g ∷ gs
    → f.merge_config spec.config g.1.config ≡ ok mc
    → f.merge_overrides spec.overrides_spec g.1.overrides_spec ≡ ok mo
    → reconcile f run build_version order request ≡ err e
unfolding reconcile reconcile_instance after_get new_cluster_reconciler register_celery
    new_celery_executors_reconciler
reconcile-refused f run build_version order request i image c a auths e spec g gs mc mo keeps there
      pictured configured listed refused celery visited hc ho =
    let r = new_cluster_reconciler f (cluster_info i) i.spec in
    let same : r.base.spec ≡ i.spec = keeps.1 (cluster_info i) i.spec.cluster_operation i.spec in
    let (made, hm) =
      get_image-some f build_version r image
        (ap (λ (s : AirflowClusterSpec). s.image) same ∙ pictured) in
    let role =
      new_celery_executors_reconciler f r.base.stopped r.cluster_config
        (role_info r celery_executors) made r.base.spec.celery_executors in
    let filled : role.base.spec ≡ some spec =
      ap (λ (b : BaseRole CeleryExecutorsSpec). b.spec)
        (keeps.0 CeleryExecutorsSpec r.base.stopped (role_info r celery_executors)
          r.base.spec.celery_executors)
      ∙ (ap (λ (s : AirflowClusterSpec). s.celery_executors) same ∙ celery) in
    let stop =
      celery-refused f role c a auths e configured listed refused order spec g gs mc mo filled
        visited hc ho in
    ap (after_get f run build_version order) there
    ∙ after_register-err run (register_resource f build_version order r) e
        (register_resource-stop f build_version order r made e hm stop)
