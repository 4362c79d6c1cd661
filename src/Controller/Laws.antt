-- ===== src/Controller/Laws.antt =====
-- internal/controller/airflowclusters_controller.go: the results of `Reconcile`, and with which
-- resources the cluster is run.
use airflow_operator.Prelude.{String, ◌≡◌, refl, sym, ap, ◌∙◌, ◌↔◌, ◌⊎◌, inl, inr, [], ◌∷◌}
use airflow_operator.Go.Outcome.{Done, Outcome, ok, err, panic}
use airflow_operator.Api.{AirflowCluster}
use airflow_operator.Platform.{Image, Got, found, not_found, failed}
use airflow_operator.Framework.{Framework, Result, NamespacedName}
use airflow_operator.Role.Scheduler.{SchedulersReconciler}
use airflow_operator.Role.CeleryExecutor.{CeleryExecutorsReconciler}
use airflow_operator.Role.Webserver.{WebserversReconciler}
use airflow_operator.Cluster.Defs.{
  ClusterReconciler, new_cluster_reconciler, GroupOrder, celery_role, schedulers_role,
  webservers_role, register_celery, register_schedulers, register_webservers, register_resource,
}
use airflow_operator.Cluster.Laws.{register_resource-ok}
use airflow_operator.Controller.Defs.{
  no_result, cluster_info, Run, after_register, after_get, reconcile_instance, reconcile,
}

-- The reconciler of an object.
abbrev pub fresh : Framework → AirflowCluster → ClusterReconciler
fresh f i = new_cluster_reconciler f (cluster_info i) i.spec

-- The registered cluster that is run.
abbrev pub Registered :
    Framework → (build_version : String) → GroupOrder → AirflowCluster → ClusterReconciler → Type 0
Registered f build_version order i r =
    register_resource f build_version order (fresh f i) ≡ (ok tt, r)

pub after_register-ok_iff :
    (run : Run) (q : Outcome Done × ClusterReconciler) (res : Result)
    → (after_register run q ≡ ok res)
      ↔ ((r : ClusterReconciler) × (q ≡ (ok tt, r)) × (run r ≡ ok res))
unfolding after_register
after_register-ok_iff run (o, r) res = (λ h. forward o h, λ h. ap (after_register run) h.1 ∙ h.2)
  where
    at : Outcome Done → Outcome Done × ClusterReconciler
    at o = (o, r)

    forward :
        (o : Outcome Done)
        → after_register run (o, r) ≡ ok res
        → (r' : ClusterReconciler) × (at o ≡ (ok tt, r')) × (run r' ≡ ok res)
    forward (ok d) h = (r, refl, h)
    forward (err e) h = cc h
    forward panic h = cc h

-- Reconcile returns a result exactly if the object is not found and the result is the empty one,
-- or if the object is there, its resources are registered without an error and running them gives
-- that result.
pub reconcile-ok_iff :
    (f : Framework) (run : Run) (build_version : String) (order : GroupOrder)
    (request : NamespacedName) (res : Result)
    → (reconcile f run build_version order request ≡ ok res) ↔ (
        ((f.get_cluster request ≡ not_found) × (res ≡ no_result))
        ⊎ ((i : AirflowCluster) × (r : ClusterReconciler) × (f.get_cluster request ≡ found i)
            × Registered f build_version order i r
            × (run r ≡ ok res)))
unfolding reconcile after_register reconcile_instance
reconcile-ok_iff f run build_version order request res = got (f.get_cluster request)
  where
    got :
        (g : Got AirflowCluster)
        → (after_get f run build_version order g ≡ ok res) ↔ (
            ((g ≡ not_found) × (res ≡ no_result))
            ⊎ ((i : AirflowCluster) × (r : ClusterReconciler) × (g ≡ found i)
                × Registered f build_version order i r
                × (run r ≡ ok res)))
    got (found i) = (
      λ h.
          let (r, hr, k) =
            (after_register-ok_iff run (register_resource f build_version order (fresh f i)) res).0
              h in
          inr (i, r, refl, hr, k),
      λ h. elim h [
        | inl k ↦ cc k.0
        | inr k ↦
            let (j, r, e, hr, hk) = k in
            let same : i ≡ j = cc e in
            ap (reconcile_instance f run build_version order) same
            ∙ (after_register-ok_iff run (register_resource f build_version order (fresh f j))
                  res).1
                (r, hr, hk)
      ],
    )
    got not_found =
        (λ h. inl (refl, cc h), λ h. elim h [ inl k ↦ cc k.1 | inr k ↦ let e = k.2 in cc e ])
    got (failed e) = (λ h. cc h, λ h. elim h [ inl k ↦ cc k.0 | inr k ↦ let e = k.2 in cc e ])

-- If Reconcile returns a result for an object that is there, it is the result of running a cluster
-- whose resources are exactly the Celery executors, the schedulers and the webservers, in this
-- order, each of which has registered its resources without an error.
pub reconcile_complete :
    (f : Framework) (run : Run) (build_version : String) (order : GroupOrder)
    (request : NamespacedName) (i : AirflowCluster) (res : Result)
    → f.get_cluster request ≡ found i
    → reconcile f run build_version order request ≡ ok res
    → (r : ClusterReconciler) × (image : Image) × (c : CeleryExecutorsReconciler)
      × (s : SchedulersReconciler) × (w : WebserversReconciler) × (run r ≡ ok res)
      × (r.resources ≡ celery_role c ∷ schedulers_role s ∷ webservers_role w ∷ [])
      × (register_celery f order image (fresh f i) ≡ (ok tt, c))
      × (register_schedulers f order image (fresh f i) ≡ (ok tt, s))
      × (register_webservers f order image (fresh f i) ≡ (ok tt, w))
unfolding reconcile new_cluster_reconciler after_register reconcile_instance
reconcile_complete f run build_version order request i res there h =
    let (r, hr, hk) =
      (after_register-ok_iff run (register_resource f build_version order (fresh f i)) res).0
        (sym (ap (after_get f run build_version order) there) ∙ h) in
    let (image, c, s, w, _, hc, hs, hw, e, _) =
      register_resource-ok f build_version order (fresh f i) r hr in
    (r, image, c, s, w, hk, e, hc, hs, hw)
