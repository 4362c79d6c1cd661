-- ===== src/Controller/Refines.antt =====
-- internal/controller/airflowclusters_controller.go: with which objects `Reconcile` runs a cluster.
use airflow_operator.Prelude.{String, ◌≡◌, refl, sym, ap, ◌∙◌}
use airflow_operator.Go.Outcome.{ok}
use airflow_operator.Api.{AirflowCluster, AirflowClusterSpec}
use airflow_operator.Platform.{NamesObjects, found}
use airflow_operator.Framework.{
  Framework, KeepsBase, KeepsClusterInfo, Result, NamespacedName, ClusterInfo,
}
use airflow_operator.Cluster.Defs.{
  ClusterReconciler, new_cluster_reconciler, GroupOrder, register_resource,
}
use airflow_operator.Cluster.Plan.{planned_objects, registered_objects}
use airflow_operator.Cluster.Refines.{register_resource_refines}
use airflow_operator.Controller.Defs.{
  cluster_info, Run, after_get, after_register, reconcile_instance, reconcile,
}
use airflow_operator.Controller.Laws.{fresh, after_register-ok_iff}

-- If the base constructors keep their arguments and the builders keep their names, and Reconcile
-- returns a result for an object that is there, it is the result of running a cluster whose
-- registered objects, in no order, are the planned ones: for each role group of the Celery
-- executors and of the schedulers a config map, a stateful set and a service, for each role group
-- of the webservers a config map, a stateful set and two services, all with the role group's full
-- name.
pub reconcile_refines :
    (f : Framework) (run : Run) (build_version : String) (order : GroupOrder)
    (request : NamespacedName) (i : AirflowCluster) (res : Result)
    → KeepsBase f
    → KeepsClusterInfo f
    → NamesObjects f.platform
    → f.get_cluster request ≡ found i
    → reconcile f run build_version order request ≡ ok res
    → (r : ClusterReconciler) × (run r ≡ ok res)
      × (registered_objects r ≡ planned_objects f (cluster_info i) i.spec)
unfolding reconcile new_cluster_reconciler after_register reconcile_instance after_get
reconcile_refines f run build_version order request i res keeps same names there h =
    let (r, hr, hk) =
      (after_register-ok_iff run (register_resource f build_version order (fresh f i)) res).0
        (sym (ap (after_get f run build_version order) there) ∙ h) in
    (
      r,
      hk,
      register_resource_refines f build_version order (fresh f i) r keeps names refl hr
          ∙ ap (λ (info : ClusterInfo). planned_objects f info (fresh f i).base.spec)
              (same (cluster_info i) i.spec.cluster_operation i.spec)
          ∙ ap (λ (spec : AirflowClusterSpec). planned_objects f (cluster_info i) spec)
              (keeps.1 (cluster_info i) i.spec.cluster_operation i.spec),
    )
