-- ===== src/Controller/Defs.antt =====
-- internal/controller/airflowclusters_controller.go: `Reconcile`.
use airflow_operator.Prelude.{String, false}
use airflow_operator.Go.Outcome.{Done, Outcome, ok, err, panic}
use airflow_operator.Api.{AirflowCluster, group, version}
use airflow_operator.Platform.{Got, found, not_found, failed}
use airflow_operator.Framework.{Framework, ClusterInfo, Result, NamespacedName}
use airflow_operator.Cluster.Defs.{
  ClusterReconciler, new_cluster_reconciler, GroupOrder, register_resource,
}

-- `ctrl.Result{}`
abbrev pub no_result : Result
no_result = record { requeue = false }

unfoldable pub cluster_info : AirflowCluster → ClusterInfo
cluster_info instance' = record {
  gvk = record { group = group; version = version; kind = "AirflowCluster" };
  cluster_name = instance'.name;
}

-- `reconciler.Run(ctx)` of the base cluster: it walks the resources that were added.
abbrev pub Run : Type 0
Run = ClusterReconciler → Outcome Result

-- The resources are registered, and run if that returned no error.
unfoldable pub after_register : Run → Outcome Done × ClusterReconciler → Outcome Result
after_register run (ok d, r) = run r
after_register run (err e, r) = err e
after_register run (panic, r) = panic

unfoldable pub reconcile_instance :
    Framework → Run → (build_version : String) → GroupOrder → AirflowCluster → Outcome Result
unfolding after_register
reconcile_instance f run build_version order instance' = after_register run (
    register_resource f build_version order
      (new_cluster_reconciler f (cluster_info instance') instance'.spec))

-- An object that is not found is being deleted, and is left alone.
unfoldable pub after_get :
    Framework → Run → (build_version : String) → GroupOrder → Got AirflowCluster → Outcome Result
after_get f run build_version order (found instance') =
    reconcile_instance f run build_version order instance'
after_get f run build_version order not_found = ok no_result
after_get f run build_version order (failed e) = err e

unfoldable pub reconcile :
    Framework → Run → (build_version : String) → GroupOrder → NamespacedName → Outcome Result
unfolding after_get
reconcile f run build_version order request =
    after_get f run build_version order (f.get_cluster request)
