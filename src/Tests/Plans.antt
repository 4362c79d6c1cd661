-- ===== src/Tests/Plans.antt =====
-- internal/controller: the objects of a cluster with three roles of two role groups each.
use mathlib.Core.List.{flat_map}
use mathlib.Core.Quot
use airflow_operator.Prelude.{String, ◌≡◌, refl, [], ◌∷◌}
use airflow_operator.Go.Outcome.{ok}
use airflow_operator.Platform.{NamesObjects}
use airflow_operator.Role.Steps.{Kind, a_config_map, a_stateful_set, a_service}
use airflow_operator.Role.Plan.{Identity}
use airflow_operator.Cluster.Defs.{ClusterReconciler}
use airflow_operator.Cluster.Plan.{Bag, registered_objects}
use airflow_operator.Controller.Defs.{no_result, cluster_info}
use airflow_operator.Controller.Refines.{reconcile_refines}
use airflow_operator.Tests.Setup.{request, swapped_order}
use airflow_operator.Tests.Clusters.{run, air, framework, keeps, air_reconciled}

abbrev an_object : Kind → String → Identity
an_object k n = record { object_kind = k; object_name = n }

abbrev expected_objects : Bag Identity
expected_objects = Quot.mk (
    an_object a_config_map "air-celeryexecutors-default"
    ∷ an_object a_stateful_set "air-celeryexecutors-default"
    ∷ an_object a_service "air-celeryexecutors-default"
    ∷ an_object a_config_map "air-celeryexecutors-large"
    ∷ an_object a_stateful_set "air-celeryexecutors-large"
    ∷ an_object a_service "air-celeryexecutors-large"
    ∷ an_object a_config_map "air-schedulers-default"
    ∷ an_object a_stateful_set "air-schedulers-default"
    ∷ an_object a_service "air-schedulers-default"
    ∷ an_object a_config_map "air-schedulers-large"
    ∷ an_object a_stateful_set "air-schedulers-large"
    ∷ an_object a_service "air-schedulers-large"
    ∷ an_object a_config_map "air-webservers-default"
    ∷ an_object a_stateful_set "air-webservers-default"
    ∷ an_object a_service "air-webservers-default"
    ∷ an_object a_service "air-webservers-default"
    ∷ an_object a_config_map "air-webservers-large"
    ∷ an_object a_stateful_set "air-webservers-large"
    ∷ an_object a_service "air-webservers-large"
    ∷ an_object a_service "air-webservers-large"
    ∷ [])

names : NamesObjects framework.platform
names = record { config_map_name = λ n s. refl; stateful_set_name = λ n r i v c s. refl }

reconcile_refines_example :
    (r : ClusterReconciler) × (run r ≡ ok no_result) × (registered_objects r ≡ expected_objects)
unfolding flat_map cluster_info
reconcile_refines_example =
    reconcile_refines framework run "0.0.0" swapped_order request air no_result keeps
      (λ i o s. refl) names refl air_reconciled
