-- ===== src/Tests/Builds.antt =====
-- internal/controller: what the resources of a reconciled cluster build.
use mathlib.Core.List.Memᴰ
use airflow_operator.Prelude.{◌≡◌, ◌≢◌, refl, some, [], ◌∷◌, All, arith, eq_iff}
use airflow_operator.Go.Outcome.{ok, for_each}
use airflow_operator.Api.{AirflowCluster, ClusterConfigSpec}
use airflow_operator.Platform.{KeepsArguments, found}
use airflow_operator.Framework.{Framework, KeepsBase}
use airflow_operator.StatefulSet.Containers.{HasContainer}
use airflow_operator.Auth.New.{new_authentication, add_spec}
use airflow_operator.Service.{get_service_reconciler, metrics_port}
use airflow_operator.Role.Groups.{register_groups, group_resources, authentication_of}
use airflow_operator.Role.Scheduler
use airflow_operator.Role.Scheduler.{new_schedulers_reconciler}
use airflow_operator.Role.CeleryExecutor
use airflow_operator.Role.CeleryExecutor.{new_celery_executors_reconciler}
use airflow_operator.Role.Webserver
use airflow_operator.Role.Webserver.{new_webservers_reconciler}
use airflow_operator.Cluster.Defs.{
  ClusterReconciler, new_cluster_reconciler, get_image, register_resource,
}
use airflow_operator.Cluster.Made.{OfRole}
use airflow_operator.Controller.Defs.{no_result, reconcile, reconcile_instance}
use airflow_operator.Controller.Builds.{
  OfSet, OfConfigMap, BuildsNothing, BuildPanics, reconcile-HasContainer, reconcile-BuildsNothing,
  reconcile-BuildPanics,
}
use airflow_operator.Tests.Setup.{
  test_platform, cluster_config, serving, cluster, entry, open_directory, request, swapped_order,
  same_order,
}
use airflow_operator.Tests.Clusters.{run, air, framework, keeps, air_reconciled}

arguments : KeepsArguments test_platform
arguments = record { kept = λ n r i v c s. (refl, refl, refl, refl, refl) }

credentials_named : (cluster_config (entry "ldap" ∷ [])).credentials ≢ ""
credentials_named h = ground (arith, h, eq_iff "airflow-credentials" "")

reconcile-HasContainer_example :
    (r : ClusterReconciler) × (run r ≡ ok no_result)
    × All
        (OfRole (λ role.
          OfSet (HasContainer test_platform same_order (cluster_config (entry "ldap" ∷ [])) role)))
        r.resources
reconcile-HasContainer_example =
    reconcile-HasContainer framework run "0.0.0" swapped_order same_order request air
      (cluster_config (entry "ldap" ∷ [])) no_result keeps arguments (λ info. refl) refl refl
      air_reconciled credentials_named

-- The same cluster without a credentials secret.
abbrev unnamed_config : ClusterConfigSpec
unnamed_config = record (cluster_config (entry "ldap" ∷ [])) { credentials = "" }

abbrev unnamed : AirflowCluster
unnamed = record air { spec = record air.spec { cluster_config = some unnamed_config } }

abbrev unnamed_framework : Framework
unnamed_framework = record framework { get_cluster = λ name. found unnamed }

unnamed_keeps : KeepsBase unnamed_framework
unnamed_keeps = (λ S stopped info spec. refl, λ info op spec. refl)

unnamed_reconciled : reconcile unnamed_framework run "0.0.0" swapped_order request ≡ ok no_result
unfolding reconcile reconcile_instance new_cluster_reconciler register_resource get_image
    CeleryExecutor.register_resources CeleryExecutor.new_celery_executors_reconciler
    CeleryExecutor.register_resource_with_role_group Scheduler.register_resources
    Scheduler.new_schedulers_reconciler Scheduler.register_resource_with_role_group
    Webserver.register_resources Webserver.new_webservers_reconciler
    Webserver.register_resource_with_role_group register_groups group_resources authentication_of
    new_authentication for_each add_spec get_service_reconciler metrics_port
unnamed_reconciled = refl

reconcile-BuildsNothing_example :
    (r : ClusterReconciler) × (run r ≡ ok no_result)
    × All (OfRole (λ role. OfSet (BuildsNothing test_platform same_order))) r.resources
reconcile-BuildsNothing_example =
    reconcile-BuildsNothing unnamed_framework run "0.0.0" swapped_order same_order request unnamed
      unnamed_config no_result unnamed_keeps arguments (λ info. refl) refl refl unnamed_reconciled
      refl

-- A cluster with a directory that has no bind credentials.
abbrev bare_framework : Framework
bare_framework = serving (entry "open" ∷ [])

bare_keeps : KeepsBase bare_framework
bare_keeps = (λ S stopped info spec. refl, λ info op spec. refl)

bare_reconciled : reconcile bare_framework run "0.0.0" swapped_order request ≡ ok no_result
unfolding reconcile reconcile_instance new_cluster_reconciler register_resource get_image
    CeleryExecutor.register_resources CeleryExecutor.new_celery_executors_reconciler
    CeleryExecutor.register_resource_with_role_group Scheduler.register_resources
    Scheduler.new_schedulers_reconciler Scheduler.register_resource_with_role_group
    Webserver.register_resources Webserver.new_webservers_reconciler
    Webserver.register_resource_with_role_group register_groups group_resources authentication_of
    new_authentication for_each add_spec get_service_reconciler metrics_port
bare_reconciled = refl

reconcile-BuildPanics_example :
    (r : ClusterReconciler) × (run r ≡ ok no_result)
    × All
        (OfRole (λ role. OfConfigMap (BuildPanics test_platform same_order swapped_order)))
        r.resources
reconcile-BuildPanics_example =
    reconcile-BuildPanics bare_framework run "0.0.0" swapped_order swapped_order request
      (cluster (entry "open" ∷ [])) (cluster_config (entry "open" ∷ [])) no_result bare_keeps
      arguments (λ info. refl) refl refl bare_reconciled same_order (entry "open")
      (record { provider = open_directory }) (Memᴰ.head refl) refl refl
