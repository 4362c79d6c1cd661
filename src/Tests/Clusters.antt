-- ===== src/Tests/Clusters.antt =====
-- internal/controller/cluster.go and airflowclusters_controller.go: the theorems on a cluster with
-- three roles of two role groups each.
use airflow_operator.Prelude.{◌≤◌, length, ◌≡◌, ◌↔◌, refl, false, none, some, List, [], ◌∷◌, ◌++◌}
use airflow_operator.Go.Outcome.{ok, err, for_each}
use airflow_operator.Api.{ImageSpec, celery_executors, schedulers, webservers, AirflowCluster}
use airflow_operator.Platform.{Image}
use airflow_operator.Framework.{KeepsBase, Framework}
use airflow_operator.Auth.New.{new_authentication, add_spec, unsupported}
use airflow_operator.Service.{get_service_reconciler, metrics_port}
use airflow_operator.Role.Groups.{register_groups, group_resources, authentication_of}
use airflow_operator.Role.Scheduler.{SchedulersReconciler}
use airflow_operator.Role.CeleryExecutor.{CeleryExecutorsReconciler}
use airflow_operator.Role.Webserver.{WebserversReconciler}
use airflow_operator.Role.Scheduler
use airflow_operator.Role.CeleryExecutor
use airflow_operator.Role.Webserver
use airflow_operator.Cluster.Defs.{
  role_info, Role, ClusterReconciler, new_cluster_reconciler, get_image, celery_role,
  schedulers_role, webservers_role, register_celery, register_schedulers, register_webservers,
  register_resource,
}
use airflow_operator.Cluster.Complete.{RoleReady, register_resource-ok_iff}
use airflow_operator.Cluster.Laws.{register_resource-ok, register_resource-adds}
use airflow_operator.Controller.Defs.{no_result, Run, reconcile, reconcile_instance}
use airflow_operator.Controller.Laws.{fresh, reconcile_complete}
use airflow_operator.Controller.Refusal.{reconcile-refused}
use airflow_operator.Tests.Setup.{
  test_platform, serving, cluster, cluster_config, celery_spec, group_spec, image_spec, request,
  same_order, swapped_order, entry,
}

abbrev pub run : Run
run = λ r. ok (record { requeue = false })

-- A cluster with a directory for its users.
abbrev pub air : AirflowCluster
air = cluster (entry "ldap" ∷ [])

abbrev pub framework : Framework
framework = serving (entry "ldap" ∷ [])

abbrev air_reconciler : ClusterReconciler
air_reconciler = record {
  base =
      framework.new_base_cluster
        (record {
          gvk = record {
            group = "airflow.kubedoop.dev";
            version = "v1alpha1";
            kind = "AirflowCluster";
          };
          cluster_name = "air";
        })
        none air.spec;
  cluster_config = air.spec.cluster_config;
  resources = [];
}

air_registered :
    (r : ClusterReconciler) × (register_resource framework "0.0.0" swapped_order air_reconciler
      ≡ (ok tt, r))
unfolding register_resource get_image CeleryExecutor.register_resources
    CeleryExecutor.new_celery_executors_reconciler CeleryExecutor.register_resource_with_role_group
    Scheduler.register_resources Scheduler.new_schedulers_reconciler
    Scheduler.register_resource_with_role_group Webserver.register_resources
    Webserver.new_webservers_reconciler Webserver.register_resource_with_role_group register_groups
    group_resources authentication_of new_authentication for_each add_spec get_service_reconciler
    metrics_port
air_registered = (_, refl)

register_resource-ok_example :
    (image : Image) × (c : CeleryExecutorsReconciler) × (s : SchedulersReconciler)
    × (w : WebserversReconciler) × (get_image framework "0.0.0" air_reconciler ≡ ok image)
    × (register_celery framework swapped_order image air_reconciler ≡ (ok tt, c))
    × (register_schedulers framework swapped_order image air_reconciler ≡ (ok tt, s))
    × (register_webservers framework swapped_order image air_reconciler ≡ (ok tt, w))
    × (air_registered.0.resources
        ≡ [] ++ celery_role c ∷ schedulers_role s ∷ webservers_role w ∷ [])
    × (air_registered.0.base ≡ air_reconciler.base)
register_resource-ok_example =
    register_resource-ok framework "0.0.0" swapped_order air_reconciler air_registered.0
      air_registered.1

pub keeps : KeepsBase framework
keeps = (λ S stopped info spec. refl, λ info op spec. refl)

register_resource-ok_iff_example :
    ((r : ClusterReconciler) × (register_resource framework "0.0.0" swapped_order air_reconciler
        ≡ (ok tt, r)))
    ↔ (((image : ImageSpec) × (some image_spec ≡ some image))
        × RoleReady CeleryExecutor.spec_view framework
            (role_info air_reconciler celery_executors)
            air_reconciler.cluster_config
            air.spec.celery_executors
        × RoleReady Scheduler.spec_view framework
            (role_info air_reconciler schedulers)
            air_reconciler.cluster_config
            air.spec.schedulers
        × RoleReady Webserver.spec_view framework
            (role_info air_reconciler webservers)
            air_reconciler.cluster_config
            air.spec.webservers)
register_resource-ok_iff_example =
    register_resource-ok_iff framework "0.0.0" swapped_order air_reconciler keeps

register_resource-adds_example :
    (added : List Role) × ((register_resource framework "0.0.0" same_order air_reconciler).1
      ≡ record air_reconciler { resources = [] ++ added })
    × (length added ≤ 3)
register_resource-adds_example = register_resource-adds framework "0.0.0" same_order air_reconciler

pub air_reconciled : reconcile framework run "0.0.0" swapped_order request ≡ ok no_result
unfolding reconcile reconcile_instance new_cluster_reconciler register_resource get_image
    CeleryExecutor.register_resources CeleryExecutor.new_celery_executors_reconciler
    CeleryExecutor.register_resource_with_role_group Scheduler.register_resources
    Scheduler.new_schedulers_reconciler Scheduler.register_resource_with_role_group
    Webserver.register_resources Webserver.new_webservers_reconciler
    Webserver.register_resource_with_role_group register_groups group_resources authentication_of
    new_authentication for_each add_spec get_service_reconciler metrics_port
air_reconciled = refl

reconcile_complete_example :
    (r : ClusterReconciler) × (image : Image) × (c : CeleryExecutorsReconciler)
    × (s : SchedulersReconciler) × (w : WebserversReconciler) × (run r ≡ ok no_result)
    × (r.resources ≡ celery_role c ∷ schedulers_role s ∷ webservers_role w ∷ [])
    × (register_celery framework swapped_order image (fresh framework air) ≡ (ok tt, c))
    × (register_schedulers framework swapped_order image (fresh framework air) ≡ (ok tt, s))
    × (register_webservers framework swapped_order image (fresh framework air) ≡ (ok tt, w))
reconcile_complete_example =
    reconcile_complete framework run "0.0.0" swapped_order request air no_result refl air_reconciled

-- The class of the only entry has no provider that is supported.
refused_authentication :
    new_authentication test_platform (entry "empty" ∷ []) ≡ err (unsupported (entry "empty"))
unfolding new_authentication for_each add_spec
refused_authentication = refl

reconcile-refused_example :
    reconcile (serving (entry "empty" ∷ [])) run "0.0.0" swapped_order request
    ≡ err (unsupported (entry "empty"))
reconcile-refused_example =
    reconcile-refused (serving (entry "empty" ∷ [])) run "0.0.0" swapped_order request
      (cluster (entry "empty" ∷ [])) image_spec (cluster_config (entry "empty" ∷ []))
      (entry "empty") [] (unsupported (entry "empty")) celery_spec ("large", group_spec)
      (("default", group_spec) ∷ []) none none (λ S stopped info spec. refl, λ info op spec. refl)
      refl refl refl refl refused_authentication refl refl refl refl
