-- ===== src/Tests/Roles.antt =====
-- internal/controller/role and internal/controller/common/service.go: the theorems on the roles'
-- resources, at a cluster with two role groups for each role.
use mathlib.Core.List.{Permᴰ}
use airflow_operator.Prelude.{
  ℕ, String, ◌≡◌, ◌≢◌, ◌↔◌, refl, false, none, some, List, [], ◌∷◌, ◌++◌, All, ◌==◌, if◌then◌else◌,
}
use airflow_operator.Go.Text.{pos}
use airflow_operator.Go.Outcome.{Outcome, ok, err, panic, library, collect, for_each, ◌>>=◌}
use airflow_operator.Go.Map.{lookup, or_else, string_key}
use airflow_operator.Api.{WebserversSpec}
use airflow_operator.Framework.{RoleInfo, RoleGroupInfo, ServiceReconciler, ServiceBuilderOptions}
use airflow_operator.Go.Decimal.{read_decimal}
use airflow_operator.Service.{
  get_service_reconciler-read_decimal, get_service_reconciler, metrics_port,
  get_service_reconciler-metrics, get_service_reconciler-branches, IsServed, IsNotServed,
  prometheus,
}
use airflow_operator.Kube.{ContainerPort}
use airflow_operator.Role.Ports.{ports}
use airflow_operator.Role.Groups.{
  Resource, service_resource, register_groups, group_resources, authentication_of,
}
use airflow_operator.Auth.New.{new_authentication, add_spec}
use airflow_operator.Role.Registered.{register_groups-order, register_groups-stop}
use airflow_operator.Role.Ready.{GroupReady}
use airflow_operator.Role.Scheduler.{SchedulersReconciler, new_schedulers_reconciler}
use airflow_operator.Role.CeleryExecutor.{
  CeleryExecutorsReconciler, new_celery_executors_reconciler,
}
use airflow_operator.Role.Webserver.{WebserversReconciler, new_webservers_reconciler}
use airflow_operator.Role.Scheduler
use airflow_operator.Role.CeleryExecutor
use airflow_operator.Role.Webserver
use airflow_operator.Role.WebserverLaws.{webservers-ok_iff}
use airflow_operator.Tests.Setup.{
  test_framework, cluster_config, celery_spec, schedulers_spec, webservers_spec, test_image,
  swapped_order, same_order, info_labels, entry,
}

abbrev role_info : String → RoleInfo
role_info role = record {
  cluster_info = record {
    gvk = record { group = "airflow.kubedoop.dev"; version = "v1alpha1"; kind = "AirflowCluster" };
    cluster_name = "air";
  };
  role_name = role;
}

abbrev group_info : RoleGroupInfo
group_info = record { role_info = role_info "webservers"; role_group_name = "default" }

get_service_reconciler-metrics_example :
    (s : ServiceReconciler) × (o : ServiceBuilderOptions) × (get_service_reconciler test_framework
        group_info ports
      ≡ ok (some s))
    × (s.options ≡ o ∷ [])
    × (s.full_name ≡ "air-webservers-default")
    × (s.ports ≡ record { name = "metrics"; container_port = pos 9102; protocol = "" } ∷ [])
    × ((k : String) → lookup k o.annotations ≡ or_else (prometheus k (pos 9102)) (lookup k []))
    × ((k : String)
        → lookup k o.labels
          ≡ (if "prometheus.io/scrape" == k then some "true" else lookup k info_labels))
unfolding metrics_port lookup
get_service_reconciler-metrics_example =
    get_service_reconciler-metrics test_framework group_info ports [] refl refl (refl, tt)

get_service_reconciler-read_decimal_example :
    (s : ServiceReconciler) × (o : ServiceBuilderOptions) × (text : String) × (n : ℕ)
    × (get_service_reconciler test_framework group_info ports ≡ ok (some s))
    × (s.options ≡ o ∷ [])
    × (lookup "prometheus.io/port" o.annotations ≡ some text)
    × (read_decimal text ≡ some n)
    × (s.ports ≡ record { name = "metrics"; container_port = pos n; protocol = "" } ∷ [])
unfolding metrics_port
get_service_reconciler-read_decimal_example =
    get_service_reconciler-read_decimal test_framework group_info ports [] refl refl

-- Ports of which the one named metrics has the number zero.
abbrev zero_port : List ContainerPort
zero_port =
    record { name = "http"; container_port = pos 8080; protocol = "TCP" }
    ∷ record { name = "metrics"; container_port = pos 0; protocol = "TCP" }
    ∷ []

get_service_reconciler-branches_example :
    ((get_service_reconciler test_framework group_info zero_port ≡ ok none) ↔ IsNotServed zero_port)
    × ((get_service_reconciler test_framework group_info zero_port ≡ panic)
        ↔ (IsServed zero_port × (test_framework.group_annotations group_info ≡ none)))
    × (((s : ServiceReconciler) × (get_service_reconciler test_framework group_info zero_port
            ≡ ok (some s)))
        ↔ (IsServed zero_port
            × ((m : List (String × String)) × (test_framework.group_annotations group_info
                  ≡ some m))))
get_service_reconciler-branches_example =
    get_service_reconciler-branches test_framework group_info zero_port

abbrev schedulers : SchedulersReconciler
schedulers = record {
  base = record {
    cluster_stopped = false;
    role_info = role_info "schedulers";
    spec = some schedulers_spec;
  };
  cluster_config = some (cluster_config []);
  image = test_image;
  resources = [];
}

abbrev celery_executors : CeleryExecutorsReconciler
celery_executors = record {
  base = record {
    cluster_stopped = false;
    role_info = role_info "celeryexecutors";
    spec = some celery_spec;
  };
  cluster_config = some (cluster_config []);
  image = test_image;
  resources = [];
}

abbrev webservers : WebserversReconciler
webservers = record {
  base = record {
    cluster_stopped = false;
    role_info = role_info "webservers";
    spec = some webservers_spec;
  };
  cluster_config = some (cluster_config (entry "ldap" ∷ []));
  image = test_image;
  resources = [];
}

webservers-ok_iff_example :
    ((r : WebserversReconciler) × (Webserver.register_resources test_framework swapped_order
          webservers
        ≡ (ok tt, r)))
    ↔ ((spec : WebserversSpec) × (webservers.base.spec ≡ some spec)
        × All
            (GroupReady test_framework webservers.base.role_info spec.config spec.overrides_spec
              webservers.cluster_config)
            spec.role_groups)
webservers-ok_iff_example = webservers-ok_iff test_framework webservers swapped_order

schedulers_registered :
    (r : SchedulersReconciler) × (Scheduler.register_resources test_framework swapped_order
        schedulers
      ≡ (ok tt, r))
unfolding Scheduler.register_resources register_groups group_resources
    Scheduler.register_resource_with_role_group authentication_of get_service_reconciler
    metrics_port
schedulers_registered = (_, refl)

celery_executors_registered :
    (r : CeleryExecutorsReconciler) × (CeleryExecutor.register_resources test_framework
        swapped_order celery_executors
      ≡ (ok tt, r))
unfolding CeleryExecutor.register_resources register_groups group_resources
    CeleryExecutor.register_resource_with_role_group authentication_of get_service_reconciler
    metrics_port
celery_executors_registered = (_, refl)

webservers_registered :
    (r : WebserversReconciler) × (Webserver.register_resources test_framework swapped_order
        webservers
      ≡ (ok tt, r))
unfolding Webserver.register_resources register_groups group_resources
    Webserver.register_resource_with_role_group authentication_of new_authentication for_each
    add_spec get_service_reconciler metrics_port
webservers_registered = (_, refl)

-- Role groups by name, of which one is refused.
abbrev small_resources : String → Outcome (List Resource)
small_resources name =
    if name == "refused" then err (library "refused") else ok (service_resource none ∷ [])

small_order :
    register_groups small_resources [] ("a" ∷ "b" ∷ [])
    ≡ (ok tt, service_resource none ∷ service_resource none ∷ [])
unfolding register_groups
small_order = refl

register_groups-order_example :
    (zs : List Resource) × (register_groups small_resources []
        (swapped_order.visit ("a" ∷ "b" ∷ []))
      ≡ (ok tt, zs))
    × Permᴰ (service_resource none ∷ service_resource none ∷ []) zs
register_groups-order_example =
    register_groups-order small_resources [] (service_resource none ∷ service_resource none ∷ [])
      same_order swapped_order ("a" ∷ "b" ∷ []) small_order

small_prefix : collect small_resources ("a" ∷ []) ≡ ok (service_resource none ∷ [])
unfolding collect
small_prefix = refl

small_refused : (rs : List Resource) → small_resources "refused" ≢ ok rs
small_refused rs h = cc h

register_groups-stop_example :
    register_groups small_resources [] (("a" ∷ []) ++ "refused" ∷ "b" ∷ [])
    ≡ ((small_resources "refused" >>= λ rs. ok tt), [] ++ service_resource none ∷ [])
register_groups-stop_example =
    register_groups-stop small_resources [] ("a" ∷ []) "refused" ("b" ∷ [])
      (service_resource none ∷ []) small_prefix small_refused
