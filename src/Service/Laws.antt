-- ===== src/Service/Laws.antt =====
-- internal/controller/common/service.go: what the metrics service tells Prometheus.
use airflow_operator.Prelude.{
  String, ◌≡◌, refl, ap, ◌∙◌, true, Option, none, some, List, [], ◌∷◌, arith, ◌==◌, eq_iff,
  if◌then◌else◌,
}
use airflow_operator.Go.Text.{ℤ, itoa}
use airflow_operator.Go.Outcome.{ok}
use airflow_operator.Go.Map.{
  lookup, copy, lookup-copy, lookup-insert, or_else, DistinctKeys, string_key,
}
use airflow_operator.Kube.{ContainerPort}
use airflow_operator.Framework.{Framework, RoleGroupInfo, ServiceReconciler, ServiceBuilderOptions}
use airflow_operator.Service.Defs.{
  metrics_port, is_positive, get_prometheus_annotations, entries, scrape_labels, metrics_service,
  get_service_reconciler,
}

pub annotations-DistinctKeys : (port : ℤ) → DistinctKeys (get_prometheus_annotations port)
unfolding lookup get_prometheus_annotations
annotations-DistinctKeys port = (refl, (refl, (refl, (refl, tt))))

-- What Prometheus reads of a port.
abbrev pub prometheus : String → ℤ → Option String
prometheus k port =
    if k == "prometheus.io/scrape"
    then some "true"
    else if k == "prometheus.io/port"
    then some (itoa port)
    else if k == "prometheus.io/path"
    then some "/metrics"
    else if k == "prometheus.io/scheme"
    then some "http"
    else none

pub prometheus_lem :
    (k : String) (port : ℤ) → lookup k (get_prometheus_annotations port) ≡ prometheus k port
unfolding lookup get_prometheus_annotations
prometheus_lem k port = ground (
  arith,
  eq_iff k "prometheus.io/scrape",
  eq_iff "prometheus.io/scrape" k,
  eq_iff k "prometheus.io/port",
  eq_iff "prometheus.io/port" k,
  eq_iff k "prometheus.io/path",
  eq_iff "prometheus.io/path" k,
  eq_iff k "prometheus.io/scheme",
  eq_iff "prometheus.io/scheme" k,
)

or_else-none : (x : Option String) → or_else x none ≡ x
or_else-none none = refl
or_else-none (some v) = refl

labels_lem :
    (k : String) (labels : Option (List (String × String)))
    → DistinctKeys (entries labels)
    → lookup k (scrape_labels labels)
      ≡ (if "prometheus.io/scrape" == k then some "true" else lookup k (entries labels))
unfolding scrape_labels lookup
labels_lem k labels h =
    lookup-insert "prometheus.io/scrape" k "true" (copy [] (entries labels))
    ∙ ap (λ (x : Option String). if "prometheus.io/scrape" == k then some "true" else x)
        (lookup-copy k [] (entries labels) h ∙ or_else-none (lookup k (entries labels)))

-- If the first port named metrics is positive, the role group's annotations are a map and its
-- labels have no key twice, GetServiceReconciler returns a service with that one port and the
-- group's full name, whose annotations are the four of Prometheus and elsewhere the group's, and
-- whose labels are the group's but that of the scrape.
pub get_service_reconciler-metrics :
    (f : Framework) (info : RoleGroupInfo) (ports : List ContainerPort)
    (annotations : List (String × String))
    → is_positive (metrics_port ports) ≡ true
    → f.group_annotations info ≡ some annotations
    → DistinctKeys (entries (f.group_labels info))
    → (s : ServiceReconciler) × (o : ServiceBuilderOptions) × (get_service_reconciler f info ports
        ≡ ok (some s))
      × (s.options ≡ o ∷ [])
      × (s.full_name ≡ f.group_full_name info)
      × (s.ports
          ≡ record { name = "metrics"; container_port = metrics_port ports; protocol = "" } ∷ [])
      × ((k : String)
          → lookup k o.annotations
            ≡ or_else (prometheus k (metrics_port ports)) (lookup k annotations))
      × ((k : String)
          → lookup k o.labels ≡ (
              if "prometheus.io/scrape" == k
              then some "true"
              else lookup k (entries (f.group_labels info))))
unfolding get_service_reconciler metrics_service
get_service_reconciler-metrics f info ports annotations positive there distinct = (
  _,
  _,
  rw (positive, there),
  refl,
  refl,
  refl,
  λ k.
      lookup-copy k annotations _ (annotations-DistinctKeys _)
      ∙ ap (λ x. or_else x (lookup k annotations)) (prometheus_lem k _),
  λ k. labels_lem k (f.group_labels info) distinct,
)
