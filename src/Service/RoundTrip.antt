-- ===== src/Service/RoundTrip.antt =====
-- internal/controller/common/service.go: the port that Prometheus reads back from the annotations.
use airflow_operator.Prelude.{ℕ, String, ◌≡◌, refl, ap, ◌∙◌, true, some, List, [], ◌∷◌}
use airflow_operator.Go.Text.{ℤ, pos, negsuc, itoa}
use airflow_operator.Go.Decimal.{read_decimal, read_decimal-itoa}
use airflow_operator.Go.Outcome.{ok}
use airflow_operator.Go.Map.{lookup, copy, lookup-copy, or_else, string_key}
use airflow_operator.Kube.{ContainerPort}
use airflow_operator.Framework.{Framework, RoleGroupInfo, ServiceReconciler, ServiceBuilderOptions}
use airflow_operator.Service.Defs.{
  metrics_port, is_positive, get_prometheus_annotations, scrape_labels, metrics_service,
  get_service_reconciler,
}
use airflow_operator.Service.Laws.{annotations-DistinctKeys, prometheus_lem}

is_positive_inv : (z : ℤ) → is_positive z ≡ true → (n : ℕ) × (z ≡ pos n)
is_positive_inv (pos n) h = (n, refl)
is_positive_inv (negsuc n) h = absurd (cc h)

-- If the first port named metrics is positive and the role group's annotations are a map,
-- GetServiceReconciler returns a service whose annotation prometheus.io/port, read as a decimal
-- number, gives the port of the service.
pub get_service_reconciler-read_decimal :
    (f : Framework) (info : RoleGroupInfo) (ports : List ContainerPort)
    (annotations : List (String × String))
    → is_positive (metrics_port ports) ≡ true
    → f.group_annotations info ≡ some annotations
    → (s : ServiceReconciler) × (o : ServiceBuilderOptions) × (text : String) × (n : ℕ)
      × (get_service_reconciler f info ports ≡ ok (some s))
      × (s.options ≡ o ∷ [])
      × (lookup "prometheus.io/port" o.annotations ≡ some text)
      × (read_decimal text ≡ some n)
      × (s.ports ≡ record { name = "metrics"; container_port = pos n; protocol = "" } ∷ [])
unfolding get_service_reconciler metrics_service
get_service_reconciler-read_decimal f info ports annotations positive there =
    let (n, port) = is_positive_inv (metrics_port ports) positive in
    let options : ServiceBuilderOptions = record {
      annotations = copy annotations (get_prometheus_annotations (metrics_port ports));
      labels = scrape_labels (f.group_labels info);
    } in
    let service : ServiceReconciler = record {
      full_name = f.group_full_name info;
      ports = record { name = "metrics"; container_port = metrics_port ports; protocol = "" } ∷ [];
      options = options ∷ [];
    } in
    (
      service,
      options,
      itoa (metrics_port ports),
      n,
      rw (positive, there),
      refl,
      lookup-copy "prometheus.io/port" annotations _ (annotations-DistinctKeys (metrics_port ports))
          ∙ ap (λ x. or_else x (lookup "prometheus.io/port" annotations))
              (prometheus_lem "prometheus.io/port" (metrics_port ports)),
      ap (λ z. read_decimal (itoa z)) port ∙ read_decimal-itoa n,
      ap
          (λ z.
            let p : ContainerPort = record {
              name = "metrics";
              container_port = z;
              protocol = "";
            } in
            p ∷ [])
          port,
    )
