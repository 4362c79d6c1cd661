-- ===== src/Service/Defs.antt =====
-- internal/controller/common/service.go: `GetServiceReconciler` and `getPrometheusAnnotations`.
use airflow_operator.Prelude.{
  String, Bool, true, false, Option, none, some, List, [], ◌∷◌, ◌==◌, zero, suc, if◌then◌else◌,
}
use airflow_operator.Go.Text.{ℤ, pos, negsuc, itoa}
use airflow_operator.Go.Outcome.{Outcome, ok, deref, ◌>>=◌}
use airflow_operator.Go.Map.{insert, copy, string_key}
use airflow_operator.Kube.{ContainerPort}
use airflow_operator.Framework.{Framework, RoleGroupInfo, ServiceReconciler}

-- The port of the first entry that is named "metrics", or zero.
unfoldable pub metrics_port : List ContainerPort → ℤ
metrics_port [] = pos 0
metrics_port (port ∷ ports) =
    if port.name == "metrics" then port.container_port else metrics_port ports

-- `metricsPort > 0`
abbrev pub is_positive : ℤ → Bool
is_positive (pos zero) = false
is_positive (pos (suc n)) = true
is_positive (negsuc n) = false

-- The map literal of `getPrometheusAnnotations`.
unfoldable pub get_prometheus_annotations : ℤ → List (String × String)
get_prometheus_annotations port =
    ("prometheus.io/scrape", "true")
    ∷ ("prometheus.io/port", itoa port)
    ∷ ("prometheus.io/path", "/metrics")
    ∷ ("prometheus.io/scheme", "http")
    ∷ []

-- The entries of a map that may be nil, for reading.
abbrev pub entries : Option (List (String × String)) → List (String × String)
entries none = []
entries (some m) = m

-- The labels, copied into a new map, and the one that is set.
unfoldable pub scrape_labels : Option (List (String × String)) → List (String × String)
scrape_labels labels = insert "prometheus.io/scrape" "true" (copy [] (entries labels))

-- The body of the `if`; a write to a nil map panics.
unfoldable pub metrics_service : Framework → RoleGroupInfo → ℤ → Outcome ServiceReconciler
unfolding scrape_labels
metrics_service f info port = do
  annotations ← deref (f.group_annotations info)
  ok (record {
    full_name = f.group_full_name info;
    ports = record { name = "metrics"; container_port = port; protocol = "" } ∷ [];
    options =
        record {
          annotations = copy annotations (get_prometheus_annotations port);
          labels = scrape_labels (f.group_labels info);
        }
        ∷ [];
  })

-- `GetServiceReconciler`; nil is `none`.
unfoldable pub get_service_reconciler :
    Framework → RoleGroupInfo → List ContainerPort → Outcome (Option ServiceReconciler)
unfolding metrics_service
get_service_reconciler f info ports =
    let port = metrics_port ports in
    if is_positive port then (metrics_service f info port >>= λ s. ok (some s)) else ok none
