-- ===== src/Role/Ports.antt =====
-- internal/controller/role/port.go
use airflow_operator.Prelude.{List, [], ◌∷◌}
use airflow_operator.Go.Text.{pos}
use airflow_operator.Kube.{ContainerPort}

abbrev pub ports : List ContainerPort
ports =
    record { name = "http"; container_port = pos 8080; protocol = "TCP" }
    ∷ record { name = "metrics"; container_port = pos 9102; protocol = "TCP" }
    ∷ []
