-- ===== src/Executor.antt =====
-- internal/controller/common/commons.go
use airflow_operator.Prelude.{String, Bool, false, nat_eq, if◌then◌else◌}
use airflow_operator.Go.Text.{ℤ, pos, negsuc}

-- An `int32`.
abbrev pub ExecutorType : Type 0
ExecutorType = ℤ

abbrev pub same_executor : ExecutorType → ExecutorType → Bool
same_executor (pos a) (pos b) = nat_eq a b
same_executor (negsuc a) (negsuc b) = nat_eq a b
same_executor _ _ = false

abbrev pub local_executor : ExecutorType
local_executor = pos 0

abbrev pub celery_executor : ExecutorType
celery_executor = pos 1

abbrev pub kubernetes_executor : ExecutorType
kubernetes_executor = pos 2

unfoldable pub get_executor_name : ExecutorType → String
get_executor_name executor =
    if same_executor executor local_executor
    then "LocalExecutor"
    else if same_executor executor celery_executor
    then "CeleryExecutor"
    else if same_executor executor kubernetes_executor
    then "KubernetesExecutor"
    else "UnknownExecutor"
