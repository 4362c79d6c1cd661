-- ===== src/StatefulSet/Env.antt =====
-- internal/controller/common/statefulset.go: `setMainContainerEnv`.
use airflow_operator.Prelude.{String, Option, none, some, List, [], ◌∷◌, ◌++◌, ◌==◌, if◌then◌else◌}
use airflow_operator.Go.Text.{join, format_bool}
use airflow_operator.Go.FilePath.{path_join}
use airflow_operator.Go.Outcome.{Outcome, ok, err, errorf, deref, ◌>>=◌}
use airflow_operator.Executor.{ExecutorType, same_executor, celery_executor, get_executor_name}
use airflow_operator.Kube.{EnvVar, literal_env, secret_env}
use airflow_operator.Api.{ClusterConfigSpec, DagsGitSyncSpec, role_name, schedulers, webservers}
use airflow_operator.Platform.{Platform}
use airflow_operator.Auth.Types.{Authentication}
use airflow_operator.Auth.Gather.{MapOrder}
use airflow_operator.Auth.Gather
use airflow_operator.StatefulSet.Scripts.{
  app_config_path, env_key_admin_user_name, env_key_admin_first_name, env_key_admin_last_name,
  env_key_admin_email, env_key_admin_password,
}
use airflow_operator.StatefulSet.Builder.{StatefulSetBuilder}

-- The folder of the first repository, if it is named.
git_folder : String → List DagsGitSyncSpec → String
git_folder folder [] = folder
git_folder folder (dag ∷ dags) =
    if dag.git_folder == "" then folder else path_join (folder ∷ dag.git_folder ∷ [])

unfoldable pub dag_folder : Platform → ClusterConfigSpec → String
unfolding git_folder
dag_folder p c = git_folder (path_join (p.kubedoop_root ∷ "airflow" ∷ "dags" ∷ [])) c.dags_git_sync

-- The variables of every role.
unfoldable pub base_env : Platform → ClusterConfigSpec → ExecutorType → List EnvVar
base_env p c executor =
    literal_env "PYTHONPATH" (join ":" (app_config_path p ∷ dag_folder p c ∷ []))
    ∷ literal_env "AIRFLOW__CORE__DAGS_FOLDER" (dag_folder p c)
    ∷ literal_env "AIRFLOW__LOGGING__LOGGING_CONFIG_CLASS" "log_config.LOGGING_CONFIG"
    ∷ literal_env "AIRFLOW__METRICS__STATSD_ON" "True"
    ∷ literal_env "AIRFLOW__METRICS__STATSD_HOST" "0.0.0.0"
    ∷ literal_env "AIRFLOW__METRICS__STATSD_PORT" "8125"
    ∷ literal_env "AIRFLOW__API__AUTH_BACKENDS" "airflow.api.auth.backend.basic_auth"
    ∷ secret_env "AIRFLOW__WEBSERVER__SECRET_KEY" c.credentials "appSecretKey"
    ∷ secret_env "AIRFLOW__DATABASE__SQL_ALCHEMY_CONN" c.credentials
        "connections.sqlalchemyDatabaseUri"
    ∷ literal_env "AIRFLOW__CORE__LOAD_EXAMPLES" (format_bool c.load_examples)
    ∷ literal_env "AIRFLOW__WEBSERVER__EXPOSE_CONFIG" (format_bool c.expose_config)
    ∷ literal_env "AIRFLOW__CORE__EXECUTOR" (get_executor_name executor)
    ∷ []

unfoldable pub celery_env : ClusterConfigSpec → ExecutorType → List EnvVar
celery_env c executor =
    if same_executor executor celery_executor
    then secret_env "AIRFLOW__CELERY__RESULT_BACKEND" c.credentials
        "connections.celeryResultBackend"
      ∷ secret_env "AIRFLOW__CELERY__BROKER_URL" c.credentials "connections.celeryBrokerUrl"
      ∷ []
    else []

-- `envKeyMapping`
abbrev pub env_key_mapping : List (String × String)
env_key_mapping =
    (env_key_admin_user_name, "adminUser.username")
    ∷ (env_key_admin_first_name, "adminUser.firstname")
    ∷ (env_key_admin_last_name, "adminUser.lastname")
    ∷ (env_key_admin_email, "adminUser.email")
    ∷ (env_key_admin_password, "adminUser.password")
    ∷ []

unfoldable pub mapped_env : String → List (String × String) → List EnvVar
mapped_env credentials [] = []
mapped_env credentials ((name, key) ∷ mapping) =
    secret_env name credentials key ∷ mapped_env credentials mapping

unfoldable pub admin_env : ClusterConfigSpec → String → List EnvVar
unfolding mapped_env
admin_env c role =
    if role == role_name schedulers then mapped_env c.credentials env_key_mapping else []

-- The variables of the authentication: only where the role group, not the role, is called
-- "webservers".
auth_env : MapOrder → Option Authentication → String → Outcome (List EnvVar)
auth_env order none role_group = ok []
auth_env order (some auth) role_group =
    if role_group == role_name webservers then Gather.get_env_vars order auth else ok []

unfoldable pub set_main_container_env :
    Platform → MapOrder → StatefulSetBuilder → Outcome (List EnvVar)
unfolding auth_env
set_main_container_env p order b = do
  c ← deref b.cluster_config
  if c.credentials == ""
      then err (errorf "credentials secret name in cluster config is empty")
      else (do
        envs ← auth_env order b.auth b.base.role_group_name
        ok (
            base_env p c b.executor
            ++ (celery_env c b.executor ++ (admin_env c b.base.role_name ++ envs))))
