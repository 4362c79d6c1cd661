-- ===== src/StatefulSet/Containers.antt =====
-- internal/controller/common/statefulset.go: the main container of a builder that a role has made.
use mathlib.Core.Path.{ap₂}
use airflow_operator.Prelude.{
  String, ◌≡◌, ◌≢◌, ap, ◌∙◌, ◌⊎◌, true, none, some, List, [], ◌∷◌, map, All, ◌==◌,
}
use airflow_operator.Go.Outcome.{ok, err, errorf}
use airflow_operator.Kube.{EnvVar}
use airflow_operator.Api.{ClusterConfigSpec, role_name, schedulers}
use airflow_operator.Executor.{celery_executor, same_executor}
use airflow_operator.Platform.{Platform, Container}
use airflow_operator.Auth.Gather.{MapOrder}
use airflow_operator.StatefulSet.Builder.{StatefulSetBuilder}
use airflow_operator.StatefulSet.Scripts.{get_main_container_args}
use airflow_operator.StatefulSet.Build.{get_main_container, get_main_container_volume_mount}
use airflow_operator.StatefulSet.Args.{get_main_container_args-ok_iff}
use airflow_operator.StatefulSet.Laws.{
  expected_names, env_name, ReadsOnly, set_main_container_env-names,
  set_main_container_env-no_credentials,
}

-- The builder makes a main container that is named by the role, with the variables of the Celery
-- executor and of the role, all of whose secrets are the credentials secret.
abbrev pub HasContainer :
    Platform → MapOrder → ClusterConfigSpec → String → StatefulSetBuilder → Type 0
HasContainer p o c role b =
    (main : Container) × (get_main_container p o b ≡ ok main)
    × (main.name ≡ role)
    × (map env_name main.env ≡ expected_names true (role == role_name schedulers))
    × All (ReadsOnly c.credentials) main.env

-- The container that getMainContainer makes of a script and an environment.
abbrev main_of : Platform → StatefulSetBuilder → String → List EnvVar → Container
main_of p b script envs = record {
  name = b.base.role_name;
  image = b.base.image;
  command = "/bin/bash" ∷ "-x" ∷ "-euo" ∷ "pipefail" ∷ "-c" ∷ [];
  args = script ∷ [];
  env = envs;
  volume_mounts = get_main_container_volume_mount p;
}

abbrev pub IsKnownRole : String → Type 0
IsKnownRole role = (role ≡ "webservers") ⊎ (role ≡ "schedulers") ⊎ (role ≡ "celeryexecutors")

module _ (p : Platform) (o : MapOrder) (b : StatefulSetBuilder) (c : ClusterConfigSpec)
    (role : String) (configured : b.cluster_config ≡ some c) (named : b.base.role_name ≡ role)
    (known : IsKnownRole role) where
  pub get_main_container-HasContainer :
      b.auth ≡ none → b.executor ≡ celery_executor → c.credentials ≢ "" → HasContainer p o c role b
  unfolding get_main_container
  get_main_container-HasContainer plain celery there =
      let (script, hs) = (get_main_container_args-ok_iff p role).1 known in
      let (envs, he, hn, _, hr) = set_main_container_env-names p o b c configured there plain in
      let there_is : get_main_container_args p b.base.role_name ≡ ok script =
        ap (get_main_container_args p) named ∙ hs in
      (
        main_of p b script envs,
        rw (there_is, he),
        named,
        hn
            ∙ ap₂
                (λ x y.
                  expected_names (same_executor x celery_executor) (y == role_name schedulers))
                celery named,
        hr,
      )

  -- Without a credentials secret there is no main container.
  pub get_main_container-no_credentials :
      c.credentials ≡ ""
      → get_main_container p o b ≡ err (errorf "credentials secret name in cluster config is empty")
  unfolding get_main_container
  get_main_container-no_credentials unnamed =
      let (script, hs) = (get_main_container_args-ok_iff p role).1 known in
      let there_is : get_main_container_args p b.base.role_name ≡ ok script =
        ap (get_main_container_args p) named ∙ hs in
      rw (there_is, set_main_container_env-no_credentials p o b c configured unnamed)
