-- ===== src/StatefulSet/Laws.antt =====
-- internal/controller/common/statefulset.go: which variables the main container gets, and when
-- its environment is an error.
use airflow_operator.Prelude.{
  String, ◌≡◌, refl, ◌⊎◌, inl, inr, ◌≢◌, Bool, true, false, Bool-cases, Option, none, some, List,
  [], ◌∷◌, ◌++◌, map, arith, All, All-append, append-nil, not, ◌&&◌, ◌==◌, eq_iff, if◌then◌else◌,
}
use airflow_operator.Go.Text.{ℤ}
use airflow_operator.Go.Outcome.{ok, err, errorf}
use airflow_operator.Go.Map.{occurs, string_key}
use airflow_operator.Executor.{ExecutorType, same_executor, celery_executor}
use airflow_operator.Kube.{EnvVar, ContainerPort}
use airflow_operator.Api.{
  ClusterConfigSpec, OverridesSpec, RoleGroupConfigSpec, role_name, schedulers,
}
use airflow_operator.Platform.{Platform, Image, Options}
use airflow_operator.Auth.Types.{Authentication}
use airflow_operator.Auth.Gather.{MapOrder}
use airflow_operator.StatefulSet.Builder.{StatefulSetBuilder, new_statefulset_builder}
use airflow_operator.StatefulSet.Env.{
  base_env, celery_env, admin_env, mapped_env, env_key_mapping, set_main_container_env,
}

-- The names, by role and executor, as a list written out.
abbrev pub expected_names : Bool → Bool → List String
expected_names celery scheduler =
    "PYTHONPATH"
    ∷ "AIRFLOW__CORE__DAGS_FOLDER"
    ∷ "AIRFLOW__LOGGING__LOGGING_CONFIG_CLASS"
    ∷ "AIRFLOW__METRICS__STATSD_ON"
    ∷ "AIRFLOW__METRICS__STATSD_HOST"
    ∷ "AIRFLOW__METRICS__STATSD_PORT"
    ∷ "AIRFLOW__API__AUTH_BACKENDS"
    ∷ "AIRFLOW__WEBSERVER__SECRET_KEY"
    ∷ "AIRFLOW__DATABASE__SQL_ALCHEMY_CONN"
    ∷ "AIRFLOW__CORE__LOAD_EXAMPLES"
    ∷ "AIRFLOW__WEBSERVER__EXPOSE_CONFIG"
    ∷ "AIRFLOW__CORE__EXECUTOR"
    ∷ ((if celery
          then "AIRFLOW__CELERY__RESULT_BACKEND" ∷ "AIRFLOW__CELERY__BROKER_URL" ∷ []
          else [])
        ++ (if scheduler
            then "ADMIN_USERNAME" ∷ "ADMIN_FIRSTNAME" ∷ "ADMIN_LASTNAME" ∷ "ADMIN_EMAIL"
              ∷ "ADMIN_PASSWORD" ∷ []
            else []))

-- No name stands twice.
abbrev pub IsDistinct : List String → Type 0
IsDistinct [] = Unit
IsDistinct (x ∷ xs) = All (λ y. x ≢ y) xs × IsDistinct xs

abbrev pub env_name : EnvVar → String
env_name e = e.name

-- `e` is a literal, or a key of the secret.
abbrev pub ReadsOnly : String → EnvVar → Type 0
ReadsOnly secret e =
    (e.secret_key_ref ≡ none)
    ⊎ ((k : String) × (e.secret_key_ref ≡ some (record { key = k; name = secret })))

is_distinct : List String → Bool
is_distinct [] = true
is_distinct (x ∷ xs) = not (occurs x xs) && is_distinct xs

not_occurs : (x : String) (xs : List String) → occurs x xs ≡ false → All (λ y. x ≢ y) xs
not_occurs x [] h = tt
not_occurs x (y ∷ ys) h = (ground (arith, eq_iff y x), not_occurs x ys (ground (arith, eq_iff y x)))

is_distinct-IsDistinct : (xs : List String) → is_distinct xs ≡ true → IsDistinct xs
unfolding is_distinct
is_distinct-IsDistinct [] h = tt
is_distinct-IsDistinct (x ∷ xs) h =
    (not_occurs x xs (ground arith), is_distinct-IsDistinct xs (ground arith))

expected_names-IsDistinct : (celery scheduler : Bool) → IsDistinct (expected_names celery scheduler)
unfolding is_distinct
expected_names-IsDistinct true true = is_distinct-IsDistinct (expected_names true true) refl
expected_names-IsDistinct true false = is_distinct-IsDistinct (expected_names true false) refl
expected_names-IsDistinct false true = is_distinct-IsDistinct (expected_names false true) refl
expected_names-IsDistinct false false = is_distinct-IsDistinct (expected_names false false) refl

base_env-ReadsOnly :
    (p : Platform) (c : ClusterConfigSpec) (executor : ExecutorType)
    → All (ReadsOnly c.credentials) (base_env p c executor)
unfolding base_env
base_env-ReadsOnly p c executor = (
  inl refl,
  (
    inl refl,
    (
      inl refl,
      (
        inl refl,
        (
          inl refl,
          (
            inl refl,
            (inl refl, (inr (_, refl), (inr (_, refl), (inl refl, (inl refl, (inl refl, tt)))))),
          ),
        ),
      ),
    ),
  ),
)

celery_env-ReadsOnly :
    (c : ClusterConfigSpec) (executor : ExecutorType)
    → All (ReadsOnly c.credentials) (celery_env c executor)
unfolding celery_env
celery_env-ReadsOnly c executor = elim (Bool-cases (same_executor executor celery_executor)) [
  | inl e ↦ rw e (
    inr ("connections.celeryResultBackend", refl),
    (inr ("connections.celeryBrokerUrl", refl), tt),
  )
  | inr e ↦ rw e tt
]

mapped_env-ReadsOnly :
    (credentials : String) (mapping : List (String × String))
    → All (ReadsOnly credentials) (mapped_env credentials mapping)
unfolding mapped_env
mapped_env-ReadsOnly credentials [] = tt
mapped_env-ReadsOnly credentials ((name, key) ∷ mapping) =
    (inr (key, refl), mapped_env-ReadsOnly credentials mapping)

admin_env-ReadsOnly :
    (c : ClusterConfigSpec) (role : String) → All (ReadsOnly c.credentials) (admin_env c role)
unfolding admin_env
admin_env-ReadsOnly c role = elim (Bool-cases (role == role_name schedulers)) [
  | inl e ↦ rw e (mapped_env-ReadsOnly c.credentials env_key_mapping)
  | inr e ↦ rw e tt
]

-- Without an authentication the environment is that of every role, of the executor and of the
-- scheduler.
env_lem :
    (p : Platform) (o : MapOrder) (b : StatefulSetBuilder) (c : ClusterConfigSpec)
    → b.cluster_config ≡ some c
    → c.credentials ≢ ""
    → b.auth ≡ none
    → set_main_container_env p o b
      ≡ ok (base_env p c b.executor ++ (celery_env c b.executor ++ admin_env c b.base.role_name))
unfolding set_main_container_env
env_lem p o b c configured named plain =
    let test : (c.credentials == "") ≡ false = ground (arith, eq_iff c.credentials "") in
    rw (configured, plain, test, append-nil)

names_lem :
    (p : Platform) (c : ClusterConfigSpec) (executor : ExecutorType) (role : String)
    → map env_name (base_env p c executor ++ (celery_env c executor ++ admin_env c role))
      ≡ expected_names (same_executor executor celery_executor) (role == role_name schedulers)
unfolding base_env celery_env admin_env mapped_env
names_lem p c executor role = elim (Bool-cases (same_executor executor celery_executor)) [
  | inl e ↦ elim (Bool-cases (role == role_name schedulers)) [
    | inl f ↦ rw (e, f)
    | inr f ↦ rw (e, f)
  ]
  | inr e ↦ elim (Bool-cases (role == role_name schedulers)) [
    | inl f ↦ rw (e, f)
    | inr f ↦ rw (e, f)
  ]
]

-- With a cluster configuration that names its credentials, and no authentication in the builder,
-- setMainContainerEnv returns variables whose names are those listed for the executor and the
-- role, each once, and every secret that they read is the credentials secret.
pub set_main_container_env-names :
    (p : Platform) (o : MapOrder) (b : StatefulSetBuilder) (c : ClusterConfigSpec)
    → b.cluster_config ≡ some c
    → c.credentials ≢ ""
    → b.auth ≡ none
    → (envs : List EnvVar) × (set_main_container_env p o b ≡ ok envs)
      × (map env_name envs
          ≡ expected_names
              (same_executor b.executor celery_executor)
              (b.base.role_name == role_name schedulers))
      × IsDistinct (map env_name envs)
      × All (ReadsOnly c.credentials) envs
set_main_container_env-names p o b c configured named plain = (
  _,
  env_lem p o b c configured named plain,
  names_lem p c b.executor b.base.role_name,
  rw (names_lem p c b.executor b.base.role_name) (expected_names-IsDistinct _ _),
  All-append _ (base_env p c b.executor) _ (base_env-ReadsOnly p c b.executor) (
      All-append _ (celery_env c b.executor) _ (celery_env-ReadsOnly c b.executor)
        (admin_env-ReadsOnly c b.base.role_name)),
)

-- The environment of the main container of a builder that NewStatefulSetBuilder makes is the same
-- with every authentication parameter and with none, in all orders of the map.
pub new_statefulset_builder-auth :
    (p : Platform) (o o' : MapOrder) (n : String) (cc' : Option ClusterConfigSpec) (r : Option ℤ)
    (i : Image) (ports : List ContainerPort) (v : Option OverridesSpec)
    (g : Option RoleGroupConfigSpec) (x : ExecutorType) (a : Option Authentication) (s : Options)
    → set_main_container_env p o (new_statefulset_builder p n cc' r i ports v g x a s)
      ≡ set_main_container_env p o' (new_statefulset_builder p n cc' r i ports v g x none s)
unfolding new_statefulset_builder set_main_container_env
new_statefulset_builder-auth p o o' n cc' r i ports v g x a s = refl

-- A cluster without a credentials secret gets the error that says so, whatever else it has.
pub set_main_container_env-no_credentials :
    (p : Platform) (o : MapOrder) (b : StatefulSetBuilder) (c : ClusterConfigSpec)
    → b.cluster_config ≡ some c
    → c.credentials ≡ ""
    → set_main_container_env p o b
      ≡ err (errorf "credentials secret name in cluster config is empty")
unfolding set_main_container_env
set_main_container_env-no_credentials p o b c configured unnamed = rw (configured, unnamed)
