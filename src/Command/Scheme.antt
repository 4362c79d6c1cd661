-- ===== src/Command/Scheme.antt =====
-- cmd/main.go, api/v1alpha1 and internal/controller/airflowclusters_controller.go: the types that the
-- start registers, and the controller that is set up for them.
use airflow_operator.Prelude.{String, ◌≢◌, List, [], ◌∷◌}
use airflow_operator.Go.Outcome.{Done, Outcome, ok, err, panic, Error, ◌>>=◌}
use airflow_operator.Api.{group, version}

-- `schema.GroupVersion`
pub record GroupVersion : Type 0 where
  pub group : String
  pub version : String

-- `scheme.Builder`: the types that `Register` was called with.
pub record SchemeBuilder : Type 0 where
  pub group_version : GroupVersion
  pub types : List String

-- `SchemeBuilder` after the `init` of the package.
abbrev pub scheme_builder : SchemeBuilder
scheme_builder = record {
  group_version = record { group = group; version = version };
  types = "AirflowCluster" ∷ "AirflowClusterList" ∷ [];
}

-- `utilruntime.Must`
abbrev pub must : {A : Type 0} → Outcome A → Outcome A
must (ok a) = ok a
must (err e) = panic
must panic = panic

-- `init`: `client_go` is the `AddToScheme` of client-go, and `add` that of a builder.
unfoldable pub init :
    {Scheme : Type 0}
    → (client_go : Scheme → Outcome Scheme) → (add : SchemeBuilder → Scheme → Outcome Scheme)
    → Scheme
    → Outcome Scheme
init client_go add scheme = do scheme' ← must (client_go scheme); must (add scheme_builder scheme')

-- What the controller's builder is told: the type to watch and the name.
pub record ControllerSetup : Type 0 where
  pub watched : String
  pub name : String

-- `SetupWithManager`; `complete` is `Complete` of controller-runtime.
unfoldable pub setup_with_manager : (complete : ControllerSetup → Outcome Done) → Outcome Done
setup_with_manager complete =
    complete (record { watched = "AirflowCluster"; name = "airflowcluster" })

-- The start never goes on with an error of a registration: it returns the scheme or panics.
pub init-not_err :
    {Scheme : Type 0} (client_go : Scheme → Outcome Scheme)
    (add : SchemeBuilder → Scheme → Outcome Scheme) (scheme : Scheme) (e : Error)
    → init client_go add scheme ≢ err e
unfolding init
init-not_err client_go add scheme e h =
    elim (client_go scheme) as (λ r. (do s ← must r; must (add scheme_builder s)) ≢ err e) [
      | ok s ↦ λ k.
          elim (add scheme_builder s) as (λ r. must r ≢ err e) [
            | ok a ↦ λ q. cc q
            | err d ↦ λ q. cc q
            | panic ↦ λ q. cc q
          ]
            k
      | err d ↦ λ k. cc k
      | panic ↦ λ k. cc k
    ]
      h
