-- ===== src/Auth/Gather.antt =====
-- internal/controller/common/auth.go: `GetEnvVars`, `GetVolumes` and `GetVolumeMounts` of
-- `Authentication`, which gather over the map in the order of its range.
use airflow_operator.Prelude.{List}
use airflow_operator.Go.Outcome.{Outcome, ok, collect}
use airflow_operator.Go.Map.{Order}
use airflow_operator.Kube.{EnvVar, Volume, VolumeMount}
use airflow_operator.Platform.{Platform}
use airflow_operator.Auth.Types.{AuthenticatorType, Authenticator, ldap, oidc, Authentication}
use airflow_operator.Auth.Ldap
use airflow_operator.Auth.Oidc

abbrev pub MapOrder : Type 0
MapOrder = Order (AuthenticatorType × List Authenticator)

-- The call of `GetEnvVars` through the interface.
unfoldable pub env_vars : Authenticator → Outcome (List EnvVar)
env_vars (ldap a) = ok (Ldap.get_env_vars a)
env_vars (oidc a) = Oidc.get_env_vars a

unfoldable pub volumes : Platform → Authenticator → Outcome (List Volume)
volumes p (ldap a) = ok (Ldap.get_volumes p a)
volumes p (oidc a) = ok (Oidc.get_volumes a)

unfoldable pub volume_mounts : Platform → Authenticator → Outcome (List VolumeMount)
volume_mounts p (ldap a) = ok (Ldap.get_volume_mounts p a)
volume_mounts p (oidc a) = ok (Oidc.get_volume_mounts a)

-- The two nested loops.
unfoldable pub gather {ℓ} :
    {A : Type ℓ} → (Authenticator → Outcome (List A)) → MapOrder → Authentication → Outcome (List A)
gather f order a = collect (λ e. collect f e.1) (order.visit a.authenticators)

unfoldable pub get_env_vars : MapOrder → Authentication → Outcome (List EnvVar)
get_env_vars = gather env_vars

unfoldable pub get_volumes : Platform → MapOrder → Authentication → Outcome (List Volume)
get_volumes p = gather (volumes p)

unfoldable pub get_volume_mounts : Platform → MapOrder → Authentication → Outcome (List VolumeMount)
get_volume_mounts p = gather (volume_mounts p)
