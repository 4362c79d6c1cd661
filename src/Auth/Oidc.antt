-- ===== src/Auth/Oidc.antt =====
-- internal/controller/common/auth.go: the methods of `oidcAuthenticator`.
use airflow_operator.Prelude.{String, List, [], ◌∷◌, ◌++◌, if◌then◌else◌}
use airflow_operator.Go.Text.{concat, join, itoa}
use airflow_operator.Go.Url.{url_string}
use airflow_operator.Go.Outcome.{Outcome, ok, deref, ◌>>=◌}
use airflow_operator.Kube.{EnvVar, secret_env, Volume, VolumeMount}
use airflow_operator.Auth.Types.{OidcAuthenticator}
use airflow_operator.Auth.Ldap.{is_zero}

abbrev pub env_key_oidc_client_id : String
env_key_oidc_client_id = "OIDC_CLIENT_ID"

abbrev pub env_key_oidc_client_secret : String
env_key_oidc_client_secret = "OIDC_CLIENT_SECRET"

-- Both variables come from the client's secret; a nil `config` panics.
unfoldable pub get_env_vars : OidcAuthenticator → Outcome (List EnvVar)
get_env_vars a = do
  c ← deref a.config
  ok (
      secret_env env_key_oidc_client_id c.client_credentials_secret "CLIENT_ID"
      ∷ secret_env env_key_oidc_client_secret c.client_credentials_secret "CLIENT_SECRET"
      ∷ [])

unfoldable pub get_volumes : OidcAuthenticator → List Volume
get_volumes a = []

unfoldable pub get_volume_mounts : OidcAuthenticator → List VolumeMount
get_volume_mounts a = []

-- The URL of the issuer, with the port if it is not zero.
issuer_url : OidcAuthenticator → String
issuer_url a =
    let host = a.provider.hostname in
    let port = a.provider.port in
    url_string (record {
      scheme = "http";
      host = if is_zero port then host else concat (host ∷ ":" ∷ itoa port ∷ []);
      path = a.provider.root_path;
    })

-- `fmt.Sprintf("os.environ.get('%s')", key)`
abbrev environ_get : String → String
environ_get key = concat ("os.environ.get('" ∷ key ∷ "')" ∷ [])

-- The calls of `Add`; a nil `config` panics.
unfoldable pub get_config : OidcAuthenticator → Outcome (List (String × String))
unfolding issuer_url
get_config a = do
  c ← deref a.config
  let scopes = a.provider.scopes ++ c.extra_scopes
  ok (
      ("client_id", environ_get env_key_oidc_client_id)
      ∷ ("client_secret", environ_get env_key_oidc_client_secret)
      ∷ ("scopes", join " " scopes)
      ∷ ("api_base_url", concat (issuer_url a ∷ "/protocol/" ∷ []))
      ∷ ("server_metadata_url", concat (issuer_url a ∷ "/.well-known/openid-configuration" ∷ []))
      ∷ ("provider_hint", a.provider.provider_hint)
      ∷ [])

unfoldable pub get_commands : OidcAuthenticator → List String
get_commands a = []
