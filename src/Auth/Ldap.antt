-- ===== src/Auth/Ldap.antt =====
-- internal/controller/common/auth.go: the methods of `ldapAuthenticator`.
use airflow_operator.Prelude.{
  String, Bool, false, Option, none, some, List, [], ◌∷◌, ◌++◌, nat_eq, if◌then◌else◌,
}
use airflow_operator.Go.Text.{concat, itoa, ℤ, pos, negsuc}
use airflow_operator.Go.FilePath.{path_join}
use airflow_operator.Go.Url.{url_string}
use airflow_operator.Go.Outcome.{Outcome, ok, deref, ◌>>=◌}
use airflow_operator.Kube.{EnvVar, SecretVolumeScope, Volume, VolumeMount}
use airflow_operator.Platform.{Platform, LdapFieldNames, Credentials, CredentialsScope}
use airflow_operator.Auth.Types.{LdapAuthenticator}

-- `port == 0`
abbrev pub is_zero : ℤ → Bool
is_zero (pos n) = nat_eq n 0
is_zero (negsuc n) = false

abbrev pub default_ldap_field_names : LdapFieldNames
default_ldap_field_names = record {
  email = "email";
  given_name = "givenName";
  group = "memberOf";
  surname = "sn";
  uid = "uid";
}

-- The names of the provider as they are, empty ones included, or the defaults.
abbrev field_names : Option LdapFieldNames → LdapFieldNames
field_names none = default_ldap_field_names
field_names (some names) = names

unfoldable pub get_env_vars : LdapAuthenticator → List EnvVar
get_env_vars a = []

-- `fmt.Sprintf("ldap-%s", a.provider.BindCredentials.SecretClass)`
abbrev pub get_volume_name : Credentials → String
get_volume_name c = concat ("ldap-" ∷ c.secret_class ∷ [])

-- `string(constants.ServiceScope) + "=" + s`
service_scopes : Platform → List String → List String
service_scopes p [] = []
service_scopes p (s ∷ ss) = concat (p.service_scope ∷ "=" ∷ s ∷ []) ∷ service_scopes p ss

volume_scope : Platform → Option CredentialsScope → SecretVolumeScope
volume_scope p none = record { pod = false; node = false; service = [] }
volume_scope p (some s) = record {
  pod = s.pod;
  node = s.node;
  service = service_scopes p s.services;
}

unfoldable pub volumes_of : Platform → Option Credentials → List Volume
unfolding volume_scope service_scopes
volumes_of p none = []
volumes_of p (some c) =
    p.secret_operator_volume (get_volume_name c) c.secret_class (volume_scope p c.scope) ∷ []

unfoldable pub get_volumes : Platform → LdapAuthenticator → List Volume
unfolding volumes_of volume_scope service_scopes
get_volumes p a = volumes_of p a.provider.bind_credentials

unfoldable pub volume_mounts_of : Platform → Option Credentials → List VolumeMount
volume_mounts_of p none = []
volume_mounts_of p (some c) =
    record {
      name = get_volume_name c;
      mount_path = path_join (p.kubedoop_secret_dir ∷ c.secret_class ∷ []);
    }
    ∷ []

unfoldable pub get_volume_mounts : Platform → LdapAuthenticator → List VolumeMount
unfolding volume_mounts_of
get_volume_mounts p a = volume_mounts_of p a.provider.bind_credentials

-- The URL of the server, with the port if it is not zero.
unfoldable pub server_url : LdapAuthenticator → String
server_url a =
    let host = a.provider.hostname in
    let port = a.provider.port in
    url_string (record {
      scheme = "ldap";
      host = if is_zero port then host else concat (host ∷ ":" ∷ itoa port ∷ []);
      path = "";
    })

unfoldable pub base_properties : LdapAuthenticator → List (String × String)
base_properties a =
    let names = field_names a.provider.ldap_field_names in
    ("auth_ldap_server", server_url a)
    ∷ ("auth_ldap_search", a.provider.search_base)
    ∷ ("auth_ldap_search_filter", a.provider.search_filter)
    ∷ ("auth_ldap_uid_field", names.uid)
    ∷ ("auth_ldap_group_field", names.group)
    ∷ ("auth_ldap_firstname_field", names.given_name)
    ∷ ("auth_ldap_lastname_field", names.surname)
    ∷ ("auth_ldap_email_field", names.email)
    ∷ []

-- `if a.provider.BindCredentials != nil { … }`
unfoldable pub bind_properties : Option Credentials → String → List (String × String)
bind_properties none mount_path = []
bind_properties (some _) mount_path =
    ("auth_ldap_bind_user_file", path_join (mount_path ∷ "username" ∷ []))
    ∷ ("auth_ldap_bind_password_file", path_join (mount_path ∷ "password" ∷ []))
    ∷ []

-- The calls of `Add`. The mount path reads `BindCredentials` before the test that it is not nil.
unfoldable pub get_config : Platform → LdapAuthenticator → Outcome (List (String × String))
unfolding base_properties bind_properties server_url
get_config p a = do
  c ← deref a.provider.bind_credentials
  let mount_path = path_join (p.kubedoop_secret_dir ∷ c.secret_class ∷ [])
  ok (base_properties a ++ bind_properties a.provider.bind_credentials mount_path)

unfoldable pub get_commands : LdapAuthenticator → List String
get_commands a = []
