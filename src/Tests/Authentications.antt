-- ===== src/Tests/Authentications.antt =====
-- internal/controller/common/auth.go: the theorems on authentications, at concrete entries.
use mathlib.Core.List.{Memᴰ}
use airflow_operator.Prelude.{
  String, ◌≡◌, ◌≢◌, ◌↔◌, ◌≤◌, ◌*◌, refl, inl, true, some, List, [], ◌∷◌, ◌++◌, All, arith, length,
  eq_iff,
}
use airflow_operator.Go.Text.{itoa}
use airflow_operator.Go.Url.{url_string}
use airflow_operator.Go.Outcome.{ok, err, panic, errorf, for_each, collect}
use airflow_operator.Go.Map.{lookup, insert, DistinctKeys, string_key}
use airflow_operator.Kube.{EnvVar, secret_env, Volume, VolumeMount}
use airflow_operator.Api.{AuthenticationSpec}
use airflow_operator.Platform.{text}
use airflow_operator.Auth.Types.{
  AuthenticatorType, ldap_type, oidc_type, Authenticator, ldap, oidc, Authentication,
  LdapAuthenticator, authenticator_type_key, get_total_authenticator_count,
}
use airflow_operator.Auth.New.{slice_of, new_authentication, add_spec, append_typed}
use airflow_operator.Auth.Accepts.{Classifies, of_type}
use airflow_operator.Auth.Accepts.Loop.{new_authentication_sound, new_authentication_complete}
use airflow_operator.Auth.Failures.{new_authentication-panic, new_authentication-sync_error}
use airflow_operator.Auth.Gather.{
  env_vars, volume_mounts, gather, get_env_vars, get_volumes, get_volume_mounts, volumes,
}
use airflow_operator.Auth.Gathered.{
  IsConfigured, get_env_vars-ok_iff, gathered-le_capacity, Mounted, volumes-Mounted,
}
use airflow_operator.Auth.Config.{
  Data, properties, get_config, ldap_data, oidc_data, get_ldap_config, get_oidc_config,
}
use airflow_operator.Auth.Rendered.{get_config-order}
use airflow_operator.Auth.LastWins.{ldap_data-last}
use airflow_operator.Auth.Whole.{IsJoined, get_config-IsJoined, get_config-panic}
use airflow_operator.Auth.Ldap
use airflow_operator.Auth.Oidc
use airflow_operator.Go.FilePath.{path_join}
use airflow_operator.Tests.Setup.{
  test_platform, entry, keycloak, directory, open_directory, same_order, swapped_order,
  test_platform-NamesVolumes, test_platform-KeepsProperties,
}

abbrev oidc_entry : Authenticator
oidc_entry = oidc (record { config = (entry "oidc").oidc; provider = keycloak })

abbrev ldap_entry : LdapAuthenticator
ldap_entry = record { provider = directory }

abbrev both_entries : List AuthenticationSpec
both_entries = entry "oidc" ∷ entry "ldap" ∷ []

abbrev settled : List (AuthenticatorType × List Authenticator) → Authentication
settled m = record {
  authenticators = m;
  sync_roles_at = some "Registration";
  user_registration = some true;
  user_registration_role = some "Admin";
}

abbrev both : Authentication
both = settled ((oidc_type, oidc_entry ∷ []) ∷ (ldap_type, ldap ldap_entry ∷ []) ∷ [])

new_authentication-both : new_authentication test_platform both_entries ≡ ok both
unfolding new_authentication for_each add_spec append_typed lookup insert
new_authentication-both = refl

both-DistinctKeys : DistinctKeys both.authenticators
unfolding lookup
both-DistinctKeys = (refl, (refl, tt))

new_authentication_sound_example :
    (rs : List Authenticator) × Classifies test_platform both_entries rs
    × ((t : AuthenticatorType) → slice_of (lookup t both.authenticators) ≡ of_type t rs)
    × All (λ x. both.sync_roles_at ≡ some x.sync_roles_at) both_entries
    × All (λ x. both.user_registration ≡ some x.user_registration) both_entries
    × All (λ x. both.user_registration_role ≡ some x.user_registration_role) both_entries
new_authentication_sound_example =
    new_authentication_sound test_platform both_entries both new_authentication-both

new_authentication_complete_example :
    (a : Authentication) × (new_authentication test_platform both_entries ≡ ok a)
new_authentication_complete_example =
    new_authentication_complete test_platform both_entries (oidc_entry ∷ ldap ldap_entry ∷ [])
      "Registration" true "Admin" (refl, (refl, tt)) (refl, (refl, tt)) (refl, (refl, tt))
      (refl, (refl, tt))

new_authentication-sync_error_example :
    new_authentication test_platform
      (both_entries ++ record (entry "ldap") { sync_roles_at = "Login" } ∷ [])
    ≡ err (errorf "syncRolesAt must be the same for all authentication providers")
new_authentication-sync_error_example =
    new_authentication-sync_error test_platform both_entries
      (record (entry "ldap") { sync_roles_at = "Login" }) [] new_authentication-both
      (ldap ldap_entry) refl "Registration" refl (ground (arith, eq_iff "Registration" "Login"))

new_authentication-panic_example :
    new_authentication test_platform (both_entries ++ entry "missing" ∷ []) ≡ panic
new_authentication-panic_example =
    new_authentication-panic test_platform both_entries (entry "missing") [] new_authentication-both
      (inl refl)

abbrev both_volumes : List Volume
both_volumes = Ldap.get_volumes test_platform ldap_entry

both_volumes_lem : gather (volumes test_platform) same_order both ≡ ok both_volumes
unfolding gather collect volumes Ldap.get_volumes Oidc.get_volumes
both_volumes_lem = refl

get_env_vars-ok_iff_example :
    ((xs : List EnvVar) × (get_env_vars swapped_order both ≡ ok xs))
    ↔ All (λ e. All IsConfigured e.1) both.authenticators
get_env_vars-ok_iff_example = get_env_vars-ok_iff swapped_order both

volumes-Mounted_example :
    (vs : List Volume) × (ms : List VolumeMount) × (get_volumes test_platform same_order both
      ≡ ok vs)
    × (get_volume_mounts test_platform same_order both ≡ ok ms)
    × Mounted test_platform vs ms
volumes-Mounted_example = volumes-Mounted test_platform same_order both test_platform-NamesVolumes

get_config-order_example :
    get_config test_platform same_order swapped_order both
    ≡ get_config test_platform swapped_order same_order both
get_config-order_example =
    get_config-order test_platform same_order swapped_order swapped_order same_order both
      both-DistinctKeys

abbrev both_env : List EnvVar
both_env =
    secret_env "OIDC_CLIENT_ID" "client" "CLIENT_ID"
    ∷ secret_env "OIDC_CLIENT_SECRET" "client" "CLIENT_SECRET"
    ∷ []

both_env_lem : get_env_vars same_order both ≡ ok both_env
unfolding get_env_vars gather collect env_vars Oidc.get_env_vars Ldap.get_env_vars
both_env_lem = refl

abbrev both_mounts : List VolumeMount
both_mounts = record { name = "ldap-bind"; mount_path = "/kubedoop/secret/bind" } ∷ []

both_mounts_lem : get_volume_mounts test_platform same_order both ≡ ok both_mounts
unfolding get_volume_mounts gather collect volume_mounts Ldap.get_volume_mounts path_join
    Oidc.get_volume_mounts
both_mounts_lem = refl

gathered-le_capacity_example :
    (length both_env ≤ 3 * get_total_authenticator_count swapped_order both)
    × (length both_volumes ≤ 2 * get_total_authenticator_count swapped_order both)
    × (length both_mounts ≤ 2 * get_total_authenticator_count swapped_order both)
unfolding get_volumes gather
gathered-le_capacity_example =
    gathered-le_capacity test_platform same_order swapped_order both both_env both_volumes
      both_mounts both_env_lem both_volumes_lem both_mounts_lem

-- Two directories, of which the second has another base.
abbrev other_entry : LdapAuthenticator
other_entry = record { provider = record directory { search_base = "dc=other" } }

abbrev directories : Authentication
directories = settled ((ldap_type, ldap ldap_entry ∷ ldap other_entry ∷ []) ∷ [])

abbrev other_properties : List (String × String)
other_properties =
    ("auth_ldap_server", "ldap://ldap.example.com:389")
    ∷ ("auth_ldap_search", "dc=other")
    ∷ ("auth_ldap_search_filter", "")
    ∷ ("auth_ldap_uid_field", "uid")
    ∷ ("auth_ldap_group_field", "memberOf")
    ∷ ("auth_ldap_firstname_field", "givenName")
    ∷ ("auth_ldap_lastname_field", "sn")
    ∷ ("auth_ldap_email_field", "email")
    ∷ ("auth_ldap_bind_user_file", "/kubedoop/secret/bind/username")
    ∷ ("auth_ldap_bind_password_file", "/kubedoop/secret/bind/password")
    ∷ []

other_properties_lem : Ldap.get_config test_platform other_entry ≡ ok other_properties
unfolding Ldap.get_config path_join url_string itoa
other_properties_lem = refl

directories_lookup :
    lookup ldap_type directories.authenticators
    ≡ some ((ldap ldap_entry ∷ []) ++ ldap other_entry ∷ [])
unfolding lookup
directories_lookup = refl

search_lookup : lookup "auth_ldap_search" other_properties ≡ some "dc=other"
unfolding lookup
search_lookup = refl

directories-DistinctKeys : DistinctKeys directories.authenticators
unfolding lookup
directories-DistinctKeys = (refl, tt)

directories_data : (d : Data) × (ldap_data test_platform same_order directories ≡ ok d)
unfolding ldap_data for_each properties Ldap.get_config
directories_data = (_, refl)

ldap_data-last_example : lookup "auth_ldap_search" directories_data.0 ≡ some (text "dc=other")
ldap_data-last_example =
    ldap_data-last test_platform same_order directories (ldap ldap_entry ∷ []) other_entry
      other_properties directories_data.0 "auth_ldap_search" "dc=other"
      test_platform-KeepsProperties directories-DistinctKeys directories_lookup other_properties_lem
      search_lookup directories_data.1

abbrev open_entry : LdapAuthenticator
open_entry = record { provider = open_directory }

abbrev open_map : Authentication
open_map = settled ((ldap_type, ldap open_entry ∷ []) ∷ [])

open_map_lem : new_authentication test_platform (entry "open" ∷ []) ≡ ok open_map
unfolding new_authentication for_each add_spec append_typed lookup insert
open_map_lem = refl

get_config-panic_example : get_config test_platform same_order swapped_order open_map ≡ panic
get_config-panic_example =
    get_config-panic test_platform same_order swapped_order (entry "open" ∷ []) open_map
      (entry "open") open_entry open_map_lem (Memᴰ.head refl) refl refl

not_empty : both.authenticators ≢ []
not_empty h = cc h

both_config : (s : String) × (get_config test_platform same_order swapped_order both ≡ ok s)
unfolding get_config get_ldap_config ldap_data for_each properties Ldap.get_config get_oidc_config
    oidc_data Oidc.get_config
both_config = (_, refl)

get_config-IsJoined_example : IsJoined test_platform same_order swapped_order both both_config.0
get_config-IsJoined_example =
    get_config-IsJoined test_platform same_order swapped_order both both_config.0 not_empty
      both_config.1
