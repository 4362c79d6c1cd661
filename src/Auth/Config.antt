-- ===== src/Auth/Config.antt =====
-- internal/controller/common/auth.go: `GetConfig` of `Authentication`.
use airflow_operator.Prelude.{String, Bool, true, false, List, [], ◌∷◌, if◌then◌else◌}
use airflow_operator.Go.Text.{join}
use airflow_operator.Go.Outcome.{Outcome, ok, for_each, ◌>>=◌}
use airflow_operator.Go.Map.{insert, string_key}
use airflow_operator.Platform.{Platform, Value, text, text_pointer, bool_pointer, texts}
use airflow_operator.Auth.Types.{
  AuthenticatorType, ldap_type, oidc_type, same_type, Authenticator, ldap, oidc, Authentication,
}
use airflow_operator.Auth.Ldap
use airflow_operator.Auth.Oidc
use airflow_operator.Auth.Gather.{MapOrder}
use airflow_operator.Auth.Templates.{oidc_template, ldap_template}

abbrev pub Data : Type 0
Data = List (String × Value)

-- The call of `GetConfig` through the interface.
unfoldable pub properties : Platform → Authenticator → Outcome (List (String × String))
properties p (ldap a) = Ldap.get_config p a
properties p (oidc a) = Oidc.get_config a

-- `for _, k := range cfg.Keys() { m[k], _ = cfg.Get(k) }`
unfoldable pub copy_properties {ℓ} :
    {V : Type ℓ}
    → Platform
    → (String → V)
    → List (String × String)
    → List String
    → List (String × V)
    → List (String × V)
copy_properties p inject cfg [] m = m
copy_properties p inject cfg (k ∷ ks) m =
    copy_properties p inject cfg ks (insert k (inject (p.property_get cfg k)) m)

-- The properties of one authenticator written over `m`.
unfoldable pub merge_properties {ℓ} :
    {V : Type ℓ}
    → Platform
    → (String → V)
    → List (String × V)
    → Authenticator
    → Outcome (List (String × V))
unfolding copy_properties
merge_properties p inject m a = do
  cfg ← properties p a
  ok (copy_properties p inject cfg (p.property_keys cfg) m)

-- The four entries that both configurations write last.
unfoldable pub with_settings : Authentication → String → Data → Data
with_settings a auth_type m =
    insert "user_registration_role" (text_pointer a.user_registration_role) (
      insert "user_registration" (bool_pointer a.user_registration) (
        insert "auth_roles_sync_at_login" (text_pointer a.sync_roles_at)
          (insert "auth_type" (text auth_type) m)))

-- One entry of the map in the loop of `getOidcConfig`.
unfoldable pub oidc_entry : Platform → Data → AuthenticatorType × List Authenticator → Outcome Data
unfolding merge_properties
oidc_entry p m (t, typed) =
    if same_type t oidc_type
    then (do
      provider_data ← for_each (merge_properties p (λ s. s)) [] typed
      ok (insert "providers" (texts provider_data) m))
    else ok m

-- The data of `getOidcConfig`.
unfoldable pub oidc_data : Platform → MapOrder → Authentication → Outcome Data
unfolding oidc_entry with_settings
oidc_data p order a = do
  m ← for_each (oidc_entry p) [] (order.visit a.authenticators)
  ok (with_settings a "AUTH_OAUTH" m)

unfoldable pub get_oidc_config : Platform → MapOrder → Authentication → Outcome String
get_oidc_config p order a = do m ← oidc_data p order a; p.parse_template oidc_template m

-- One entry of the map in the loop of `getLdapConfig`, with the flag `exist`.
unfoldable pub ldap_entry :
    Platform → Data × Bool → AuthenticatorType × List Authenticator → Outcome (Data × Bool)
unfolding merge_properties
ldap_entry p (m, exist) (t, typed) =
    if same_type t ldap_type
    then (if exist
        then ok (m, exist)
        else (do m' ← for_each (merge_properties p text) m typed; ok (m', true)))
    else ok (m, exist)

-- The data of `getLdapConfig`.
unfoldable pub ldap_data : Platform → MapOrder → Authentication → Outcome Data
unfolding ldap_entry with_settings
ldap_data p order a = do
  m ← for_each (ldap_entry p) ([], false) (order.visit a.authenticators)
  ok (with_settings a "AUTH_LDAP" m.0)

unfoldable pub get_ldap_config : Platform → MapOrder → Authentication → Outcome String
get_ldap_config p order a = do m ← ldap_data p order a; p.parse_template ldap_template m

abbrev pub get_auth_db_config : String
get_auth_db_config = "AUTH_TYPE = 'AUTH_DB'"

unfoldable pub config_of : Platform → MapOrder → MapOrder → Authentication → Outcome String
config_of p ldap_order oidc_order a = do
  ldap_config ← get_ldap_config p ldap_order a
  oidc_config ← get_oidc_config p oidc_order a
  ok (join "\n" (ldap_config ∷ oidc_config ∷ []))

-- `len(a.authenticators) == 0`
unfoldable pub is_empty {ℓ} : {A : Type ℓ} → List A → Bool
is_empty [] = true
is_empty (x ∷ xs) = false

-- Each of the two loops has an order of its own.
unfoldable pub get_config : Platform → MapOrder → MapOrder → Authentication → Outcome String
unfolding config_of is_empty
get_config p ldap_order oidc_order a =
    if is_empty a.authenticators then ok get_auth_db_config else config_of p ldap_order oidc_order a
