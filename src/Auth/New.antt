-- ===== src/Auth/New.antt =====
-- internal/controller/common/auth.go: `GetAuthProvider` and `NewAuthentication`.
use airflow_operator.Prelude.{
  String, Bool, Option, none, some, List, [], ◌∷◌, ◌++◌, ◌==◌, bool_eq, if◌then◌else◌,
}
use airflow_operator.Go.Text.{concat}
use airflow_operator.Go.Outcome.{Outcome, ok, err, errorf, Error, deref, for_each, ◌>>=◌}
use airflow_operator.Go.Map.{lookup, insert}
use airflow_operator.Api.{AuthenticationSpec}
use airflow_operator.Platform.{
  Platform, AuthenticationProvider, OidcProvider, LdapProvider, Got, found, not_found, failed,
}
use airflow_operator.Auth.Types.{
  AuthenticatorType, ldap_type, oidc_type, contains_auth_type, airflow_support_auth_types,
  Authenticator, ldap, oidc, AuthenticatorMap, Authentication, authenticator_type_key,
}

-- A class that is not found is logged, and the provider of the empty object is nil.
got_provider : Got (Option AuthenticationProvider) → Outcome (Option AuthenticationProvider)
got_provider (found provider) = ok provider
got_provider not_found = ok none
got_provider (failed e) = err e

unfoldable pub get_auth_provider : Platform → String → Outcome (Option AuthenticationProvider)
unfolding got_provider
get_auth_provider p authclass = got_provider (p.get_authentication_class authclass)

-- `m[t]` of a slice: an absent key gives the empty slice.
abbrev pub slice_of : Option (List Authenticator) → List Authenticator
slice_of none = []
slice_of (some typed) = typed

-- `m[t] = append(m[t], x)`
unfoldable pub append_typed :
    AuthenticatorType → Authenticator → AuthenticatorMap → AuthenticatorMap
append_typed t x m = insert t (slice_of (lookup t m) ++ x ∷ []) m

unfoldable pub unsupported : AuthenticationSpec → Error
unsupported auth =
    errorf (concat ("unsupported authentication provider: " ∷ auth.authentication_class ∷ []))

-- The third branch of the test, and the second in front of it.
unfoldable pub add_ldap :
    AuthenticationSpec → Option LdapProvider → AuthenticatorMap → Outcome AuthenticatorMap
unfolding contains_auth_type
add_ldap auth none m = err (unsupported auth)
add_ldap auth (some provider) m =
    if contains_auth_type airflow_support_auth_types ldap_type
    then ok (append_typed ldap_type (ldap (record { provider = provider })) m)
    else err (unsupported auth)

-- The whole test: OIDC before LDAP.
unfoldable pub add_provider :
    AuthenticationSpec
    → AuthenticationProvider
    → Option OidcProvider
    → AuthenticatorMap
    → Outcome AuthenticatorMap
unfolding contains_auth_type add_ldap
add_provider auth provider none m = add_ldap auth provider.ldap m
add_provider auth provider (some o) m =
    if contains_auth_type airflow_support_auth_types oidc_type
    then ok (append_typed oidc_type (oidc (record { config = auth.oidc; provider = o })) m)
    else add_ldap auth provider.ldap m

-- `if x == nil { x = &v } else if *x != v { return nil, … }`
unfoldable pub agree {ℓ} :
    {A : Type ℓ} → (A → A → Bool) → String → Option A → A → Outcome (Option A)
agree eq message none v = ok (some v)
agree eq message (some x) v = if eq x v then ok (some x) else err (errorf message)

-- The first half of a round: the entry's provider, and the append to the map.
unfoldable pub add_authenticator :
    Platform → AuthenticationSpec → AuthenticatorMap → Outcome AuthenticatorMap
unfolding get_auth_provider add_provider
add_authenticator p auth m = do
  pointer ← get_auth_provider p auth.authentication_class
  provider ← deref pointer
  add_provider auth provider provider.oidc m

-- The three settings, each of which must be the same in every entry.
abbrev pub agree_sync : Authentication → AuthenticationSpec → Outcome (Option String)
agree_sync a auth =
    agree ◌==◌ "syncRolesAt must be the same for all authentication providers" a.sync_roles_at
      auth.sync_roles_at

abbrev pub agree_registration : Authentication → AuthenticationSpec → Outcome (Option Bool)
agree_registration a auth =
    agree bool_eq "userRegistration must be the same for all authentication providers"
      a.user_registration auth.user_registration

abbrev pub agree_role : Authentication → AuthenticationSpec → Outcome (Option String)
agree_role a auth =
    agree ◌==◌ "userRegistrationRole must be the same for all authentication providers"
      a.user_registration_role auth.user_registration_role

-- One round of the loop.
unfoldable pub add_spec : Platform → Authentication → AuthenticationSpec → Outcome Authentication
unfolding add_authenticator agree
add_spec p a auth = do
  authenticators ← add_authenticator p auth a.authenticators
  sync ← agree_sync a auth
  registration ← agree_registration a auth
  role ← agree_role a auth
  ok (record {
    authenticators = authenticators;
    sync_roles_at = sync;
    user_registration = registration;
    user_registration_role = role;
  })

abbrev pub no_authentication : Authentication
no_authentication = record {
  authenticators = [];
  sync_roles_at = none;
  user_registration = none;
  user_registration_role = none;
}

unfoldable pub new_authentication : Platform → List AuthenticationSpec → Outcome Authentication
new_authentication p auths = for_each (add_spec p) no_authentication auths
