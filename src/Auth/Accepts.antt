-- ===== src/Auth/Accepts.antt =====
-- internal/controller/common/auth.go: an independent description of the entries that
-- `NewAuthentication` accepts; its children prove that the code fits it.
pub mod Step
pub mod Loop
use airflow_operator.Prelude.{
  String, ◌≡◌, refl, sym, ap, ◌∙◌, ◌⊎◌, inl, inr, ◌↔◌, ◌≢◌, Bool, true, false, Option, none, some,
  Option-cases, List, [], ◌∷◌, ◌++◌, append_assoc, append-nil, arith, ◌==◌, eq_iff, bool_eq, All,
  if◌then◌else◌,
}
use airflow_operator.Go.Outcome.{Outcome, ok, deref, for_each, chain-eq-ok, >>=-eq-ok, ◌>>=◌}
use airflow_operator.Go.Map.{lookup, insert, lookup-insert}
use airflow_operator.Api.{AuthenticationSpec}
use airflow_operator.Platform.{
  Platform, AuthenticationProvider, OidcProvider, LdapProvider, Got, found, not_found, failed,
}
use airflow_operator.Auth.Types.{
  AuthenticatorType, ldap_type, oidc_type, same_type, same_type_iff, contains_auth_type,
  Authenticator, ldap, oidc, AuthenticatorMap, Authentication, authenticator_type_key,
}
use airflow_operator.Auth.New.{
  get_auth_provider, slice_of, append_typed, add_authenticator, agree, agree_sync,
  agree_registration, agree_role, add_spec, no_authentication, new_authentication,
}

abbrev pub type_of : Authenticator → AuthenticatorType
type_of (ldap a) = ldap_type
type_of (oidc a) = oidc_type

abbrev ldap_of : Option LdapProvider → Option Authenticator
ldap_of none = none
ldap_of (some l) = some (ldap (record { provider = l }))

abbrev provided :
    AuthenticationSpec → Option OidcProvider → Option LdapProvider → Option Authenticator
provided auth (some o) l = some (oidc (record { config = auth.oidc; provider = o }))
provided auth none l = ldap_of l

abbrev class_of : AuthenticationSpec → Got (Option AuthenticationProvider) → Option Authenticator
class_of auth (found (some provider)) = provided auth provider.oidc provider.ldap
class_of auth (found none) = none
class_of auth not_found = none
class_of auth (failed e) = none

-- The authenticator that an entry stands for: its class is found, and names OIDC or else LDAP.
abbrev pub classify : Platform → AuthenticationSpec → Option Authenticator
classify p auth = class_of auth (p.get_authentication_class auth.authentication_class)

-- The entries stand for these authenticators, one each, in order.
abbrev pub Classifies : Platform → List AuthenticationSpec → List Authenticator → Type 0
Classifies p [] [] = Unit
Classifies p [] (r ∷ rs) = ⊥
Classifies p (auth ∷ auths) [] = ⊥
Classifies p (auth ∷ auths) (r ∷ rs) = (classify p auth ≡ some r) × Classifies p auths rs

-- Those of one type, in order.
abbrev pub of_type : AuthenticatorType → List Authenticator → List Authenticator
of_type t [] = []
of_type t (r ∷ rs) = if same_type (type_of r) t then r ∷ of_type t rs else of_type t rs
