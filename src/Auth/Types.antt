-- ===== src/Auth/Types.antt =====
-- internal/controller/common/auth.go: authenticators and the `Authentication` that holds them.
use airflow_operator.Prelude.{
  String, ◌≡◌, ◌↔◌, Bool, true, false, Option, List, [], ◌∷◌, ◌+◌, ℕ, arith, length, if◌then◌else◌,
}
use airflow_operator.Go.Map.{Key, Order}
use airflow_operator.Api.{OidcSpec}
use airflow_operator.Platform.{OidcProvider, LdapProvider}

pub data AuthenticatorType : Type 0 where
  ldap_type oidc_type : AuthenticatorType

abbrev pub same_type : AuthenticatorType → AuthenticatorType → Bool
same_type ldap_type ldap_type = true
same_type oidc_type oidc_type = true
same_type _ _ = false

pub same_type_iff : (a b : AuthenticatorType) → (same_type a b ≡ true) ↔ (a ≡ b)
same_type_iff a b = ground arith

instance abbrev pub authenticator_type_key : Key AuthenticatorType
authenticator_type_key = record { beq = same_type; beq_iff = same_type_iff }

abbrev pub airflow_support_auth_types : List AuthenticatorType
airflow_support_auth_types = ldap_type ∷ oidc_type ∷ []

unfoldable pub contains_auth_type : List AuthenticatorType → AuthenticatorType → Bool
contains_auth_type [] t = false
contains_auth_type (at ∷ ats) t = if same_type at t then true else contains_auth_type ats t

-- `ldapAuthenticator`
pub record LdapAuthenticator : Type 0 where
  pub provider : LdapProvider

-- `oidcAuthenticator`; its `config` is a pointer that the custom resource may leave nil.
pub record OidcAuthenticator : Type 0 where
  pub config : Option OidcSpec
  pub provider : OidcProvider

-- The interface `Authenticator` by its two implementations.
pub data Authenticator : Type 0 where
  ldap : LdapAuthenticator → Authenticator
  oidc : OidcAuthenticator → Authenticator

abbrev pub AuthenticatorMap : Type 0
AuthenticatorMap = List (AuthenticatorType × List Authenticator)

pub record Authentication : Type 0 where
  pub authenticators : AuthenticatorMap
  pub sync_roles_at : Option String
  pub user_registration : Option Bool
  pub user_registration_role : Option String

unfoldable pub sum_lengths : AuthenticatorMap → ℕ
sum_lengths [] = 0
sum_lengths ((t, typed) ∷ m) = length typed + sum_lengths m

-- `getTotalAuthenticatorCount`
unfoldable pub get_total_authenticator_count :
    Order (AuthenticatorType × List Authenticator) → Authentication → ℕ
unfolding sum_lengths
get_total_authenticator_count order a = sum_lengths (order.visit a.authenticators)
