-- ===== src/Auth/Failures.antt =====
-- internal/controller/common/auth.go: how `NewAuthentication` fails. The first entry that is not
-- accepted decides, whatever stands behind it.
use airflow_operator.Prelude.{
  String, ◌≡◌, ◌≢◌, ◌⊎◌, Bool, none, some, List, ◌∷◌, ◌++◌, arith, eq_iff, eq_refl,
}
use airflow_operator.Go.Outcome.{ok, err, panic, Error, errorf, for_each, for_each-append, ◌>>=◌}
use airflow_operator.Api.{AuthenticationSpec}
use airflow_operator.Platform.{Platform, AuthenticationProvider, found, not_found, failed}
use airflow_operator.Auth.Types.{Authenticator, Authentication}
use airflow_operator.Auth.New.{
  append_typed, agree_sync, agree_registration, agree_role, add_spec, unsupported, agree,
  new_authentication,
}
use airflow_operator.Auth.Accepts.{type_of, classify}
use airflow_operator.Auth.Accepts.Step.{add_authenticator_of_classify}

module _ (p : Platform) (pre : List AuthenticationSpec) (x : AuthenticationSpec)
    (post : List AuthenticationSpec) {a : Authentication}
    (accepted : new_authentication p pre ≡ ok a) where
  step :
      new_authentication p (pre ++ x ∷ post)
      ≡ (add_spec p a x >>= λ b. for_each (add_spec p) b post)
  unfolding new_authentication
  step = for_each-append (add_spec p) _ pre x post accepted

  -- Behind entries that are accepted, an entry whose class is not found, or whose class has no
  -- provider, makes NewAuthentication panic, whatever entries follow.
  pub new_authentication-panic :
      (p.get_authentication_class x.authentication_class ≡ not_found)
        ⊎ (p.get_authentication_class x.authentication_class ≡ found none)
      → new_authentication p (pre ++ x ∷ post) ≡ panic
  new_authentication-panic h = rw step (unfold add_spec in ground arith)

  -- Behind entries that are accepted, the error of the read of an entry's class is returned.
  pub new_authentication-read_error :
      (e : Error)
      → p.get_authentication_class x.authentication_class ≡ failed e
      → new_authentication p (pre ++ x ∷ post) ≡ err e
  new_authentication-read_error e h = rw step (unfold add_spec in ground arith)

  -- Behind entries that are accepted, an entry whose provider is neither OIDC nor LDAP makes
  -- NewAuthentication return the error that names its class, whatever entries follow.
  pub new_authentication-unsupported :
      (provider : AuthenticationProvider)
      → p.get_authentication_class x.authentication_class ≡ found (some provider)
      → provider.oidc ≡ none
      → provider.ldap ≡ none
      → new_authentication p (pre ++ x ∷ post) ≡ err (unsupported x)
  new_authentication-unsupported provider h o l = rw step (unfold add_spec in ground arith)

  module _ (r : Authenticator) (classified : classify p x ≡ some r) where
    settings : add_spec p a x ≡ (do
      sync ← agree_sync a x
      registration ← agree_registration a x
      role ← agree_role a x
      ok (record {
        authenticators = append_typed (type_of r) r a.authenticators;
        sync_roles_at = sync;
        user_registration = registration;
        user_registration_role = role;
      }))
    unfolding add_spec
    settings = rw (add_authenticator_of_classify p x a.authenticators r classified)

    -- Behind entries that are accepted and have settled a syncRolesAt, an entry with a supported
    -- provider and another syncRolesAt makes NewAuthentication return the error on syncRolesAt,
    -- whatever entries follow.
    pub new_authentication-sync_error :
        (s : String)
        → a.sync_roles_at ≡ some s
        → s ≢ x.sync_roles_at
        → new_authentication p (pre ++ x ∷ post)
          ≡ err (errorf "syncRolesAt must be the same for all authentication providers")
    new_authentication-sync_error s hs n =
        rw (step, settings) (unfold agree in ground (arith, eq_iff s x.sync_roles_at))

    -- Behind accepted entries, an entry with a supported provider, the same `syncRolesAt` and
    -- another `userRegistration` gives the error on `userRegistration`.
    pub new_authentication-registration_error :
        (b : Bool)
        → a.sync_roles_at ≡ some x.sync_roles_at
        → a.user_registration ≡ some b
        → b ≢ x.user_registration
        → new_authentication p (pre ++ x ∷ post)
          ≡ err (errorf "userRegistration must be the same for all authentication providers")
    new_authentication-registration_error b hs hb n =
        rw (step, settings) (unfold agree in ground (arith, eq_refl x.sync_roles_at))

    -- Behind accepted entries, an entry with a supported provider, the same `syncRolesAt` and
    -- `userRegistration` and another `userRegistrationRole` gives the error on
    -- `userRegistrationRole`.
    pub new_authentication-role_error :
        (q : String)
        → a.sync_roles_at ≡ some x.sync_roles_at
        → a.user_registration ≡ some x.user_registration
        → a.user_registration_role ≡ some q
        → q ≢ x.user_registration_role
        → new_authentication p (pre ++ x ∷ post)
          ≡ err (errorf "userRegistrationRole must be the same for all authentication providers")
    new_authentication-role_error q hs hb hq n =
        rw (step, settings)
          (unfold agree in
            ground (arith, eq_refl x.sync_roles_at, eq_iff q x.user_registration_role))
