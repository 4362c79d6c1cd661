-- ===== src/Auth/Rendered.antt =====
-- internal/controller/common/auth.go: what `GetConfig` puts into its templates, whatever the order
-- in which Go visits the map.
use airflow_operator.Prelude.{
  String, ◌≡◌, refl, sym, ap, ◌∙◌, true, false, Bool-cases, inl, inr, Option, none, some, List, [],
  ◌∷◌,
}
use airflow_operator.Go.Outcome.{Outcome, ok, err, panic, for_each, ◌>>=◌}
use airflow_operator.Go.Map.{
  lookup, insert, lookup-perm, perm-DistinctKeys, DistinctKeys, string_key,
}
use airflow_operator.Platform.{Platform, text, texts}
use airflow_operator.Auth.Types.{
  AuthenticatorType, ldap_type, oidc_type, same_type, Authenticator, AuthenticatorMap,
  Authentication, authenticator_type_key,
}
use airflow_operator.Auth.New.{slice_of}
use airflow_operator.Auth.Gather.{MapOrder}
use airflow_operator.Auth.Config.{
  Data, merge_properties, with_settings, oidc_entry, ldap_entry, ldap_data, oidc_data,
  get_ldap_config, get_oidc_config, get_config,
}
use mathlib.Core.List.Permᴰ

module _ (p : Platform) where
  -- Behind the LDAP entry the loop only passes the others over.
  ldap_entry-done :
      (m : Data) (es : AuthenticatorMap) → for_each (ldap_entry p) (m, true) es ≡ ok (m, true)
  unfolding for_each ldap_entry
  ldap_entry-done m [] = refl
  ldap_entry-done m ((t, typed) ∷ es) = elim (Bool-cases (same_type t ldap_type)) [
    | inl e ↦ rw e (ldap_entry-done m es)
    | inr e ↦ rw e (ldap_entry-done m es)
  ]

  ldap_first :
      (g : Data → Data) (r : Outcome Data) (es : AuthenticatorMap)
      → ((do m ← r; ok (m, true)) >>= (λ s. for_each (ldap_entry p) s es) >>= λ x. ok (g x.0))
        ≡ (r >>= λ x. ok (g x))
  ldap_first g (ok m) es = rw (ldap_entry-done m es)
  ldap_first g (err e) es = refl
  ldap_first g panic es = refl

  ldap_loop :
      (g : Data → Data) (m : Data) (es : AuthenticatorMap)
      → (for_each (ldap_entry p) (m, false) es >>= λ x. ok (g x.0))
        ≡ (for_each (merge_properties p text) m (slice_of (lookup ldap_type es)) >>= λ x. ok (g x))
  unfolding for_each ldap_entry lookup
  ldap_loop g m [] = refl
  ldap_loop g m ((ldap_type, typed) ∷ es) =
      ldap_first g (for_each (merge_properties p text) m typed) es
  ldap_loop g m ((oidc_type, typed) ∷ es) = ldap_loop g m es

  -- Entries of the other type leave the data as they are.
  oidc_entry-none :
      (m : Data) (es : AuthenticatorMap)
      → lookup oidc_type es ≡ none
      → for_each (oidc_entry p) m es ≡ ok m
  unfolding for_each oidc_entry lookup
  oidc_entry-none m [] h = refl
  oidc_entry-none m ((ldap_type, typed) ∷ es) h = oidc_entry-none m es h
  oidc_entry-none m ((oidc_type, typed) ∷ es) h = cc

  -- The providers of a map: none without an OIDC entry.
  abbrev pub providers : Option (List Authenticator) → Outcome Data
  providers none = ok []
  providers (some typed) = do
    provider_data ← for_each (merge_properties p (λ s. s)) [] typed
    ok (insert "providers" (texts provider_data) [])

  oidc_first :
      (r : Outcome (List (String × String))) (es : AuthenticatorMap)
      → lookup oidc_type es ≡ none
      → ((do d ← r; ok (insert "providers" (texts d) [])) >>= λ m. for_each (oidc_entry p) m es)
        ≡ (do d ← r; ok (insert "providers" (texts d) []))
  oidc_first (ok d) es h = oidc_entry-none _ es h
  oidc_first (err e) es h = refl
  oidc_first panic es h = refl

  oidc_loop :
      (es : AuthenticatorMap)
      → DistinctKeys es
      → for_each (oidc_entry p) [] es ≡ providers (lookup oidc_type es)
  unfolding for_each oidc_entry lookup
  oidc_loop [] d = refl
  oidc_loop ((ldap_type, typed) ∷ es) (fresh, d) = oidc_loop es d
  oidc_loop ((oidc_type, typed) ∷ es) (fresh, d) =
      oidc_first (for_each (merge_properties p (λ s. s)) [] typed) es fresh

  module _ (o : MapOrder) (a : Authentication) (distinct : DistinctKeys a.authenticators) where
    visited :
        (t : AuthenticatorType) → lookup t (o.visit a.authenticators) ≡ lookup t a.authenticators
    visited t = sym (lookup-perm t (Permᴰ.symm (o.visits a.authenticators)) distinct)

    -- The data of `getLdapConfig` is that of the LDAP authenticators, in every order of the map.
    pub ldap_data_lem : ldap_data p o a ≡ (do
      m ← for_each (merge_properties p text) [] (slice_of (lookup ldap_type a.authenticators))
      ok (with_settings a "AUTH_LDAP" m))
    unfolding ldap_data
    ldap_data_lem =
        ldap_loop (with_settings a "AUTH_LDAP") [] (o.visit a.authenticators)
        ∙ ap
            (λ q. for_each (merge_properties p text) [] (slice_of q) >>= λ m.
              ok (with_settings a "AUTH_LDAP" m))
            (visited ldap_type)

    -- The data of `getOidcConfig` is that of the OIDC authenticators, in every order of the map.
    pub oidc_data_lem : oidc_data p o a ≡ (do
      m ← providers (lookup oidc_type a.authenticators)
      ok (with_settings a "AUTH_OAUTH" m))
    unfolding oidc_data
    oidc_data_lem =
        ap (λ r. r >>= λ m. ok (with_settings a "AUTH_OAUTH" m))
          (oidc_loop (o.visit a.authenticators)
              (perm-DistinctKeys (Permᴰ.symm (o.visits a.authenticators)) distinct)
            ∙ ap providers (visited oidc_type))

-- For an Authentication whose map has no key twice, GetConfig gives the same result, error or
-- panic in all orders in which its two loops visit the map.
pub get_config-order :
    (p : Platform) (l o l' o' : MapOrder) (a : Authentication)
    → DistinctKeys a.authenticators
    → get_config p l o a ≡ get_config p l' o' a
unfolding get_config get_ldap_config get_oidc_config
get_config-order p l o l' o' a d =
    rw
      (ldap_data_lem p l a d, ldap_data_lem p l' a d, oidc_data_lem p o a d, oidc_data_lem p o' a d)
