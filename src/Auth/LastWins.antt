-- ===== src/Auth/LastWins.antt =====
-- internal/controller/common/auth.go: of several authenticators of one type, the last decides.
use mathlib.Core.Path.{subst}
use airflow_operator.Prelude.{
  String, ◌≡◌, refl, sym, ap, ◌∙◌, ◌≢◌, none, some, List, [], ◌∷◌, ◌++◌, arith, eq_iff,
  if◌then◌else◌,
}
use airflow_operator.Go.Outcome.{deref, ok, for_each, >>=-eq-ok, ok-injective, ◌>>=◌}
use airflow_operator.Go.Map.{
  lookup, insert, lookup-insert, lookup-insert_ne, occurs, DistinctKeys, string_key,
}
use airflow_operator.Go.FilePath.{path_join}
use airflow_operator.Platform.{Platform, Credentials, KeepsProperties, text}
use airflow_operator.Auth.Types.{
  ldap_type, Authenticator, ldap, LdapAuthenticator, Authentication, authenticator_type_key,
}
use airflow_operator.Auth.Ldap
use airflow_operator.Auth.Gather.{MapOrder}
use airflow_operator.Auth.New.{slice_of}
use airflow_operator.Auth.Config.{
  Data, properties, copy_properties, merge_properties, with_settings, ldap_data,
}
use airflow_operator.Auth.Rendered.{ldap_data_lem}

module _ {ℓ} {V : Type ℓ} (p : Platform) (inject : String → V) where
  lookup-copy_properties :
      (cfg : List (String × String)) (k : String) (ks : List String) (m : List (String × V))
      → lookup k (copy_properties p inject cfg ks m)
        ≡ (if occurs k ks then some (inject (p.property_get cfg k)) else lookup k m)
  unfolding copy_properties
  lookup-copy_properties cfg k [] m = refl
  lookup-copy_properties cfg k (j ∷ ks) m = ground (
    arith,
    lookup-copy_properties cfg k ks (insert j (inject (p.property_get cfg j)) m),
    lookup-insert j k (inject (p.property_get cfg j)) m,
    eq_iff j k,
  )

  -- The properties of one authenticator replace those that stood under the same keys.
  lookup-merge_properties :
      KeepsProperties p
      → (m d : List (String × V)) (x : Authenticator) (adds : List (String × String)) (k v : String)
      → properties p x ≡ ok adds
      → DistinctKeys adds
      → lookup k adds ≡ some v
      → merge_properties p inject m x ≡ ok d
      → lookup k d ≡ some (inject v)
  unfolding merge_properties
  lookup-merge_properties keeps m d x adds k v read distinct at h =
      let e = ok-injective (rw read at h) in
      rw (
        ← e,
        lookup-copy_properties,
        (keeps.keys_iff adds k distinct).1 (λ n. cc (sym at ∙ n)),
        keeps.get_lem adds k v distinct at,
      )

  for_each-last :
      (pre : List Authenticator) (x : Authenticator) (m d : List (String × V))
      → for_each (merge_properties p inject) m (pre ++ x ∷ []) ≡ ok d
      → (m' : List (String × V)) × (merge_properties p inject m' x ≡ ok d)
  unfolding for_each
  for_each-last [] x m d h =
      let (t, ht, rest) = >>=-eq-ok (merge_properties p inject m x) (λ t. ok t) h in
      (m, rw (← ok-injective rest) ht)
  for_each-last (y ∷ pre) x m d h =
      let (t, ht, rest) = >>=-eq-ok (merge_properties p inject m y) _ h in
      for_each-last pre x t d rest

lookup-with_settings :
    (a : Authentication) (s k : String) (m : Data)
    → "auth_type" ≢ k
    → "auth_roles_sync_at_login" ≢ k
    → "user_registration" ≢ k
    → "user_registration_role" ≢ k
    → lookup k (with_settings a s m) ≡ lookup k m
unfolding with_settings
lookup-with_settings a s k m n₁ n₂ n₃ n₄ =
    lookup-insert_ne "user_registration_role" k _ _ n₄
    ∙ lookup-insert_ne "user_registration" k _ _ n₃
    ∙ lookup-insert_ne "auth_roles_sync_at_login" k _ _ n₂
    ∙ lookup-insert_ne "auth_type" k _ _ n₁

-- The keys of an LDAP authenticator's properties are distinct, and none of the four settings.
abbrev OwnKeys : List (String × String) → Type 0
OwnKeys adds =
    DistinctKeys adds
    × (lookup "auth_type" adds ≡ none)
    × (lookup "auth_roles_sync_at_login" adds ≡ none)
    × (lookup "user_registration" adds ≡ none)
    × (lookup "user_registration_role" adds ≡ none)

-- The properties of an LDAP authenticator with bind credentials.
properties_of : Platform → LdapAuthenticator → Credentials → List (String × String)
unfolding Ldap.base_properties Ldap.bind_properties
properties_of p x c =
    Ldap.base_properties x
    ++ Ldap.bind_properties (some c) (path_join (p.kubedoop_secret_dir ∷ c.secret_class ∷ []))

get_config-properties_of :
    (p : Platform) (x : LdapAuthenticator) (adds : List (String × String))
    → Ldap.get_config p x ≡ ok adds
    → (c : Credentials) × (properties_of p x c ≡ adds)
unfolding Ldap.get_config properties_of
get_config-properties_of p x adds h =
    elim x.provider.bind_credentials
        as (λ q.
          (do
            c ← deref q
            let mount_path = path_join (p.kubedoop_secret_dir ∷ c.secret_class ∷ [])
            ok (Ldap.base_properties x ++ Ldap.bind_properties q mount_path))
            ≡ ok adds
          → (c : Credentials) × (properties_of p x c ≡ adds)) [
            | none ↦ λ e. cc
            | some c ↦ λ e. (c, ok-injective e)
          ]
      h

properties_of-OwnKeys :
    (p : Platform) (x : LdapAuthenticator) (c : Credentials) → OwnKeys (properties_of p x c)
unfolding properties_of lookup
properties_of-OwnKeys p x c = (
  (refl, (refl, (refl, (refl, (refl, (refl, (refl, (refl, (refl, (refl, tt)))))))))),
  refl,
  refl,
  refl,
  refl,
)

ldap-OwnKeys :
    (p : Platform) (x : LdapAuthenticator) (adds : List (String × String))
    → Ldap.get_config p x ≡ ok adds
    → OwnKeys adds
ldap-OwnKeys p x adds h =
    let (c, e) = get_config-properties_of p x adds h in
    subst OwnKeys e (properties_of-OwnKeys p x c)

ne_of_lookup :
    (adds : List (String × String)) (j k v : String)
    → lookup j adds ≡ none
    → lookup k adds ≡ some v
    → j ≢ k
ne_of_lookup adds j k v none_at some_at same =
    cc (sym none_at ∙ ap (λ i. lookup i adds) same ∙ some_at)

-- If properties keep what is added to them, the map has no key twice, and its LDAP authenticators
-- end in one that has a value under a property's key, the data that getLdapConfig hands its
-- template, where it makes it, has that value under that key, whatever the earlier authenticators
-- have.
pub ldap_data-last :
    (p : Platform) (o : MapOrder) (a : Authentication) (pre : List Authenticator)
    (x : LdapAuthenticator) (adds : List (String × String)) (d : Data) (k v : String)
    → KeepsProperties p
    → DistinctKeys a.authenticators
    → lookup ldap_type a.authenticators ≡ some (pre ++ ldap x ∷ [])
    → Ldap.get_config p x ≡ ok adds
    → lookup k adds ≡ some v
    → ldap_data p o a ≡ ok d
    → lookup k d ≡ some (text v)
unfolding properties
ldap_data-last p o a pre x adds d k v keeps distinct held read at h =
    let (keys, k₁, k₂, k₃, k₄) = ldap-OwnKeys p x adds read in
    let (m, merged, e) =
      >>=-eq-ok
        (for_each (merge_properties p text) [] (slice_of (lookup ldap_type a.authenticators)))
        (λ m. ok (with_settings a "AUTH_LDAP" m)) (sym (ldap_data_lem p o a distinct) ∙ h) in
    let (m', last) =
      for_each-last p text pre (ldap x) [] m
        (subst (λ q. for_each (merge_properties p text) [] (slice_of q) ≡ ok m) held merged) in
    rw (← ok-injective e) (
      lookup-with_settings a "AUTH_LDAP" k m (ne_of_lookup adds _ k v k₁ at)
        (ne_of_lookup adds _ k v k₂ at) (ne_of_lookup adds _ k v k₃ at)
        (ne_of_lookup adds _ k v k₄ at)
      ∙ lookup-merge_properties p text keeps m' m (ldap x) adds k v read keys at last)
