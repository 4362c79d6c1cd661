-- ===== src/Auth/Gathered.antt =====
-- internal/controller/common/auth.go: what `GetEnvVars`, `GetVolumes` and `GetVolumeMounts`
-- gather, whatever the order in which Go visits the map.
use mathlib.Core.List.{Permᴰ}
use mathlib.Core.List.Permᴰ
use airflow_operator.Prelude.{
  ℕ, ◌*◌, String, ◌≡◌, refl, sym, ◌≢◌, ◌↔◌, Option, none, some, Option-cases, inl, inr, All-map,
  ◌≤◌, List, [], ◌∷◌, ◌++◌, arith, length, All,
}
use airflow_operator.Go.Text.{concat}
use airflow_operator.Go.FilePath.{path_join}
use airflow_operator.Go.Outcome.{Outcome, ok, collect}
use airflow_operator.Go.Collect.{
  collect-perm, collect-ok_iff, All-perm, weigh, weigh-perm, length-collect_le, collect-pair,
}
use airflow_operator.Kube.{EnvVar, secret_env, Volume, VolumeMount}
use airflow_operator.Api.{OidcSpec}
use airflow_operator.Platform.{Platform, Credentials, NamesVolumes}
use airflow_operator.Auth.Types.{
  AuthenticatorType, Authenticator, ldap, oidc, Authentication, sum_lengths,
  get_total_authenticator_count,
}
use airflow_operator.Auth.Ldap
use airflow_operator.Auth.Oidc
use airflow_operator.Auth.Gather.{
  MapOrder, env_vars, volumes, volume_mounts, gather, get_env_vars, get_volumes, get_volume_mounts,
}

-- If a loop that gathers over the authenticators returns in one order of the map, it returns in
-- every other order, a permutation of the first result.
pub gather-order {ℓ} :
    {A : Type ℓ} (f : Authenticator → Outcome (List A)) (o o' : MapOrder) (a : Authentication)
    (xs : List A)
    → gather f o a ≡ ok xs
    → (ys : List A) × (gather f o' a ≡ ok ys) × Permᴰ xs ys
unfolding gather
gather-order f o o' a xs h =
    collect-perm (λ e. collect f e.1)
      (Permᴰ.trans (o.visits a.authenticators) (Permᴰ.symm (o'.visits a.authenticators))) h

-- An OIDC authenticator needs the client's secret.
abbrev pub IsConfigured : Authenticator → Type 0
IsConfigured (ldap a) = Unit
IsConfigured (oidc a) = a.config ≢ none

vars_of : OidcSpec → List EnvVar
vars_of c =
    secret_env "OIDC_CLIENT_ID" c.client_credentials_secret "CLIENT_ID"
    ∷ secret_env "OIDC_CLIENT_SECRET" c.client_credentials_secret "CLIENT_SECRET"
    ∷ []

env_vars-ok_iff : (a : Authenticator) → ((xs : List EnvVar) × (env_vars a ≡ ok xs)) ↔ IsConfigured a
unfolding env_vars Oidc.get_env_vars vars_of
env_vars-ok_iff (ldap a) = (λ _. tt, λ _. (_, refl))
env_vars-ok_iff (oidc a) = (
  λ h n. let (xs, e) = h in ground arith,
  λ n. elim (Option-cases a.config) [
    | inl missing ↦ absurd (n missing)
    | inr (c, e) ↦ (vars_of c, rw e)
  ],
)

-- GetEnvVars of an Authentication returns, in any order of the map, exactly if each OIDC
-- authenticator of the map has its configuration.
pub get_env_vars-ok_iff :
    (o : MapOrder) (a : Authentication)
    → ((xs : List EnvVar) × (get_env_vars o a ≡ ok xs))
      ↔ All (λ e. All IsConfigured e.1) a.authenticators
unfolding get_env_vars gather
get_env_vars-ok_iff o a =
    let outer =
      collect-ok_iff (λ (e : AuthenticatorType × List Authenticator). collect env_vars e.1)
        (o.visit a.authenticators) in
    (
      λ h.
          All-perm (λ (e : AuthenticatorType × List Authenticator). All IsConfigured e.1)
            (o.visits a.authenticators)
            (All-map _ _
              (λ e k.
                All-map _ _ (λ x. (env_vars-ok_iff x).0) e.1 ((collect-ok_iff env_vars e.1).0 k))
              _ (outer.0 h)),
      λ h. outer.1 (
          All-map _ _
            (λ e k.
              (collect-ok_iff env_vars e.1).1 (All-map _ _ (λ x. (env_vars-ok_iff x).1) e.1 k))
            _
            (All-perm (λ (e : AuthenticatorType × List Authenticator). All IsConfigured e.1)
              (Permᴰ.symm (o.visits a.authenticators)) h)),
    )

abbrev count_of : AuthenticatorType × List Authenticator → ℕ
count_of e = length e.1

sum_lengths-weigh :
    (m : List (AuthenticatorType × List Authenticator)) → sum_lengths m ≡ weigh count_of m
unfolding sum_lengths
sum_lengths-weigh [] = refl
sum_lengths-weigh ((t, typed) ∷ m) = omega (arith, sum_lengths-weigh m)

weigh-length : (typed : List Authenticator) → weigh (λ _. 1) typed ≡ length typed
weigh-length [] = refl
weigh-length (x ∷ typed) = omega (arith, weigh-length typed)

env_vars-le : (x : Authenticator) (xs : List EnvVar) → env_vars x ≡ ok xs → length xs ≤ 3 * 1
unfolding env_vars Oidc.get_env_vars Ldap.get_env_vars
env_vars-le (ldap a) xs h = ground arith
env_vars-le (oidc a) xs h = ground arith

volumes-le :
    (p : Platform) (x : Authenticator) (xs : List Volume) → volumes p x ≡ ok xs → length xs ≤ 2 * 1
unfolding volumes Ldap.get_volumes Oidc.get_volumes
volumes-le p (ldap a) xs h = ground arith
volumes-le p (oidc a) xs h = ground arith

volume_mounts-le :
    (p : Platform) (x : Authenticator) (xs : List VolumeMount)
    → volume_mounts p x ≡ ok xs
    → length xs ≤ 2 * 1
unfolding volume_mounts Ldap.get_volume_mounts Oidc.get_volume_mounts
volume_mounts-le p (ldap a) xs h = ground arith
volume_mounts-le p (oidc a) xs h = ground arith

-- A gathering loop stays below `k` results for each authenticator, if each call does.
gather-le {ℓ} :
    {A : Type ℓ} (f : Authenticator → Outcome (List A)) (k : ℕ)
    → ((x : Authenticator) (xs : List A) → f x ≡ ok xs → length xs ≤ k * 1)
    → (o o' : MapOrder) (a : Authentication) (xs : List A) → gather f o a ≡ ok xs
    → length xs ≤ k * get_total_authenticator_count o' a
unfolding gather get_total_authenticator_count
gather-le f k each o o' a xs h =
    let inner : (e : AuthenticatorType × List Authenticator) (ys : List _)
        → collect f e.1 ≡ ok ys
        → length ys ≤ k * count_of e =
      λ e ys q. rw (← weigh-length e.1) (length-collect_le f (λ _. 1) k each e.1 q) in
    let outer =
      length-collect_le (λ (e : AuthenticatorType × List Authenticator). collect f e.1) count_of k
        inner (o.visit a.authenticators) h in
    rw
      (
        sum_lengths-weigh,
        weigh-perm count_of (o'.visits a.authenticators),
        ← weigh-perm count_of (o.visits a.authenticators),
      )
      outer

-- Where GetEnvVars, GetVolumes and GetVolumeMounts return, their results are at most as many as
-- the capacities that they allocate: three, two and two for each authenticator that
-- getTotalAuthenticatorCount counts.
pub gathered-le_capacity :
    (p : Platform) (o o' : MapOrder) (a : Authentication) (es : List EnvVar) (vs : List Volume)
    (ms : List VolumeMount)
    → get_env_vars o a ≡ ok es
    → get_volumes p o a ≡ ok vs
    → get_volume_mounts p o a ≡ ok ms
    → (length es ≤ 3 * get_total_authenticator_count o' a)
      × (length vs ≤ 2 * get_total_authenticator_count o' a)
      × (length ms ≤ 2 * get_total_authenticator_count o' a)
unfolding get_env_vars get_volumes get_volume_mounts
gathered-le_capacity p o o' a es vs ms he hv hm = (
  gather-le env_vars 3 env_vars-le o o' a es he,
  gather-le (volumes p) 2 (volumes-le p) o o' a vs hv,
  gather-le (volume_mounts p) 2 (volume_mounts-le p) o o' a ms hm,
)

-- Volumes and mounts go together: each mount is of the volume of the same secret class, under the
-- directory of that class.
abbrev pub Mounted : Platform → List Volume → List VolumeMount → Type 0
Mounted p [] [] = Unit
Mounted p [] (m ∷ ms) = ⊥
Mounted p (v ∷ vs) [] = ⊥
Mounted p (v ∷ vs) (m ∷ ms) =
    ((class : String) × (v.name ≡ concat ("ldap-" ∷ class ∷ []))
      × (m.name ≡ v.name)
      × (m.mount_path ≡ path_join (p.kubedoop_secret_dir ∷ class ∷ [])))
    × Mounted p vs ms

Mounted-append :
    (p : Platform) (vs vs' : List Volume) (ms ms' : List VolumeMount)
    → Mounted p vs ms
    → Mounted p vs' ms'
    → Mounted p (vs ++ vs') (ms ++ ms')
Mounted-append p [] vs' [] ms' h k = k
Mounted-append p [] vs' (m ∷ ms) ms' h k = absurd h
Mounted-append p (v ∷ vs) vs' [] ms' h k = absurd h
Mounted-append p (v ∷ vs) vs' (m ∷ ms) ms' (h, hs) k = (h, Mounted-append p vs vs' ms ms' hs k)

Mounted-of :
    (p : Platform)
    → NamesVolumes p
    → (c : Option Credentials) → Mounted p (Ldap.volumes_of p c) (Ldap.volume_mounts_of p c)
unfolding Ldap.volumes_of Ldap.volume_mounts_of
Mounted-of p names none = tt
Mounted-of p names (some c) =
    ((c.secret_class, names.volume_name _ _ _, sym (names.volume_name _ _ _), refl), tt)

Mounted-each :
    (p : Platform)
    → NamesVolumes p
    → (x : Authenticator)
    → (vs : List Volume) × (ms : List VolumeMount) × (volumes p x ≡ ok vs)
      × (volume_mounts p x ≡ ok ms)
      × Mounted p vs ms
unfolding volumes volume_mounts Ldap.get_volumes Ldap.get_volume_mounts Oidc.get_volumes
    Oidc.get_volume_mounts
Mounted-each p names (oidc a) = ([], [], refl, refl, tt)
Mounted-each p names (ldap a) =
    let c = a.provider.bind_credentials in
    (Ldap.volumes_of p c, Ldap.volume_mounts_of p c, refl, refl, Mounted-of p names c)

-- If the secret volume builder keeps the name it is given, GetVolumes and GetVolumeMounts return,
-- and in one order of the map their results pair up: each mount has its volume's name, ldap- and a
-- secret class, and the directory of that class.
pub volumes-Mounted :
    (p : Platform) (o : MapOrder) (a : Authentication)
    → NamesVolumes p
    → (vs : List Volume) × (ms : List VolumeMount) × (get_volumes p o a ≡ ok vs)
      × (get_volume_mounts p o a ≡ ok ms)
      × Mounted p vs ms
unfolding get_volumes get_volume_mounts gather
volumes-Mounted p o a names =
    collect-pair (λ e. collect (volumes p) e.1) (λ e. collect (volume_mounts p) e.1) (Mounted p) tt
      (Mounted-append p)
      (λ e.
        collect-pair (volumes p) (volume_mounts p) (Mounted p) tt (Mounted-append p)
          (Mounted-each p names) e.1)
      (o.visit a.authenticators)
