-- ===== src/Auth/Whole.antt =====
-- internal/controller/common/auth.go: `GetConfig` as a whole, from the entries of the custom
-- resource on.
use mathlib.Core.List.{Memᴰ}
use mathlib.Core.Path.{subst}
use airflow_operator.Prelude.{
  String, ◌≡◌, refl, sym, ap, ◌∙◌, ◌≢◌, false, Option, none, some, List, [], ◌∷◌, arith, All,
}
use airflow_operator.Go.Text.{concat, join}
use airflow_operator.Go.Outcome.{
  ok, err, Error, panic, for_each, >>=-eq-ok, >>=-panic, ok-injective, ◌>>=◌,
}
use airflow_operator.Go.Map.{lookup, lookup-insert, string_key}
use airflow_operator.Api.{AuthenticationSpec}
use airflow_operator.Platform.{Platform, Credentials, text}
use airflow_operator.Auth.Types.{
  AuthenticatorType, ldap_type, Authenticator, ldap, oidc, LdapAuthenticator, AuthenticatorMap,
  Authentication, authenticator_type_key,
}
use airflow_operator.Auth.Ldap
use airflow_operator.Auth.Gather.{MapOrder}
use airflow_operator.Auth.New.{slice_of, new_authentication}
use airflow_operator.Auth.Accepts.{classify, Classifies, of_type}
use airflow_operator.Auth.Accepts.Loop.{new_authentication_sound, new_authentication-DistinctKeys}
use airflow_operator.Auth.Templates.{ldap_template, oidc_template}
use airflow_operator.Auth.Config.{
  Data, properties, merge_properties, with_settings, ldap_data, oidc_data, get_ldap_config,
  get_oidc_config, config_of, is_empty, get_config,
}
use airflow_operator.Auth.Rendered.{ldap_data_lem}

with_settings-auth_type :
    (a : Authentication) (s : String) (m : Data)
    → lookup "auth_type" (with_settings a s m) ≡ some (text s)
unfolding with_settings
with_settings-auth_type a s m = simp lookup-insert

-- The two texts that a configuration is made of.
pub record IsJoined (p : Platform) (l o : MapOrder) (a : Authentication) (s : String) : Type 0 where
  pub ldap_text : String
  pub oidc_text : String
  pub ldap_values : Data
  pub oidc_values : Data
  pub ldap_read : ldap_data p l a ≡ ok ldap_values
  pub oidc_read : oidc_data p o a ≡ ok oidc_values
  pub ldap_type_set : lookup "auth_type" ldap_values ≡ some (text "AUTH_LDAP")
  pub oidc_type_set : lookup "auth_type" oidc_values ≡ some (text "AUTH_OAUTH")
  pub ldap_parsed : p.parse_template ldap_template ldap_values ≡ ok ldap_text
  pub oidc_parsed : p.parse_template oidc_template oidc_values ≡ ok oidc_text
  pub joined : s ≡ concat (ldap_text ∷ "\n" ∷ oidc_text ∷ [])

ldap_data-auth_type :
    (p : Platform) (l : MapOrder) (a : Authentication) (d : Data)
    → ldap_data p l a ≡ ok d
    → lookup "auth_type" d ≡ some (text "AUTH_LDAP")
unfolding ldap_data
ldap_data-auth_type p l a d h =
    let (m, _, e) = >>=-eq-ok _ (λ m. ok (with_settings a "AUTH_LDAP" m.0)) h in
    rw (← ok-injective e) (with_settings-auth_type a "AUTH_LDAP" m.0)

oidc_data-auth_type :
    (p : Platform) (o : MapOrder) (a : Authentication) (d : Data)
    → oidc_data p o a ≡ ok d
    → lookup "auth_type" d ≡ some (text "AUTH_OAUTH")
unfolding oidc_data
oidc_data-auth_type p o a d h =
    let (m, _, e) = >>=-eq-ok _ (λ m. ok (with_settings a "AUTH_OAUTH" m)) h in
    rw (← ok-injective e) (with_settings-auth_type a "AUTH_OAUTH" m)

-- If there is any authenticator and GetConfig returns a text, that text is the LDAP template's,
-- with auth_type AUTH_LDAP, a line break, and the OAuth template's, with auth_type AUTH_OAUTH,
-- whichever types of authenticators there are.
pub get_config-IsJoined :
    (p : Platform) (l o : MapOrder) (a : Authentication) (s : String)
    → a.authenticators ≢ []
    → get_config p l o a ≡ ok s
    → IsJoined p l o a s
unfolding get_config is_empty config_of get_ldap_config get_oidc_config join
get_config-IsJoined p l o a s some_one h =
    let whole : config_of p l o a ≡ ok s = ground arith in
    let (x, hx, h₁) =
      >>=-eq-ok (get_ldap_config p l a)
        (λ x. get_oidc_config p o a >>= λ y. ok (join "\n" (x ∷ y ∷ []))) whole in
    let (y, hy, h₂) = >>=-eq-ok (get_oidc_config p o a) (λ y. ok (join "\n" (x ∷ y ∷ []))) h₁ in
    let (d, hd, parsed) = >>=-eq-ok (ldap_data p l a) (p.parse_template ldap_template) hx in
    let (d', hd', parsed') = >>=-eq-ok (oidc_data p o a) (p.parse_template oidc_template) hy in
    record {
      ldap_text = x;
      oidc_text = y;
      ldap_values = d;
      oidc_values = d';
      ldap_read = hd;
      oidc_read = hd';
      ldap_type_set = ldap_data-auth_type p l a d hd;
      oidc_type_set = oidc_data-auth_type p o a d' hd';
      ldap_parsed = parsed;
      oidc_parsed = parsed';
      joined = sym (ok-injective h₂);
    }

abbrev IsLdap : Authenticator → Type 0
IsLdap (ldap x) = Unit
IsLdap (oidc x) = ⊥

of_type-IsLdap : (rs : List Authenticator) → All IsLdap (of_type ldap_type rs)
of_type-IsLdap [] = tt
of_type-IsLdap (ldap x ∷ rs) = (tt, of_type-IsLdap rs)
of_type-IsLdap (oidc x ∷ rs) = of_type-IsLdap rs

-- The authenticator of an LDAP entry is among those of its type.
of_type-mem :
    (p : Platform) (auths : List AuthenticationSpec) (rs : List Authenticator)
    (spec : AuthenticationSpec) (x : LdapAuthenticator)
    → Memᴰ spec auths
    → classify p spec ≡ some (ldap x)
    → Classifies p auths rs
    → Memᴰ (ldap x) (of_type ldap_type rs)
of_type-mem p [] rs spec x m c h = elim m [ ]
of_type-mem p (auth ∷ auths) [] spec x m c h = absurd h
of_type-mem p (auth ∷ auths) (r ∷ rs) spec x (Memᴰ.head e) c (h, hs) =
    let same : r ≡ ldap x = cc (ap (classify p) e) in
    subst (λ q. Memᴰ (ldap x) (of_type ldap_type (q ∷ rs))) (sym same) (Memᴰ.head refl)
of_type-mem p (auth ∷ auths) (ldap y ∷ rs) spec x (Memᴰ.tail m) c (h, hs) =
    Memᴰ.tail (of_type-mem p auths rs spec x m c hs)
of_type-mem p (auth ∷ auths) (oidc y ∷ rs) spec x (Memᴰ.tail m) c (h, hs) =
    of_type-mem p auths rs spec x m c hs

merge-ne-err :
    (p : Platform) (m : Data) (x : LdapAuthenticator) (e : Error)
    → merge_properties p text m (ldap x) ≢ err e
unfolding merge_properties properties Ldap.get_config
merge-ne-err p m x e h = ground arith

unbound :
    (p : Platform) (x : LdapAuthenticator)
    → x.provider.bind_credentials ≡ none
    → Ldap.get_config p x ≡ panic
unfolding Ldap.get_config
unbound p x h = ground arith

abbrev credentials_of : Authenticator → Option Credentials
credentials_of (ldap x) = x.provider.bind_credentials
credentials_of (oidc x) = none

-- One that has no bind credentials makes the loop over LDAP authenticators panic.
for_each-panic :
    (p : Platform) (m : Data) (xs : List Authenticator) (x : LdapAuthenticator)
    → Memᴰ (ldap x) xs
    → x.provider.bind_credentials ≡ none
    → All IsLdap xs
    → for_each (merge_properties p text) m xs ≡ panic
unfolding for_each merge_properties properties
for_each-panic p m [] x mem h all = elim mem [ ]
for_each-panic p m (oidc y ∷ xs) x mem h all = absurd all.0
for_each-panic p m (ldap y ∷ xs) x (Memᴰ.head e) h all =
    rw (unbound p y (ap credentials_of (sym e) ∙ h))
for_each-panic p m (ldap y ∷ xs) x (Memᴰ.tail mem) h all =
    >>=-panic (merge_properties p text m (ldap y)) _ (merge-ne-err p m y)
      (λ m'. for_each-panic p m' xs x mem h all.1)

is_empty-false :
    (m : AuthenticatorMap) (t : AuthenticatorType) (x : Authenticator) (xs : List Authenticator)
    → Memᴰ x xs
    → slice_of (lookup t m) ≡ xs
    → is_empty m ≡ false
unfolding is_empty lookup
is_empty-false [] t x xs mem e = absurd (elim (subst (λ l. Memᴰ x l) (sym e) mem) [ ])
is_empty-false (y ∷ m) t x xs mem e = refl

-- If NewAuthentication accepts entries of which one stands for an LDAP provider without bind
-- credentials, GetConfig of the result panics, in every order of the map.
pub get_config-panic :
    (p : Platform) (l o : MapOrder) (auths : List AuthenticationSpec) (a : Authentication)
    (spec : AuthenticationSpec) (x : LdapAuthenticator)
    → new_authentication p auths ≡ ok a
    → Memᴰ spec auths
    → classify p spec ≡ some (ldap x)
    → x.provider.bind_credentials ≡ none
    → get_config p l o a ≡ panic
unfolding get_config config_of get_ldap_config
get_config-panic p l o auths a spec x accepted mem c h =
    let (rs, classified, held, _, _, _) = new_authentication_sound p auths a accepted in
    let here = of_type-mem p auths rs spec x mem c classified in
    let stops : for_each (merge_properties p text) [] (slice_of (lookup ldap_type a.authenticators))
        ≡ panic =
      rw held (for_each-panic p [] (of_type ldap_type rs) x here h (of_type-IsLdap rs)) in
    rw (
      is_empty-false a.authenticators ldap_type (ldap x) _ here (held ldap_type),
      ldap_data_lem p l a (new_authentication-DistinctKeys p auths a accepted),
      stops,
    )
