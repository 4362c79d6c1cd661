-- ===== src/Auth/Accepts/Loop.antt =====
-- internal/controller/common/auth.go: the loop of `NewAuthentication`.
use airflow_operator.Prelude.{
  String, ◌≡◌, refl, sym, ap, ◌∙◌, ◌⊎◌, inl, inr, Bool, true, false, none, some, List, [], ◌∷◌,
  ◌++◌, append_assoc, append-nil, arith, All, if◌then◌else◌,
}
use airflow_operator.Go.Outcome.{ok, for_each, >>=-eq-ok}
use airflow_operator.Go.Outcome.{ok-injective}
use airflow_operator.Go.Map.{DistinctKeys, insert-DistinctKeys, lookup, lookup-insert}
use airflow_operator.Api.{AuthenticationSpec}
use airflow_operator.Platform.{Platform}
use airflow_operator.Auth.Types.{
  AuthenticatorType, same_type, same_type_iff, Authenticator, AuthenticatorMap, Authentication,
  authenticator_type_key,
}
use airflow_operator.Auth.New.{
  slice_of, append_typed, add_spec, no_authentication, new_authentication,
}
use airflow_operator.Auth.Accepts.{type_of, Classifies, of_type}
use airflow_operator.Auth.Accepts.Step.{add_spec-Adds, Adds-add_spec}

lookup-append_typed :
    (t u : AuthenticatorType) (r : Authenticator) (m : AuthenticatorMap)
    → slice_of (lookup t (append_typed u r m))
      ≡ (if same_type u t then slice_of (lookup t m) ++ r ∷ [] else slice_of (lookup t m))
unfolding append_typed
lookup-append_typed t u r m =
    ground (arith, lookup-insert u t (slice_of (lookup u m) ++ r ∷ []) m, same_type_iff u t)

append_if :
    (b : Bool) (xs : List Authenticator) (r : Authenticator) (ys : List Authenticator)
    → (if b then xs ++ r ∷ [] else xs) ++ ys ≡ xs ++ (if b then r ∷ ys else ys)
append_if true xs r ys = append_assoc xs (r ∷ []) ys
append_if false xs r ys = refl

-- What the loop has established when it ends without an error.
record Accepted (p : Platform) (a : Authentication) (auths : List AuthenticationSpec)
    (a' : Authentication) : Type 0 where
  authenticators : List Authenticator
  classified : Classifies p auths authenticators
  appended :
      (t : AuthenticatorType)
      → slice_of (lookup t a'.authenticators)
        ≡ slice_of (lookup t a.authenticators) ++ of_type t authenticators
  sync : All (λ x. a'.sync_roles_at ≡ some x.sync_roles_at) auths
  registration : All (λ x. a'.user_registration ≡ some x.user_registration) auths
  registration_role : All (λ x. a'.user_registration_role ≡ some x.user_registration_role) auths
  kept : (a.sync_roles_at ≡ none) ⊎ (a'.sync_roles_at ≡ a.sync_roles_at)
  kept_registration : (a.user_registration ≡ none) ⊎ (a'.user_registration ≡ a.user_registration)
  kept_role :
      (a.user_registration_role ≡ none) ⊎ (a'.user_registration_role ≡ a.user_registration_role)

for_each-Accepted :
    (p : Platform) (a a' : Authentication) (auths : List AuthenticationSpec)
    → for_each (add_spec p) a auths ≡ ok a'
    → Accepted p a auths a'
unfolding for_each
for_each-Accepted p a a' [] h = record {
  authenticators = [];
  classified = tt;
  appended = λ t. rw append-nil (cc);
  sync = tt;
  registration = tt;
  registration_role = tt;
  kept = inr (ground arith);
  kept_registration = inr (ground arith);
  kept_role = inr (ground arith);
}
for_each-Accepted p a a' (auth ∷ auths) h =
    let (b, hb, rest) = >>=-eq-ok (add_spec p a auth) _ h in
    let s = add_spec-Adds p a b auth hb in
    let r = for_each-Accepted p b a' auths rest in
    record {
      authenticators = s.authenticator ∷ r.authenticators;
      classified = (s.classified, r.classified);
      appended = λ t.
          r.appended t
          ∙ ap (λ m. slice_of (lookup t m) ++ of_type t r.authenticators) s.appended
          ∙ ap (λ xs. xs ++ of_type t r.authenticators)
              (lookup-append_typed t (type_of s.authenticator) s.authenticator a.authenticators)
          ∙ append_if (same_type (type_of s.authenticator) t) _ s.authenticator _;
      sync = (ground arith, r.sync);
      registration = (ground arith, r.registration);
      registration_role = (ground arith, r.registration_role);
      kept = ground arith;
      kept_registration = ground arith;
      kept_role = ground arith;
    }

module _ {p : Platform} {auths : List AuthenticationSpec} {a : Authentication} where
  open-Accepted : new_authentication p auths ≡ ok a → Accepted p no_authentication auths a
  unfolding new_authentication
  open-Accepted h = for_each-Accepted p no_authentication a auths h

-- If NewAuthentication returns, every entry's class is found and names a supported provider (OIDC
-- before LDAP), the map holds exactly these authenticators by type and in the order of the
-- entries, and each of the three settings is that of every entry.
pub new_authentication_sound :
    (p : Platform) (auths : List AuthenticationSpec) (a : Authentication)
    → new_authentication p auths ≡ ok a
    → (rs : List Authenticator) × Classifies p auths rs
      × ((t : AuthenticatorType) → slice_of (lookup t a.authenticators) ≡ of_type t rs)
      × All (λ x. a.sync_roles_at ≡ some x.sync_roles_at) auths
      × All (λ x. a.user_registration ≡ some x.user_registration) auths
      × All (λ x. a.user_registration_role ≡ some x.user_registration_role) auths
new_authentication_sound p auths a h =
    let acc = open-Accepted h in
    (
      acc.authenticators,
      acc.classified,
      (unfold lookup in acc.appended),
      acc.sync,
      acc.registration,
      acc.registration_role,
    )

for_each_complete :
    (p : Platform) (s : String) (b : Bool) (r : String) (a : Authentication)
    (auths : List AuthenticationSpec) (rs : List Authenticator)
    → Classifies p auths rs
    → All (λ x. x.sync_roles_at ≡ s) auths
    → All (λ x. x.user_registration ≡ b) auths
    → All (λ x. x.user_registration_role ≡ r) auths
    → (a.sync_roles_at ≡ none) ⊎ (a.sync_roles_at ≡ some s)
    → (a.user_registration ≡ none) ⊎ (a.user_registration ≡ some b)
    → (a.user_registration_role ≡ none) ⊎ (a.user_registration_role ≡ some r)
    → (a' : Authentication) × (for_each (add_spec p) a auths ≡ ok a')
unfolding for_each
for_each_complete p s b r a [] rs c hs hb hr ks kb kr = (a, refl)
for_each_complete p s b r a (auth ∷ auths) [] c hs hb hr ks kb kr = absurd c
for_each_complete p s b r a (auth ∷ auths) (x ∷ xs) (c, cs) (hs, hss) (hb, hbs) (hr, hrs) ks kb kr =
    let a₁ : Authentication = record {
      authenticators = append_typed (type_of x) x a.authenticators;
      sync_roles_at = some s;
      user_registration = some b;
      user_registration_role = some r;
    } in
    let step : add_spec p a auth ≡ ok a₁ = Adds-add_spec p a a₁ auth (record {
      authenticator = x;
      classified = c;
      appended = refl;
      sync = (ground arith, ap some (sym hs));
      registration = (ground arith, ap some (sym hb));
      registration_role = (ground arith, ap some (sym hr));
    }) in
    let (a', e) =
      for_each_complete p s b r a₁ auths xs cs hss hbs hrs (inr refl) (inr refl) (inr refl) in
    (a', rw step e)

-- If every entry's class is found and names a supported provider and each of the three settings is
-- the same in all entries, NewAuthentication returns an Authentication without an error or a
-- panic.
pub new_authentication_complete :
    (p : Platform) (auths : List AuthenticationSpec) (rs : List Authenticator) (s : String)
    (b : Bool) (r : String)
    → Classifies p auths rs
    → All (λ x. x.sync_roles_at ≡ s) auths
    → All (λ x. x.user_registration ≡ b) auths
    → All (λ x. x.user_registration_role ≡ r) auths
    → (a : Authentication) × (new_authentication p auths ≡ ok a)
unfolding new_authentication
new_authentication_complete p auths rs s b r c hs hb hr =
    for_each_complete p s b r no_authentication auths rs c hs hb hr (inl refl) (inl refl) (inl refl)

for_each-DistinctKeys :
    (p : Platform) (a a' : Authentication) (auths : List AuthenticationSpec)
    → DistinctKeys a.authenticators
    → for_each (add_spec p) a auths ≡ ok a'
    → DistinctKeys a'.authenticators
unfolding for_each append_typed
for_each-DistinctKeys p a a' [] d h = rw (← ok-injective h) d
for_each-DistinctKeys p a a' (auth ∷ auths) d h =
    let (b, hb, rest) = >>=-eq-ok (add_spec p a auth) _ h in
    let s = add_spec-Adds p a b auth hb in
    for_each-DistinctKeys p b a' auths
      (rw s.appended (insert-DistinctKeys (type_of s.authenticator) _ a.authenticators d)) rest

-- If NewAuthentication returns, no type of authenticator stands twice among the entries of the
-- map.
pub new_authentication-DistinctKeys :
    (p : Platform) (auths : List AuthenticationSpec) (a : Authentication)
    → new_authentication p auths ≡ ok a
    → DistinctKeys a.authenticators
unfolding new_authentication
new_authentication-DistinctKeys p auths a h = for_each-DistinctKeys p no_authentication a auths tt h
