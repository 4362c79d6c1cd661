-- ===== src/Auth/Accepts/Step.antt =====
-- internal/controller/common/auth.go: one round of the loop of `NewAuthentication`.
use airflow_operator.Prelude.{
  String, ◌≡◌, refl, ◌⊎◌, inl, inr, ◌↔◌, ◌≢◌, Bool, true, Option, none, some, Option-cases, arith,
  ◌==◌, eq_iff, bool_eq,
}
use airflow_operator.Go.Outcome.{ok, chain-eq-ok}
use airflow_operator.Api.{AuthenticationSpec}
use airflow_operator.Platform.{Platform}
use airflow_operator.Auth.Types.{
  Authenticator, AuthenticatorMap, Authentication, authenticator_type_key,
}
use airflow_operator.Auth.New.{
  append_typed, add_authenticator, agree, agree_sync, agree_registration, agree_role, add_spec,
}
use airflow_operator.Auth.Accepts.{type_of, classify}

-- A setting that was absent or equal is now present.
abbrev pub Settles {ℓ} : {A : Type ℓ} → Option A → A → Option A → Type ℓ
Settles old v new = ((old ≡ none) ⊎ (old ≡ some v)) × (new ≡ some v)

pub record Adds (p : Platform) (a : Authentication) (auth : AuthenticationSpec)
    (a' : Authentication) : Type 0 where
  pub authenticator : Authenticator
  pub classified : classify p auth ≡ some authenticator
  pub appended :
      a'.authenticators ≡ append_typed (type_of authenticator) authenticator a.authenticators
  pub sync : Settles a.sync_roles_at auth.sync_roles_at a'.sync_roles_at
  pub registration : Settles a.user_registration auth.user_registration a'.user_registration
  pub registration_role :
      Settles a.user_registration_role auth.user_registration_role a'.user_registration_role

module _ {ℓ} {A : Type ℓ} where
  agree-Settles :
      (eq : A → A → Bool) (iff : (x y : A) → (eq x y ≡ true) ↔ (x ≡ y)) (message : String)
      (old : Option A) (v : A) {new : Option A}
      → agree eq message old v ≡ ok new
      → Settles old v new
  unfolding agree
  agree-Settles eq iff message none v h = (inl refl, cc)
  agree-Settles eq iff message (some x) v h = ground (arith, iff x v)

  Settles-agree :
      (eq : A → A → Bool) (iff : (x y : A) → (eq x y ≡ true) ↔ (x ≡ y)) (message : String)
      (old : Option A) (v : A)
      → (old ≡ none) ⊎ (old ≡ some v)
      → agree eq message old v ≡ ok (some v)
  unfolding agree
  Settles-agree eq iff message none v h = refl
  Settles-agree eq iff message (some x) v h = ground (arith, iff x v)

bool_eq_iff : (a b : Bool) → (bool_eq a b ≡ true) ↔ (a ≡ b)
bool_eq_iff a b = ground arith

pub add_authenticator_of_classify :
    (p : Platform) (auth : AuthenticationSpec) (m : AuthenticatorMap) (r : Authenticator)
    → classify p auth ≡ some r
    → add_authenticator p auth m ≡ ok (append_typed (type_of r) r m)
unfolding add_authenticator
add_authenticator_of_classify p auth m r h = ground arith

add_authenticator_of_none :
    (p : Platform) (auth : AuthenticationSpec) (m m' : AuthenticatorMap)
    → classify p auth ≡ none
    → add_authenticator p auth m ≢ ok m'
unfolding add_authenticator
add_authenticator_of_none p auth m m' h = ground arith

pub add_spec-Adds :
    (p : Platform) (a a' : Authentication) (auth : AuthenticationSpec)
    → add_spec p a auth ≡ ok a'
    → Adds p a auth a'
unfolding add_spec
add_spec-Adds p a a' auth h =
    let (m, sync, registration, role, hm, hs, hr, hq, same) =
      chain-eq-ok (add_authenticator p auth a.authenticators) (agree_sync a auth)
        (agree_registration a auth) (agree_role a auth)
        (λ x y z w. record {
          authenticators = x;
          sync_roles_at = y;
          user_registration = z;
          user_registration_role = w;
        })
        h in
    elim (Option-cases (classify p auth)) [
      | inl bad ↦ absurd (add_authenticator_of_none p auth a.authenticators m bad hm)
      | inr (r, good) ↦
          let (s₁, s₂) = agree-Settles ◌==◌ eq_iff _ a.sync_roles_at auth.sync_roles_at hs in
          let (r₁, r₂) =
            agree-Settles bool_eq bool_eq_iff _ a.user_registration auth.user_registration hr in
          let (q₁, q₂) =
            agree-Settles ◌==◌ eq_iff _ a.user_registration_role auth.user_registration_role hq in
          record {
            authenticator = r;
            classified = good;
            appended = cc (add_authenticator_of_classify p auth a.authenticators r good, hm, same);
            sync = (s₁, cc (same, s₂));
            registration = (r₁, cc (same, r₂));
            registration_role = (q₁, cc (same, q₂));
          }
    ]

pub Adds-add_spec :
    (p : Platform) (a a' : Authentication) (auth : AuthenticationSpec)
    → Adds p a auth a'
    → add_spec p a auth ≡ ok a'
unfolding add_spec
Adds-add_spec p a a' auth h =
    rw
      (
        add_authenticator_of_classify p auth a.authenticators h.authenticator h.classified,
        Settles-agree ◌==◌ eq_iff _ a.sync_roles_at auth.sync_roles_at h.sync.0,
        Settles-agree bool_eq bool_eq_iff _ a.user_registration auth.user_registration
            h.registration.0,
        Settles-agree ◌==◌ eq_iff _ a.user_registration_role auth.user_registration_role
            h.registration_role.0,
      )
      (cc (h.appended, h.sync.1, h.registration.1, h.registration_role.1))
