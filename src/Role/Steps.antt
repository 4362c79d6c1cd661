-- ===== src/Role/Steps.antt =====
-- internal/controller/role: the steps of `RegisterResourceWithRoleGroup` that can fail, and the
-- kinds of the resources that it makes.
use mathlib.Core.Path.{ap₂}
use airflow_operator.Prelude.{
  ℕ, zero, suc, length, ◌≡◌, refl, sym, ap, ◌∙◌, Option, none, some, List, [], ◌∷◌, ◌++◌, map,
  arith,
}
use airflow_operator.Go.Outcome.{
  deref-eq-ok, Outcome, ok, >>=-eq-ok, ok-injective, deref, collect, ◌>>=◌,
}
use airflow_operator.Go.Map.{Order}
use airflow_operator.Go.Collect.{weigh, weigh-perm}
use airflow_operator.Role.Groups.{
  Resource, config_map_resource, stateful_set_resource, service_resource, register_groups,
}
use airflow_operator.Role.Registered.{register_groups-ok_inv}

module _ {C A S R : Type 0} (x : Option C) (g : C → Outcome A) (m : Outcome S) (k : A → S → R) where
  abbrev pub steps : Outcome R
  steps = do c ← deref x; a ← g c; s ← m; ok (k a s)

  pub steps-ok_inv :
      {r : R}
      → steps ≡ ok r
      → (c : C) × (a : A) × (s : S) × (x ≡ some c) × (g c ≡ ok a) × (m ≡ ok s) × (r ≡ k a s)
  steps-ok_inv h =
      let (c, hc, h₁) = >>=-eq-ok (deref x) _ h in
      let (a, ha, h₂) = >>=-eq-ok (g c) (λ a. m >>= λ s. ok (k a s)) h₁ in
      let (s, hs, h₃) = >>=-eq-ok m (λ s. ok (k a s)) h₂ in
      (c, a, s, deref-eq-ok x hc, ha, hs, sym (ok-injective h₃))

  pub steps-ok : (c : C) (a : A) (s : S) → x ≡ some c → g c ≡ ok a → m ≡ ok s → steps ≡ ok (k a s)
  steps-ok c a s hc ha hs = rw (hc, ha, hs)

-- What a resource is; a service that is nil is told apart.
pub data Kind : Type 0 where
  a_config_map a_stateful_set a_service no_service : Kind

abbrev pub kind : Resource → Kind
kind (config_map_resource c) = a_config_map
kind (stateful_set_resource s) = a_stateful_set
kind (service_resource none) = no_service
kind (service_resource (some s)) = a_service

-- `n` copies of `xs`, one after the other.
abbrev pub copies {ℓ} : {A : Type ℓ} → ℕ → List A → List A
copies zero xs = []
copies (suc n) xs = xs ++ copies n xs

pub map-append :
    {A B : Type 0} (f : A → B) (xs ys : List A) → map f (xs ++ ys) ≡ map f xs ++ map f ys
map-append f [] ys = refl
map-append f (x ∷ xs) ys = ap (λ zs. f x ∷ zs) (map-append f xs ys)

weigh-length {ℓ} : {A : Type ℓ} (xs : List A) → weigh (λ x. 1) xs ≡ length xs
weigh-length [] = refl
weigh-length (x ∷ xs) = omega (arith, weigh-length xs)

module _ {G : Type 0} (resources : G → Outcome (List Resource)) (kinds : List Kind)
    (each : (g : G) (rs : List Resource) → resources g ≡ ok rs → map kind rs ≡ kinds) where
  collect-kinds :
      (gs : List G) {xs : List Resource}
      → collect resources gs ≡ ok xs
      → map kind xs ≡ copies (length gs) kinds
  unfolding collect
  collect-kinds [] h = ap (map kind) (sym (ok-injective h))
  collect-kinds (g ∷ gs) {xs} h =
      let (x, hx, h₁) = >>=-eq-ok (resources g) _ h in
      let (y, hy, h₂) = >>=-eq-ok (collect resources gs) (λ ys. ok (x ++ ys)) h₁ in
      let same : x ++ y ≡ xs = ok-injective h₂ in
      ap (map kind) (sym same)
      ∙ (map-append kind x y ∙ ap₂ (λ a b. a ++ b) (each g x hx) (collect-kinds gs hy))

  -- The kinds that the loop adds, which do not depend on the order of the role groups.
  pub register_groups-kinds :
      (added ys : List Resource) (order : Order G) (gs : List G)
      → register_groups resources added (order.visit gs) ≡ (ok tt, ys)
      → map kind ys ≡ map kind added ++ copies (length gs) kinds
  register_groups-kinds added ys order gs h =
      let (xs, hx, e) = register_groups-ok_inv resources added (order.visit gs) ys h in
      let same : length (order.visit gs) ≡ length gs =
        sym (weigh-length (order.visit gs))
        ∙ (weigh-perm (λ g. 1) (order.visits gs) ∙ weigh-length gs) in
      ap (map kind) e
      ∙ (map-append kind added xs
          ∙ ap (λ zs. map kind added ++ zs)
              (collect-kinds (order.visit gs) hx ∙ ap (λ n. copies n kinds) same))
