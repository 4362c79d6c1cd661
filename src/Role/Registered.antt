-- ===== src/Role/Registered.antt =====
-- internal/controller/role: what the loop of `RegisterResources` leaves, whatever a role group's
-- resources are.
use mathlib.Core.List.{Permᴰ}
use mathlib.Core.List.Permᴰ
use mathlib.Core.Path.{subst}
use airflow_operator.Prelude.{
  ◌≡◌, ◌≢◌, refl, sym, ap, ◌∙◌, List, [], ◌∷◌, ◌++◌, append_assoc, append-nil,
}
use airflow_operator.Go.Outcome.{
  Done, Outcome, ok, err, panic, collect, ok-injective, >>=-eq-ok, ◌>>=◌,
}
use airflow_operator.Go.Map.{Order}
use airflow_operator.Go.Collect.{collect-perm}
use airflow_operator.Role.Groups.{Resource, register_groups, after_round}

module _ {ℓ} {G : Type ℓ} (resources : G → Outcome (List Resource)) where
  -- If every role group has its resources, the loop returns without an error and has added them,
  -- group by group.
  pub register_groups-ok :
      (added : List Resource) (gs : List G) (xs : List Resource)
      → collect resources gs ≡ ok xs
      → register_groups resources added gs ≡ (ok tt, added ++ xs)
  unfolding register_groups collect
  register_groups-ok added [] xs h = let same : [] ≡ xs = ok-injective h in rw (← same, append-nil)
  register_groups-ok added (g ∷ gs) xs h =
      let (x, hx, h₁) = >>=-eq-ok (resources g) _ h in
      let (y, hy, h₂) = >>=-eq-ok (collect resources gs) (λ ys. ok (x ++ ys)) h₁ in
      let same : x ++ y ≡ xs = ok-injective h₂ in
      rw hx (
        register_groups-ok (added ++ x) gs y hy
        ∙ ap (λ zs. (ok tt, zs)) (append_assoc added x y ∙ ap (λ zs. added ++ zs) same))

  -- The converse: without an error every role group has its resources.
  pub register_groups-ok_inv :
      (added : List Resource) (gs : List G) (ys : List Resource)
      → register_groups resources added gs ≡ (ok tt, ys)
      → (xs : List Resource) × (collect resources gs ≡ ok xs) × (ys ≡ added ++ xs)
  unfolding register_groups collect
  register_groups-ok_inv added [] ys h =
      ([], refl, sym (ap (λ (r : Outcome Done × List Resource). r.1) h) ∙ sym (append-nil added))
  register_groups-ok_inv added (g ∷ gs) ys h =
      elim (resources g)
          as (λ r.
            after_round r added (λ added'. register_groups resources added' gs) ≡ (ok tt, ys)
            → (xs : List Resource) × ((r >>= λ x. (collect resources gs >>= λ zs. ok (x ++ zs)))
                ≡ ok xs)
              × (ys ≡ added ++ xs)) [
                | ok x ↦ λ k.
                    let (zs, hz, e) = register_groups-ok_inv (added ++ x) gs ys k in
                    (x ++ zs, rw hz, e ∙ append_assoc added x zs)
                | err e ↦ λ k. absurd (
                    let q : err e ≡ ok tt = ap (λ (r : Outcome Done × List Resource). r.0) k in
                    cc q)
                | panic ↦ λ k. absurd (
                    let q : panic ≡ ok tt = ap (λ (r : Outcome Done × List Resource). r.0) k in
                    cc q)
              ]
        h

  round-prefix :
      (added : List Resource) (pre : List G) (g : G) (post : List G) (xs : List Resource)
      → collect resources pre ≡ ok xs
      → register_groups resources added (pre ++ g ∷ post)
        ≡ after_round (resources g) (added ++ xs) (λ added'. register_groups resources added' post)
  unfolding register_groups collect
  round-prefix added [] g post xs h = let same : [] ≡ xs = ok-injective h in rw (← same, append-nil)
  round-prefix added (f ∷ pre) g post xs h =
      let (x, hx, h₁) = >>=-eq-ok (resources f) _ h in
      let (y, hy, h₂) = >>=-eq-ok (collect resources pre) (λ ys. ok (x ++ ys)) h₁ in
      let same : x ++ y ≡ xs = ok-injective h₂ in
      rw hx (
        round-prefix (added ++ x) pre g post y hy
        ∙ ap (λ zs. after_round (resources g) zs (λ added'. register_groups resources added' post))
            (append_assoc added x y ∙ ap (λ zs. added ++ zs) same))

  -- If the role groups in front of one that gives no resources all give theirs, the loop of
  -- RegisterResources ends with the error or panic of that one, and has added exactly the
  -- resources of those in front of it.
  pub register_groups-stop :
      (added : List Resource) (pre : List G) (g : G) (post : List G) (xs : List Resource)
      → collect resources pre ≡ ok xs
      → ((rs : List Resource) → resources g ≢ ok rs)
      → register_groups resources added (pre ++ g ∷ post)
        ≡ ((resources g >>= λ rs. ok tt), added ++ xs)
  register_groups-stop added pre g post xs h n =
      round-prefix added pre g post xs h ∙ ended (resources g) n
    where
      ended :
          (r : Outcome (List Resource))
          → ((rs : List Resource) → r ≢ ok rs)
          → after_round r (added ++ xs) (λ added'. register_groups resources added' post)
            ≡ ((r >>= λ rs. ok tt), added ++ xs)
      ended (ok rs) k = absurd (k rs refl)
      ended (err e) k = refl
      ended panic k = refl

  -- If the loop of RegisterResources ends without an error in one order of the role groups, it
  -- does in every other order, and its resources are a permutation of the first ones.
  pub register_groups-order :
      (added ys : List Resource) (o o' : Order G) (gs : List G)
      → register_groups resources added (o.visit gs) ≡ (ok tt, ys)
      → (zs : List Resource) × (register_groups resources added (o'.visit gs) ≡ (ok tt, zs))
        × Permᴰ ys zs
  register_groups-order added ys o o' gs h =
      let (xs, hx, e) = register_groups-ok_inv added (o.visit gs) ys h in
      let (xs', hx', p) =
        collect-perm resources (Permᴰ.trans (o.visits gs) (Permᴰ.symm (o'.visits gs))) hx in
      (
        added ++ xs',
        register_groups-ok added (o'.visit gs) xs' hx',
        subst (λ l. Permᴰ l (added ++ xs')) (sym e) (Permᴰ.append_left added p),
      )
