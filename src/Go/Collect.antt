-- ===== src/Go/Collect.antt =====
-- Laws of the loops that gather the results of a call over a list.
use mathlib.Core.List.{Permᴰ, flat_map}
use mathlib.Core.List.Permᴰ
use mathlib.Core.Path.{subst, subst₂}
use airflow_operator.Prelude.{
  ℕ, ◌+◌, ◌*◌, ◌≤◌, arith, length, length-append, ◌≡◌, refl, ap, ◌∙◌, ◌↔◌, List, [], ◌∷◌, ◌++◌,
  append_assoc, All,
}
use airflow_operator.Go.Outcome.{Outcome, ok, collect, >>=-eq-ok, ok-injective}

swap_blocks {ℓ} : {A : Type ℓ} (x y z : List A) → Permᴰ (x ++ (y ++ z)) (y ++ (x ++ z))
swap_blocks x y z =
    subst₂ Permᴰ (append_assoc x y z) (append_assoc y x z)
      (Permᴰ.append_right z (Permᴰ.append_comm x y))

module _ {ℓ κ} {A : Type ℓ} {B : Type κ} (f : A → Outcome (List B)) where
  collect-cons :
      (a : A) (as' : List A) {xs ys : List B}
      → f a ≡ ok xs
      → collect f as' ≡ ok ys
      → collect f (a ∷ as') ≡ ok (xs ++ ys)
  unfolding collect
  collect-cons a as' p q = rw (p, q)

  collect-cons_inv :
      (a : A) (as' : List A) {zs : List B}
      → collect f (a ∷ as') ≡ ok zs
      → (xs : List B) × (ys : List B) × (f a ≡ ok xs) × (collect f as' ≡ ok ys) × (xs ++ ys ≡ zs)
  unfolding collect
  collect-cons_inv a as' h =
      let (xs, p, h₁) = >>=-eq-ok (f a) _ h in
      let (ys, q, h₂) = >>=-eq-ok (collect f as') (λ ys. ok (xs ++ ys)) h₁ in
      (xs, ys, p, q, ok-injective h₂)

  -- In another order of the list the loop gathers the same results in another order.
  pub collect-perm :
      {es es' : List A} {xs : List B}
      → Permᴰ es es'
      → collect f es ≡ ok xs
      → (ys : List B) × (collect f es' ≡ ok ys) × Permᴰ xs ys
  unfolding collect
  collect-perm {xs} Permᴰ.nil h = (xs, h, Permᴰ.refl xs)
  collect-perm (Permᴰ.cons {a} {b} {l₁} {l₂} p q) h =
      let (x, y, hx, hy, e) = collect-cons_inv a l₁ h in
      let (z, hz, r) = collect-perm q hy in
      (
        x ++ z,
        collect-cons b l₂ (rw (← p) hx) hz,
        subst (λ l'. Permᴰ l' (x ++ z)) e (Permᴰ.append_left x r),
      )
  collect-perm (Permᴰ.swap {a} {b} {a'} {b'} {l} p q) h =
      let (x, yz, hx, hyz, e) = collect-cons_inv a (b ∷ l) h in
      let (y, z, hy, hz, e') = collect-cons_inv b l hyz in
      (
        y ++ (x ++ z),
        collect-cons a' (b' ∷ l) (rw (← q) hy) (collect-cons b' l (rw (← p) hx) hz),
        subst (λ l'. Permᴰ l' (y ++ (x ++ z))) (ap (λ l'. x ++ l') e' ∙ e) (swap_blocks x y z),
      )
  collect-perm (Permᴰ.trans p q) h =
      let (ys, hy, r) = collect-perm p h in
      let (zs, hz, r') = collect-perm q hy in (zs, hz, Permᴰ.trans r r')

  -- The loop returns exactly if each call does.
  pub collect-ok_iff :
      (es : List A)
      → ((xs : List B) × (collect f es ≡ ok xs)) ↔ All (λ e. (xs : List B) × (f e ≡ ok xs)) es
  unfolding collect
  collect-ok_iff [] = (λ _. tt, λ _. ([], refl))
  collect-ok_iff (e ∷ es) = (
    λ h.
        let (x, y, hx, hy, _) = collect-cons_inv e es h.1 in
        ((x, hx), (collect-ok_iff es).0 (y, hy)),
    λ h. let (y, hy) = (collect-ok_iff es).1 h.1 in (h.0.0 ++ y, collect-cons e es h.0.1 hy),
  )

pub All-perm {ℓ κ} :
    {A : Type ℓ} (P : A → Type κ) {xs ys : List A} → Permᴰ xs ys → All P xs → All P ys
All-perm P Permᴰ.nil h = h
All-perm P (Permᴰ.cons p q) (x, h) = (rw (← p) x, All-perm P q h)
All-perm P (Permᴰ.swap p q) (x, (y, h)) = (rw (← q) y, (rw (← p) x, h))
All-perm P (Permᴰ.trans p q) h = All-perm P q (All-perm P p h)

-- The weights of the elements added up.
abbrev pub weigh {ℓ} : {A : Type ℓ} → (A → ℕ) → List A → ℕ
weigh w [] = 0
weigh w (e ∷ es) = w e + weigh w es

pub weigh-perm {ℓ} :
    {A : Type ℓ} (w : A → ℕ) {xs ys : List A} → Permᴰ xs ys → weigh w xs ≡ weigh w ys
weigh-perm w Permᴰ.nil = refl
weigh-perm w (Permᴰ.cons p q) = omega (arith, ap w p, weigh-perm w q)
weigh-perm w (Permᴰ.swap p q) = omega (arith, ap w p, ap w q)
weigh-perm w (Permᴰ.trans p q) = weigh-perm w p ∙ weigh-perm w q

-- If each call gives at most `k` results for each unit of weight, so does the loop.
pub length-collect_le {ℓ κ} :
    {A : Type ℓ} {B : Type κ} (f : A → Outcome (List B)) (w : A → ℕ) (k : ℕ)
    → ((e : A) (xs : List B) → f e ≡ ok xs → length xs ≤ k * w e)
    → (es : List A) {xs : List B} → collect f es ≡ ok xs
    → length xs ≤ k * weigh w es
unfolding collect
length-collect_le f w k bound [] h = ground (arith, ap length (ok-injective h))
length-collect_le f w k bound (e ∷ es) h =
    let (x, y, hx, hy, same) = collect-cons_inv f e es h in
    omega
      (arith, bound e x hx, length-collect_le f w k bound es hy, ap length same, length-append x y)

-- Two loops over one list whose results are related keep the relation.
pub collect-pair {ℓ κ ι} :
    {A : Type ℓ} {B C : Type κ} (f : A → Outcome (List B)) (g : A → Outcome (List C))
    (R : List B → List C → Type ι)
    → R [] []
    → ((xs xs' : List B) (ys ys' : List C) → R xs ys → R xs' ys' → R (xs ++ xs') (ys ++ ys'))
    → ((e : A) → (xs : List B) × (ys : List C) × (f e ≡ ok xs) × (g e ≡ ok ys) × R xs ys)
    → (es : List A)
    → (xs : List B) × (ys : List C) × (collect f es ≡ ok xs) × (collect g es ≡ ok ys) × R xs ys
unfolding collect
collect-pair f g R empty joined each [] = ([], [], refl, refl, empty)
collect-pair f g R empty joined each (e ∷ es) =
    let (x, y, hx, hy, r) = each e in
    let (xs, ys, hxs, hys, rs) = collect-pair f g R empty joined each es in
    (
      x ++ xs,
      y ++ ys,
      collect-cons f e es hx hxs,
      collect-cons g e es hy hys,
      joined x xs y ys r rs,
    )

-- In another order of the list, its parts come in another order.
pub flat_map-perm {ℓ κ} :
    {A : Type ℓ} {B : Type κ} (part : A → List B) {as' bs : List A}
    → Permᴰ as' bs
    → Permᴰ (flat_map part as') (flat_map part bs)
unfolding flat_map
flat_map-perm part Permᴰ.nil = Permᴰ.refl []
flat_map-perm part (Permᴰ.cons {a} {b} {l₁} {l₂} p q) =
    subst (λ c. Permᴰ (part a ++ flat_map part l₁) (part c ++ flat_map part l₂)) p
      (Permᴰ.append_left (part a) (flat_map-perm part q))
flat_map-perm part (Permᴰ.swap {a} {b} {a'} {b'} {l} p q) =
    subst₂
      (λ c d. Permᴰ (part a ++ (part b ++ flat_map part l)) (part d ++ (part c ++ flat_map part l)))
      p q (swap_blocks (part a) (part b) (flat_map part l))
flat_map-perm part (Permᴰ.trans p q) = Permᴰ.trans (flat_map-perm part p) (flat_map-perm part q)
