-- ===== src/Go/Map/Laws.antt =====
-- What a map holds after a write or a copy, and that a lookup does not depend on the order.
use mathlib.Core.List.{Permᴰ}
use airflow_operator.Prelude.{
  ◌≡◌, ◌≢◌, refl, sym, ap, ◌∙◌, true, Bool-cases, inl, inr, Option, none, some, List, [], ◌∷◌,
  arith, if◌then◌else◌,
}
use airflow_operator.Go.Map.Defs.{Key, lookup, insert, copy, DistinctKeys}

-- `a` if there is one, or `b`.
abbrev pub or_else {ℓ} : {A : Type ℓ} → Option A → Option A → Option A
or_else none b = b
or_else (some a) b = some a

pub beq_refl : {K : Type 0} ⦃e : Key K⦄ (k : K) → e.beq k k ≡ true
beq_refl ⦃e⦄ k = (e.beq_iff k k).1 refl

module _ {ℓ} {K : Type 0} {V : Type ℓ} ⦃e : Key K⦄ where
  pub lookup-insert :
      (written asked : K) (v : V) (m : List (K × V))
      → lookup asked (insert written v m) ≡ (if e.beq written asked then some v else lookup asked m)
  unfolding lookup insert
  lookup-insert written asked v [] = refl
  lookup-insert written asked v ((first, w) ∷ m) = ground (
    arith,
    e.beq_iff written asked,
    e.beq_iff first written,
    e.beq_iff first asked,
    lookup-insert written asked v m,
  )

  pub lookup-insert_ne :
      (k j : K) (v : V) (m : List (K × V)) → k ≢ j → lookup j (insert k v m) ≡ lookup j m
  lookup-insert_ne k j v m n = ground (arith, lookup-insert k j v m, e.beq_iff k j)

  pub insert-DistinctKeys :
      (k : K) (v : V) (m : List (K × V)) → DistinctKeys m → DistinctKeys (insert k v m)
  unfolding lookup insert
  insert-DistinctKeys k v [] h = (refl, tt)
  insert-DistinctKeys k v ((j, w) ∷ m) (fresh, h) = elim (Bool-cases (e.beq j k)) [
    | inl same ↦ rw same (rw ((e.beq_iff j k).0 same) at fresh, h)
    | inr other ↦ rw other (
      ground (arith, lookup-insert k j v m, e.beq_iff k j, e.beq_iff j k),
      insert-DistinctKeys k v m h,
    )
  ]

  pub lookup-copy :
      (k : K) (dst src : List (K × V))
      → DistinctKeys src
      → lookup k (copy dst src) ≡ or_else (lookup k src) (lookup k dst)
  unfolding copy lookup
  lookup-copy k dst [] h = refl
  lookup-copy k dst ((j, v) ∷ src) (fresh, h) =
      ground (arith, lookup-copy k (insert j v dst) src h, lookup-insert j k v dst, e.beq_iff j k)

  lookup-cons :
      (k : K) (a b : K × V) (xs ys : List (K × V))
      → a ≡ b
      → lookup k xs ≡ lookup k ys
      → lookup k (a ∷ xs) ≡ lookup k (b ∷ ys)
  unfolding lookup
  lookup-cons k a b xs ys p h =
      rw h (ap (λ (c : K × V). if e.beq c.0 k then some c.1 else lookup k ys) p)

  lookup-swap :
      (k : K) (a b : K × V) (xs : List (K × V))
      → lookup a.0 (b ∷ xs) ≡ none
      → lookup k (a ∷ b ∷ xs) ≡ lookup k (b ∷ a ∷ xs)
  unfolding lookup
  lookup-swap k a b xs fresh = ground (arith, e.beq_iff a.0 k, e.beq_iff b.0 k, e.beq_iff b.0 a.0)

  DistinctKeys-swap :
      (a b : K × V) (xs : List (K × V)) → DistinctKeys (a ∷ b ∷ xs) → DistinctKeys (b ∷ a ∷ xs)
  unfolding lookup
  DistinctKeys-swap a b xs (fa, (fb, h)) =
      (ground (arith, e.beq_iff a.0 b.0, e.beq_iff b.0 a.0), (ground arith, h))

  perm_laws :
      {xs ys : List (K × V)}
      → Permᴰ xs ys
      → DistinctKeys xs
      → ((k : K) → lookup k xs ≡ lookup k ys) × DistinctKeys ys
  perm_laws Permᴰ.nil h = (λ k. refl, tt)
  perm_laws (Permᴰ.cons {a} {b} {l₁} {l₂} p q) (fresh, h) =
      let (same, h') = perm_laws q h in
      (
        λ k. lookup-cons k a b l₁ l₂ p (same k),
        (sym (same b.0) ∙ ap (λ (c : K × V). lookup c.0 l₁) (sym p) ∙ fresh, h'),
      )
  perm_laws (Permᴰ.swap {a} {b} {a'} {b'} {l} p q) h =
      rw (← p, ← q) (λ k. lookup-swap k a b l h.0, DistinctKeys-swap a b l h)
  perm_laws (Permᴰ.trans p q) h =
      let (same₁, h₁) = perm_laws p h in
      let (same₂, h₂) = perm_laws q h₁ in (λ k. same₁ k ∙ same₂ k, h₂)

  pub perm-DistinctKeys : {xs ys : List (K × V)} → Permᴰ xs ys → DistinctKeys xs → DistinctKeys ys
  perm-DistinctKeys p h = (perm_laws p h).1

  -- A lookup gives the same in every order of the entries.
  pub lookup-perm :
      {xs ys : List (K × V)} (k : K) → Permᴰ xs ys → DistinctKeys xs → lookup k xs ≡ lookup k ys
  lookup-perm k p h = (perm_laws p h).0 k
