-- ===== src/DeepCopy/Deep.antt =====
-- Deep copies of zz_generated.deepcopy.go, described without their code: what a copy allocates, and
-- which cells it and the original depend on.
use airflow_operator.Prelude.{
  ℕ, zero, suc, ◌≤◌, ◌<◌, ◌≡◌, refl, ap, ◌∙◌, Option, none, some, [], ◌∷◌, ◌++◌, length, arith,
  length-append,
}
use airflow_operator.DeepCopy.Memory.{Heap, Action, cell_at, and_then}

-- `g` has the cells of `h` from the address `lo` on.
abbrev pub Keeps : {C : Type 0} → ℕ → Heap C → Heap C → Type 0
Keeps lo h g = (i : ℕ) → lo ≤ i → i < length h → cell_at g i ≡ cell_at h i

module _ {C A W : Type 0} where
  -- What is read depends on the cells of `h` only, and on none that is allocated later.
  abbrev pub IsStable : (Heap C → A → Option W) → Type 0
  IsStable read =
      (h g : Heap C) (a : A) (w : W) → read h a ≡ some w → Keeps 0 h g → read g a ≡ some w

  -- The copy returns, it only adds cells, and what it returns reads as `w` by the new cells alone.
  abbrev pub Copied : (Heap C → A → Option W) → (A → Action C A) → Heap C → A → W → Type 0
  Copied read copy h a w =
      (b : A) × (news : Heap C) × (copy a h ≡ some (b, h ++ news))
      × ((g : Heap C) → Keeps (length h) (h ++ news) g → read g b ≡ some w)

  abbrev pub IsDeep : (Heap C → A → Option W) → (A → Action C A) → Type 0
  IsDeep read copy =
      IsStable read × ((h : Heap C) (a : A) (w : W) → read h a ≡ some w → Copied read copy h a w)

module _ {C : Type 0} where
  pub cell_at-append :
      (h news : Heap C) (i : ℕ) → i < length h → cell_at (h ++ news) i ≡ cell_at h i
  unfolding cell_at
  cell_at-append [] news i l = absurd (omega arith)
  cell_at-append (c ∷ h) news zero l = refl
  cell_at-append (c ∷ h) news (suc i) l = cell_at-append h news i (omega arith)

  pub cell_at-length : (h : Heap C) (c : C) → cell_at (h ++ c ∷ []) (length h) ≡ some c
  unfolding cell_at
  cell_at-length [] c = refl
  cell_at-length (d ∷ h) c = cell_at-length h c

  pub Keeps-append : (h news : Heap C) → Keeps 0 h (h ++ news)
  Keeps-append h news i _ l = cell_at-append h news i l

  -- What keeps a heap keeps the heap that it grew from.
  pub Keeps-front : (lo : ℕ) (h news g : Heap C) → Keeps lo (h ++ news) g → Keeps lo h g
  Keeps-front lo h news g keeps i from below =
      keeps i from (omega (arith, length-append h news)) ∙ cell_at-append h news i below

  pub Keeps-from : (lo hi : ℕ) (h g : Heap C) → lo ≤ hi → Keeps lo h g → Keeps hi h g
  Keeps-from lo hi h g le keeps i from below = keeps i (omega arith) below

-- A chain of readings gives a value only if each does.
pub and_then-eq-some :
    {A B : Type 0} (first : Option A) (next : A → Option B) {b : B}
    → and_then first next ≡ some b
    → (a : A) × (first ≡ some a) × (next a ≡ some b)
and_then-eq-some none next e = cc
and_then-eq-some (some a) next e = (a, refl, e)

-- The rest of a chain, once its first part has given a value.
pub and_then-some :
    {A B : Type 0} {first : Option A} (next : A → Option B) {a : A} {r : Option B}
    → first ≡ some a
    → next a ≡ r
    → and_then first next ≡ r
and_then-some next e rest = ap (λ x. and_then x next) e ∙ rest
