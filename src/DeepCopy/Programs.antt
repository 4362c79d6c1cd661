-- ===== src/DeepCopy/Programs.antt =====
-- What a program does to the memory after a copy of zz_generated.deepcopy.go: it writes cells that it
-- may write and allocates new ones.
use airflow_operator.Prelude.{
  ℕ, zero, suc, ◌≤◌, ◌<◌, ◌≡◌, refl, sym, ap, ◌∙◌, ◌≢◌, [], ◌∷◌, ◌++◌, length, arith, length-append,
}
use mathlib.Core.Path.{subst}
use airflow_operator.DeepCopy.Memory.{Heap, cell_at}
use airflow_operator.DeepCopy.Deep.{cell_at-append}

-- `*p = c`
unfoldable pub write : {C : Type 0} → ℕ → C → Heap C → Heap C
write i c [] = []
write zero c (d ∷ h) = c ∷ h
write (suc i) c (d ∷ h) = d ∷ write i c h

-- The heaps that a program can reach which writes only at the addresses `MayWrite`.
pub data Reaches {C : Type 0} (MayWrite : ℕ → Type 0) : Heap C → Heap C → Type 0 where
  stays : (h : Heap C) → Reaches MayWrite h h
  writes :
      (h g : Heap C) (i : ℕ) (c : C)
      → MayWrite i
      → Reaches MayWrite (write i c h) g
      → Reaches MayWrite h g
  allocates : (h g : Heap C) (c : C) → Reaches MayWrite (h ++ c ∷ []) g → Reaches MayWrite h g

module _ {C : Type 0} where
  pub Reaches-weaken :
      (MayWrite MayWrite' : ℕ → Type 0) (h g : Heap C)
      → ((i : ℕ) → MayWrite i → MayWrite' i)
      → Reaches MayWrite h g
      → Reaches MayWrite' h g
  Reaches-weaken MayWrite MayWrite' _ _ weaker (stays h) = stays h
  Reaches-weaken MayWrite MayWrite' _ _ weaker (writes h g i c may run) =
      writes h g i c (weaker i may) (Reaches-weaken MayWrite MayWrite' (write i c h) g weaker run)
  Reaches-weaken MayWrite MayWrite' _ _ weaker (allocates h g c run) =
      allocates h g c (Reaches-weaken MayWrite MayWrite' (h ++ c ∷ []) g weaker run)

  length-write : (i : ℕ) (c : C) (h : Heap C) → length (write i c h) ≡ length h
  unfolding write
  length-write i c [] = refl
  length-write zero c (d ∷ h) = refl
  length-write (suc i) c (d ∷ h) = ap suc (length-write i c h)

  cell_at-write : (i j : ℕ) (c : C) (h : Heap C) → j ≢ i → cell_at (write i c h) j ≡ cell_at h j
  unfolding write cell_at
  cell_at-write i j c [] apart = refl
  cell_at-write zero zero c (d ∷ h) apart = absurd (apart refl)
  cell_at-write zero (suc j) c (d ∷ h) apart = refl
  cell_at-write (suc i) zero c (d ∷ h) apart = refl
  cell_at-write (suc i) (suc j) c (d ∷ h) apart = cell_at-write i j c h (λ e. apart (ap suc e))

  -- Cells from `lo` to `hi` that no program may write are kept.
  pub Reaches-kept :
      (MayWrite : ℕ → Type 0) (lo hi : ℕ) (h g : Heap C)
      → Reaches MayWrite h g
      → ((i : ℕ) → lo ≤ i → i < hi → ¬ MayWrite i)
      → (i : ℕ) → lo ≤ i
      → i < hi
      → hi ≤ length h
      → cell_at g i ≡ cell_at h i
  Reaches-kept MayWrite lo hi _ _ (stays h) safe i from below inside = refl
  Reaches-kept MayWrite lo hi _ _ (writes h g j c may run) safe i from below inside =
      Reaches-kept MayWrite lo hi (write j c h) g run safe i from below
        (omega (arith, length-write j c h))
      ∙ cell_at-write j i c h (λ e. safe i from below (subst MayWrite (sym e) may))
  Reaches-kept MayWrite lo hi _ _ (allocates h g c run) safe i from below inside =
      Reaches-kept MayWrite lo hi (h ++ c ∷ []) g run safe i from below
        (omega (arith, length-append h (c ∷ [])))
      ∙ cell_at-append h (c ∷ []) i (omega arith)
