-- ===== src/DeepCopy/Views.antt =====
-- What a value in the memory stands for: the value with every pointer in it followed. No code of the
-- repository is modelled here; its memory is that of the Go values of the custom resource.
use airflow_operator.Prelude.{String, Option, none, some, List, [], ◌∷◌}
use airflow_operator.DeepCopy.Memory.{Heap, Pointer, Stored, value_at, and_then}

module _ {C A W : Type 0} where
  -- The value behind a pointer.
  unfoldable pub read_pointer :
      ⦃s : Stored C A⦄ → (Heap C → A → Option W) → Heap C → Pointer → Option (Option W)
  read_pointer read h none = some none
  read_pointer read h (some p) =
      and_then (value_at h p) (λ a. and_then (read h a) (λ w. some (some w)))

  unfoldable pub read_each : (Heap C → A → Option W) → Heap C → List A → Option (List W)
  read_each read h [] = some []
  read_each read h (x ∷ xs) =
      and_then (read h x) (λ w. and_then (read_each read h xs) (λ ws. some (w ∷ ws)))

  unfoldable pub read_entries :
      (Heap C → A → Option W) → Heap C → List (String × A) → Option (List (String × W))
  read_entries read h [] = some []
  read_entries read h ((key, val) ∷ m) =
      and_then (read h val) (λ w. and_then (read_entries read h m) (λ ws. some ((key, w) ∷ ws)))

  -- A value that holds no pointer.
  unfoldable pub read_flat : (A → W) → Heap C → A → Option W
  read_flat view h a = some (view a)

  -- The fields `get` are read, and `make` adds the others.
  unfoldable pub read_fields :
      {F G : Type 0} → (A → F) → (A → G → W) → (Heap C → F → Option G) → Heap C → A → Option W
  read_fields get make read h a = and_then (read h (get a)) (λ g. some (make a g))

infixr 60 ◌⊕◌
-- One field, then the others.
unfoldable pub ◌⊕◌ :
    {C A B U W : Type 0}
    → (Heap C → A → Option U)
    → (Heap C → B → Option W)
    → Heap C
    → A × B
    → Option (U × W)
(f ⊕ g) h x = and_then (f h x.0) (λ v. and_then (g h x.1) (λ w. some (v, w)))

module _ {C A W : Type 0} where
  -- The elements of a slice.
  unfoldable pub read_slice :
      ⦃s : Stored C (List A)⦄
      → (Heap C → A → Option W)
      → Heap C
      → Pointer
      → Option (Option (List W))
  read_slice read = read_pointer (read_each read)

  -- The entries of a map.
  unfoldable pub read_map :
      ⦃s : Stored C (List (String × A))⦄
      → (Heap C → A → Option W)
      → Heap C
      → Pointer
      → Option (Option (List (String × W)))
  read_map read = read_pointer (read_entries read)
