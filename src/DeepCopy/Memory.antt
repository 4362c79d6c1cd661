-- ===== src/DeepCopy/Memory.antt =====
-- The memory that api/v1alpha1/zz_generated.deepcopy.go copies in: cells at addresses, the actions
-- that read and allocate them, and the loops that the generated code is made of.
use airflow_operator.Prelude.{
  ℕ, zero, suc, String, ◌≡◌, Option, none, some, List, [], ◌∷◌, ◌++◌, length,
}

-- The cells in the order of their allocation: a cell's address is its place.
abbrev pub Heap : Type 0 → Type 0
Heap C = List C

-- A pointer, a slice or a map: `none` is nil. A slice is all of the array that it points to.
abbrev pub Pointer : Type 0
Pointer = Option ℕ

-- `C` has a cell for each value of `A`.
pub record Stored (C A : Type 0) : Type 0 where
  pub inj : A → C
  pub proj : C → Option A
  pub proj-inj : (a : A) → proj (inj a) ≡ some a

abbrev pub and_then : {A B : Type 0} → Option A → (A → Option B) → Option B
and_then none f = none
and_then (some a) f = f a

unfoldable pub cell_at : {C : Type 0} → Heap C → ℕ → Option C
cell_at [] i = none
cell_at (c ∷ h) zero = some c
cell_at (c ∷ h) (suc i) = cell_at h i

-- The value of type `A` at an address.
abbrev pub value_at : {C A : Type 0} ⦃s : Stored C A⦄ → Heap C → ℕ → Option A
value_at ⦃s⦄ h p = and_then (cell_at h p) s.proj

-- `none` is a fault: a pointer to no cell, or to one of another type.
abbrev pub Action : Type 0 → Type 0 → Type 0
Action C A = Heap C → Option (A × Heap C)

abbrev pub pure : {C A : Type 0} → A → Action C A
pure a h = some (a, h)

infixl 5 ◌>>=◌ ◌>>◌
abbrev pub ◌>>=◌ : {C A B : Type 0} → Action C A → (A → Action C B) → Action C B
act >>= next = λ h. and_then (act h) (λ r. next r.0 r.1)

abbrev pub ◌>>◌ : {C A B : Type 0} → Action C A → Action C B → Action C B
act >> next = act >>= λ _. next

-- `*p`
abbrev pub load : {C A : Type 0} ⦃s : Stored C A⦄ → ℕ → Action C A
load ⦃s⦄ p h = and_then (value_at ⦃s = s⦄ h p) (λ a. some (a, h))

-- `new(T)` and `make(T, n)`, with what the code puts there.
abbrev pub new : {C A : Type 0} ⦃s : Stored C A⦄ → A → Action C ℕ
new ⦃s⦄ a h = some (length h, h ++ s.inj a ∷ [])

module _ {C A : Type 0} where
  -- `if in == nil { return nil }; out := new(T); in.DeepCopyInto(out); return out`, and the same of
  -- a field: `if in.F != nil { *out = new(T); (*in).DeepCopyInto(*out) }`.
  unfoldable pub new_copy : ⦃s : Stored C A⦄ → (A → Action C A) → Pointer → Action C Pointer
  new_copy into none = pure none
  new_copy into (some p) = do in_ ← load p; out ← into in_; q ← new out; pure (some q)

  -- `for i := range *in { (*in)[i].DeepCopyInto(&(*out)[i]) }`
  unfoldable pub each : (A → Action C A) → List A → Action C (List A)
  each into [] = pure []
  each into (x ∷ xs) = do y ← into x; ys ← each into xs; pure (y ∷ ys)

  -- `*val.DeepCopy()`: the new cell is read once and left.
  unfoldable pub copy_of : ⦃s : Stored C A⦄ → (A → Action C A) → A → Action C A
  copy_of into val = do out ← into val; _ ← new out; pure out

  -- `for key, val := range *in { (*out)[key] = … }`, in the order of the range.
  unfoldable pub entries : (A → Action C A) → List (String × A) → Action C (List (String × A))
  entries into [] = pure []
  entries into ((key, val) ∷ m) = do w ← into val; rest ← entries into m; pure ((key, w) ∷ rest)

  -- `*out = *in`, then the fields `get`, which the copy `into` replaces.
  unfoldable pub fields : {F : Type 0} → (A → F) → (A → F → A) → (F → Action C F) → A → Action C A
  fields get put into in_ = do f ← into (get in_); pure (put in_ f)

infixr 60 ◌⊗◌
-- One field, then the others.
unfoldable pub ◌⊗◌ :
    {C A B : Type 0} → (A → Action C A) → (B → Action C B) → A × B → Action C (A × B)
(f ⊗ g) x = do a ← f x.0; b ← g x.1; pure (a, b)
