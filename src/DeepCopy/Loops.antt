-- ===== src/DeepCopy/Loops.antt =====
-- The actions that zz_generated.deepcopy.go is made of, copied deeply: pointers, slices, maps and
-- fields.
use mathlib.Core.Path.{subst}
use mathlib.Core.List.{append_assoc}
use airflow_operator.Prelude.{
  ℕ, zero, suc, ◌≤◌, ◌<◌, ◌≡◌, refl, sym, ap, ◌∙◌, Option, none, some, [], ◌∷◌, ◌++◌, length, arith,
  length-append, append-nil,
}
use airflow_operator.DeepCopy.Memory.{
  Heap, Action, Pointer, Stored, cell_at, value_at, and_then, new_copy, pure,
}
use airflow_operator.DeepCopy.Views.{read_pointer, read_each, read_entries, read_flat}
use airflow_operator.DeepCopy.Deep.{
  Keeps, IsStable, Copied, IsDeep, cell_at-length, Keeps-front, and_then-eq-some, and_then-some,
}

cell_at_below : {C : Type 0} (h : Heap C) (p : ℕ) {c : C} → cell_at h p ≡ some c → p < length h
unfolding cell_at
cell_at_below [] p e = cc
cell_at_below (d ∷ h) zero e = omega arith
cell_at_below (d ∷ h) (suc p) e = omega (arith, cell_at_below h p e)

module _ {C A : Type 0} ⦃s : Stored C A⦄ where
  pub value_at-IsStable :
      (h g : Heap C) (p : ℕ) {a : A} → value_at h p ≡ some a → Keeps 0 h g → value_at g p ≡ some a
  value_at-IsStable h g p e keeps =
      let c = and_then-eq-some (cell_at h p) s.proj e in
      ap (λ x. and_then x s.proj) (keeps p (omega arith) (cell_at_below h p c.1)) ∙ e

  -- The cell that was added last, in every heap that keeps it.
  pub value_at-new :
      (lo : ℕ) (h g : Heap C) (a : A)
      → lo ≤ length h
      → Keeps lo (h ++ s.inj a ∷ []) g
      → value_at g (length h) ≡ some a
  value_at-new lo h g a le keeps =
      ap (λ x. and_then x s.proj)
        (keeps (length h) le (omega (arith, length-append h (s.inj a ∷ [])))
          ∙ cell_at-length h (s.inj a))
      ∙ s.proj-inj a

-- A value without pointers is copied by the assignment.
pub flat-IsDeep : {C A W : Type 0} (view : A → W) → IsDeep {C = C} (read_flat view) pure
unfolding read_flat
flat-IsDeep view =
    (λ h g a w e _. e, λ h a w e. (a, [], ap (λ x. some (a, x)) (sym (append-nil h)), λ g _. e))

-- The heap after two allocations, and what keeps it.
pub Keeps-assoc :
    {C : Type 0} (lo : ℕ) (h one two g : Heap C)
    → Keeps lo (h ++ (one ++ two)) g
    → Keeps lo ((h ++ one) ++ two) g
Keeps-assoc lo h one two g = subst (λ x. Keeps lo x g) (sym (append_assoc h one two))

module _ {C A W : Type 0} (read : Heap C → A → Option W) where
  pub read_pointer-IsStable : ⦃s : Stored C A⦄ → IsStable read → IsStable (read_pointer read)
  unfolding read_pointer
  read_pointer-IsStable stable h g none w e keeps = e
  read_pointer-IsStable stable h g (some p) w e keeps =
      let a = and_then-eq-some (value_at h p) _ e in
      let r = and_then-eq-some (read h a.0) _ a.2 in
      and_then-some _ (value_at-IsStable h g p a.1 keeps)
        (and_then-some _ (stable h g a.0 r.0 r.1 keeps) r.2)

  pub read_each-IsStable : IsStable read → IsStable (read_each read)
  unfolding read_each
  read_each-IsStable stable h g [] w e keeps = e
  read_each-IsStable stable h g (x ∷ xs) w e keeps =
      let v = and_then-eq-some (read h x) _ e in
      let r = and_then-eq-some (read_each read h xs) _ v.2 in
      and_then-some _ (stable h g x v.0 v.1 keeps)
        (and_then-some _ (read_each-IsStable stable h g xs r.0 r.1 keeps) r.2)

  pub read_entries-IsStable : IsStable read → IsStable (read_entries read)
  unfolding read_entries
  read_entries-IsStable stable h g [] w e keeps = e
  read_entries-IsStable stable h g ((key, val) ∷ m) w e keeps =
      let v = and_then-eq-some (read h val) _ e in
      let r = and_then-eq-some (read_entries read h m) _ v.2 in
      and_then-some _ (stable h g val v.0 v.1 keeps)
        (and_then-some _ (read_entries-IsStable stable h g m r.0 r.1 keeps) r.2)

module _ {C A W : Type 0} (read : Heap C → A → Option W) (into : A → Action C A) where
  new_copy-Copied :
      ⦃s : Stored C A⦄
      → IsDeep read into
      → (h : Heap C) (p : Pointer) (w : Option W) → read_pointer read h p ≡ some w
      → Copied (read_pointer read) (new_copy into) h p w
  unfolding read_pointer new_copy
  new_copy-Copied ⦃s⦄ deep h none w e =
      (none, [], ap (λ x. some (none, x)) (sym (append-nil h)), λ g _. e)
  new_copy-Copied ⦃s⦄ deep h (some p) w e =
      let a = and_then-eq-some (value_at h p) _ e in
      let r = and_then-eq-some (read h a.0) _ a.2 in
      let c = deep.1 h a.0 r.0 r.1 in
      let cell = s.inj c.0 ∷ [] in
      (
        some (length (h ++ c.1)),
        c.1 ++ cell,
        and_then-some _ (and_then-some _ a.1 refl) (
            and_then-some _ c.2
              (ap (λ x. some (some (length (h ++ c.1)), x)) (append_assoc h c.1 cell))),
        λ g keeps.
            let kept = Keeps-assoc (length h) h c.1 cell g keeps in
            and_then-some _
              (value_at-new (length h) (h ++ c.1) g c.0 (omega (arith, length-append h c.1)) kept)
              (and_then-some _ (c.3 g (Keeps-front (length h) (h ++ c.1) cell g kept)) r.2),
      )

  pub new_copy-IsDeep :
      ⦃s : Stored C A⦄ → IsDeep read into → IsDeep (read_pointer read) (new_copy into)
  new_copy-IsDeep ⦃s⦄ deep = (read_pointer-IsStable read deep.0, new_copy-Copied ⦃s = s⦄ deep)
