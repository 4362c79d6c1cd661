-- ===== src/DeepCopy/Fields.antt =====
-- Deep copies in turn: the loops over slices and maps, and the fields of a struct.
use mathlib.Core.List.{append_assoc}
use airflow_operator.Prelude.{
  String, ◌≡◌, refl, sym, ap, ◌∙◌, Option, some, List, [], ◌∷◌, ◌++◌, length, arith, length-append,
  append-nil,
}
use airflow_operator.DeepCopy.Memory.{
  Heap, Action, Stored, new_copy, each, copy_of, entries, fields, ◌⊗◌, ◌>>=◌, pure,
}
use airflow_operator.DeepCopy.Views.{
  read_each, read_entries, read_fields, ◌⊕◌, read_slice, read_map,
}
use airflow_operator.DeepCopy.Deep.{
  Keeps, IsStable, Copied, IsDeep, Keeps-append, Keeps-front, Keeps-from, and_then-eq-some,
  and_then-some,
}
use airflow_operator.DeepCopy.Loops.{
  Keeps-assoc, read_each-IsStable, read_entries-IsStable, new_copy-IsDeep,
}

-- Two copies in turn: the second starts where the first has allocated.
module _ {C A B U W : Type 0} (first : Heap C → A → Option U) (second : Heap C → B → Option W)
    (copy : A → Action C A) (copy' : B → Action C B) where
  in_turn :
      {R : Type 0} (k : A → B → R)
      → IsDeep first copy
      → IsStable second
      → (h : Heap C) (a : A) (b : B) (u : U) (w : W)
      → ((h' : Heap C) → second h' b ≡ some w → Copied second copy' h' b w)
      → first h a ≡ some u
      → second h b ≡ some w
      → (a' : A) × (b' : B) × (news : Heap C) × ((do x ← copy a; y ← copy' b; pure (k x y)) h
          ≡ some (k a' b', h ++ news))
        × ((g : Heap C)
            → Keeps (length h) (h ++ news) g
            → (first g a' ≡ some u) × (second g b' ≡ some w))
  in_turn k deep stable h a b u w copies ea eb =
      let c = deep.1 h a u ea in
      let d = copies (h ++ c.1) (stable h (h ++ c.1) b w eb (Keeps-append h c.1)) in
      (
        c.0,
        d.0,
        c.1 ++ d.1,
        and_then-some _ c.2
            (and_then-some _ d.2 (ap (λ x. some (k c.0 d.0, x)) (append_assoc h c.1 d.1))),
        λ g keeps.
            let kept = Keeps-assoc (length h) h c.1 d.1 g keeps in
            (
              c.3 g (Keeps-front (length h) (h ++ c.1) d.1 g kept),
              d.3 g (
                  Keeps-from (length h) (length (h ++ c.1)) ((h ++ c.1) ++ d.1) g
                    (omega (arith, length-append h c.1)) kept),
            ),
      )

  pub ⊗-IsDeep : IsDeep first copy → IsDeep second copy' → IsDeep (first ⊕ second) (copy ⊗ copy')
  unfolding ◌⊗◌ ◌⊕◌
  ⊗-IsDeep deep deep' = (
    λ h g x w e keeps.
        let v = and_then-eq-some (first h x.0) _ e in
        let r = and_then-eq-some (second h x.1) _ v.2 in
        and_then-some _ (deep.0 h g x.0 v.0 v.1 keeps)
          (and_then-some _ (deep'.0 h g x.1 r.0 r.1 keeps) r.2),
    λ h x w e.
        let v = and_then-eq-some (first h x.0) _ e in
        let r = and_then-eq-some (second h x.1) _ v.2 in
        let t =
          in_turn (λ a b. (a, b)) deep deep'.0 h x.0 x.1 v.0 r.0 (λ h'. deep'.1 h' x.1 r.0) v.1
            r.1 in
        (
          (t.0, t.1),
          t.2,
          t.3,
          λ g keeps. and_then-some _ (t.4 g keeps).0 (and_then-some _ (t.4 g keeps).1 r.2),
        ),
  )

module _ {C A W : Type 0} (read : Heap C → A → Option W) (into : A → Action C A)
    (deep : IsDeep read into) where
  each-Copied :
      (h : Heap C) (xs : List A) (ws : List W)
      → read_each read h xs ≡ some ws
      → Copied (read_each read) (each into) h xs ws
  unfolding read_each each
  each-Copied h [] ws e = ([], [], ap (λ x. some ([], x)) (sym (append-nil h)), λ g _. e)
  each-Copied h (x ∷ xs) ws e =
      let v = and_then-eq-some (read h x) _ e in
      let r = and_then-eq-some (read_each read h xs) _ v.2 in
      let t =
        in_turn read (read_each read) into (each into) (λ a as'. a ∷ as') deep
          (read_each-IsStable read deep.0) h x xs v.0 r.0 (λ h'. each-Copied h' xs r.0) v.1 r.1 in
      (
        t.0 ∷ t.1,
        t.2,
        t.3,
        λ g keeps. and_then-some _ (t.4 g keeps).0 (and_then-some _ (t.4 g keeps).1 r.2),
      )

  entries-Copied :
      (h : Heap C) (m : List (String × A)) (ws : List (String × W))
      → read_entries read h m ≡ some ws
      → Copied (read_entries read) (entries into) h m ws
  unfolding read_entries entries
  entries-Copied h [] ws e = ([], [], ap (λ x. some ([], x)) (sym (append-nil h)), λ g _. e)
  entries-Copied h ((key, val) ∷ m) ws e =
      let v = and_then-eq-some (read h val) _ e in
      let r = and_then-eq-some (read_entries read h m) _ v.2 in
      let t =
        in_turn read (read_entries read) into (entries into) (λ a rest. (key, a) ∷ rest) deep
          (read_entries-IsStable read deep.0) h val m v.0 r.0 (λ h'. entries-Copied h' m r.0) v.1
          r.1 in
      (
        (key, t.0) ∷ t.1,
        t.2,
        t.3,
        λ g keeps. and_then-some _ (t.4 g keeps).0 (and_then-some _ (t.4 g keeps).1 r.2),
      )

  each-IsDeep : IsDeep (read_each read) (each into)
  each-IsDeep = (read_each-IsStable read deep.0, each-Copied)

  entries-IsDeep : IsDeep (read_entries read) (entries into)
  entries-IsDeep = (read_entries-IsStable read deep.0, entries-Copied)

  -- `*val.DeepCopy()` leaves a cell behind that nothing points to.
  pub copy_of-IsDeep : ⦃s : Stored C A⦄ → IsDeep read (copy_of into)
  unfolding copy_of
  copy_of-IsDeep ⦃s⦄ = (
    deep.0,
    λ h a w e.
        let c = deep.1 h a w e in
        let cell = s.inj c.0 ∷ [] in
        (
          c.0,
          c.1 ++ cell,
          and_then-some _ c.2 (ap (λ x. some (c.0, x)) (append_assoc h c.1 cell)),
          λ g keeps. c.3 g (
              Keeps-front (length h) (h ++ c.1) cell g (Keeps-assoc (length h) h c.1 cell g keeps)),
        ),
  )

  -- A struct whose fields `get` are copied deeply, and whose other fields hold no pointer.
  pub fields-IsDeep :
      {S X : Type 0} (get : S → A) (put : S → A → S) (make : S → W → X)
      → ((a : S) (f : A) → get (put a f) ≡ f)
      → ((a : S) (f : A) → make (put a f) ≡ make a)
      → IsDeep (read_fields get make read) (fields get put into)
  unfolding read_fields fields
  fields-IsDeep {X = X} get put make get-put make-put = (
    λ h g a w e keeps.
        let v = and_then-eq-some (read h (get a)) _ e in
        and_then-some _ (deep.0 h g (get a) v.0 v.1 keeps) v.2,
    λ h a w e.
        let v = and_then-eq-some (read h (get a)) _ e in
        let c = deep.1 h (get a) v.0 v.1 in
        (
          put a c.0,
          c.1,
          and_then-some _ c.2 refl,
          λ g keeps.
              and_then-some _ (ap (read g) (get-put a c.0) ∙ c.3 g keeps)
                (ap (λ (f : W → X). some (f v.0)) (make-put a c.0) ∙ v.2),
        ),
  )

module _ {C A W : Type 0} (read : Heap C → A → Option W) (into : A → Action C A)
    (deep : IsDeep read into) where
  pub slice-IsDeep : ⦃s : Stored C (List A)⦄ → IsDeep (read_slice read) (new_copy (each into))
  unfolding read_slice
  slice-IsDeep ⦃s⦄ = new_copy-IsDeep (read_each read) (each into) (each-IsDeep read into deep)

  pub map-IsDeep :
      ⦃s : Stored C (List (String × A))⦄ → IsDeep (read_map read) (new_copy (entries into))
  unfolding read_map
  map-IsDeep ⦃s⦄ =
      new_copy-IsDeep (read_entries read) (entries into) (entries-IsDeep read into deep)
