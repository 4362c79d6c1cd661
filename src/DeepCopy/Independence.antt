-- ===== src/DeepCopy/Independence.antt =====
-- api/v1alpha1/zz_generated.deepcopy.go: a copy and its original have no cell in common, whatever a
-- program does to either.
use airflow_operator.Prelude.{
  ◌≢◌, ℕ, ◌≤◌, ◌<◌, ◌⊎◌, inl, inr, ◌≡◌, refl, sym, ap, ◌∙◌, Option, some, ◌++◌, length, arith,
  length-append,
}
use mathlib.Core.Path.{subst}
use native.Mathlib.Decide.{dec_lt}
use airflow_operator.DeepCopy.Memory.{Heap, Action, cell_at}
use airflow_operator.DeepCopy.Deep.{Keeps, IsDeep, Keeps-append}
use airflow_operator.DeepCopy.Programs.{Reaches, stays, writes, write, Reaches-weaken, Reaches-kept}

-- The addresses that are not the copy's: those that were there before it, and those allocated after.
abbrev pub OutsideCopy : {C : Type 0} → Heap C → Heap C → ℕ → Type 0
OutsideCopy before after i = (i < length before) ⊎ (length after ≤ i)

-- The addresses that were not there before the copy.
abbrev pub SinceCopy : {C : Type 0} → Heap C → ℕ → Type 0
SinceCopy before i = length before ≤ i

-- The addresses whose cell decides what a pointer reads as: some content changes that it reads as
-- the value.
abbrev pub Decides :
    {C A W : Type 0} (read : Heap C → A → Option W) (h : Heap C) (a : A) (w : W) → ℕ → Type 0
Decides {C} read h a w i = (c : C) × (read (write i c h) a ≢ some w)

-- The addresses that decide what the copy reads as, and those allocated after it.
abbrev pub ThroughCopy :
    {C A W : Type 0} (read : Heap C → A → Option W) (h : Heap C) (a : A) (w : W) → ℕ → Type 0
ThroughCopy read h a w i = Decides read h a w i ⊎ (length h ≤ i)

-- What a call returns is what it returns.
same_result :
    {A B : Type 0} {x : Option (A × B)} (a a' : A) (b b' : B)
    → x ≡ some (a, b)
    → x ≡ some (a', b')
    → (a ≡ a') × (b ≡ b')
same_result a a' b b' e e' = (cc, cc)

module _ {C A W : Type 0} (read : Heap C → A → Option W) (copy : A → Action C A)
    (deep : IsDeep read copy) where
  pub returns :
      (h : Heap C) (a : A) (w : W)
      → read h a ≡ some w
      → (b : A) × (news : Heap C) × (copy a h ≡ some (b, h ++ news))
        × (read (h ++ news) b ≡ some w)
        × (read (h ++ news) a ≡ some w)
  returns h a w e =
      let c = deep.1 h a w e in
      (
        c.0,
        c.1,
        c.2,
        c.3 (h ++ c.1) (λ i _ _. refl),
        deep.0 h (h ++ c.1) a w e (Keeps-append h c.1),
      )

  pub isolated :
      (h h' g : Heap C) (a b : A) (w : W)
      → read h a ≡ some w
      → copy a h ≡ some (b, h')
      → Reaches (OutsideCopy h h') h' g
      → read g b ≡ some w
  isolated h h' g a b w e ran run =
      let c = deep.1 h a w e in
      let same = same_result c.0 b (h ++ c.1) h' c.2 ran in
      let kept : Keeps (length h) h' g = λ i from below.
        Reaches-kept (OutsideCopy h h') (length h) (length h') h' g run
          (λ j from' below' out. elim out [
            | inl old ↦ absurd (omega arith)
            | inr later ↦ absurd (omega arith)
          ])
          i from below (omega arith) in
      ap (read g) (sym same.0) ∙ c.3 g (subst (λ x. Keeps (length h) x g) (sym same.1) kept)

  since :
      (h h' g : Heap C) (a b : A) (w : W)
      → read h a ≡ some w
      → copy a h ≡ some (b, h')
      → Reaches (SinceCopy h) h' g
      → read g a ≡ some w
  since h h' g a b w e ran run =
      let c = deep.1 h a w e in
      let same = same_result c.0 b (h ++ c.1) h' c.2 ran in
      deep.0 h g a w e (λ i _ below.
        Reaches-kept (SinceCopy h) 0 (length h) h' g run (λ j _ below' late. absurd (omega arith)) i
          (omega arith) below (omega (arith, length-append h c.1, ap length same.1))
        ∙ ap (λ x. cell_at x i) (sym same.1)
        ∙ Keeps-append h c.1 i (omega arith) below)

  -- A cell that decides the copy was not there before it.
  ThroughCopy-SinceCopy :
      (h h' : Heap C) (a b : A) (w : W)
      → read h a ≡ some w
      → copy a h ≡ some (b, h')
      → (i : ℕ) → ThroughCopy read h' b w i
      → SinceCopy h i
  ThroughCopy-SinceCopy h h' a b w e ran i (inl (c, differs)) = elim (dec_lt i (length h)) [
    | yes old ↦
        absurd
          (differs (isolated h h' (write i c h') a b w e ran (writes h' _ i c (inl old) (stays _))))
    | no new ↦ omega arith
  ]
  ThroughCopy-SinceCopy h h' a b w e ran i (inr late) =
      let c = deep.1 h a w e in
      let same = same_result c.0 b (h ++ c.1) h' c.2 ran in
      omega (arith, length-append h c.1, ap length same.1)

  pub untouched :
      (h h' g : Heap C) (a b : A) (w : W)
      → read h a ≡ some w
      → copy a h ≡ some (b, h')
      → Reaches (ThroughCopy read h' b w) h' g
      → read g a ≡ some w
  untouched h h' g a b w e ran run = since h h' g a b w e ran (
      Reaches-weaken (ThroughCopy read h' b w) (SinceCopy h) h' g
        (ThroughCopy-SinceCopy h h' a b w e ran) run)
