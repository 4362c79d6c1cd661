-- ===== src/Go/Map/Defs.antt =====
-- A Go map as the list of its entries, with the operations that the operator uses.
use mathlib.Core.List.{Permᴰ}
use airflow_operator.Prelude.{
  String, ◌≡◌, ◌↔◌, Bool, true, false, Option, none, some, List, [], ◌∷◌, ◌==◌ as str_eq, eq_iff,
  if◌then◌else◌,
}

-- Keys that `==` compares.
pub record Key {ℓ} (K : Type ℓ) : Type ℓ where
  pub beq : K → K → Bool
  pub beq_iff : (a b : K) → (beq a b ≡ true) ↔ (a ≡ b)

instance abbrev pub string_key : Key String
string_key = record { beq = str_eq; beq_iff = eq_iff }

-- `k` is one of the keys `ks`.
abbrev pub occurs : {K : Type 0} ⦃e : Key K⦄ → K → List K → Bool
occurs ⦃e⦄ k [] = false
occurs ⦃e⦄ k (j ∷ ks) = if e.beq j k then true else occurs ⦃e = e⦄ k ks

module _ {ℓ} {K : Type 0} {V : Type ℓ} ⦃e : Key K⦄ where
  -- `m[k]`, with the test of presence.
  unfoldable pub lookup : K → List (K × V) → Option V
  lookup k [] = none
  lookup k ((j, v) ∷ m) = if e.beq j k then some v else lookup k m

  -- `m[k] = v`
  unfoldable pub insert : K → V → List (K × V) → List (K × V)
  insert k v [] = (k, v) ∷ []
  insert k v ((j, w) ∷ m) = if e.beq j k then (k, v) ∷ m else (j, w) ∷ insert k v m

  -- `maps.Copy(dst, src)`, the entries of `src` in the order of the range.
  unfoldable pub copy : List (K × V) → List (K × V) → List (K × V)
  copy dst [] = dst
  copy dst ((k, v) ∷ src) = copy (insert k v dst) src

  -- No key stands twice, as in every Go map.
  abbrev pub DistinctKeys : List (K × V) → Type ℓ
  DistinctKeys [] = Unit
  DistinctKeys ((k, v) ∷ m) = (lookup k m ≡ none) × DistinctKeys m

-- The order in which one `range` visits the entries of a map: any permutation of them.
pub record Order {ℓ} (A : Type ℓ) : Type ℓ where
  pub visit : List A → List A
  pub visits : (xs : List A) → Permᴰ (visit xs) xs
