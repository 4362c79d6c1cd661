-- ===== src/Go/Text.antt =====
-- Text as the operator builds it: concatenation, `strings.Join`, `strconv.Itoa`,
-- `strconv.FormatBool`.
use Prim.Native.String
use airflow_operator.Prelude.{
  arith, ◌≤◌, Bool-cases, inl, inr, ℕ, zero, suc, ◌+◌, ◌/◌, ◌%◌, String, ◌≡◌, refl, Bool, true,
  false, List, [], ◌∷◌, ltb, get_or, if◌then◌else◌,
}

-- `a + b + …`
abbrev pub concat : List String → String
concat [] = ""
concat (s ∷ ss) = String.◌++◌ s (concat ss)

-- `strings.Join(ss, sep)`
unfoldable pub join : String → List String → String
join sep [] = ""
join sep (s ∷ []) = s
join sep (s ∷ t ∷ ss) = concat (s ∷ sep ∷ join sep (t ∷ ss) ∷ [])

-- A Go `int`; `negsuc n` is -(n + 1).
pub data ℤ : Type 0 where
  pos : ℕ → ℤ
  negsuc : ℕ → ℤ

abbrev pub digit_names : List String
digit_names = "0" ∷ "1" ∷ "2" ∷ "3" ∷ "4" ∷ "5" ∷ "6" ∷ "7" ∷ "8" ∷ "9" ∷ []

-- The digits of `n` in front of `tail`; `n` rounds are enough, since each divides by ten.
unfoldable pub decimal : ℕ → ℕ → String → String
decimal zero n tail = concat (get_or digit_names (n % 10) "" ∷ tail ∷ [])
decimal (suc fuel) n tail =
    let out = concat (get_or digit_names (n % 10) "" ∷ tail ∷ []) in
    let more = decimal fuel (n / 10) out in if ltb n 10 then out else more

-- `strconv.Itoa`, and the verb `%d` of `fmt.Sprintf`.
unfoldable pub itoa : ℤ → String
unfolding decimal
itoa (pos n) = decimal n n ""
itoa (negsuc n) = concat ("-" ∷ decimal (n + 1) (n + 1) "" ∷ [])

-- Any two amounts of fuel that are not below the number give the same digits.
decimal-enough :
    (fuel more n : ℕ) (tail : String)
    → n ≤ fuel
    → n ≤ more
    → decimal fuel n tail ≡ decimal more n tail
unfolding decimal
decimal-enough zero zero n tail h k = refl
decimal-enough zero (suc more) n tail h k = let small : ltb n 10 ≡ true = ground arith in rw small
decimal-enough (suc fuel) zero n tail h k = let small : ltb n 10 ≡ true = ground arith in rw small
decimal-enough (suc fuel) (suc more) n tail h k = elim (Bool-cases (ltb n 10)) [
  | inl e ↦ rw e
  | inr e ↦
      let large : 10 ≤ n = ground arith in
      rw e (decimal-enough fuel more (n / 10) _ (omega arith) (omega arith))
]

-- `strconv.FormatBool`
abbrev pub format_bool : Bool → String
format_bool true = "true"
format_bool false = "false"

itoa_values : (itoa (pos 0) ≡ "0") × (itoa (pos 9102) ≡ "9102") × (itoa (negsuc 11) ≡ "-12")
unfolding itoa
itoa_values = (refl, refl, refl)

join_values : (join ":" [] ≡ "") × (join ":" ("a" ∷ "b" ∷ "c" ∷ []) ≡ "a:b:c")
unfolding join
join_values = (refl, refl)
