-- ===== src/Go/Decimal.antt =====
-- Reading a number back from the text that `strconv.Itoa` writes.
use Prim.Native.Char.{Char, code}
use Prim.Native.String
use Prim.Native.String.append
use text.Mathlib.TextLemmas.{append-nil}
use airflow_operator.Prelude.{
  ℕ, zero, suc, ◌+◌, ◌-◌, ◌*◌, ◌/◌, ◌%◌, ◌≤◌, ◌<◌, String, ◌≡◌, ap, ◌∙◌, Option, none, some, [],
  ◌∷◌, arith, ltb, not, Bool-cases, inl, inr, ◌&&◌, get_or, if◌then◌else◌,
}
use airflow_operator.Go.Text.{pos, concat, itoa, digit_names, decimal}

-- One more digit behind those that were read.
abbrev pub shifted : Option ℕ → ℕ → ℕ
shifted none d = d
shifted (some n) d = n * 10 + d

-- The digits of a text behind those that were read; any other character is refused.
unfoldable pub digits : Option ℕ → String → Option ℕ
digits read String.[] = read
digits read (String.◌∷◌ c s) =
    if not (ltb (code c) 48) && ltb (code c) 58
    then digits (some (shifted read (code c - 48))) s
    else none

-- A number in decimal, with at least one digit.
abbrev pub read_decimal : String → Option ℕ
read_decimal = digits none

-- A text of one character in front of another text.
one_character :
    (c : Char) (tail : String) → concat (String.◌∷◌ c "" ∷ tail ∷ []) ≡ String.◌∷◌ c tail
one_character c tail =
    append.cons c "" (String.◌++◌ tail "")
    ∙ ap (String.◌∷◌ c) (append.nil (String.◌++◌ tail "") ∙ append-nil tail)

digits-digit :
    (read : Option ℕ) (d : ℕ) (tail : String)
    → d < 10
    → digits read (concat (get_or digit_names d "" ∷ tail ∷ []))
      ≡ digits (some (shifted read d)) tail
unfolding digits
digits-digit read zero tail l = ap (digits read) (one_character "0" tail)
digits-digit read (suc zero) tail l = ap (digits read) (one_character "1" tail)
digits-digit read (suc (suc zero)) tail l = ap (digits read) (one_character "2" tail)
digits-digit read (suc (suc (suc zero))) tail l = ap (digits read) (one_character "3" tail)
digits-digit read (suc (suc (suc (suc zero)))) tail l = ap (digits read) (one_character "4" tail)
digits-digit read (suc (suc (suc (suc (suc zero))))) tail l =
    ap (digits read) (one_character "5" tail)
digits-digit read (suc (suc (suc (suc (suc (suc zero)))))) tail l =
    ap (digits read) (one_character "6" tail)
digits-digit read (suc (suc (suc (suc (suc (suc (suc zero))))))) tail l =
    ap (digits read) (one_character "7" tail)
digits-digit read (suc (suc (suc (suc (suc (suc (suc (suc zero)))))))) tail l =
    ap (digits read) (one_character "8" tail)
digits-digit read (suc (suc (suc (suc (suc (suc (suc (suc (suc zero))))))))) tail l =
    ap (digits read) (one_character "9" tail)
digits-digit read (suc (suc (suc (suc (suc (suc (suc (suc (suc (suc d)))))))))) tail l =
    absurd (omega arith)

-- What `decimal` writes in front of a text is read as the number.
decimal-digits :
    (fuel n : ℕ) (tail : String)
    → n ≤ fuel
    → digits none (decimal fuel n tail) ≡ digits (some n) tail
unfolding decimal
decimal-digits zero n tail le =
    digits-digit none (n % 10) tail (omega arith) ∙ ap (λ k. digits (some k) tail) (omega arith)
decimal-digits (suc fuel) n tail le = elim (Bool-cases (ltb n 10)) [
  | inl e ↦
      let small : n < 10 = ground arith in
      rw e (
        digits-digit none (n % 10) tail (omega arith)
        ∙ ap (λ k. digits (some k) tail) (omega arith))
  | inr e ↦
      let large : 10 ≤ n = ground arith in
      rw e (
        decimal-digits fuel (n / 10) _ (omega arith)
        ∙ digits-digit (some (n / 10)) (n % 10) tail (omega arith)
        ∙ ap (λ k. digits (some k) tail) (omega arith))
]

-- Itoa and back.
pub read_decimal-itoa : (n : ℕ) → read_decimal (itoa (pos n)) ≡ some n
unfolding itoa digits
read_decimal-itoa n = decimal-digits n n "" (omega arith)
