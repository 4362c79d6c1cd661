-- ===== src/Go/JsonReader.antt =====
-- JSON read back, described without the code that writes it: the quoted texts and the marks between
-- them, character by character.
use Prim.Native.Char.{code}
use airflow_operator.Prelude.{
  ℕ, zero, suc, ◌+◌, ◌-◌, ◌*◌, ◌<◌, String, ◌≡◌, refl, ◌&&◌, ◌||◌, Option, none, some, List, [],
  ◌∷◌, ltb, nat_eq, not, arith, if◌then◌else◌,
}
use airflow_operator.Go.Json.{hex_digit}

-- A quoted text by its code points, or another character.
pub data Token : Type 0 where
  text : List ℕ → Token
  mark : ℕ → Token

-- Between the texts, inside one, behind a backslash, and within the four digits of `\u`: how many
-- follow the next one, and the value of those that were read.
pub data State : Type 0 where
  outside inside behind_backslash : State
  within_unicode : ℕ → ℕ → State

pub data Move : Type 0 where
  go : State → Move
  emit : ℕ → Move
  close : Move
  emit_mark : ℕ → Move
  refuse : Move

-- The value of a hexadecimal digit.
unfoldable pub hex_value : ℕ → Option ℕ
hex_value n =
    if not (ltb n 48) && ltb n 58
    then some (n - 48)
    else if not (ltb n 97) && ltb n 103
    then some (n - 87)
    else none

abbrev pub digit_move : ℕ → ℕ → Option ℕ → Move
digit_move more acc none = refuse
digit_move zero acc (some d) = emit (acc * 16 + d)
digit_move (suc more) acc (some d) = go (within_unicode more (acc * 16 + d))

unfoldable pub move : State → ℕ → Move
move outside n = if nat_eq n 34 then go inside else emit_mark n
move inside n = if nat_eq n 34 then close else if nat_eq n 92 then go behind_backslash else emit n
move behind_backslash n =
    if nat_eq n 117
    then go (within_unicode 3 0)
    else if nat_eq n 98
    then emit 8
    else if nat_eq n 102
    then emit 12
    else if nat_eq n 110
    then emit 10
    else if nat_eq n 114
    then emit 13
    else if nat_eq n 116
    then emit 9
    else if nat_eq n 34 || (nat_eq n 92 || nat_eq n 47)
    then emit n
    else refuse
move (within_unicode more acc) n = digit_move more acc (hex_value n)

-- A code point in front of the text that the tokens begin with.
abbrev pub longer : ℕ → Option (List Token) → Option (List Token)
longer n (some (text t ∷ ts)) = some (text (n ∷ t) ∷ ts)
longer n _ = none

abbrev pub preceded : Token → Option (List Token) → Option (List Token)
preceded t none = none
preceded t (some ts) = some (t ∷ ts)

-- The tokens of a text; inside a quoted text, the first one is what is left of it.
unfoldable pub tokens : State → String → Option (List Token)
tokens outside String.[] = some []
tokens inside String.[] = none
tokens behind_backslash String.[] = none
tokens (within_unicode more acc) String.[] = none
tokens st (String.◌∷◌ c s) = elim (move st (code c)) [
  | go st' ↦ tokens st' s
  | emit n ↦ longer n (tokens inside s)
  | close ↦ preceded (text []) (tokens outside s)
  | emit_mark n ↦ preceded (mark n) (tokens outside s)
  | refuse ↦ none
]

-- The code points of a text.
abbrev pub codes : String → List ℕ
codes String.[] = []
codes (String.◌∷◌ c s) = code c ∷ codes s

pub hex_value-hex_digit : (d : ℕ) → d < 16 → hex_value (code (hex_digit d)) ≡ some d
unfolding hex_value
hex_value-hex_digit zero l = refl
hex_value-hex_digit (suc zero) l = refl
hex_value-hex_digit (suc (suc zero)) l = refl
hex_value-hex_digit (suc (suc (suc zero))) l = refl
hex_value-hex_digit (suc (suc (suc (suc zero)))) l = refl
hex_value-hex_digit (suc (suc (suc (suc (suc zero))))) l = refl
hex_value-hex_digit (suc (suc (suc (suc (suc (suc zero)))))) l = refl
hex_value-hex_digit (suc (suc (suc (suc (suc (suc (suc zero))))))) l = refl
hex_value-hex_digit (suc (suc (suc (suc (suc (suc (suc (suc zero)))))))) l = refl
hex_value-hex_digit (suc (suc (suc (suc (suc (suc (suc (suc (suc zero))))))))) l = refl
hex_value-hex_digit (suc (suc (suc (suc (suc (suc (suc (suc (suc (suc zero)))))))))) l = refl
hex_value-hex_digit (suc (suc (suc (suc (suc (suc (suc (suc (suc (suc (suc zero))))))))))) l = refl
hex_value-hex_digit (suc (suc (suc (suc (suc (suc (suc (suc (suc (suc (suc (suc zero)))))))))))) l =
    refl
hex_value-hex_digit
      (suc (suc (suc (suc (suc (suc (suc (suc (suc (suc (suc (suc (suc zero))))))))))))) l =
    refl
hex_value-hex_digit
      (suc (suc (suc (suc (suc (suc (suc (suc (suc (suc (suc (suc (suc (suc zero)))))))))))))) l =
    refl
hex_value-hex_digit
      (suc (suc (suc (suc (suc (suc (suc (suc (suc (suc (suc (suc (suc (suc (suc zero)))))))))))))))
      l =
    refl
hex_value-hex_digit
      (suc
        (suc (suc (suc (suc (suc (suc (suc (suc (suc (suc (suc (suc (suc (suc (suc d))))))))))))))))
      l =
    absurd (omega arith)
