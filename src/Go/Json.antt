-- ===== src/Go/Json.antt =====
-- `encoding/json` as far as the operator uses it: the texts of a struct whose fields are texts.
use Prim.Native.Char.{Char, code}
use airflow_operator.Prelude.{
  ℕ, ◌/◌, ◌%◌, String, ◌||◌, [], ◌∷◌, ltb, nat_eq, get_or, if◌then◌else◌,
}

-- The hexadecimal digit of a number below 16.
abbrev pub hex_digit : ℕ → Char
hex_digit d =
    get_or
      ("0" ∷ "1" ∷ "2" ∷ "3" ∷ "4" ∷ "5" ∷ "6" ∷ "7" ∷ "8" ∷ "9" ∷ "a" ∷ "b" ∷ "c" ∷ "d" ∷ "e" ∷ "f"
        ∷ [])
      d "0"

-- A backslash and a character, in front of a text.
abbrev pub backslash : Char → String → String
backslash e tail = String.◌∷◌ "\\" (String.◌∷◌ e tail)

-- A character inside quotes, in front of a text; `<`, `>` and `&` are escaped for HTML, and the
-- two line separators for JavaScript.
unfoldable pub escaped : Char → String → String
escaped c tail =
    let n = code c in
    if nat_eq n 34
    then backslash "\"" tail
    else if nat_eq n 92
    then backslash "\\" tail
    else if nat_eq n 8
    then backslash "b" tail
    else if nat_eq n 12
    then backslash "f" tail
    else if nat_eq n 10
    then backslash "n" tail
    else if nat_eq n 13
    then backslash "r" tail
    else if nat_eq n 9
    then backslash "t" tail
    else if ltb n 32 || (nat_eq n 60 || (nat_eq n 62 || nat_eq n 38))
    then backslash "u" (
        String.◌∷◌ "0"
          (String.◌∷◌ "0" (String.◌∷◌ (hex_digit (n / 16)) (String.◌∷◌ (hex_digit (n % 16)) tail))))
    else if nat_eq n 8232 || nat_eq n 8233
    then backslash "u"
        (String.◌∷◌ "2" (String.◌∷◌ "0" (String.◌∷◌ "2" (String.◌∷◌ (hex_digit (n % 16)) tail))))
    else String.◌∷◌ c tail

-- The characters of a text, escaped, in front of another text.
unfoldable pub escape : String → String → String
escape String.[] tail = tail
escape (String.◌∷◌ c s) tail = escaped c (escape s tail)

-- A text in quotes.
abbrev pub quoted : String → String → String
quoted s tail = String.◌∷◌ "\"" (escape s (String.◌∷◌ "\"" tail))

-- `"key":"value"`
abbrev pub member : String → String → String → String
member key value tail = quoted key (String.◌∷◌ ":" (quoted value tail))
