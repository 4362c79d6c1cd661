-- ===== src/Go/JsonLaws.antt =====
-- What `encoding/json` writes for a text is read back as that text.
use Prim.Native.Char.{Char, code}
use airflow_operator.Prelude.{
  if◌then◌else◌, Bool, true, ℕ, suc, ◌+◌, ◌*◌, ◌/◌, ◌%◌, ◌<◌, String, ◌≡◌, refl, ap, ◌∙◌, false,
  ◌||◌, Option, none, some, List, ◌∷◌, ltb, nat_eq, arith,
}
use airflow_operator.Go.Json.{hex_digit, backslash, escaped, escape, quoted, member}
use airflow_operator.Go.JsonReader.{
  behind_backslash, emit, Token, text, mark, outside, inside, within_unicode, move, longer,
  preceded, tokens, codes, hex_value-hex_digit,
}

-- One more digit behind `\u`, and the last one.
digit-more :
    (k acc d : ℕ) (tail : String)
    → d < 16
    → tokens (within_unicode (suc k) acc) (String.◌∷◌ (hex_digit d) tail)
      ≡ tokens (within_unicode k (acc * 16 + d)) tail
unfolding tokens move
digit-more k acc d tail l = rw (hex_value-hex_digit d l, tokens, move)

digit-last :
    (acc d : ℕ) (tail : String)
    → d < 16
    → tokens (within_unicode 0 acc) (String.◌∷◌ (hex_digit d) tail)
      ≡ longer (acc * 16 + d) (tokens inside tail)
unfolding tokens move
digit-last acc d tail l = rw (hex_value-hex_digit d l, tokens, move)

behind_u : (s : String) → tokens inside (backslash "u" s) ≡ tokens (within_unicode 3 0) s
unfolding tokens move
behind_u s = refl

-- The four digits of `\u`.
unicode-read :
    (a b c d n : ℕ) (tail : String)
    → a < 16
    → b < 16
    → c < 16
    → d < 16
    → ((a * 16 + b) * 16 + c) * 16 + d ≡ n
    → tokens inside (
        backslash "u" (
          String.◌∷◌
            (hex_digit a)
            (String.◌∷◌ (hex_digit b) (String.◌∷◌ (hex_digit c) (String.◌∷◌ (hex_digit d) tail)))))
      ≡ longer n (tokens inside tail)
unicode-read a b c d n tail la lb lc ld same =
    behind_u _
    ∙ digit-more 2 0 a _ la
    ∙ digit-more 1 (0 * 16 + a) b _ lb
    ∙ digit-more 0 ((0 * 16 + a) * 16 + b) c _ lc
    ∙ digit-last (((0 * 16 + a) * 16 + b) * 16 + c) d tail ld
    ∙ ap (λ k. longer k (tokens inside tail)) (omega (arith, same))

verbatim :
    (c : Char) (tail : String)
    → nat_eq (code c) 34 ≡ false
    → nat_eq (code c) 92 ≡ false
    → tokens inside (String.◌∷◌ c tail) ≡ longer (code c) (tokens inside tail)
unfolding tokens move
verbatim c tail quote slash = rw (quote, slash, tokens, move)

-- `x` reads as the character in front of `tail`.
abbrev ReadsAs : ℕ → String → String → Type 0
ReadsAs n tail x = tokens inside x ≡ longer n (tokens inside tail)

-- A test, whichever way it goes.
if-cases :
    {A : Type 0} (P : A → Type 0) (b : Bool) {x y : A}
    → (b ≡ true → P x)
    → (b ≡ false → P y)
    → P (if b then x else y)
if-cases P true yes_ no_ = yes_ refl
if-cases P false yes_ no_ = no_ refl

-- An escape of two characters.
backslash-read :
    (e : Char) (m n : ℕ) (tail : String)
    → move behind_backslash (code e) ≡ emit m
    → nat_eq n m ≡ true
    → ReadsAs n tail (backslash e tail)
unfolding tokens move
backslash-read e m n tail moves same =
    rw (moves, tokens, move) (ap (λ k. longer k (tokens inside tail)) (ground arith))

-- A character is read as its code point.
escaped-read : (c : Char) (tail : String) → ReadsAs (code c) tail (escaped c tail)
unfolding escaped move
escaped-read c tail =
    let reads : String → Type 0 = ReadsAs (code c) tail in
    let short : (e : Char) (m : ℕ)
        → move behind_backslash (code e) ≡ emit m
        → nat_eq (code c) m ≡ true
        → reads (backslash e tail) =
      λ e m. backslash-read e m (code c) tail in
    if-cases reads (nat_eq (code c) 34) (short "\"" 34 refl) λ quote.
      if-cases reads (nat_eq (code c) 92) (short "\\" 92 refl) λ slash.
        if-cases reads (nat_eq (code c) 8) (short "b" 8 refl) λ _.
          if-cases reads (nat_eq (code c) 12) (short "f" 12 refl) λ _.
            if-cases reads (nat_eq (code c) 10) (short "n" 10 refl) λ _.
              if-cases reads (nat_eq (code c) 13) (short "r" 13 refl) λ _.
                if-cases reads (nat_eq (code c) 9) (short "t" 9 refl) λ _.
                  if-cases reads
                    (ltb (code c) 32
                      || (nat_eq (code c) 60 || (nat_eq (code c) 62 || nat_eq (code c) 38)))
                    (λ e.
                      unicode-read 0 0 (code c / 16) (code c % 16) (code c) tail (omega arith)
                        (omega arith) (ground arith) (omega arith) (ground arith))
                    λ _.
                      if-cases reads (nat_eq (code c) 8232 || nat_eq (code c) 8233)
                        (λ e.
                          unicode-read 2 0 2 (code c % 16) (code c) tail (omega arith) (omega arith)
                            (omega arith) (omega arith) (ground arith))
                        λ _. verbatim c tail quote slash

longer-preceded :
    (n : ℕ) (t : List ℕ) (r : Option (List Token))
    → longer n (preceded (text t) r) ≡ preceded (text (n ∷ t)) r
longer-preceded n t none = refl
longer-preceded n t (some ts) = refl

-- A text and the quote behind it.
escape-read :
    (s tail : String)
    → tokens inside (escape s (String.◌∷◌ "\"" tail))
      ≡ preceded (text (codes s)) (tokens outside tail)
unfolding tokens move escape
escape-read String.[] tail = refl
escape-read (String.◌∷◌ c s) tail =
    escaped-read c (escape s (String.◌∷◌ "\"" tail))
    ∙ ap (longer (code c)) (escape-read s tail)
    ∙ longer-preceded (code c) (codes s) (tokens outside tail)

quoted-read :
    (s tail : String)
    → tokens outside (quoted s tail) ≡ preceded (text (codes s)) (tokens outside tail)
unfolding tokens move
quoted-read s tail = escape-read s tail

-- A member of an object is read as its key, a colon and its value.
pub member-read :
    (key value tail : String)
    → tokens outside (member key value tail)
      ≡ preceded
          (text (codes key))
          (preceded (mark 58) (preceded (text (codes value)) (tokens outside tail)))
unfolding tokens move
member-read key value tail =
    quoted-read key (String.◌∷◌ ":" (quoted value tail))
    ∙ ap (λ r. preceded (text (codes key)) (preceded (mark 58) r)) (quoted-read value tail)

-- A mark in front of a text is read as itself.
pub mark-read :
    (c : Char) (tail : String)
    → nat_eq (code c) 34 ≡ false
    → tokens outside (String.◌∷◌ c tail) ≡ preceded (mark (code c)) (tokens outside tail)
unfolding tokens move
mark-read c tail quote = rw (quote, tokens, move)
