-- ===== src/Go/Url.antt =====
-- `url.URL` of the Go standard library with the fields that the operator sets, and its `String`.
use Prim.Native.Char.{Char, code}
use airflow_operator.Prelude.{
  ℕ, ◌+◌, ◌/◌, ◌%◌, String, ◌≡◌, refl, Bool, false, not, ◌&&◌, ◌||◌, List, [], ◌∷◌, map, ltb,
  nat_eq, get_or, ◌==◌, if◌then◌else◌,
}
use airflow_operator.Go.Text.{concat}

pub record Url : Type 0 where
  pub scheme : String
  pub host : String
  pub path : String

pub data Encoding : Type 0 where
  encode_host encode_path : Encoding

is_between : ℕ → ℕ → ℕ → Bool
is_between lo hi c = not (ltb c lo) && not (ltb hi c)

is_alphanumeric : ℕ → Bool
unfolding is_between
is_alphanumeric c = is_between b'a' b'z' c || is_between b'A' b'Z' c || is_between b'0' b'9' c

is_one_of : ℕ → List ℕ → Bool
is_one_of c [] = false
is_one_of c (d ∷ ds) = nat_eq c d || is_one_of c ds

-- `shouldEscape`: `!$&'()*+,;=:[]<>"` stand in a host, and `$&+,/:;=@` in a path.
may_stand : Encoding → ℕ → Bool
unfolding is_one_of
may_stand encode_host c =
    is_one_of c
      (33 ∷ 36 ∷ 38 ∷ 39 ∷ 40 ∷ 41 ∷ 42 ∷ 43 ∷ 44 ∷ 59 ∷ 61 ∷ 58 ∷ 91 ∷ 93 ∷ 60 ∷ 62 ∷ 34 ∷ [])
may_stand encode_path c = is_one_of c (36 ∷ 38 ∷ 43 ∷ 44 ∷ 47 ∷ 58 ∷ 59 ∷ 61 ∷ 64 ∷ [])

-- `-_.~` stand everywhere.
should_escape : Encoding → ℕ → Bool
unfolding is_alphanumeric may_stand is_one_of
should_escape mode c =
    not (is_alphanumeric c || is_one_of c (45 ∷ 95 ∷ 46 ∷ 126 ∷ []) || may_stand mode c)

-- The bytes of a character of code 128 or more, in UTF-8.
utf8_tail : ℕ → List ℕ
utf8_tail c =
    if ltb c 2048
    then (192 + c / 64) ∷ (128 + c % 64) ∷ []
    else if ltb c 65536
    then (224 + c / 4096) ∷ (128 + c / 64 % 64) ∷ (128 + c % 64) ∷ []
    else (240 + c / 262144) ∷ (128 + c / 4096 % 64) ∷ (128 + c / 64 % 64) ∷ (128 + c % 64) ∷ []

abbrev hex_names : List String
hex_names =
    "0" ∷ "1" ∷ "2" ∷ "3" ∷ "4" ∷ "5" ∷ "6" ∷ "7" ∷ "8" ∷ "9" ∷ "A" ∷ "B" ∷ "C" ∷ "D" ∷ "E" ∷ "F"
    ∷ []

percent : ℕ → String
percent b = concat ("%" ∷ get_or hex_names (b / 16) "" ∷ get_or hex_names (b % 16) "" ∷ [])

escape_char : Encoding → Char → String
unfolding should_escape utf8_tail percent
escape_char mode ch =
    let c = code ch in
    if ltb c 128
    then (if should_escape mode c then percent c else String.◌∷◌ ch String.[])
    else concat (map percent (utf8_tail c))

escape : Encoding → String → String
unfolding escape_char
escape mode String.[] = ""
escape mode (String.◌∷◌ c s) = concat (escape_char mode c ∷ escape mode s ∷ [])

has_slash_first : String → Bool
has_slash_first String.[] = false
has_slash_first (String.◌∷◌ c s) = nat_eq (code c) b'/'

escaped_path : String → String
unfolding escape
escaped_path p = if p == "*" then "*" else escape encode_path p

-- `(*URL).String`, with no user, query or fragment.
unfoldable pub url_string : Url → String
unfolding escaped_path escape has_slash_first
url_string u =
    let path = escaped_path u.path in
    concat (
      (if u.scheme == "" then "" else concat (u.scheme ∷ ":" ∷ []))
      ∷ (if u.scheme == "" && u.host == "" || u.host == "" && u.path == "" then "" else "//")
      ∷ escape encode_host u.host
      ∷ (if not (path == "") && not (has_slash_first path) && not (u.host == "") then "/" else "")
      ∷ path
      ∷ [])

url_string_values :
    (url_string (record { scheme = "ldap"; host = "dir.example:389"; path = "" })
      ≡ "ldap://dir.example:389")
    × (url_string (record { scheme = "http"; host = "idp"; path = "realms/a b?c" })
        ≡ "http://idp/realms/a%20b%3Fc")
    × (url_string (record { scheme = "http"; host = "é"; path = "/x" }) ≡ "http://%C3%A9/x")
unfolding url_string
url_string_values = (refl, refl, refl)
