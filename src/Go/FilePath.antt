-- ===== src/Go/FilePath.antt =====
-- `path.Join` and `path.Clean` of the Go standard library.
use Prim.Native.Char.{code}
use Prim.Native.String
use airflow_operator.Prelude.{
  String, ◌≡◌, refl, Bool, true, false, ◌||◌, List, [], ◌∷◌, nat_eq, ◌==◌, if◌then◌else◌,
}
use airflow_operator.Go.Text.{concat, join}

-- The components between slashes, `cur` being the one that is read.
split_slash : String → String → List String
split_slash cur String.[] = cur ∷ []
split_slash cur (String.◌∷◌ c s) =
    let closed = cur ∷ split_slash "" s in
    let longer = split_slash (String.◌++◌ cur (String.◌∷◌ c String.[])) s in
    if nat_eq (code c) b'/' then closed else longer

-- ".." takes back the last component that is not itself a "..", and is dropped at the root.
backtrack : Bool → List String → List String
backtrack true [] = []
backtrack false [] = ".." ∷ []
backtrack rooted (top ∷ below) = if top == ".." then ".." ∷ top ∷ below else below

-- One component; the stack has the last component at its head.
resolve : Bool → List String → String → List String
unfolding backtrack
resolve rooted stack part =
    if part == "" || part == "."
    then stack
    else if part == ".."
    then backtrack rooted stack
    else part ∷ stack

resolve_all : Bool → List String → List String → List String
resolve_all rooted stack [] = stack
resolve_all rooted stack (part ∷ parts) = resolve_all rooted (resolve rooted stack part) parts

onto : List String → List String → List String
onto [] out = out
onto (x ∷ xs) out = onto xs (x ∷ out)

is_rooted : String → Bool
is_rooted String.[] = false
is_rooted (String.◌∷◌ c s) = nat_eq (code c) b'/'

or_dot : String → String
or_dot s = if s == "" then "." else s

-- `path.Clean`
clean : String → String
unfolding split_slash resolve resolve_all onto is_rooted or_dot join
clean s =
    let rooted = is_rooted s in
    let body = join "/" (onto (resolve_all rooted [] (split_slash "" s)) []) in
    if rooted then concat ("/" ∷ body ∷ []) else or_dot body

-- The elements with slashes between them; empty elements in front are left out.
joined : String → List String → String
joined buf [] = buf
joined buf (e ∷ es) = joined (if buf == "" then e else concat (buf ∷ "/" ∷ e ∷ [])) es

-- `path.Join`
unfoldable pub path_join : List String → String
unfolding joined clean
path_join es = let buf = joined "" es in if buf == "" then "" else clean buf

path_join_values :
    (path_join ("/kubedoop" ∷ "app" ∷ "config" ∷ []) ≡ "/kubedoop/app/config")
    × (path_join ("/k/" ∷ "" ∷ "./a//b/../c" ∷ []) ≡ "/k/a/c")
    × (path_join ("/k" ∷ "../../x" ∷ []) ≡ "/x")
    × (path_join ("a" ∷ "../../b" ∷ []) ≡ "../b")
    × (path_join ("" ∷ "" ∷ []) ≡ "")
unfolding path_join
path_join_values = (refl, refl, refl, refl, refl)
