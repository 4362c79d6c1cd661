-- ===== src/Command/Version.antt =====
-- internal/util/version/version.go: the text of the version, and what it is read back as.
use airflow_operator.Prelude.{String, ◌≡◌, refl, ap, ◌∙◌, some, List, [], ◌∷◌}
use airflow_operator.Go.Outcome.{Outcome, ok}
use airflow_operator.Go.Json.{member}
use airflow_operator.Go.JsonReader.{Token, text, mark, outside, preceded, tokens, move, codes}
use airflow_operator.Go.JsonLaws.{member-read, mark-read}
use airflow_operator.Command.Defs.{AppInfo}

-- `json.Marshal(a)`, with the names of the struct's tags; texts have no error.
unfoldable pub marshal : AppInfo → Outcome String
marshal a = ok (
    String.◌∷◌ "{" (
      member "AppName" a.name (
        String.◌∷◌ "," (
          member "AppVersion" a.app_version (
            String.◌∷◌ "," (
              member "BuildTime" a.build_time (
                String.◌∷◌ "," (
                  member "GitCommit" a.git_commit (
                    String.◌∷◌ "," (
                      member "GoVersion" a.go_version (
                        String.◌∷◌ "," (
                          member "Compiler" a.compiler
                            (String.◌∷◌ "," (member "Platform" a.platform "}"))))))))))))))

-- `if err != nil { return "Error marshaling AppInfo" }`
abbrev pub text_of : Outcome String → String
text_of (ok data') = data'
text_of _ = "Error marshaling AppInfo"

-- `(*AppInfo).String`
unfoldable pub string : AppInfo → String
unfolding marshal
string a = text_of (marshal a)

-- A comma, a key, a colon and a value, in front of more.
abbrev pub more_tokens : String → String → List Token → List Token
more_tokens key value rest = mark 44 ∷ text (codes key) ∷ mark 58 ∷ text (codes value) ∷ rest

-- The fields of an AppInfo as an object.
abbrev pub app_info_tokens : AppInfo → List Token
app_info_tokens a =
    mark 123
    ∷ text (codes "AppName")
    ∷ mark 58
    ∷ text (codes a.name)
    ∷ more_tokens "AppVersion" a.app_version (
        more_tokens "BuildTime" a.build_time (
          more_tokens "GitCommit" a.git_commit (
            more_tokens "GoVersion" a.go_version (
              more_tokens "Compiler" a.compiler
                (more_tokens "Platform" a.platform (mark 125 ∷ []))))))

-- A comma and a member.
more-read :
    (key value tail : String) {ts : List Token}
    → tokens outside tail ≡ some ts
    → tokens outside (String.◌∷◌ "," (member key value tail)) ≡ some (more_tokens key value ts)
more-read key value tail e =
    mark-read "," (member key value tail) refl
    ∙ ap (preceded (mark 44)) (member-read key value tail)
    ∙ ap
        (λ r.
          preceded (mark 44)
            (preceded (text (codes key)) (preceded (mark 58) (preceded (text (codes value)) r))))
        e

brace-read : tokens outside "}" ≡ some (mark 125 ∷ [])
unfolding tokens move
brace-read = refl

-- For all contents of an AppInfo, what String returns is read back, with every escape undone, as
-- an object of the seven keys in their order, each with its field's text.
pub string-tokens : (a : AppInfo) → tokens outside (string a) ≡ some (app_info_tokens a)
unfolding string
string-tokens a =
    mark-read "{" _ refl
    ∙ ap (preceded (mark 123)) (
        member-read "AppName" a.name _
        ∙ ap
            (λ r.
              preceded (text (codes "AppName"))
                (preceded (mark 58) (preceded (text (codes a.name)) r)))
            (more-read "AppVersion" a.app_version _ (
              more-read "BuildTime" a.build_time _ (
                more-read "GitCommit" a.git_commit _ (
                  more-read "GoVersion" a.go_version _ (
                    more-read "Compiler" a.compiler _
                      (more-read "Platform" a.platform "}" brace-read)))))))
