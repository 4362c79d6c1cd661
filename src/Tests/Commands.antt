-- ===== src/Tests/Commands.antt =====
-- cmd/main.go: the theorems on the start, at the default flags.
use airflow_operator.Prelude.{◌≡◌, ◌↔◌, refl, some, Bool, true, false, List, [], ◌∷◌}
use airflow_operator.Go.Json.{escaped, escape}
use airflow_operator.Go.JsonReader.{tokens, outside}
use airflow_operator.Command.Version.{string, app_info_tokens, string-tokens}
use airflow_operator.Command.Defs.{
  AppInfo, default_flags, TlsConfig, webhook_server_options, metrics_server_options,
  manager_options, Build, Step, print_version, get_config, new_manager, setup_controller,
  add_healthz_check, add_readyz_check, start_manager, exit_0, exit_1, returned, new_app_info, main,
}
use airflow_operator.Command.Laws.{applied, servers-http2, startup, Passes, StopsAfter, main-ends}

abbrev both_protocols : TlsConfig
both_protocols = record { next_protos = "h2" ∷ "http/1.1" ∷ [] }

abbrev only_http1 : TlsConfig
only_http1 = record { next_protos = "http/1.1" ∷ [] }

servers-http2_example :
    (applied (webhook_server_options default_flags).tls_opts both_protocols ≡ only_http1)
    × (applied (metrics_server_options default_flags).tls_opts both_protocols ≡ only_http1)
servers-http2_example = servers-http2 default_flags both_protocols

abbrev test_build : Build
test_build = record {
  build_version = "0.0.0";
  build_time = "N/A";
  git_commit = "N/A";
  go_version = "go1.25";
  compiler = "gc";
  goos = "linux";
  goarch = "amd64";
}

-- Only the controller cannot be set up.
abbrev no_controller : Step → Bool
no_controller (print_version a) = false
no_controller get_config = false
no_controller (new_manager o) = false
no_controller setup_controller = true
no_controller add_healthz_check = false
no_controller add_readyz_check = false
no_controller start_manager = false

abbrev three_calls : List Step
three_calls = get_config ∷ new_manager (manager_options default_flags) ∷ setup_controller ∷ []

main-ends_example :
    ((main test_build no_controller default_flags ≡ (exit_0, three_calls)) ↔ (
      (default_flags.show_version ≡ true)
      × (three_calls ≡ print_version (new_app_info test_build "airflow-operator") ∷ [])))
    × ((main test_build no_controller default_flags ≡ (returned, three_calls)) ↔ (
        (default_flags.show_version ≡ false)
        × Passes no_controller (startup default_flags)
        × (three_calls ≡ startup default_flags)))
    × ((main test_build no_controller default_flags ≡ (exit_1, three_calls)) ↔ (
        (default_flags.show_version ≡ false)
        × StopsAfter no_controller (startup default_flags) three_calls))
main-ends_example = main-ends test_build no_controller default_flags three_calls

-- The start ends with the third call.
controller_refused : main test_build no_controller default_flags ≡ (exit_1, three_calls)
unfolding main
controller_refused = refl

-- A name that needs escapes.
abbrev odd_info : AppInfo
odd_info = record {
  name = "a \"b\"\n<c>";
  app_version = "0.0.0";
  build_time = "N/A";
  git_commit = "N/A";
  go_version = "go1.25";
  compiler = "gc";
  platform = "linux/amd64";
}

odd_text :
    string odd_info
    ≡ "{\"AppName\":\"a \\\"b\\\"\\n\\u003cc\\u003e\",\"AppVersion\":\"0.0.0\",\"BuildTime\":\"N/A\",\"GitCommit\":\"N/A\",\"GoVersion\":\"go1.25\",\"Compiler\":\"gc\",\"Platform\":\"linux/amd64\"}"
unfolding string escape escaped
odd_text = refl

string-tokens_example : tokens outside (string odd_info) ≡ some (app_info_tokens odd_info)
string-tokens_example = string-tokens odd_info
