-- ===== src/Command/Defs.antt =====
-- cmd/main.go: the flags, the options of the servers and of the manager, and the steps of `main`.
-- internal/util/version/version.go: the version that a flag prints.
use airflow_operator.Prelude.{String, Bool, true, false, List, [], ◌∷◌, ◌==◌, if◌then◌else◌}
use airflow_operator.Go.Text.{concat}

-- The variables that `flag.Parse` fills; those of the logger are left out.
pub record Flags : Type 0 where
  pub metrics_addr : String
  pub metrics_cert_path : String
  pub metrics_cert_name : String
  pub metrics_cert_key : String
  pub webhook_cert_path : String
  pub webhook_cert_name : String
  pub webhook_cert_key : String
  pub enable_leader_election : Bool
  pub probe_addr : String
  pub secure_metrics : Bool
  pub enable_http2 : Bool
  pub show_version : Bool

-- The flags of a command line without flags.
abbrev pub default_flags : Flags
default_flags = record {
  metrics_addr = "0";
  metrics_cert_path = "";
  metrics_cert_name = "tls.crt";
  metrics_cert_key = "tls.key";
  webhook_cert_path = "";
  webhook_cert_name = "tls.crt";
  webhook_cert_key = "tls.key";
  enable_leader_election = false;
  probe_addr = ":8081";
  secure_metrics = true;
  enable_http2 = false;
  show_version = false;
}

-- `tls.Config`, with the field that is set.
pub record TlsConfig : Type 0 where
  pub next_protos : List String

abbrev pub TlsOption : Type 0
TlsOption = TlsConfig → TlsConfig

unfoldable pub disable_http2 : TlsOption
disable_http2 c = record c { next_protos = "http/1.1" ∷ [] }

unfoldable pub tls_opts : Flags → List TlsOption
tls_opts flags = if flags.enable_http2 then [] else disable_http2 ∷ []

-- The files of a certificate; all are empty if none is given.
pub record Certificate : Type 0 where
  pub cert_dir : String
  pub cert_name : String
  pub key_name : String

-- `if len(path) > 0 { … }`
unfoldable pub certificate : (path name key : String) → Certificate
certificate path name key =
    if path == ""
    then record { cert_dir = ""; cert_name = ""; key_name = "" }
    else record { cert_dir = path; cert_name = name; key_name = key }

pub record WebhookOptions : Type 0 where
  pub tls_opts : List TlsOption
  pub certificate : Certificate

unfoldable pub webhook_server_options : Flags → WebhookOptions
webhook_server_options flags = record {
  tls_opts = tls_opts flags;
  certificate = certificate flags.webhook_cert_path flags.webhook_cert_name flags.webhook_cert_key;
}

-- `authorized` tells that the filter provider is `WithAuthenticationAndAuthorization`.
pub record MetricsOptions : Type 0 where
  pub bind_address : String
  pub secure_serving : Bool
  pub tls_opts : List TlsOption
  pub authorized : Bool
  pub certificate : Certificate

unfoldable pub metrics_server_options : Flags → MetricsOptions
metrics_server_options flags = record {
  bind_address = flags.metrics_addr;
  secure_serving = flags.secure_metrics;
  tls_opts = tls_opts flags;
  authorized = if flags.secure_metrics then true else false;
  certificate = certificate flags.metrics_cert_path flags.metrics_cert_name flags.metrics_cert_key;
}

-- `ctrl.Options`, without the scheme.
pub record ManagerOptions : Type 0 where
  pub metrics : MetricsOptions
  pub health_probe_bind_address : String
  pub leader_election : Bool
  pub webhook_server : WebhookOptions
  pub leader_election_id : String

unfoldable pub manager_options : Flags → ManagerOptions
manager_options flags = record {
  metrics = metrics_server_options flags;
  health_probe_bind_address = flags.probe_addr;
  leader_election = flags.enable_leader_election;
  webhook_server = webhook_server_options flags;
  leader_election_id = "7816a0c4.kubedoop.dev";
}

-- `AppInfo`; the last three fields are those of the Go runtime.
pub record AppInfo : Type 0 where
  pub name : String
  pub app_version : String
  pub build_time : String
  pub git_commit : String
  pub go_version : String
  pub compiler : String
  pub platform : String

-- The variables that the linker sets, and what `runtime` gives.
pub record Build : Type 0 where
  pub build_version : String
  pub build_time : String
  pub git_commit : String
  pub go_version : String
  pub compiler : String
  pub goos : String
  pub goarch : String

unfoldable pub new_app_info : Build → String → AppInfo
new_app_info b name = record {
  name = name;
  app_version = b.build_version;
  build_time = b.build_time;
  git_commit = b.git_commit;
  go_version = b.go_version;
  compiler = b.compiler;
  platform = concat (b.goos ∷ "/" ∷ b.goarch ∷ []);
}

-- The calls of `main` that act on the world, in front of which the options are ready.
pub data Step : Type 0 where
  print_version : AppInfo → Step
  get_config : Step
  new_manager : ManagerOptions → Step
  setup_controller add_healthz_check add_readyz_check start_manager : Step

pub data End : Type 0 where
  exit_0 exit_1 returned : End

-- `if err := call; err != nil { os.Exit(1) }` in front of the rest; the calls made are the second
-- component.
unfoldable pub attempt : (fails : Step → Bool) → Step → (rest : End × List Step) → End × List Step
attempt fails s rest = if fails s then (exit_1, s ∷ []) else (rest.0, s ∷ rest.1)

-- `main`; `fails` tells which calls return an error.
unfoldable pub main : Build → (fails : Step → Bool) → Flags → End × List Step
unfolding attempt
main build fails flags =
    if flags.show_version
    then (exit_0, print_version (new_app_info build "airflow-operator") ∷ [])
    else attempt fails get_config (
        attempt fails (new_manager (manager_options flags)) (
          attempt fails setup_controller (
            attempt fails add_healthz_check
              (attempt fails add_readyz_check (attempt fails start_manager (returned, []))))))
