-- ===== src/StatefulSet/Scripts.antt =====
-- internal/controller/common/statefulset.go: the constants and the texts of the scripts.
use airflow_operator.Prelude.{String, [], ◌∷◌, ◌==◌, if◌then◌else◌}
use airflow_operator.Go.Text.{concat}
use airflow_operator.Go.FilePath.{path_join}
use airflow_operator.Go.Outcome.{Outcome, ok, err, errorf, ◌>>=◌}
use airflow_operator.Api.{role_name, webservers, schedulers, celery_executors}
use airflow_operator.Platform.{Platform}

unfoldable pub app_config_path : Platform → String
app_config_path p = path_join (p.kubedoop_root ∷ "app" ∷ "config" ∷ [])

unfoldable pub airflow_home : Platform → String
airflow_home p = path_join (p.kubedoop_root ∷ "airflow" ∷ [])

abbrev pub env_key_admin_user_name : String
env_key_admin_user_name = "ADMIN_USERNAME"

abbrev pub env_key_admin_first_name : String
env_key_admin_first_name = "ADMIN_FIRSTNAME"

abbrev pub env_key_admin_last_name : String
env_key_admin_last_name = "ADMIN_LASTNAME"

abbrev pub env_key_admin_email : String
env_key_admin_email = "ADMIN_EMAIL"

abbrev pub env_key_admin_password : String
env_key_admin_password = "ADMIN_PASSWORD"

abbrev pub log_volume_mount_name : String
log_volume_mount_name = "log"

abbrev pub config_volume_mount_name : String
config_volume_mount_name = "config"

unfoldable pub bash_libs : String
bash_libs = concat (
    "\n" ∷ "prepare_signal_handlers()\n" ∷ "{\n" ∷ "    unset term_child_pid\n"
    ∷ "    unset term_kill_needed\n" ∷ "    trap 'handle_term_signal' TERM\n" ∷ "}\n" ∷ "\n"
    ∷ "handle_term_signal()\n" ∷ "{\n" ∷ "    if [ \"${term_child_pid}\" ]; then\n"
    ∷ "        kill -TERM \"${term_child_pid}\" 2>/dev/null\n" ∷ "    else\n"
    ∷ "        term_kill_needed=\"yes\"\n" ∷ "    fi\n" ∷ "}\n" ∷ "\n" ∷ "wait_for_termination()\n"
    ∷ "{\n" ∷ "    set +e\n" ∷ "    term_child_pid=$1\n"
    ∷ "    if [[ -v term_kill_needed ]]; then\n"
    ∷ "        kill -TERM \"${term_child_pid}\" 2>/dev/null\n" ∷ "    fi\n"
    ∷ "    wait ${term_child_pid} 2>/dev/null\n" ∷ "    trap - TERM\n"
    ∷ "    wait ${term_child_pid} 2>/dev/null\n" ∷ "    set -e\n" ∷ "}\n" ∷ [])

-- The commands that only the scheduler runs, in front of it.
unfoldable pub scheduler_command : String
scheduler_command = concat (
    "\n" ∷ "airflow db init\n" ∷ "airflow db upgrade\n" ∷ "set +x\t# disable xtrace\n"
    ∷ "airflow users create \\\n" ∷ "\t--username $" ∷ env_key_admin_user_name ∷ " \\\n"
    ∷ "\t--firstname $" ∷ env_key_admin_first_name ∷ " \\\n" ∷ "\t--lastname $"
    ∷ env_key_admin_last_name ∷ " \\\n" ∷ "\t--email $" ∷ env_key_admin_email ∷ " \\\n"
    ∷ "\t--password $" ∷ env_key_admin_password ∷ " \\\n" ∷ "\t--role \"Admin\"\n" ∷ "\n"
    ∷ "set -x \t# enable xtrace\n" ∷ "\n" ∷ "airflow scheduler &\n" ∷ [])

-- The main command of a role.
unfoldable pub main_command : String → Outcome String
main_command role =
    if role == role_name webservers
    then ok "airflow webserver &"
    else if role == role_name schedulers
    then ok scheduler_command
    else if role == role_name celery_executors
    then ok "airflow celery worker &"
    else err (errorf (concat ("unsupported role " ∷ role ∷ [])))

-- The script around the main command.
unfoldable pub main_script : Platform → String → String
main_script p command = concat (
    "\n"
    ∷ "mkdir -p "
    ∷ app_config_path p
    ∷ "\n"
    ∷ "mkdir -p "
    ∷ airflow_home p
    ∷ "\n"
    ∷ "cp -RL "
    ∷ p.kubedoop_config_dir_mount
    ∷ "/*.py "
    ∷ app_config_path p
    ∷ "\n"
    ∷ "cp -RL "
    ∷ p.kubedoop_config_dir_mount
    ∷ "/*.py "
    ∷ airflow_home p
    ∷ "\n\n"
    ∷ bash_libs
    ∷ "\n\nprepare_signal_handlers\nrm -rf "
    ∷ p.vector_shutdown_file
    ∷ "\n\n"
    ∷ command
    ∷ "\nwait_for_termination $!\nmkdir -p "
    ∷ p.vector_watcher_dir
    ∷ " && touch "
    ∷ p.vector_shutdown_file
    ∷ "\n"
    ∷ [])

-- `getMainContainerArgs`
unfoldable pub get_main_container_args : Platform → String → Outcome String
get_main_container_args p role = do
  command ← main_command role
  ok (p.indent_tab_4_spaces (main_script p command))

-- The script of the metric container.
unfoldable pub metric_script : Platform → String
metric_script p = concat (
    bash_libs
    ∷ "\n\nprepare_signal_handlers\n\n"
    ∷ path_join (p.kubedoop_root ∷ "bin" ∷ "statsd-exporter" ∷ [])
    ∷ "&\nwait_for_termination $!"
    ∷ [])
