-- ===== src/StatefulSet/Args.antt =====
-- internal/controller/common/statefulset.go: for which roles there is a script.
use airflow_operator.Prelude.{String, ◌≡◌, ◌⊎◌, inl, inr, ◌↔◌, ◌≢◌, [], ◌∷◌, arith, eq_iff}
use airflow_operator.Go.Text.{concat}
use airflow_operator.Go.Outcome.{ok, err, errorf}
use airflow_operator.Go.Map.{string_key}
use airflow_operator.Platform.{Platform}
use airflow_operator.StatefulSet.Scripts.{
  main_command, main_script, scheduler_command, get_main_container_args,
}

-- getMainContainerArgs returns a script exactly for the roles webservers, schedulers and
-- celeryexecutors.
pub get_main_container_args-ok_iff :
    (p : Platform) (role : String)
    → ((s : String) × (get_main_container_args p role ≡ ok s))
      ↔ ((role ≡ "webservers") ⊎ (role ≡ "schedulers") ⊎ (role ≡ "celeryexecutors"))
unfolding get_main_container_args main_command
get_main_container_args-ok_iff p role = (
  λ h.
      let (s, e) = h in
      ground
        (arith, eq_iff role "webservers", eq_iff role "schedulers", eq_iff role "celeryexecutors"),
  λ h. elim h [
    | inl e ↦ (p.indent_tab_4_spaces (main_script p "airflow webserver &"), rw e)
    | inr r ↦ elim r [
      | inl e ↦ (p.indent_tab_4_spaces (main_script p scheduler_command), rw e)
      | inr e ↦ (p.indent_tab_4_spaces (main_script p "airflow celery worker &"), rw e)
    ]
  ],
)

-- An unknown role gets the error that names it.
pub get_main_container_args-unsupported :
    (p : Platform) (role : String)
    → role ≢ "webservers"
    → role ≢ "schedulers"
    → role ≢ "celeryexecutors"
    → get_main_container_args p role ≡ err (errorf (concat ("unsupported role " ∷ role ∷ [])))
unfolding get_main_container_args main_command
get_main_container_args-unsupported p role n₁ n₂ n₃ =
    ground
      (arith, eq_iff role "webservers", eq_iff role "schedulers", eq_iff role "celeryexecutors")
