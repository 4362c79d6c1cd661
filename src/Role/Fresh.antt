-- ===== src/Role/Fresh.antt =====
-- internal/controller/role: `RegisterResources` of a role that has no resources yet is the loop over the
-- role groups of its spec.
use airflow_operator.Prelude.{String, ◌≡◌, sym, ap, ◌∙◌, []}
use airflow_operator.Go.Outcome.{Done, Outcome, ok}
use airflow_operator.Go.Map.{Order}
use airflow_operator.Api.{RoleGroupSpec}
use airflow_operator.Framework.{Framework}
use airflow_operator.Role.Groups.{register_spec}
use airflow_operator.Role.Scheduler.{SchedulersReconciler}
use airflow_operator.Role.CeleryExecutor.{CeleryExecutorsReconciler}
use airflow_operator.Role.Webserver.{WebserversReconciler}
use airflow_operator.Role.Scheduler
use airflow_operator.Role.CeleryExecutor
use airflow_operator.Role.Webserver

module _ (f : Framework) (order : Order (String × RoleGroupSpec)) where
  pub celery_executors_loop :
      (r r' : CeleryExecutorsReconciler)
      → r.resources ≡ []
      → CeleryExecutor.register_resources f order r ≡ (ok tt, r')
      → register_spec CeleryExecutor.spec_view f r.base.role_info
          (CeleryExecutor.register_resource_with_role_group f r)
          []
          order
          r.base.spec
        ≡ (ok tt, r'.resources)
  unfolding CeleryExecutor.register_resources
  celery_executors_loop r r' fresh h =
      ap
        (λ added.
          register_spec CeleryExecutor.spec_view f r.base.role_info
            (CeleryExecutor.register_resource_with_role_group f r) added order r.base.spec)
        (sym fresh)
      ∙ ap (λ (q : Outcome Done × CeleryExecutorsReconciler). (q.0, q.1.resources)) h

  pub schedulers_loop :
      (r r' : SchedulersReconciler)
      → r.resources ≡ []
      → Scheduler.register_resources f order r ≡ (ok tt, r')
      → register_spec Scheduler.spec_view f r.base.role_info
          (Scheduler.register_resource_with_role_group f r)
          []
          order
          r.base.spec
        ≡ (ok tt, r'.resources)
  unfolding Scheduler.register_resources
  schedulers_loop r r' fresh h =
      ap
        (λ added.
          register_spec Scheduler.spec_view f r.base.role_info
            (Scheduler.register_resource_with_role_group f r) added order r.base.spec)
        (sym fresh)
      ∙ ap (λ (q : Outcome Done × SchedulersReconciler). (q.0, q.1.resources)) h

  pub webservers_loop :
      (r r' : WebserversReconciler)
      → r.resources ≡ []
      → Webserver.register_resources f order r ≡ (ok tt, r')
      → register_spec Webserver.spec_view f r.base.role_info
          (Webserver.register_resource_with_role_group f r)
          []
          order
          r.base.spec
        ≡ (ok tt, r'.resources)
  unfolding Webserver.register_resources
  webservers_loop r r' fresh h =
      ap
        (λ added.
          register_spec Webserver.spec_view f r.base.role_info
            (Webserver.register_resource_with_role_group f r) added order r.base.spec)
        (sym fresh)
      ∙ ap (λ (q : Outcome Done × WebserversReconciler). (q.0, q.1.resources)) h
