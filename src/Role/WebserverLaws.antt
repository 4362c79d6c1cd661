-- ===== src/Role/WebserverLaws.antt =====
-- internal/controller/role/webserver.go: when `RegisterResources` of the webservers ends without an error,
-- and what it adds.
use airflow_operator.Prelude.{
  length, String, ◌≡◌, refl, ap, ◌↔◌, some, List, [], ◌∷◌, ◌++◌, map, All,
}
use airflow_operator.Go.Outcome.{Done, Outcome, ok}
use airflow_operator.Go.Map.{Order}
use airflow_operator.Api.{RoleGroupSpec, WebserversSpec}
use airflow_operator.Framework.{Framework}
use airflow_operator.Role.Groups.{Resource}
use airflow_operator.Role.Ready.{GroupReady}
use airflow_operator.Role.Steps.{a_config_map, a_stateful_set, a_service, kind, copies}
use airflow_operator.Role.Ranged.{register_spec-ok_iff, register_spec-kinds}
use airflow_operator.Role.Webserver.{
  WebserversReconciler, spec_view, resources_of, register_resource_with_role_group,
  register_resources,
}

module _ (f : Framework) (r : WebserversReconciler) (order : Order (String × RoleGroupSpec)) where
  -- RegisterResources of the webservers returns nil exactly if the role has a spec and each of its
  -- role groups, in whatever order the range visits them, can be merged with the role's config and
  -- overrides, has a cluster configuration whose authentication is empty or accepted, and has
  -- annotations that are not a nil map.
  pub webservers-ok_iff :
      ((r' : WebserversReconciler) × (register_resources f order r ≡ (ok tt, r'))) ↔ (
        (spec : WebserversSpec) × (r.base.spec ≡ some spec)
        × All
            (GroupReady f r.base.role_info spec.config spec.overrides_spec r.cluster_config)
            spec.role_groups)
  unfolding register_resources register_resource_with_role_group
  webservers-ok_iff =
      let loop =
        register_spec-ok_iff f r.cluster_config (resources_of f r) spec_view r.base.role_info
          r.resources order r.base.spec in
      (
        λ h. loop.0 (
          h.0.resources,
          ap (λ (q : Outcome Done × WebserversReconciler). (q.0, q.1.resources)) h.1,
        ),
        λ h.
            let (ys, e) = loop.1 h in
            (
              record r { resources = ys },
              ap (λ (q : Outcome Done × List Resource). (q.0, record r { resources = q.1 })) e,
            ),
      )

  -- If the webservers have a spec and RegisterResources returns nil, the resources that it adds
  -- are, for each role group of the spec, a config map, a stateful set, a service and a metrics
  -- service, in this order, and no service among them is nil.
  pub webservers-kinds :
      (spec : WebserversSpec) (r' : WebserversReconciler)
      → r.base.spec ≡ some spec
      → register_resources f order r ≡ (ok tt, r')
      → map kind r'.resources
        ≡ map kind r.resources
          ++ copies
              (length spec.role_groups)
              (a_config_map ∷ a_stateful_set ∷ a_service ∷ a_service ∷ [])
  unfolding register_resources register_resource_with_role_group resources_of
  webservers-kinds spec r' there h =
      register_spec-kinds f r.cluster_config (resources_of f r)
        (a_config_map ∷ a_stateful_set ∷ a_service ∷ a_service ∷ []) (λ info replicas c o a s. refl)
        spec_view r.base.role_info r.resources r'.resources order r.base.spec spec there
        (ap (λ (q : Outcome Done × WebserversReconciler). (q.0, q.1.resources)) h)
