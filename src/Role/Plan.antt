-- ===== src/Role/Plan.antt =====
-- internal/controller/role, described without its code: the objects that a role has for each of its
-- role groups, by their kind and their name.
use mathlib.Core.List.{flat_map}
use airflow_operator.Prelude.{String, none, some, List, map}
use airflow_operator.Api.{RoleGroupSpec}
use airflow_operator.Framework.{Framework, RoleInfo, RoleGroupInfo}
use airflow_operator.Role.Groups.{
  Resource, config_map_resource, stateful_set_resource, service_resource,
}
use airflow_operator.Role.Steps.{Kind, a_config_map, a_stateful_set, a_service, no_service}

-- An object of the API server, within a namespace.
pub record Identity : Type 0 where
  pub object_kind : Kind
  pub object_name : String

-- The object that a resource stands for.
abbrev pub identity : Resource → Identity
identity (config_map_resource c) = record { object_kind = a_config_map; object_name = c.base.name }
identity (stateful_set_resource s) = record {
  object_kind = a_stateful_set;
  object_name = s.builder.base.name;
}
identity (service_resource none) = record { object_kind = no_service; object_name = "" }
identity (service_resource (some s)) = record { object_kind = a_service; object_name = s.full_name }

-- All objects of a role group have its full name.
abbrev pub group_plan : Framework → List Kind → RoleGroupInfo → List Identity
group_plan f kinds info =
    map (λ k. record { object_kind = k; object_name = f.group_full_name info }) kinds

abbrev pub role_plan :
    Framework → List Kind → RoleInfo → List (String × RoleGroupSpec) → List Identity
role_plan f kinds role_info =
    flat_map (λ g. group_plan f kinds (record { role_info = role_info; role_group_name = g.0 }))
