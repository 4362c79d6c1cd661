-- ===== src/StatefulSet/Calls.antt =====
-- internal/controller/common/statefulset.go: the calls of `Build`, written out, and the builders that
-- they leave.
use airflow_operator.Prelude.{
  append_three, append_assoc, append-nil, String, ◌≡◌, refl, ap, Option, none, some, List, [], ◌∷◌,
  ◌++◌, ◌==◌, Bool-cases, inl, inr, if◌then◌else◌,
}
use airflow_operator.Go.Text.{pos}
use airflow_operator.Go.Outcome.{Outcome, ok, err, panic, >>=-eq-ok}
use airflow_operator.Kube.{EnvVar, Volume, config_map, empty_dir}
use airflow_operator.Api.{ClusterConfigSpec}
use airflow_operator.Platform.{
  Platform, Container, StatefulSetCall, add_container, add_volumes, StatefulSetBase, Object,
}
use airflow_operator.Auth.Gather.{MapOrder}
use airflow_operator.StatefulSet.Scripts.{get_main_container_args, metric_script}
use airflow_operator.StatefulSet.Env.{set_main_container_env}
use airflow_operator.StatefulSet.Builder.{StatefulSetBuilder}
use airflow_operator.StatefulSet.Build.{
  get_main_container_volume_mount, get_metric_container, has_vector, with_main, with_vector,
  get_main_container, finish, build_with,
}

-- The volumes of the configuration and of the logs, of a stateful set of that name.
abbrev pub config_and_log : String → List Volume
config_and_log name =
    record { name = "config"; source = config_map (pos 420) name }
    ∷ record { name = "log"; source = empty_dir "500Mi" }
    ∷ []

abbrev pub main_container :
    Platform → (args : String) (envs : List EnvVar) → StatefulSetBase → Container
main_container p args envs base = record {
  name = base.role_name;
  image = base.image;
  command = "/bin/bash" ∷ "-x" ∷ "-euo" ∷ "pipefail" ∷ "-c" ∷ [];
  args = args ∷ [];
  env = envs;
  volume_mounts =
      record { name = "config"; mount_path = p.kubedoop_config_dir_mount }
      ∷ record { name = "log"; mount_path = p.kubedoop_log_dir }
      ∷ [];
}

-- The containers and the volumes that the object has, in their order.
abbrev pub object_calls :
    Platform → (args : String) (envs : List EnvVar) → StatefulSetBase → List StatefulSetCall
object_calls p args envs base =
    add_container (main_container p args envs base)
    ∷ add_container (record {
      name = "metric";
      image = base.image;
      command = "/bin/bash" ∷ "-x" ∷ "-euo" ∷ "pipefail" ∷ "-c" ∷ [];
      args = p.indent_tab_4_spaces (metric_script p) ∷ [];
      env = [];
      volume_mounts = [];
    })
    ∷ add_volumes (config_and_log base.name)
    ∷ []

-- What a base builder gets after the object is taken: nothing, or the container of the log agent
-- and the volumes that the builder lists by then.
abbrev pub agent_calls :
    Platform → Option ClusterConfigSpec → StatefulSetBase → List StatefulSetCall
agent_calls p none base = []
agent_calls p (some c) base =
    let agent = add_container (p.vector_container base.name "log" base.image) in
    if c.vector_aggregator_config_map_name == ""
    then []
    else agent
      ∷ add_volumes (p.statefulset_volumes (record base { calls = base.calls ++ agent ∷ [] }))
      ∷ []

abbrev pub with_calls : List StatefulSetCall → StatefulSetBuilder → StatefulSetBuilder
with_calls cs b = record b { base = record b.base { calls = b.base.calls ++ cs } }

pub finish-object :
    (p : Platform) (r : Outcome Object) (b : StatefulSetBuilder) (object : Object)
    → (finish p r b).0 ≡ ok object
    → r ≡ ok object
unfolding finish
finish-object p (ok x) b object h = h
finish-object p (err e) b object h = h
finish-object p panic b object h = h

pub build_with-object :
    (p : Platform) (r : Outcome Container) (b : StatefulSetBuilder) (object : Object)
    → (build_with p r b).0 ≡ ok object
    → (main : Container) × (r ≡ ok main)
      × (p.statefulset_object (with_main p main b).base ≡ ok object)
unfolding build_with
build_with-object p (ok main) b object h =
    (main, refl, finish-object p _ (with_main p main b) object h)
build_with-object p (err e) b object h = absurd cc
build_with-object p panic b object h = absurd cc

-- The builder that the object is taken from, and the one that is left.
abbrev pub for_object :
    Platform → (args : String) (envs : List EnvVar) → StatefulSetBuilder → StatefulSetBuilder
for_object p args envs b = with_calls (object_calls p args envs b.base) b

abbrev pub for_agent : Platform → StatefulSetBuilder → StatefulSetBuilder
for_agent p b = with_calls (agent_calls p b.cluster_config b.base) b

pub with_main_lem :
    (p : Platform) (args : String) (envs : List EnvVar) (b : StatefulSetBuilder)
    → with_main p (main_container p args envs b.base) b ≡ for_object p args envs b
unfolding with_main get_metric_container
with_main_lem p args envs b =
    ap (λ (cs : List StatefulSetCall). record b { base = record b.base { calls = cs } })
      (append_three b.base.calls _ _ _)

pub get_main_container_lem :
    (p : Platform) (o : MapOrder) (b : StatefulSetBuilder) (args : String) (envs : List EnvVar)
    → get_main_container_args p b.base.role_name ≡ ok args
    → set_main_container_env p o b ≡ ok envs
    → get_main_container p o b ≡ ok (main_container p args envs b.base)
unfolding get_main_container get_main_container_volume_mount
get_main_container_lem p o b args envs ha he = rw (ha, he)

pub get_main_container-eq-ok :
    (p : Platform) (o : MapOrder) (b : StatefulSetBuilder) (main : Container)
    → get_main_container p o b ≡ ok main
    → (args : String) × (envs : List EnvVar) × (get_main_container_args p b.base.role_name
        ≡ ok args)
      × (set_main_container_env p o b ≡ ok envs)
unfolding get_main_container
get_main_container-eq-ok p o b main h =
    let (args, ha, h₁) = >>=-eq-ok (get_main_container_args p b.base.role_name) _ h in
    let (envs, he, _) = >>=-eq-ok (set_main_container_env p o b) _ h₁ in (args, envs, ha, he)

pub agent_calls_lem :
    (p : Platform) (c : Option ClusterConfigSpec) (b : StatefulSetBuilder)
    → (if has_vector c then with_vector p b else b) ≡ with_calls (agent_calls p c b.base) b
unfolding with_vector has_vector
agent_calls_lem p none b = rw append-nil
agent_calls_lem p (some c) b = elim (Bool-cases (c.vector_aggregator_config_map_name == "")) [
  | inl e ↦ rw (e, append-nil)
  | inr e ↦ rw (e, append_assoc)
]
