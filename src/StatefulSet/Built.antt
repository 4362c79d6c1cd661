-- ===== src/StatefulSet/Built.antt =====
-- internal/controller/common/statefulset.go: what `Build` adds to the stateful set, and what the
-- object is taken from.
use airflow_operator.Prelude.{
  ◌↔◌, String, ◌≡◌, sym, ap, ◌∙◌, ◌≢◌, false, some, List, [], ◌∷◌, ◌++◌, arith, eq_iff, ◌==◌,
}
use airflow_operator.Go.Text.{pos}
use airflow_operator.Go.Outcome.{Outcome, ok, ok-injective}
use airflow_operator.Kube.{EnvVar, config_map, empty_dir}
use airflow_operator.Api.{ClusterConfigSpec}
use airflow_operator.Platform.{Platform, ListsVolumes, added_volumes, Container, Object}
use airflow_operator.Auth.Gather.{MapOrder}
use airflow_operator.StatefulSet.Scripts.{get_main_container_args}
use airflow_operator.StatefulSet.Env.{set_main_container_env}
use airflow_operator.StatefulSet.Builder.{StatefulSetBuilder}
use airflow_operator.StatefulSet.Build.{with_main, get_main_container, build}
use airflow_operator.StatefulSet.Calls.{
  config_and_log, main_container, for_object, for_agent, build_with-object, with_main_lem,
  get_main_container_lem, get_main_container-eq-ok, agent_calls_lem,
}

build-made :
    (p : Platform) (o : MapOrder) (b : StatefulSetBuilder) (main : Container) (object : Object)
    → get_main_container p o b ≡ ok main
    → p.statefulset_object (with_main p main b).base ≡ ok object
    → build p o b ≡ (ok object, for_agent p (with_main p main b))
unfolding build
build-made p o b main object made taken =
    rw (made, taken)
      (ap (λ (left : StatefulSetBuilder). (ok object, left))
        (agent_calls_lem p b.cluster_config (with_main p main b)))

-- If the arguments and the variables of the main container are made and the object is taken from
-- the builder with its three calls, Build returns it.
build-taken :
    (p : Platform) (o : MapOrder) (b : StatefulSetBuilder) (args : String) (envs : List EnvVar)
    (object : Object)
    → get_main_container_args p b.base.role_name ≡ ok args
    → set_main_container_env p o b ≡ ok envs
    → p.statefulset_object (for_object p args envs b).base ≡ ok object
    → build p o b ≡ (ok object, for_agent p (for_object p args envs b))
build-taken p o b args envs object ha he taken =
    let same = with_main_lem p args envs b in
    build-made p o b (main_container p args envs b.base) object
      (get_main_container_lem p o b args envs ha he)
      (ap (λ (c : StatefulSetBuilder). p.statefulset_object c.base) same ∙ taken)
    ∙ ap (λ (c : StatefulSetBuilder). (ok object, for_agent p c)) same

-- An object that Build returns is taken from that builder.
build-parts :
    (p : Platform) (o : MapOrder) (b : StatefulSetBuilder) (object : Object)
    → (build p o b).0 ≡ ok object
    → (args : String) × (envs : List EnvVar) × (get_main_container_args p b.base.role_name
        ≡ ok args)
      × (set_main_container_env p o b ≡ ok envs)
      × (p.statefulset_object (for_object p args envs b).base ≡ ok object)
unfolding build
build-parts p o b object h =
    let (main, made, taken) = build_with-object p (get_main_container p o b) b object h in
    let (args, envs, ha, he) = get_main_container-eq-ok p o b main made in
    let same : main_container p args envs b.base ≡ main =
      ok-injective (sym (get_main_container_lem p o b args envs ha he) ∙ made) in
    (
      args,
      envs,
      ha,
      he,
      ap (λ (c : StatefulSetBuilder). p.statefulset_object c.base)
            (sym (with_main_lem p args envs b) ∙ ap (λ m. with_main p m b) same)
          ∙ taken,
    )

-- Build returns an object and leaves a builder exactly if the arguments and the variables of the
-- main container are made; the object is that of the base builder with three calls more, which add
-- the main container with them, the metric container, and the volumes of the configuration and of
-- the logs; and the builder that is left has these three and the calls for the log agent, which
-- are made exactly if a vector aggregator is named.
pub build-object :
    (p : Platform) (o : MapOrder) (b after : StatefulSetBuilder) (object : Object)
    → (build p o b ≡ (ok object, after)) ↔ (
        (args : String) × (envs : List EnvVar) × (get_main_container_args p b.base.role_name
          ≡ ok args)
        × (set_main_container_env p o b ≡ ok envs)
        × (p.statefulset_object (for_object p args envs b).base ≡ ok object)
        × (after ≡ for_agent p (for_object p args envs b)))
build-object p o b after object = (
  λ h.
      let (args, envs, ha, he, taken) =
        build-parts p o b object (ap (λ (r : Outcome Object × StatefulSetBuilder). r.0) h) in
      let made = build-taken p o b args envs object ha he taken in
      (
        args,
        envs,
        ha,
        he,
        taken,
        ap (λ (r : Outcome Object × StatefulSetBuilder). r.1) (sym h ∙ made),
      ),
  λ h.
      let (args, envs, ha, he, taken, same) = h in
      build-taken p o b args envs object ha he taken
      ∙ ap (λ (left : StatefulSetBuilder). (ok object, left)) (sym same),
)

for_agent-volumes :
    (p : Platform) (args : String) (envs : List EnvVar) (b : StatefulSetBuilder)
    (c : ClusterConfigSpec)
    → ListsVolumes p
    → b.base.calls ≡ []
    → b.cluster_config ≡ some c
    → c.vector_aggregator_config_map_name ≢ ""
    → added_volumes (for_agent p (for_object p args envs b)).base.calls
      ≡ config_and_log b.base.name ++ config_and_log b.base.name
for_agent-volumes p args envs b c lists fresh configured named =
    let test : (c.vector_aggregator_config_map_name == "") ≡ false =
      ground (arith, eq_iff c.vector_aggregator_config_map_name "") in
    rw (fresh, configured, test, lists.listed)

-- If the base builder lists the volumes that were added, Build of a fresh builder returns an
-- object and a vector aggregator is named, then after Build the volume config of the config map
-- named like the stateful set and the volume log, an empty directory of 500Mi, have each been
-- added twice, and no others.
pub build-volumes :
    (p : Platform) (o : MapOrder) (b : StatefulSetBuilder) (object : Object) (c : ClusterConfigSpec)
    → ListsVolumes p
    → (build p o b).0 ≡ ok object
    → b.base.calls ≡ []
    → b.cluster_config ≡ some c
    → c.vector_aggregator_config_map_name ≢ ""
    → added_volumes (build p o b).1.base.calls
      ≡ record { name = "config"; source = config_map (pos 420) b.base.name }
        ∷ record { name = "log"; source = empty_dir "500Mi" }
        ∷ record { name = "config"; source = config_map (pos 420) b.base.name }
        ∷ record { name = "log"; source = empty_dir "500Mi" }
        ∷ []
build-volumes p o b object c lists h fresh configured named =
    let (args, envs, _, _, _, left) =
      (build-object p o b (build p o b).1 object).0 (ap (λ r. (r, (build p o b).1)) h) in
    ap (λ (r : StatefulSetBuilder). added_volumes r.base.calls) left
    ∙ for_agent-volumes p args envs b c lists fresh configured named
