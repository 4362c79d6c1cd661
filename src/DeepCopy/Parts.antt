-- ===== src/DeepCopy/Parts.antt =====
-- The fields of each struct that `DeepCopyInto` of zz_generated.deepcopy.go replaces after
-- `*out = *in`, in its order, and the struct with other ones.
use airflow_operator.DeepCopy.Memory.{Pointer}
use airflow_operator.DeepCopy.Types.{
  Foreign, DagsGitSyncStruct, ClusterConfigStruct, RoleGroupStruct, CeleryExecutorsStruct,
  KubernetesExecutorsStruct, SchedulersStruct, WebserversStruct, SpecStruct, ClusterStruct,
  ClusterListStruct, AuthenticationStruct, ConfigStruct,
}

abbrev pub Two : Type 0
Two = Pointer × Pointer

abbrev pub Three : Type 0
Three = Pointer × Two

abbrev pub Four : Type 0
Four = Pointer × Three

abbrev pub Seven : Type 0
Seven = Pointer × (Pointer × (Pointer × Four))

abbrev pub authentication_parts : AuthenticationStruct → Pointer
authentication_parts in_ = in_.oidc

abbrev pub with_authentication : AuthenticationStruct → Pointer → AuthenticationStruct
with_authentication in_ f = record in_ { oidc = f }

abbrev pub git_sync_parts : DagsGitSyncStruct → Three
git_sync_parts in_ = (in_.depth, (in_.git_sync_conf, in_.wait))

abbrev pub with_git_sync : DagsGitSyncStruct → Three → DagsGitSyncStruct
with_git_sync in_ f = record in_ { depth = f.0; git_sync_conf = f.1.0; wait = f.1.1 }

abbrev pub cluster_config_parts : ClusterConfigStruct → Four
cluster_config_parts in_ =
    (in_.authentication, (in_.dags_git_sync, (in_.volumes, in_.volume_mounts)))

abbrev pub with_cluster_config : ClusterConfigStruct → Four → ClusterConfigStruct
with_cluster_config in_ f = record in_ {
  authentication = f.0;
  dags_git_sync = f.1.0;
  volumes = f.1.1.0;
  volume_mounts = f.1.1.1;
}

abbrev pub config_parts : ConfigStruct → Pointer
config_parts in_ = in_.role_group_config_spec

abbrev pub with_config : ConfigStruct → Pointer → ConfigStruct
with_config in_ f = record in_ { role_group_config_spec = f }

abbrev pub role_group_parts : RoleGroupStruct → Three
role_group_parts in_ = (in_.replicas, (in_.config, in_.overrides_spec))

abbrev pub with_role_group : RoleGroupStruct → Three → RoleGroupStruct
with_role_group in_ f = record in_ { replicas = f.0; config = f.1.0; overrides_spec = f.1.1 }

abbrev pub celery_executors_parts : CeleryExecutorsStruct → Four
celery_executors_parts in_ = (in_.role_groups, (in_.role_config, (in_.config, in_.overrides_spec)))

abbrev pub with_celery_executors : CeleryExecutorsStruct → Four → CeleryExecutorsStruct
with_celery_executors in_ f = record in_ {
  role_groups = f.0;
  role_config = f.1.0;
  config = f.1.1.0;
  overrides_spec = f.1.1.1;
}

abbrev pub kubernetes_executors_parts : KubernetesExecutorsStruct → Four
kubernetes_executors_parts in_ =
    (in_.role_config, (in_.config, (in_.overrides_spec, in_.role_group_config_spec)))

abbrev pub with_kubernetes_executors : KubernetesExecutorsStruct → Four → KubernetesExecutorsStruct
with_kubernetes_executors in_ f = record in_ {
  role_config = f.0;
  config = f.1.0;
  overrides_spec = f.1.1.0;
  role_group_config_spec = f.1.1.1;
}

abbrev pub schedulers_parts : SchedulersStruct → Four
schedulers_parts in_ = (in_.role_groups, (in_.role_config, (in_.config, in_.overrides_spec)))

abbrev pub with_schedulers : SchedulersStruct → Four → SchedulersStruct
with_schedulers in_ f = record in_ {
  role_groups = f.0;
  role_config = f.1.0;
  config = f.1.1.0;
  overrides_spec = f.1.1.1;
}

abbrev pub webservers_parts : WebserversStruct → Four
webservers_parts in_ = (in_.role_groups, (in_.role_config, (in_.config, in_.overrides_spec)))

abbrev pub with_webservers : WebserversStruct → Four → WebserversStruct
with_webservers in_ f = record in_ {
  role_groups = f.0;
  role_config = f.1.0;
  config = f.1.1.0;
  overrides_spec = f.1.1.1;
}

abbrev pub spec_parts : SpecStruct → Seven
spec_parts in_ = (
  in_.image,
  (
    in_.cluster_operation,
    (
      in_.cluster_config,
      (in_.celery_executors, (in_.kubernetes_executors, (in_.schedulers, in_.webservers))),
    ),
  ),
)

abbrev pub with_spec : SpecStruct → Seven → SpecStruct
with_spec in_ f = record in_ {
  image = f.0;
  cluster_operation = f.1.0;
  cluster_config = f.1.1.0;
  celery_executors = f.1.1.1.0;
  kubernetes_executors = f.1.1.1.1.0;
  schedulers = f.1.1.1.1.1.0;
  webservers = f.1.1.1.1.1.1;
}

abbrev pub cluster_parts : {X : Foreign} → ClusterStruct X → X.ObjectMeta × SpecStruct
cluster_parts in_ = (in_.object_meta, in_.spec)

abbrev pub with_cluster :
    {X : Foreign} → ClusterStruct X → X.ObjectMeta × SpecStruct → ClusterStruct X
with_cluster in_ f = record in_ { object_meta = f.0; spec = f.1 }

abbrev pub cluster_list_parts : {X : Foreign} → ClusterListStruct X → X.ListMeta × Pointer
cluster_list_parts in_ = (in_.list_meta, in_.items)

abbrev pub with_cluster_list :
    {X : Foreign} → ClusterListStruct X → X.ListMeta × Pointer → ClusterListStruct X
with_cluster_list in_ f = record in_ { list_meta = f.0; items = f.1 }
