-- ===== src/DeepCopy/Cells.antt =====
-- The cells of the memory of zz_generated.deepcopy.go: one kind for every type that the code allocates
-- by `new` or `make`, or that a caller allocates for it.
use airflow_operator.Prelude.{String, none, some, List, refl}
use airflow_operator.Go.Text.{ℤ}
use airflow_operator.Api.{ImageSpec, ClusterOperationSpec}
use airflow_operator.DeepCopy.Memory.{Stored}
use airflow_operator.DeepCopy.Types.{
  Foreign, AuthenticationStruct, DagsGitSyncStruct, ClusterConfigStruct, ConfigStruct,
  RoleGroupStruct, CeleryExecutorsStruct, KubernetesExecutorsStruct, SchedulersStruct,
  WebserversStruct, SpecStruct, AirflowClusterStatus, ClusterStruct, ClusterListStruct,
}

pub data Cell (X : Foreign) : Type 0 where
  image_cell : ImageSpec → Cell X
  operation_cell : ClusterOperationSpec → Cell X
  -- An `int8`, an `int16` or an `int32`.
  number_cell : ℤ → Cell X
  texts_cell : List (String × String) → Cell X
  authentication_cell : AuthenticationStruct → Cell X
  authentications_cell : List AuthenticationStruct → Cell X
  git_sync_cell : DagsGitSyncStruct → Cell X
  git_syncs_cell : List DagsGitSyncStruct → Cell X
  cluster_config_cell : ClusterConfigStruct → Cell X
  config_cell : ConfigStruct → Cell X
  role_group_cell : RoleGroupStruct → Cell X
  role_groups_cell : List (String × RoleGroupStruct) → Cell X
  celery_executors_cell : CeleryExecutorsStruct → Cell X
  kubernetes_executors_cell : KubernetesExecutorsStruct → Cell X
  schedulers_cell : SchedulersStruct → Cell X
  webservers_cell : WebserversStruct → Cell X
  spec_cell : SpecStruct → Cell X
  status_cell : AirflowClusterStatus → Cell X
  cluster_cell : ClusterStruct X → Cell X
  clusters_cell : List (ClusterStruct X) → Cell X
  cluster_list_cell : ClusterListStruct X → Cell X
  oidc_cell : X.Oidc → Cell X
  overrides_cell : X.Overrides → Cell X
  role_config_cell : X.RoleConfig → Cell X
  role_group_config_cell : X.RoleGroupConfig → Cell X
  raw_extensions_cell : List X.RawExtension → Cell X
  own_cell : X.Own → Cell X

module _ {X : Foreign} where
  instance abbrev pub image_stored : Stored (Cell X) ImageSpec
  image_stored = record {
    inj = image_cell;
    proj = λ c. elim c [ image_cell a ↦ some a | _ ↦ none ];
    proj-inj = λ a. refl;
  }

  instance abbrev pub operation_stored : Stored (Cell X) ClusterOperationSpec
  operation_stored = record {
    inj = operation_cell;
    proj = λ c. elim c [ operation_cell a ↦ some a | _ ↦ none ];
    proj-inj = λ a. refl;
  }

  instance abbrev pub number_stored : Stored (Cell X) ℤ
  number_stored = record {
    inj = number_cell;
    proj = λ c. elim c [ number_cell a ↦ some a | _ ↦ none ];
    proj-inj = λ a. refl;
  }

  instance abbrev pub texts_stored : Stored (Cell X) (List (String × String))
  texts_stored = record {
    inj = texts_cell;
    proj = λ c. elim c [ texts_cell a ↦ some a | _ ↦ none ];
    proj-inj = λ a. refl;
  }

  instance abbrev pub authentication_stored : Stored (Cell X) AuthenticationStruct
  authentication_stored = record {
    inj = authentication_cell;
    proj = λ c. elim c [ authentication_cell a ↦ some a | _ ↦ none ];
    proj-inj = λ a. refl;
  }

  instance abbrev pub authentications_stored : Stored (Cell X) (List AuthenticationStruct)
  authentications_stored = record {
    inj = authentications_cell;
    proj = λ c. elim c [ authentications_cell a ↦ some a | _ ↦ none ];
    proj-inj = λ a. refl;
  }

  instance abbrev pub git_sync_stored : Stored (Cell X) DagsGitSyncStruct
  git_sync_stored = record {
    inj = git_sync_cell;
    proj = λ c. elim c [ git_sync_cell a ↦ some a | _ ↦ none ];
    proj-inj = λ a. refl;
  }

  instance abbrev pub git_syncs_stored : Stored (Cell X) (List DagsGitSyncStruct)
  git_syncs_stored = record {
    inj = git_syncs_cell;
    proj = λ c. elim c [ git_syncs_cell a ↦ some a | _ ↦ none ];
    proj-inj = λ a. refl;
  }

  instance abbrev pub cluster_config_stored : Stored (Cell X) ClusterConfigStruct
  cluster_config_stored = record {
    inj = cluster_config_cell;
    proj = λ c. elim c [ cluster_config_cell a ↦ some a | _ ↦ none ];
    proj-inj = λ a. refl;
  }

  instance abbrev pub config_stored : Stored (Cell X) ConfigStruct
  config_stored = record {
    inj = config_cell;
    proj = λ c. elim c [ config_cell a ↦ some a | _ ↦ none ];
    proj-inj = λ a. refl;
  }

  instance abbrev pub role_group_stored : Stored (Cell X) RoleGroupStruct
  role_group_stored = record {
    inj = role_group_cell;
    proj = λ c. elim c [ role_group_cell a ↦ some a | _ ↦ none ];
    proj-inj = λ a. refl;
  }

  instance abbrev pub role_groups_stored : Stored (Cell X) (List (String × RoleGroupStruct))
  role_groups_stored = record {
    inj = role_groups_cell;
    proj = λ c. elim c [ role_groups_cell a ↦ some a | _ ↦ none ];
    proj-inj = λ a. refl;
  }

  instance abbrev pub celery_executors_stored : Stored (Cell X) CeleryExecutorsStruct
  celery_executors_stored = record {
    inj = celery_executors_cell;
    proj = λ c. elim c [ celery_executors_cell a ↦ some a | _ ↦ none ];
    proj-inj = λ a. refl;
  }

  instance abbrev pub kubernetes_executors_stored : Stored (Cell X) KubernetesExecutorsStruct
  kubernetes_executors_stored = record {
    inj = kubernetes_executors_cell;
    proj = λ c. elim c [ kubernetes_executors_cell a ↦ some a | _ ↦ none ];
    proj-inj = λ a. refl;
  }

  instance abbrev pub schedulers_stored : Stored (Cell X) SchedulersStruct
  schedulers_stored = record {
    inj = schedulers_cell;
    proj = λ c. elim c [ schedulers_cell a ↦ some a | _ ↦ none ];
    proj-inj = λ a. refl;
  }

  instance abbrev pub webservers_stored : Stored (Cell X) WebserversStruct
  webservers_stored = record {
    inj = webservers_cell;
    proj = λ c. elim c [ webservers_cell a ↦ some a | _ ↦ none ];
    proj-inj = λ a. refl;
  }

  instance abbrev pub spec_stored : Stored (Cell X) SpecStruct
  spec_stored = record {
    inj = spec_cell;
    proj = λ c. elim c [ spec_cell a ↦ some a | _ ↦ none ];
    proj-inj = λ a. refl;
  }

  instance abbrev pub status_stored : Stored (Cell X) AirflowClusterStatus
  status_stored = record {
    inj = status_cell;
    proj = λ c. elim c [ status_cell a ↦ some a | _ ↦ none ];
    proj-inj = λ a. refl;
  }

  instance abbrev pub cluster_stored : Stored (Cell X) (ClusterStruct X)
  cluster_stored = record {
    inj = cluster_cell;
    proj = λ c. elim c [ cluster_cell a ↦ some a | _ ↦ none ];
    proj-inj = λ a. refl;
  }

  instance abbrev pub clusters_stored : Stored (Cell X) (List (ClusterStruct X))
  clusters_stored = record {
    inj = clusters_cell;
    proj = λ c. elim c [ clusters_cell a ↦ some a | _ ↦ none ];
    proj-inj = λ a. refl;
  }

  instance abbrev pub cluster_list_stored : Stored (Cell X) (ClusterListStruct X)
  cluster_list_stored = record {
    inj = cluster_list_cell;
    proj = λ c. elim c [ cluster_list_cell a ↦ some a | _ ↦ none ];
    proj-inj = λ a. refl;
  }

  instance abbrev pub oidc_stored : Stored (Cell X) X.Oidc
  oidc_stored = record {
    inj = oidc_cell;
    proj = λ c. elim c [ oidc_cell a ↦ some a | _ ↦ none ];
    proj-inj = λ a. refl;
  }

  instance abbrev pub overrides_stored : Stored (Cell X) X.Overrides
  overrides_stored = record {
    inj = overrides_cell;
    proj = λ c. elim c [ overrides_cell a ↦ some a | _ ↦ none ];
    proj-inj = λ a. refl;
  }

  instance abbrev pub role_config_stored : Stored (Cell X) X.RoleConfig
  role_config_stored = record {
    inj = role_config_cell;
    proj = λ c. elim c [ role_config_cell a ↦ some a | _ ↦ none ];
    proj-inj = λ a. refl;
  }

  instance abbrev pub role_group_config_stored : Stored (Cell X) X.RoleGroupConfig
  role_group_config_stored = record {
    inj = role_group_config_cell;
    proj = λ c. elim c [ role_group_config_cell a ↦ some a | _ ↦ none ];
    proj-inj = λ a. refl;
  }

  instance abbrev pub raw_extensions_stored : Stored (Cell X) (List X.RawExtension)
  raw_extensions_stored = record {
    inj = raw_extensions_cell;
    proj = λ c. elim c [ raw_extensions_cell a ↦ some a | _ ↦ none ];
    proj-inj = λ a. refl;
  }
