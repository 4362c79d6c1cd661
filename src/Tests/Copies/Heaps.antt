-- ===== src/Tests/Copies/Heaps.antt =====
-- A cluster and a list of clusters in the memory of zz_generated.deepcopy.go, with what they stand for.
use airflow_operator.Prelude.{true, false, ◌≡◌, refl, none, some, [], ◌∷◌, ◌++◌}
use airflow_operator.Go.Text.{pos}
use airflow_operator.Api
use airflow_operator.Api.{
  OidcSpec, OverridesSpec, RoleConfigSpec, RoleGroupConfigSpec, AirflowClusterSpec, ImageSpec,
}
use airflow_operator.DeepCopy.Memory.{Heap, cell_at}
use airflow_operator.DeepCopy.Views.{
  read_pointer, read_each, read_entries, read_flat, read_fields, ◌⊕◌, read_slice, read_map,
}
use airflow_operator.DeepCopy.Types.{empty_status, ClusterStruct}
use airflow_operator.DeepCopy.ViewTypes.{ClusterView, ClusterListView}
use airflow_operator.DeepCopy.Cells.{
  Cell, own_cell, number_cell, texts_cell, authentications_cell, git_syncs_cell,
  cluster_config_cell, config_cell, role_groups_cell, celery_executors_cell, cluster_cell,
  clusters_cell, cluster_list_cell, oidc_cell, overrides_cell, role_group_config_cell, image_stored,
  operation_stored, number_stored, texts_stored, authentication_stored, authentications_stored,
  git_sync_stored, git_syncs_stored, cluster_config_stored, config_stored, role_group_stored,
  role_groups_stored, celery_executors_stored, kubernetes_executors_stored, schedulers_stored,
  webservers_stored, spec_stored, status_stored, cluster_stored, clusters_stored,
  cluster_list_stored, oidc_stored, overrides_stored, role_config_stored, role_group_config_stored,
  raw_extensions_stored,
}
use airflow_operator.DeepCopy.Reads.{
  authentication_read, config_read, git_sync_read, cluster_config_read, role_group_read,
  celery_executors_read, spec_read, cluster_read, cluster_list_read,
}
use airflow_operator.Tests.Copies.Shapes.{shapes, views}

abbrev pub cluster_struct : ClusterStruct shapes
cluster_struct = record {
  type_meta = record { kind = "AirflowCluster"; api_version = "airflow.kubedoop.dev/v1alpha1" };
  object_meta = "airflow";
  spec = record {
    image = none;
    cluster_operation = none;
    cluster_config = some 6;
    celery_executors = some 12;
    kubernetes_executors = none;
    schedulers = none;
    webservers = none;
  };
  status = empty_status;
}

abbrev pub old_heap : Heap (Cell shapes)
old_heap =
    own_cell ("openid" ∷ [])
    ∷ oidc_cell ("oidc-secret", some 0)
    ∷ authentications_cell (
        record {
          authentication_class = "keycloak";
          oidc = some 1;
          sync_roles_at = "Login";
          user_registration = true;
          user_registration_role = "Public";
        }
        ∷ [])
    ∷ number_cell (pos 5)
    ∷ texts_cell (("--rev", "HEAD") ∷ [])
    ∷ git_syncs_cell (
        record {
          branch = "main";
          crdentials_secret = "git";
          depth = some 3;
          git_folder = "dags";
          git_sync_conf = some 4;
          repo = "https://example.com/dags";
          wait = none;
        }
        ∷ [])
    ∷ cluster_config_cell (record {
      authentication = some 2;
      credentials = "creds";
      dags_git_sync = some 5;
      expose_config = true;
      load_examples = false;
      listener_class = "cluster-internal";
      vector_aggregator_config_map_name = "";
      volumes = none;
      volume_mounts = none;
    })
    ∷ role_group_config_cell (record { logging = none; others = "resources" })
    ∷ config_cell (record { role_group_config_spec = some 7 })
    ∷ number_cell (pos 2)
    ∷ overrides_cell (record { text = "env" })
    ∷ role_groups_cell
        (("default", record { replicas = some 9; config = some 8; overrides_spec = some 10 }) ∷ [])
    ∷ celery_executors_cell (record {
      role_groups = some 11;
      role_config = none;
      config = some 8;
      overrides_spec = none;
    })
    ∷ cluster_cell cluster_struct
    ∷ []

abbrev pub config_value : Api.ConfigSpec
config_value = record {
  role_group_config_spec = some (record { logging = none; others = "resources" });
}

-- What the cluster at 13 stands for.
abbrev pub cluster_value : ClusterView
cluster_value = record {
  type_meta = record { kind = "AirflowCluster"; api_version = "airflow.kubedoop.dev/v1alpha1" };
  object_meta = "airflow";
  spec = record {
    image = none;
    cluster_operation = none;
    cluster_config = some (record {
      authentication = some (
          record {
            authentication_class = "keycloak";
            oidc = some (record {
              client_credentials_secret = "oidc-secret";
              extra_scopes = "openid" ∷ [];
            });
            sync_roles_at = "Login";
            user_registration = true;
            user_registration_role = "Public";
          }
          ∷ []);
      credentials = "creds";
      dags_git_sync = some (
          record {
            branch = "main";
            crdentials_secret = "git";
            depth = some (pos 5);
            git_folder = "dags";
            git_sync_conf = some (("--rev", "HEAD") ∷ []);
            repo = "https://example.com/dags";
            wait = none;
          }
          ∷ []);
      expose_config = true;
      load_examples = false;
      listener_class = "cluster-internal";
      vector_aggregator_config_map_name = "";
      volumes = none;
      volume_mounts = none;
    });
    celery_executors = some (record {
      role_groups = some (
          (
            "default",
            record {
              replicas = some (pos 2);
              config = some config_value;
              overrides_spec = some (record { text = "env" });
            },
          )
          ∷ []);
      role_config = none;
      config = some config_value;
      overrides_spec = none;
    });
    kubernetes_executors = none;
    schedulers = none;
    webservers = none;
  };
  status = empty_status;
}

pub cluster_reads : read_pointer (cluster_read views) old_heap (some 13) ≡ some (some cluster_value)
unfolding cell_at read_pointer read_each read_entries read_flat read_fields read_slice read_map ◌⊕◌
    cluster_read spec_read cluster_config_read authentication_read git_sync_read
    celery_executors_read role_group_read config_read
cluster_reads = refl

-- A list of one cluster, at 15.
abbrev pub list_heap : Heap (Cell shapes)
list_heap =
    old_heap
    ++ clusters_cell (cluster_struct ∷ [])
      ∷ cluster_list_cell (record {
        type_meta = record {
          kind = "AirflowClusterList";
          api_version = "airflow.kubedoop.dev/v1alpha1";
        };
        list_meta = "1";
        items = some 14;
      })
      ∷ []

abbrev pub list_value : ClusterListView
list_value = record {
  type_meta = record { kind = "AirflowClusterList"; api_version = "airflow.kubedoop.dev/v1alpha1" };
  list_meta = "1";
  items = some (cluster_value ∷ []);
}

pub list_reads : read_pointer (cluster_list_read views) list_heap (some 15) ≡ some (some list_value)
unfolding cell_at read_pointer read_each read_entries read_flat read_fields read_slice read_map ◌⊕◌
    cluster_list_read cluster_read spec_read cluster_config_read authentication_read git_sync_read
    celery_executors_read role_group_read config_read
list_reads = refl
