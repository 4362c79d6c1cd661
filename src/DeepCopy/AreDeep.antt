-- ===== src/DeepCopy/AreDeep.antt =====
-- Every copy of zz_generated.deepcopy.go is deep, as far as those of operator-go and Kubernetes are.
use airflow_operator.Prelude.{refl}
use airflow_operator.DeepCopy.Types.{Foreign}
use airflow_operator.DeepCopy.Cells.{
  image_stored, operation_stored, number_stored, texts_stored, authentication_stored,
  authentications_stored, git_sync_stored, git_syncs_stored, cluster_config_stored, config_stored,
  role_group_stored, role_groups_stored, celery_executors_stored, kubernetes_executors_stored,
  schedulers_stored, webservers_stored, spec_stored, status_stored, cluster_stored, clusters_stored,
  cluster_list_stored, oidc_stored, overrides_stored, role_config_stored, role_group_config_stored,
  raw_extensions_stored,
}
use airflow_operator.DeepCopy.Parts.{
  authentication_parts, with_authentication, git_sync_parts, with_git_sync, cluster_config_parts,
  with_cluster_config, config_parts, with_config, role_group_parts, with_role_group,
  celery_executors_parts, with_celery_executors, kubernetes_executors_parts,
  with_kubernetes_executors, schedulers_parts, with_schedulers, webservers_parts, with_webservers,
  spec_parts, with_spec, cluster_parts, with_cluster, cluster_list_parts, with_cluster_list,
}
use airflow_operator.DeepCopy.Deep.{IsDeep}
use airflow_operator.DeepCopy.Loops.{flat-IsDeep, new_copy-IsDeep}
use airflow_operator.DeepCopy.Fields.{
  ⊗-IsDeep, fields-IsDeep, slice-IsDeep, map-IsDeep, copy_of-IsDeep,
}
use airflow_operator.DeepCopy.Values.{
  make_authentication, make_config, make_git_sync, make_cluster_config, make_role_group,
  make_celery_executors, make_kubernetes_executors, make_schedulers, make_webservers, make_spec,
  make_cluster, make_cluster_list,
}
use airflow_operator.DeepCopy.Reads.{
  ForeignViews, authentication_read, config_read, git_sync_read, cluster_config_read,
  role_group_read, celery_executors_read, kubernetes_executors_read, schedulers_read,
  webservers_read, spec_read, cluster_read, cluster_list_read,
}
use airflow_operator.DeepCopy.Copies.{
  ForeignCopies, authentication_deep_copy_into, config_deep_copy_into, git_sync_deep_copy_into,
  cluster_config_deep_copy_into, role_group_deep_copy_into, celery_executors_deep_copy_into,
  kubernetes_executors_deep_copy_into, schedulers_deep_copy_into, webservers_deep_copy_into,
  spec_deep_copy_into, cluster_deep_copy_into, cluster_list_deep_copy_into,
}

-- The copies of operator-go and of Kubernetes are deep.
pub record ForeignAreDeep {X : Foreign} (G : ForeignViews X) (F : ForeignCopies X) : Type 0 where
  pub oidc-IsDeep : IsDeep G.oidc_read F.oidc_deep_copy_into
  pub overrides-IsDeep : IsDeep G.overrides_read F.overrides_deep_copy_into
  pub role_config-IsDeep : IsDeep G.role_config_read F.role_config_deep_copy_into
  pub role_group_config-IsDeep : IsDeep G.role_group_config_read F.role_group_config_deep_copy_into
  pub raw_extension-IsDeep : IsDeep G.raw_extension_read F.raw_extension_deep_copy_into
  pub object_meta-IsDeep : IsDeep G.object_meta_read F.object_meta_deep_copy_into
  pub list_meta-IsDeep : IsDeep G.list_meta_read F.list_meta_deep_copy_into

module _ {X : Foreign} (G : ForeignViews X) (F : ForeignCopies X) (D : ForeignAreDeep G F) where
  pub authentication-IsDeep : IsDeep (authentication_read G) (authentication_deep_copy_into F)
  unfolding authentication_read authentication_deep_copy_into
  authentication-IsDeep =
      fields-IsDeep _ _ (new_copy-IsDeep _ _ D.oidc-IsDeep) authentication_parts with_authentication
        make_authentication (λ a f. refl) (λ a f. refl)

  pub config-IsDeep : IsDeep (config_read G) (config_deep_copy_into F)
  unfolding config_read config_deep_copy_into
  config-IsDeep =
      fields-IsDeep _ _ (new_copy-IsDeep _ _ D.role_group_config-IsDeep) config_parts with_config
        make_config (λ a f. refl) (λ a f. refl)

  pub git_sync-IsDeep : IsDeep (git_sync_read G) (git_sync_deep_copy_into F)
  unfolding git_sync_read git_sync_deep_copy_into
  git_sync-IsDeep =
      fields-IsDeep _ _
        (⊗-IsDeep _ _ _ _ (new_copy-IsDeep _ _ (flat-IsDeep (λ z. z))) (
          ⊗-IsDeep _ _ _ _ (map-IsDeep _ _ (flat-IsDeep (λ z. z)))
            (new_copy-IsDeep _ _ (flat-IsDeep (λ z. z)))))
        git_sync_parts with_git_sync make_git_sync (λ a f. refl) (λ a f. refl)

  pub cluster_config-IsDeep : IsDeep (cluster_config_read G) (cluster_config_deep_copy_into F)
  unfolding cluster_config_read cluster_config_deep_copy_into
  cluster_config-IsDeep =
      fields-IsDeep _ _
        (⊗-IsDeep _ _ _ _ (slice-IsDeep _ _ authentication-IsDeep) (
          ⊗-IsDeep _ _ _ _ (slice-IsDeep _ _ git_sync-IsDeep) (
            ⊗-IsDeep _ _ _ _ (slice-IsDeep _ _ D.raw_extension-IsDeep)
              (slice-IsDeep _ _ D.raw_extension-IsDeep))))
        cluster_config_parts with_cluster_config make_cluster_config (λ a f. refl) (λ a f. refl)

  pub role_group-IsDeep : IsDeep (role_group_read G) (role_group_deep_copy_into F)
  unfolding role_group_read role_group_deep_copy_into
  role_group-IsDeep =
      fields-IsDeep _ _
        (⊗-IsDeep _ _ _ _ (new_copy-IsDeep _ _ (flat-IsDeep (λ z. z))) (
          ⊗-IsDeep _ _ _ _ (new_copy-IsDeep _ _ config-IsDeep)
            (new_copy-IsDeep _ _ D.overrides-IsDeep)))
        role_group_parts with_role_group make_role_group (λ a f. refl) (λ a f. refl)

  pub celery_executors-IsDeep : IsDeep (celery_executors_read G) (celery_executors_deep_copy_into F)
  unfolding celery_executors_read celery_executors_deep_copy_into
  celery_executors-IsDeep =
      fields-IsDeep _ _
        (⊗-IsDeep _ _ _ _ (map-IsDeep _ _ (copy_of-IsDeep _ _ role_group-IsDeep)) (
          ⊗-IsDeep _ _ _ _ (new_copy-IsDeep _ _ D.role_config-IsDeep) (
            ⊗-IsDeep _ _ _ _ (new_copy-IsDeep _ _ config-IsDeep)
              (new_copy-IsDeep _ _ D.overrides-IsDeep))))
        celery_executors_parts with_celery_executors make_celery_executors (λ a f. refl)
        (λ a f. refl)

  pub kubernetes_executors-IsDeep :
      IsDeep (kubernetes_executors_read G) (kubernetes_executors_deep_copy_into F)
  unfolding kubernetes_executors_read kubernetes_executors_deep_copy_into
  kubernetes_executors-IsDeep =
      fields-IsDeep _ _
        (⊗-IsDeep _ _ _ _ (new_copy-IsDeep _ _ D.role_config-IsDeep) (
          ⊗-IsDeep _ _ _ _ (new_copy-IsDeep _ _ config-IsDeep) (
            ⊗-IsDeep _ _ _ _ (new_copy-IsDeep _ _ D.overrides-IsDeep)
              (new_copy-IsDeep _ _ D.role_group_config-IsDeep))))
        kubernetes_executors_parts with_kubernetes_executors make_kubernetes_executors (λ a f. refl)
        (λ a f. refl)

  pub schedulers-IsDeep : IsDeep (schedulers_read G) (schedulers_deep_copy_into F)
  unfolding schedulers_read schedulers_deep_copy_into
  schedulers-IsDeep =
      fields-IsDeep _ _
        (⊗-IsDeep _ _ _ _ (map-IsDeep _ _ (copy_of-IsDeep _ _ role_group-IsDeep)) (
          ⊗-IsDeep _ _ _ _ (new_copy-IsDeep _ _ D.role_config-IsDeep) (
            ⊗-IsDeep _ _ _ _ (new_copy-IsDeep _ _ config-IsDeep)
              (new_copy-IsDeep _ _ D.overrides-IsDeep))))
        schedulers_parts with_schedulers make_schedulers (λ a f. refl) (λ a f. refl)

  pub webservers-IsDeep : IsDeep (webservers_read G) (webservers_deep_copy_into F)
  unfolding webservers_read webservers_deep_copy_into
  webservers-IsDeep =
      fields-IsDeep _ _
        (⊗-IsDeep _ _ _ _ (map-IsDeep _ _ (copy_of-IsDeep _ _ role_group-IsDeep)) (
          ⊗-IsDeep _ _ _ _ (new_copy-IsDeep _ _ D.role_config-IsDeep) (
            ⊗-IsDeep _ _ _ _ (new_copy-IsDeep _ _ config-IsDeep)
              (new_copy-IsDeep _ _ D.overrides-IsDeep))))
        webservers_parts with_webservers make_webservers (λ a f. refl) (λ a f. refl)

  pub spec-IsDeep : IsDeep (spec_read G) (spec_deep_copy_into F)
  unfolding spec_read spec_deep_copy_into
  spec-IsDeep =
      fields-IsDeep _ _
        (⊗-IsDeep _ _ _ _ (new_copy-IsDeep _ _ (flat-IsDeep (λ z. z))) (
          ⊗-IsDeep _ _ _ _ (new_copy-IsDeep _ _ (flat-IsDeep (λ z. z))) (
            ⊗-IsDeep _ _ _ _ (new_copy-IsDeep _ _ cluster_config-IsDeep) (
              ⊗-IsDeep _ _ _ _ (new_copy-IsDeep _ _ celery_executors-IsDeep) (
                ⊗-IsDeep _ _ _ _ (new_copy-IsDeep _ _ kubernetes_executors-IsDeep) (
                  ⊗-IsDeep _ _ _ _ (new_copy-IsDeep _ _ schedulers-IsDeep)
                    (new_copy-IsDeep _ _ webservers-IsDeep)))))))
        spec_parts with_spec make_spec (λ a f. refl) (λ a f. refl)

  pub cluster-IsDeep : IsDeep (cluster_read G) (cluster_deep_copy_into F)
  unfolding cluster_read cluster_deep_copy_into
  cluster-IsDeep =
      fields-IsDeep _ _ (⊗-IsDeep _ _ _ _ (D.object_meta-IsDeep) (spec-IsDeep)) cluster_parts
        with_cluster make_cluster (λ a f. refl) (λ a f. refl)

  pub cluster_list-IsDeep : IsDeep (cluster_list_read G) (cluster_list_deep_copy_into F)
  unfolding cluster_list_read cluster_list_deep_copy_into
  cluster_list-IsDeep =
      fields-IsDeep _ _ (⊗-IsDeep _ _ _ _ (D.list_meta-IsDeep) (slice-IsDeep _ _ cluster-IsDeep))
        cluster_list_parts with_cluster_list make_cluster_list (λ a f. refl) (λ a f. refl)
