-- ===== src/Tests/Copies.antt =====
-- api/v1alpha1/zz_generated.deepcopy.go: the theorems on deep copies, at a cluster and at a list.
mod Shapes
mod Heaps
use airflow_operator.Prelude.{◌≡◌, ◌≢◌, refl, Option, none, some, [], ◌∷◌, inl, arith, ◌++◌}
use airflow_operator.Go.Text.{pos}
use airflow_operator.DeepCopy.Memory.{
  Heap, Pointer, cell_at, new_copy, each, copy_of, entries, fields, ◌⊗◌,
}
use airflow_operator.DeepCopy.Views.{
  read_pointer, read_each, read_entries, read_flat, read_fields, ◌⊕◌, read_slice, read_map,
}
use airflow_operator.DeepCopy.Cells.{
  Cell, own_cell, number_cell, role_groups_cell, clusters_cell, image_stored, operation_stored,
  number_stored, texts_stored, authentication_stored, authentications_stored, git_sync_stored,
  git_syncs_stored, cluster_config_stored, config_stored, role_group_stored, role_groups_stored,
  celery_executors_stored, kubernetes_executors_stored, schedulers_stored, webservers_stored,
  spec_stored, status_stored, cluster_stored, clusters_stored, cluster_list_stored, oidc_stored,
  overrides_stored, role_config_stored, role_group_config_stored, raw_extensions_stored,
}
use airflow_operator.DeepCopy.Reads.{
  authentication_read, config_read, git_sync_read, cluster_config_read, role_group_read,
  celery_executors_read, spec_read, cluster_read, cluster_list_read,
}
use airflow_operator.DeepCopy.Copies.{
  authentication_deep_copy_into, config_deep_copy_into, git_sync_deep_copy_into,
  cluster_config_deep_copy_into, role_group_deep_copy_into, celery_executors_deep_copy_into,
  spec_deep_copy_into, cluster_deep_copy_into, cluster_deep_copy, cluster_list_deep_copy_into,
  cluster_list_deep_copy, cluster_list_deep_copy_object,
}
use airflow_operator.DeepCopy.Programs.{Reaches, stays, writes, allocates, write}
use airflow_operator.DeepCopy.Independence.{OutsideCopy, ThroughCopy}
use airflow_operator.DeepCopy.Objects.{
  cluster_deep_copy_returns, cluster_deep_copy_isolated, cluster_deep_copy_untouched,
  cluster_list_deep_copy_object_returns, cluster_list_deep_copy_object_isolated,
}
use Shapes.{
  shapes, scopes_stored, scopes_of, with_scopes, make_oidc, oidc_copy, oidc_view, flat_view, views,
  copies, copies-AreDeep,
}
use Heaps.{
  cluster_struct, old_heap, config_value, cluster_value, cluster_reads, list_heap, list_value,
  list_reads,
}

-- The memory after the copy, and the copy.
abbrev heap_of : Option (Pointer × Heap (Cell shapes)) → Heap (Cell shapes)
heap_of none = []
heap_of (some r) = r.1

abbrev pointer_of : Option (Pointer × Heap (Cell shapes)) → Pointer
pointer_of none = none
pointer_of (some r) = r.0

abbrev new_heap : Heap (Cell shapes)
new_heap = heap_of (cluster_deep_copy copies (some 13) old_heap)

abbrev the_copy : Pointer
the_copy = pointer_of (cluster_deep_copy copies (some 13) old_heap)

copy_ran : cluster_deep_copy copies (some 13) old_heap ≡ some (the_copy, new_heap)
unfolding cell_at new_copy each copy_of entries fields ◌⊗◌ cluster_deep_copy cluster_deep_copy_into
    spec_deep_copy_into cluster_config_deep_copy_into authentication_deep_copy_into
    git_sync_deep_copy_into celery_executors_deep_copy_into role_group_deep_copy_into
    config_deep_copy_into
copy_ran = refl

cluster_deep_copy_returns_example :
    (q : Pointer) × (news : Heap (Cell shapes)) × (cluster_deep_copy copies (some 13) old_heap
      ≡ some (q, old_heap ++ news))
    × (read_pointer (cluster_read views) (old_heap ++ news) q ≡ some (some cluster_value))
    × (read_pointer (cluster_read views) (old_heap ++ news) (some 13) ≡ some (some cluster_value))
cluster_deep_copy_returns_example =
    cluster_deep_copy_returns views copies copies-AreDeep old_heap (some 13) (some cluster_value)
      cluster_reads

-- The original's replicas, scopes and map of role groups are overwritten, and a cell is allocated.
abbrev original_changed : Heap (Cell shapes)
original_changed =
    write 11 (role_groups_cell []) (write 0 (own_cell []) (write 9 (number_cell (pos 7)) new_heap))
    ++ number_cell (pos 1) ∷ []

original_changes : Reaches (OutsideCopy old_heap new_heap) new_heap original_changed
original_changes = writes _ _ 9 (number_cell (pos 7)) (inl (omega arith)) (
    writes _ _ 0 (own_cell []) (inl (omega arith)) (
      writes _ _ 11 (role_groups_cell []) (inl (omega arith))
        (allocates _ _ (number_cell (pos 1)) (stays _))))

cluster_deep_copy_isolated_example :
    read_pointer (cluster_read views) original_changed the_copy ≡ some (some cluster_value)
cluster_deep_copy_isolated_example =
    cluster_deep_copy_isolated views copies copies-AreDeep old_heap new_heap original_changed
      (some 13) the_copy (some cluster_value) cluster_reads copy_ran original_changes

-- Two cells of the copy, which a cell of another kind makes unreadable.
unread_14 :
    read_pointer (cluster_read views) (write 14 (number_cell (pos 0)) new_heap) the_copy ≡ none
unfolding cell_at new_copy each copy_of entries fields ◌⊗◌ cluster_deep_copy cluster_deep_copy_into
    spec_deep_copy_into cluster_config_deep_copy_into authentication_deep_copy_into
    git_sync_deep_copy_into celery_executors_deep_copy_into role_group_deep_copy_into
    config_deep_copy_into write read_pointer read_each read_entries read_flat read_fields read_slice
    read_map ◌⊕◌ cluster_read spec_read cluster_config_read authentication_read git_sync_read
    celery_executors_read role_group_read config_read
unread_14 = refl

unread_15 : read_pointer (cluster_read views) (write 15 (own_cell []) new_heap) the_copy ≡ none
unfolding cell_at new_copy each copy_of entries fields ◌⊗◌ cluster_deep_copy cluster_deep_copy_into
    spec_deep_copy_into cluster_config_deep_copy_into authentication_deep_copy_into
    git_sync_deep_copy_into celery_executors_deep_copy_into role_group_deep_copy_into
    config_deep_copy_into write read_pointer read_each read_entries read_flat read_fields read_slice
    read_map ◌⊕◌ cluster_read spec_read cluster_config_read authentication_read git_sync_read
    celery_executors_read role_group_read config_read
unread_15 = refl

decides_14 :
    read_pointer (cluster_read views) (write 14 (number_cell (pos 0)) new_heap) the_copy
    ≢ some (some cluster_value)
decides_14 e = cc (e, unread_14)

decides_15 :
    read_pointer (cluster_read views) (write 15 (own_cell []) new_heap) the_copy
    ≢ some (some cluster_value)
decides_15 e = cc (e, unread_15)

-- The cells of the copy are overwritten.
abbrev copy_changed : Heap (Cell shapes)
copy_changed = write 15 (number_cell (pos 0)) (write 14 (own_cell []) new_heap)

copy_changes :
    Reaches
      (ThroughCopy (read_pointer (cluster_read views)) new_heap the_copy (some cluster_value))
      new_heap
      copy_changed
copy_changes =
    writes _ _ 14 (own_cell []) (inl (number_cell (pos 0), decides_14))
      (writes _ _ 15 (number_cell (pos 0)) (inl (own_cell [], decides_15)) (stays _))

cluster_deep_copy_untouched_example :
    read_pointer (cluster_read views) copy_changed (some 13) ≡ some (some cluster_value)
cluster_deep_copy_untouched_example =
    cluster_deep_copy_untouched views copies copies-AreDeep old_heap new_heap copy_changed (some 13)
      the_copy (some cluster_value) cluster_reads copy_ran copy_changes

cluster_list_deep_copy_object_returns_example :
    (q : Pointer) × (news : Heap (Cell shapes)) × (cluster_list_deep_copy_object copies
        (some 15)
        list_heap
      ≡ some (q, list_heap ++ news))
    × (read_pointer (cluster_list_read views) (list_heap ++ news) q ≡ some (some list_value))
    × (read_pointer (cluster_list_read views) (list_heap ++ news) (some 15)
        ≡ some (some list_value))
cluster_list_deep_copy_object_returns_example =
    cluster_list_deep_copy_object_returns views copies copies-AreDeep list_heap (some 15)
      (some list_value) list_reads

abbrev new_list_heap : Heap (Cell shapes)
new_list_heap = heap_of (cluster_list_deep_copy_object copies (some 15) list_heap)

abbrev list_copy : Pointer
list_copy = pointer_of (cluster_list_deep_copy_object copies (some 15) list_heap)

list_copy_ran :
    cluster_list_deep_copy_object copies (some 15) list_heap ≡ some (list_copy, new_list_heap)
unfolding cell_at new_copy each copy_of entries fields ◌⊗◌ cluster_list_deep_copy_object
    cluster_list_deep_copy cluster_list_deep_copy_into cluster_deep_copy_into spec_deep_copy_into
    cluster_config_deep_copy_into authentication_deep_copy_into git_sync_deep_copy_into
    celery_executors_deep_copy_into role_group_deep_copy_into config_deep_copy_into
list_copy_ran = refl

-- The items of the original are dropped.
abbrev items_dropped : Heap (Cell shapes)
items_dropped = write 14 (clusters_cell []) new_list_heap

cluster_list_deep_copy_object_isolated_example :
    read_pointer (cluster_list_read views) items_dropped list_copy ≡ some (some list_value)
cluster_list_deep_copy_object_isolated_example =
    cluster_list_deep_copy_object_isolated views copies copies-AreDeep list_heap new_list_heap
      items_dropped (some 15) list_copy (some list_value) list_reads list_copy_ran
      (writes _ _ 14 (clusters_cell []) (inl (omega arith)) (stays _))
