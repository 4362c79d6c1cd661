-- ===== src/DeepCopy/Objects.antt =====
-- api/v1alpha1/zz_generated.deepcopy.go: the copies of a cluster and of a list of clusters, with all that
-- they point to.
use airflow_operator.Prelude.{◌≡◌, refl, ◌∙◌, Option, none, some, ◌++◌}
use airflow_operator.DeepCopy.Memory.{Heap, Pointer, and_then}
use airflow_operator.DeepCopy.Types.{Foreign}
use airflow_operator.DeepCopy.ViewTypes.{ClusterView, ClusterListView}
use airflow_operator.DeepCopy.Cells.{Cell, cluster_stored, cluster_list_stored}
use airflow_operator.DeepCopy.Views.{read_pointer}
use airflow_operator.DeepCopy.Deep.{IsDeep}
use airflow_operator.DeepCopy.Loops.{new_copy-IsDeep}
use airflow_operator.DeepCopy.Reads.{ForeignViews, cluster_read, cluster_list_read}
use airflow_operator.DeepCopy.Copies.{
  ForeignCopies, cluster_deep_copy_into, cluster_deep_copy, cluster_list_deep_copy_into,
  cluster_list_deep_copy, object_of, cluster_list_deep_copy_object,
}
use airflow_operator.DeepCopy.AreDeep.{ForeignAreDeep, cluster-IsDeep, cluster_list-IsDeep}
use airflow_operator.DeepCopy.Programs.{Reaches}
use airflow_operator.DeepCopy.Independence.{OutsideCopy, ThroughCopy, returns, isolated, untouched}

-- The interface holds the pointer that it is made of.
object_of_same :
    {C : Type 0} (result : Option (Pointer × Heap C))
    → and_then result (λ r. object_of r.0 r.1) ≡ result
object_of_same none = refl
object_of_same (some (none, h)) = refl
object_of_same (some (some q, h)) = refl

module _ {X : Foreign} (G : ForeignViews X) (F : ForeignCopies X) (D : ForeignAreDeep G F) where
  cluster_deep_copy-IsDeep : IsDeep (read_pointer (cluster_read G)) (cluster_deep_copy F)
  unfolding cluster_deep_copy
  cluster_deep_copy-IsDeep =
      new_copy-IsDeep (cluster_read G) (cluster_deep_copy_into F) (cluster-IsDeep G F D)

  cluster_list_deep_copy-IsDeep :
      IsDeep (read_pointer (cluster_list_read G)) (cluster_list_deep_copy F)
  unfolding cluster_list_deep_copy
  cluster_list_deep_copy-IsDeep =
      new_copy-IsDeep (cluster_list_read G) (cluster_list_deep_copy_into F)
        (cluster_list-IsDeep G F D)

  cluster_list_deep_copy_object-IsDeep :
      IsDeep (read_pointer (cluster_list_read G)) (cluster_list_deep_copy_object F)
  unfolding cluster_list_deep_copy_object
  cluster_list_deep_copy_object-IsDeep = (
    cluster_list_deep_copy-IsDeep.0,
    λ h p w e.
        let c = cluster_list_deep_copy-IsDeep.1 h p w e in
        (c.0, c.1, object_of_same (cluster_list_deep_copy F p h) ∙ c.2, c.3),
  )

  -- If the copies of operator-go and Kubernetes are deep and a pointer to a cluster reads as a
  -- value, AirflowCluster.DeepCopy returns a pointer without a fault, only adds cells to the
  -- memory, and afterwards both pointers read as that value.
  pub cluster_deep_copy_returns :
      (h : Heap (Cell X)) (p : Pointer) (w : Option ClusterView)
      → read_pointer (cluster_read G) h p ≡ some w
      → (q : Pointer) × (news : Heap (Cell X)) × (cluster_deep_copy F p h ≡ some (q, h ++ news))
        × (read_pointer (cluster_read G) (h ++ news) q ≡ some w)
        × (read_pointer (cluster_read G) (h ++ news) p ≡ some w)
  cluster_deep_copy_returns =
      returns (read_pointer (cluster_read G)) (cluster_deep_copy F) cluster_deep_copy-IsDeep

  -- If the copies of operator-go and Kubernetes are deep and a pointer to a cluster reads as a
  -- value, what AirflowCluster.DeepCopy returns reads as that value after every program that
  -- writes no cell of the copy, whatever it writes to the cells that were there before it and to
  -- those allocated after, and allocates.
  pub cluster_deep_copy_isolated :
      (h h' g : Heap (Cell X)) (p q : Pointer) (w : Option ClusterView)
      → read_pointer (cluster_read G) h p ≡ some w
      → cluster_deep_copy F p h ≡ some (q, h')
      → Reaches (OutsideCopy h h') h' g
      → read_pointer (cluster_read G) g q ≡ some w
  cluster_deep_copy_isolated =
      isolated (read_pointer (cluster_read G)) (cluster_deep_copy F) cluster_deep_copy-IsDeep

  -- If the copies of operator-go and Kubernetes are deep and a pointer to a cluster reads as a
  -- value, it still reads as that value after AirflowCluster.DeepCopy and every program that
  -- writes only to cells that decide what the copy reads as, that is, to cells of which some
  -- content would make the copy read as another value or not at all, and to cells that were
  -- allocated after the copy.
  pub cluster_deep_copy_untouched :
      (h h' g : Heap (Cell X)) (p q : Pointer) (w : Option ClusterView)
      → read_pointer (cluster_read G) h p ≡ some w
      → cluster_deep_copy F p h ≡ some (q, h')
      → Reaches (ThroughCopy (read_pointer (cluster_read G)) h' q w) h' g
      → read_pointer (cluster_read G) g p ≡ some w
  cluster_deep_copy_untouched =
      untouched (read_pointer (cluster_read G)) (cluster_deep_copy F) cluster_deep_copy-IsDeep

  -- If the copies of operator-go and Kubernetes are deep and a pointer to a list of clusters reads
  -- as a value, AirflowClusterList.DeepCopyObject returns an object without a fault, only adds
  -- cells to the memory, and afterwards both read as that value.
  pub cluster_list_deep_copy_object_returns :
      (h : Heap (Cell X)) (p : Pointer) (w : Option ClusterListView)
      → read_pointer (cluster_list_read G) h p ≡ some w
      → (q : Pointer) × (news : Heap (Cell X)) × (cluster_list_deep_copy_object F p h
          ≡ some (q, h ++ news))
        × (read_pointer (cluster_list_read G) (h ++ news) q ≡ some w)
        × (read_pointer (cluster_list_read G) (h ++ news) p ≡ some w)
  cluster_list_deep_copy_object_returns =
      returns (read_pointer (cluster_list_read G)) (cluster_list_deep_copy_object F)
        cluster_list_deep_copy_object-IsDeep

  -- If the copies of operator-go and Kubernetes are deep and a pointer to a list of clusters reads
  -- as a value, what AirflowClusterList.DeepCopyObject returns reads as that value after every
  -- program that writes no cell of the copy.
  pub cluster_list_deep_copy_object_isolated :
      (h h' g : Heap (Cell X)) (p q : Pointer) (w : Option ClusterListView)
      → read_pointer (cluster_list_read G) h p ≡ some w
      → cluster_list_deep_copy_object F p h ≡ some (q, h')
      → Reaches (OutsideCopy h h') h' g
      → read_pointer (cluster_list_read G) g q ≡ some w
  cluster_list_deep_copy_object_isolated =
      isolated (read_pointer (cluster_list_read G)) (cluster_list_deep_copy_object F)
        cluster_list_deep_copy_object-IsDeep
