-- ===== src/Controller/Builds.antt =====
-- internal/controller/airflowclusters_controller.go: what the resources of a reconciled cluster
-- build.
use mathlib.Core.List.{Memᴰ}
use airflow_operator.Prelude.{
  String, ◌≡◌, ◌≢◌, refl, sym, ap, ◌∙◌, none, some, List, [], ◌∷◌, All, All-map,
}
use airflow_operator.Go.Outcome.{ok, err, errorf, panic, >>=-eq-ok, ok-injective}
use airflow_operator.Api.{AirflowCluster, AuthenticationSpec, ClusterConfigSpec}
use airflow_operator.Auth.Types.{LdapAuthenticator, ldap}
use airflow_operator.Auth.New.{new_authentication}
use airflow_operator.Auth.Whole.{get_config-panic}
use airflow_operator.Auth.Accepts.{classify}
use airflow_operator.ConfigMap.Builder.{ConfigMapBuilder}
use airflow_operator.ConfigMap.Build.{get_airflow_config}
use airflow_operator.ConfigMap.Build
use airflow_operator.Role.Groups.{
  Resource, config_map_resource, stateful_set_resource, service_resource, authentication_of,
}
use airflow_operator.Platform.{Platform, KeepsArguments, found}
use airflow_operator.Framework.{Framework, KeepsBase, KeepsRoleName, Result, NamespacedName}
use airflow_operator.Auth.Gather.{MapOrder}
use airflow_operator.StatefulSet.Builder.{StatefulSetBuilder}
use airflow_operator.StatefulSet.Build.{build, build_with}
use airflow_operator.StatefulSet.Containers.{
  HasContainer, IsKnownRole, get_main_container-HasContainer, get_main_container-no_credentials,
}
use airflow_operator.Role.Made.{MadeFor}
use airflow_operator.Cluster.Defs.{
  ClusterReconciler, new_cluster_reconciler, GroupOrder, register_resource,
}
use airflow_operator.Cluster.Made.{OfRole, OfRole-map, register_resource-MadeFor}
use airflow_operator.Controller.Defs.{Run, after_get, after_register, reconcile_instance, reconcile}
use airflow_operator.Controller.Laws.{fresh, after_register-ok_iff}

-- `P` holds of the builder, if the resource is a stateful set.
abbrev pub OfSet : (StatefulSetBuilder → Type 0) → Resource → Type 0
OfSet P (config_map_resource b) = Unit
OfSet P (stateful_set_resource s) = P s.builder
OfSet P (service_resource s) = Unit

-- `P` holds of the builder, if the resource is a config map.
abbrev pub OfConfigMap : (ConfigMapBuilder → Type 0) → Resource → Type 0
OfConfigMap P (config_map_resource b) = P b
OfConfigMap P (stateful_set_resource s) = Unit
OfConfigMap P (service_resource s) = Unit

-- Build returns the error on the credentials, and leaves the builder as it was.
abbrev pub BuildsNothing : Platform → MapOrder → StatefulSetBuilder → Type 0
BuildsNothing p o b =
    build p o b ≡ (err (errorf "credentials secret name in cluster config is empty"), b)

-- Build panics.
abbrev pub BuildPanics : Platform → MapOrder → MapOrder → ConfigMapBuilder → Type 0
BuildPanics p l o b = Build.build p l o b ≡ panic

build-no_credentials :
    (p : Platform) (o : MapOrder) (b : StatefulSetBuilder) (c : ClusterConfigSpec) (role : String)
    → b.cluster_config ≡ some c
    → b.base.role_name ≡ role
    → IsKnownRole role
    → c.credentials ≡ ""
    → BuildsNothing p o b
unfolding build
build-no_credentials p o b c role configured named known unnamed =
    ap (λ q. build_with p q b)
      (get_main_container-no_credentials p o b c role configured named known unnamed)

-- A config map whose authentication has an LDAP provider without bind credentials.
build-panic :
    (p : Platform) (l o : MapOrder) (b : ConfigMapBuilder) (auths : List AuthenticationSpec)
    (spec : AuthenticationSpec) (x : LdapAuthenticator)
    → authentication_of p auths ≡ ok b.auth
    → Memᴰ spec auths
    → classify p spec ≡ some (ldap x)
    → x.provider.bind_credentials ≡ none
    → BuildPanics p l o b
unfolding authentication_of Build.build get_airflow_config
build-panic p l o b [] spec x accepted mem kind bare = absurd (elim mem [ ])
build-panic p l o b (auth ∷ auths) spec x accepted mem kind bare =
    let (a, ha, e) = >>=-eq-ok (new_authentication p (auth ∷ auths)) _ accepted in
    let holds : some a ≡ b.auth = ok-injective e in
    rw (← holds, get_config-panic p l o (auth ∷ auths) a spec x ha mem kind bare)

module _ (f : Framework) (run : Run) (build_version : String) (order : GroupOrder) (o : MapOrder)
    (request : NamespacedName) (i : AirflowCluster) (c : ClusterConfigSpec) (res : Result)
    (keeps : KeepsBase f) (arguments : KeepsArguments f.platform) (roles : KeepsRoleName f)
    (configured : i.spec.cluster_config ≡ some c) (there : f.get_cluster request ≡ found i)
    (returned : reconcile f run build_version order request ≡ ok res) where
  made :
      (r : ClusterReconciler) × (run r ≡ ok res)
      × All (OfRole (MadeFor f.platform i.spec.cluster_config)) r.resources
  unfolding reconcile new_cluster_reconciler after_register reconcile_instance after_get
  made =
      let (r, hr, hk) =
        (after_register-ok_iff run (register_resource f build_version order (fresh f i)) res).0
          (sym (ap (after_get f run build_version order) there) ∙ returned) in
      (
        r,
        hk,
        register_resource-MadeFor f build_version order (fresh f i) r keeps arguments roles refl hr,
      )

  -- What follows of every resource from how it is made.
  of_made :
      (Q : String → Resource → Type 0)
      → ((role : String) (a : Resource)
          → IsKnownRole role
          → MadeFor f.platform i.spec.cluster_config role a
          → Q role a)
      → (r : ClusterReconciler) × (run r ≡ ok res) × All (OfRole Q) r.resources
  of_made Q follows =
      let (r, hk, resources) = made in
      (
        r,
        hk,
        All-map _ _ (λ x. OfRole-map (MadeFor f.platform i.spec.cluster_config) Q x follows)
            r.resources resources,
      )

  -- If the base constructors and builders keep what they are given and Reconcile returns a result
  -- for an object that is there and whose cluster configuration names its credentials, it is the
  -- result of running a cluster in which the builder of every stateful set makes a main container
  -- that is named by its role and has the variables of the Celery executor and of the role, all of
  -- whose secrets are the credentials.
  pub reconcile-HasContainer :
      c.credentials ≢ ""
      → (r : ClusterReconciler) × (run r ≡ ok res)
        × All (OfRole (λ role. OfSet (HasContainer f.platform o c role))) r.resources
  reconcile-HasContainer named = of_made _ follows
    where
      follows :
          (role : String) (a : Resource)
          → IsKnownRole role
          → MadeFor f.platform i.spec.cluster_config role a
          → OfSet (HasContainer f.platform o c role) a
      follows role (config_map_resource b) known m = tt
      follows role (stateful_set_resource s) known m =
          get_main_container-HasContainer f.platform o s.builder c role (m.0 ∙ configured) m.3 known
            m.1 m.2 named
      follows role (service_resource s) known m = tt

  -- If the base constructors and builders keep what they are given and Reconcile returns a result
  -- for an object that is there and whose cluster configuration has empty credentials, it is the
  -- result of running a cluster in which Build of every stateful set returns the error on the
  -- credentials and leaves the builder as it was.
  pub reconcile-BuildsNothing :
      c.credentials ≡ ""
      → (r : ClusterReconciler) × (run r ≡ ok res)
        × All (OfRole (λ role. OfSet (BuildsNothing f.platform o))) r.resources
  reconcile-BuildsNothing unnamed = of_made _ follows
    where
      follows :
          (role : String) (a : Resource)
          → IsKnownRole role
          → MadeFor f.platform i.spec.cluster_config role a
          → OfSet (BuildsNothing f.platform o) a
      follows role (config_map_resource b) known m = tt
      follows role (stateful_set_resource s) known m =
          build-no_credentials f.platform o s.builder c role (m.0 ∙ configured) m.3 known unnamed
      follows role (service_resource s) known m = tt

  -- If the base constructors and builders keep what they are given and Reconcile returns a result
  -- for an object that is there and of whose authentication entries one stands for an LDAP
  -- provider without bind credentials, it is the result of running a cluster in which Build of
  -- every config map panics, in all orders of the map.
  pub reconcile-BuildPanics :
      (l : MapOrder) (spec : AuthenticationSpec) (x : LdapAuthenticator)
      → Memᴰ spec c.authentication
      → classify f.platform spec ≡ some (ldap x)
      → x.provider.bind_credentials ≡ none
      → (r : ClusterReconciler) × (run r ≡ ok res)
        × All (OfRole (λ role. OfConfigMap (BuildPanics f.platform l o))) r.resources
  reconcile-BuildPanics l spec x mem kind bare = of_made _ follows
    where
      follows :
          (role : String) (a : Resource)
          → IsKnownRole role
          → MadeFor f.platform i.spec.cluster_config role a
          → OfConfigMap (BuildPanics f.platform l o) a
      follows role (config_map_resource b) known (d, hd, _, ha) =
          let same : d ≡ c = cc (hd, configured) in
          build-panic f.platform l o b c.authentication spec x
            (ap (λ (e : ClusterConfigSpec). authentication_of f.platform e.authentication)
                (sym same)
              ∙ ha)
            mem kind bare
      follows role (stateful_set_resource s) known m = tt
      follows role (service_resource s) known m = tt
