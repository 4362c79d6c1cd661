-- ===== src/Lib.antt =====
-- The Airflow operator for Kubernetes: a controller that reads an AirflowCluster object and
-- builds the objects that run it, for each role group of the three roles a config map, a stateful
-- set and services.
--
-- The parts, from the request down:
--
-- * Controller is internal/controller/airflowclusters_controller.go: `reconcile` is `Reconcile`. It
--   reads the object, registers the cluster's resources and runs them.
-- * Cluster is internal/controller/cluster.go: `new_cluster_reconciler`, `get_image` and
--   `register_resource`, which makes the reconcilers of the roles and has each register its
--   resources. The parts behind the first role are definitions of their own.
-- * Role is internal/controller/role: Scheduler, CeleryExecutor and Webserver are the three
--   reconcilers, one file of the source each, and Ports is port.go. Groups holds what the three
--   files repeat: the loop of `RegisterResources` and the steps of a round.
-- * Auth is internal/controller/common/auth.go: New is `NewAuthentication`, Ldap and Oidc are the two
--   authenticators, Gather and Config are the methods of `Authentication`, Templates its two texts.
-- * StatefulSet is internal/controller/common/statefulset.go: Scripts, Env and Build are the
--   container's script, its environment and `Build`.
-- * ConfigMap is internal/controller/common/config.go: Logging and Build make the three files.
-- * DeepCopy is api/v1alpha1/zz_generated.deepcopy.go. Memory has the cells and what the generated code
--   does with them, Types the structs as they lie there, Copies the functions: `cluster_deep_copy` is
--   `(*AirflowCluster).DeepCopy`. Reads says what a struct in the memory stands for: ViewTypes are the
--   values of Api, in which a slice or a map may be nil.
-- * Command is cmd/main.go, with internal/util/version/version.go: the options that the flags lead
--   to, and the calls of `main` up to the first one that fails. Version has the text of the version,
--   Scheme the registration of the types and `SetupWithManager`.
-- * Service is internal/controller/common/service.go, Executor is
--   internal/controller/common/commons.go, Api is api/v1alpha1, Kube the objects of Kubernetes that
--   the operator fills in.
-- * Platform and Framework are what the operator is given, and Prelude the names that all share.
-- * Go has the parts of the language and of its library that the source uses. Tests runs the
--   definitions and applies the theorems at concrete clusters.
--
-- How the code is modelled. A call that can fail returns an `Outcome`: a value, an error, or a
-- panic (a nil dereference or a write to a nil map). A pointer is an `Option`. A method that changes
-- its receiver also returns the receiver that it leaves, on the error paths too. A map is the list
-- of its entries, and a range visits them in any permutation, which an `Order` gives; the theorems
-- hold for every order, and where keys must be distinct they say so. Role/Plan and Cluster/Plan say which
-- objects a cluster is to have, without the code and in no order. The loops are structural
-- recursion over lists; only the decimal digits of a number need fuel, and the number itself is
-- enough.
--
-- The deep copies work on a memory of typed cells, in which a pointer, a slice or a map is an address or
-- nil, and a slice is the whole of its array. A new cell is added when what the code puts there is
-- complete, so that cells lie in another order than Go allocates them in, which no program can
-- see. A range over a map in these copies visits the entries in the order in which they are stored.
--
-- What is not in the repository (operator-go, controller-runtime, the API server) is a parameter:
-- the records Platform and Framework hold it as functions, and what a theorem relies on is one of its
-- hypotheses. A base builder of operator-go is the arguments of its constructor and the calls made
-- since, a service is the arguments of its constructor. A read of the API server is a function of
-- the name, so that all reads of one reconciliation see the same objects. `version.BuildVersion`,
-- which the linker sets, is an argument.
--
-- Not modelled: the logger; contexts and clients, which are only handed on; the sharing of a map
-- between the builders that hold it, `GetAnnotations` being taken to give a map of its own; texts
-- that are no valid UTF-8. Entries of the loggers and containers maps are taken not to be nil.
pub mod Prelude
pub mod Go
pub mod Kube
pub mod Api
pub mod Platform
pub mod Auth
pub mod Executor
pub mod StatefulSet
pub mod ConfigMap
pub mod Framework
pub mod Service
pub mod Role
pub mod Cluster
pub mod Controller
pub mod Command
pub mod DeepCopy
mod Tests
