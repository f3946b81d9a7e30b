-- ===== src/Lib.antt =====
-- The core logic of the Kubernetes plugin of formae, as functions on states and texts, with theorems
-- about them. The plugin drives Kubernetes objects through provisioners, one per kind (pkg/resources),
-- and Helm releases through the Helm SDK (pkg/resources/helm). A host calls Create, Read, Update,
-- Delete, Status and List, and polls what is in progress.
--
-- How the parts fit together. A request goes to the provisioner that is registered for its type,
-- unless the cluster's version lacks the type (Plugin, K8sVersion, Config.Version); a list leaves out
-- what Helm releases own (Helm.Inventory). The provisioners of the typed kinds share one set of
-- handlers (Typed) over what each kind does its own way (Kinds): they flatten the payload's label maps
-- (Prov.Normalize), check its gated fields, apply it in the namespace that it names (Prov.Namespace),
-- reconcile labels (Prov.Ownership) and tell the status. Every provisioner is wrapped by a decorator that turns panics into
-- failures and hides objects that are being deleted (Prov.Lifecycle), which asks of an error
-- whether the API server was reached (Prov.ReadErrors). Provisioners identify objects by texts
-- (Prov.NativeId) and show them as JSON without what the server manages (Prov.LiveState). A Helm
-- release's Create and Update first reserve a flight in a registry of running operations
-- (Helm.Flight), decide by the stored release what to do (Helm.Plan), and start a worker that gets
-- credentials over a bridge from the callbacks that poll it (Helm.Bridge). Polls name the operation
-- by a request identifier (Helm.RequestId). The tokens that clients send come from a cache that
-- refreshes them before they end (Auth.TokenCache), and the clients themselves are cached by identity
-- (Transport.ClientCache).
--
-- Files, and the code that each models:
--   Prelude.antt and below    names shared by all: tests, maps, texts, decimals, Go's errors
--   Json.antt, Json/Laws.antt   encoding/json's generic values: what the code does with them
--   Resource.antt             the fields that the code uses of the plugin SDK's results
--   Prov/NativeId.antt        pkg/resources/prov/nativeid.go, customid.go: one function per function
--     RoundTrip, Custom       printing and parsing
--   Prov/LiveState/Strip.antt, Kinds.antt, Walk.antt, Build.antt   pkg/resources/prov/livestate.go:
--                             the shared rules, the rules by kind, the walk, LiveState itself
--     Keeps, Absent, Clean    what the rules keep, what stays absent, what LiveState encodes
--   Prov/ReadErrors.antt      pkg/resources/prov/errors.go: ClassifyReadError
--   Prov/Lifecycle.antt       pkg/resources/prov/lifecycle.go: the defers, isTerminating and
--                             stripDeletionTimestamp; Lifecycle/Wrap.antt: the six methods
--     Safe, Terminating, Alive   panics and messages; deletes; reads and statuses
--   Prov/Ownership.antt       pkg/resources/prov/ownership.go: ReconcileMetadata up to the sending of
--                             the patch, and which keys it removes
--   Prov/Pagination.antt      pkg/resources/prov/pagination.go: ListAll on fuel, a page each, with what
--                             a server serves as a relation; Pagination/Each.antt: EachPage
--   Prov/Normalize.antt, Normalize/Laws.antt   pkg/resources/prov/normalize.go: one function per
--                             function, and what normalizing twice does
--   Prov/Replicas.antt        pkg/resources/prov/replicaownership.go: StripUnownedReplicas
--   Prov/Namespace.antt       pkg/resources/prov/namespace.go, and the outcomes of a handler's steps
--   Config/Version.antt       pkg/config/version.go: NormalizeK8sVersion, CompareK8sVersions and
--     Order, Normal           ResolveK8sVersion; how versions compare and normalize
--   K8sVersion/Gates.antt     pkg/k8sversion/registry.go, pkg/resources/prov/version_check.go: the
--     Types                   registries and checks; what the type registry comes to
--   Typed.antt                what the typed kinds take from client-go, and what differs by kind
--     Handlers, Methods       pkg/resources/apps/deployment.go and the files like it: the steps of a
--                             handler, and Create, Read, Update, Delete, Status and List
--     Addressing, Guarding, Deleting   identifiers, namespaces, and deletes behind the decorator
--   Kinds/Rollout.antt, Phases.antt, Finish.antt   the statuses, messages and finishing touches of
--                             the kinds; Base: what they have in common
--   Kinds/Apps, Batch, Core, Config, Networking, Access, Admission, Scheduling, Storage.antt
--                             pkg/resources/<group>/<kind>.go: a kind, and its provisioner, per file
--   Kinds/Namespace.antt      pkg/resources/core/namespace.go, whose update and status differ
--     Rollout/Reached, Namespace/Finalizers   when a rollout is over, when finalizers are cleared
--   Plugin.antt               k8s.go: getProvisioner, typeUnsupported, collapseHelmOwned and the CRUD
--     Unsupported, Listed     methods, with pkg/resources/registry/registry.go; what they come to
--   Helm/Inventory.antt       pkg/resources/helm/inventory.go: the index of rendered objects and
--     Owners, Hidden, Cache   FilterHelmOwned; pkg/resources/helm/owners.go: the walk along owners;
--                             the critical sections of the inventory's cache
--   Helm/RequestId.antt       pkg/resources/helm/release.go, flight_lifecycle.go: request identifiers
--   Helm/Bridge.antt          pkg/resources/helm/auth_bridge.go: the state of authBridge, one turn of
--                             Token, the two halves of Service, Invalidate, Close
--   Helm/Flight.antt          pkg/resources/helm/inflight.go, flight_lifecycle.go: the registry
--     Reserve, Owned, Outcome, Results   its operations: reservation and draining, the calls of an
--                             owner, the reconciliation of results, the results themselves
--     Step                    all of them as one step function, and runs of steps
--     Fence, Readers, Later, Drain, Retire, Verdict   what holds of steps and runs
--     Lifecycle, Lifecycle/Runs   the state machine of one release, which the registry refines
--   Helm/Plan.antt            pkg/resources/helm/release.go: planSubmit and what it reads;
--     Submit, Laws            the switch of submit, and what plans may do
--   Auth/TokenCache.antt      pkg/auth/cache.go: the critical sections of CachedTokenSource
--     Run, Laws, Fence        the cache with its leader as a state machine, and what it serves
--   Transport/ClientCache.antt   pkg/transport/cache.go: ClientCache.Get in two critical sections
--     Laws                    who is handed which client
--   Helm/Tests.antt, Helm/Plan/Tests.antt, Prov/Tests.antt, Auth/Tests.antt, Transport/Tests.antt,
--   Config/Tests.antt, K8sVersion/Tests.antt, Kinds/Tests.antt, Plugin/Tests.antt   each theorem at concrete data
--
-- How code becomes definitions. The registry is the state that flightMu guards, and each operation is
-- one critical section, a function from a registry to the next one and an answer; interleavings are
-- the orders of calls in a run. Pointers to flights are keys of the registry. A Go map is an
-- association list, a nil pointer or a missing value is none, and an error is a value whose chain
-- errors.Is walks. Times are nanoseconds since Go's zero time, as natural numbers, and the clock's
-- reading is an argument. A provisioner's call takes a state of the world and gives the next one with
-- what it returned or panicked with.
-- The handlers of the typed kinds are copies of one another in the source; here they are one function
-- of a record that holds what differs, and each kind is a value of that record. A client of the API
-- server is a record of calls, each from a state of the world to the next.
--
-- Bounds and fuel. The walk of LiveState runs on fuel, the depth of the document, which it cannot
-- exceed since it goes one level down per step and no rule makes a document deeper. Printed numbers
-- take their value plus one as fuel. A listing takes its number of pages as fuel and says so when that
-- runs out. The walk along owners has the four rounds of the source. Revisions are bounded by int64 where a text is read, and
-- generations that count invalidations wrap as uint64. Times, durations and counts of readers are taken
-- not to wrap.
--
-- Parameters. JSON encoding and decoding, uuid.Parse, the hash that fingerprints desired states, the
-- SDK's FinishedSuccessfully, the runtime's panic texts, client-go's typed interfaces, gjson and fmt's
-- default format are arguments; what is assumed of them stands in the theorems that need it. So are,
-- for the routing, the target configuration, the client it gets and the reads of the cluster; for the
-- client cache, what a configuration answers and what a build makes.
--
-- Not modelled: the construction of clients, the calls of the Helm SDK, chart loading, the splitting
-- of manifests, Helm's Read and Delete, the cloud token providers, the parsing of target
-- configurations, custom resources, and what the plugin declares of types, filters and schemas.
mod Prelude
pub mod Json
pub mod Resource
pub mod Prov
pub mod Helm
pub mod Auth
pub mod Transport
pub mod Config
pub mod K8sVersion
pub mod Typed
pub mod Kinds
pub mod Plugin
