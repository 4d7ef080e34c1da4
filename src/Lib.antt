-- ===== src/Lib.antt =====
-- A model of the CNPG connect plugin, which watches CloudNativePG clusters and tells applications
-- which instance is the primary and which replicas may be read from.
--
-- The parts, in the order in which an observation passes them:
--   * Queue (internal/observer/queue.go): the work queue of clusters to observe. A state of
--     `priorityQueue` is `PriorityQueue`, its methods are functions of the same names, and `step`
--     is one call. A list element is its number and its key; a call that blocks returns `waits`.
--     Queue.Spec is the contract: two lists of keys.
--   * Kube, Status, Topology (internal/observer/topology.go, status.go): what is read from
--     Kubernetes and from the instances, and `build_snapshot`, which makes a routing snapshot of it.
--     Pods and results are one list of pairs. Status.Clients are the HTTP clients of status probes.
--   * Evidence (internal/observer/primary_evidence.go): `conflicting_primary` and the claims that it
--     keeps from one collection to the next.
--   * PodCache (internal/observer/cache.go): what the informer keeps of a Pod.
--   * Config (internal/config/cluster.go, internal/observer/topology.go): the parameters of a Cluster
--     and whether it is observed.
--   * Routes, ClusterRoutes (internal/observer/events.go, status.go): which updates of a Pod and of a
--     Cluster leave the routes as they were.
--   * CaCache (internal/observer/connection.go): the cache of public CA certificates. A pointer to an
--     entry is the entry with its number, and a history is a list of the steps of the cache and of
--     the changes that the informer sees.
--   * Observer (internal/observer/events.go, observer.go, publication.go, work.go): what an event of
--     a Pod and the deletion of a Cluster do to the store, the queue and the evidence, and
--     `enqueue`. Observer.ClusterEvents is clusterEvent, Observer.Work the work loop before and after
--     an observation, Observer.Collection (collection.go) the observation, as the steps that hold
--     the lock, and Observer.SecretEvents and Observer.CaWork (connection.go, watch.go) the event of a
--     CA Secret and the worker that reads one. The rounds of podEvent share the readings of the clock.
--   * Watches (internal/observer/watch.go, observer.go): the health of the informers' watches, and
--     Ready.
--   * Probes (internal/observer/work.go): the two semaphores of status probes, with the stage that
--     each call of acquireProbe has reached.
--   * Api, Routing, Mailbox, Store (api/v1/types.go, internal/discovery/store.go, publication.go):
--     the store that keeps one publication for each cluster, numbers it, expires it and hands it to
--     watchers through mailboxes of one place. A method is its critical section, and the delivery
--     that it returns is an operation of its own, so that deliveries interleave in any order.
--   * Discovery (internal/discovery/grpc.go): GetTopology, the loop of WatchTopology over the store,
--     and the message that is sent; Discovery.Requests are the checks of a request.
--   * Settings (cmd/cnpg-connect-plugin/main.go, internal/server/tls.go, token.go): the settings, their
--     validation and the start up to the servers; Observer.Options are the checks of New.
--   * Admission (internal/server/admission.go): the limits, and the capacity that handlers reserve.
--   * Supervision (internal/server/run.go): what Run makes of the ends of its workers and of the
--     shutdown, and the statuses of HealthHandler.
--   Key is the name of a cluster, Prelude has what the parts share, Samples has test data, and each
--   module Examples applies the theorems of its part.
--
-- How the model stands to the code. Times are nanoseconds since the zero time, as natural numbers,
-- and a method takes the times that it reads from the clock. Counters of 64 bits wrap. A map is an
-- association list, and a range over a map visits it in the order of that list. A revision is kept
-- as the process and the number that are printed. Copies of values are the values. A sort is an
-- insertion sort, which keeps the order of equal items. Functions that are not the program's own
-- are parameters: the hashes of a routing view and of a token (SHA-256), the rules of Kubernetes for
-- names, JSON and PEM decoding, the parsing of addresses and certificates, the lower case of a
-- character, and the conversion of timestamps. No function needs fuel, but for the collection of a queue that shuts down, where the
-- number of queued elements is shown to be enough.
--
-- Not modelled: HTTP and gRPC transport, the verification of certificate chains, informers, metrics,
-- logs, and the parsing of flags, which are I/O or calls of libraries; the rate limiter of client-go;
-- the error returns of Run before its workers start;
-- the projection of Clusters in the informer's cache, since a Cluster is modelled by what is read of
-- it.
pub mod Prelude
pub mod Key
pub mod Queue
pub mod Api
pub mod Mailbox
pub mod Routing
pub mod Store
pub mod Kube
pub mod Status
pub mod Topology
pub mod Admission
pub mod Evidence
pub mod Probes
pub mod Routes
pub mod CaCache
pub mod ClusterRoutes
pub mod Observer
pub mod Discovery
pub mod Samples
pub mod Settings
pub mod PodCache
pub mod Config
pub mod Watches
pub mod Supervision
