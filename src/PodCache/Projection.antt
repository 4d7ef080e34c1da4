-- ===== src/PodCache/Projection.antt =====
-- What the projection of transformPodCache (internal/observer/cache.go) leaves as it was.
use cnpg_connect_plugin.Prelude.{
  String, string_eq, ◌≡◌, refl, sym, ◌∙◌, ap, Bool, true, false, ◌||◌, ◌&&◌, none, some, List, [],
  ◌∷◌, arith, if◌then◌else◌, string_beq, string_beq_iff, contains, Option-cases, inl, inr, get_or,
  or_else, All,
}
use cnpg_connect_plugin.Prelude.Map.{Map, lookup, insert, lookup-insert}
use cnpg_connect_plugin.Kube.{
  Pod, OwnerReference, Container, Condition, ContainerStatus, Parameters,
}
use cnpg_connect_plugin.Status.{StatusResult}
use cnpg_connect_plugin.Topology.{condition_ready, pod_ready, label, member_of, reported_role}
use cnpg_connect_plugin.Routes.{
  status_scheme, postgres_container_id, owners_beq, same_bool, same_pod_route, is_ignored,
  ignored_update_same_member,
}
use cnpg_connect_plugin.PodCache.{
  kept_labels, keep_labels, keep_flag, keep_container, keep_condition, keep_status,
  transform_pod_cache,
}

lookup-keep_labels :
    (labels : Map String String) (keys : List String) (kept : Map String String) (key : String)
    → lookup key (keep_labels labels keys kept) ≡ (
        if contains keys key
        then or_else (lookup key labels) (lookup key kept)
        else lookup key kept)
unfolding keep_labels contains
lookup-keep_labels labels [] kept key = refl
lookup-keep_labels labels (k ∷ ks) kept key = elim (Option-cases (lookup k labels)) [
  | inl e ↦
      let rest = lookup-keep_labels labels ks kept key in
      ground (arith, e, rest, string_beq_iff k key)
  | inr (v, e) ↦
      let rest = lookup-keep_labels labels ks (insert k v kept) key in
      ground (arith, e, rest, string_beq_iff k key, lookup-insert k key v kept)
]

pub keep_labels_by :
    (a b kept : Map String String) (keys : List String)
    → All (λ (k : String). lookup k a ≡ lookup k b) keys
    → keep_labels a keys kept ≡ keep_labels b keys kept
unfolding keep_labels
keep_labels_by a b kept [] same = refl
keep_labels_by a b kept (k ∷ ks) (e, es) = elim (Option-cases (lookup k b)) [
  | inl f ↦
      let g : lookup k a ≡ none = e ∙ f in rw (g, f, keep_labels) (keep_labels_by a b kept ks es)
  | inr (v, f) ↦
      let g : lookup k a ≡ some v = e ∙ f in
      rw (g, f, keep_labels) (keep_labels_by a b (insert k v kept) ks es)
]

-- At most one container is called "postgres", as Kubernetes demands of container names.
abbrev has_postgres : List Container → Bool
has_postgres [] = false
has_postgres (c ∷ cs) = string_beq c.name "postgres" || has_postgres cs

abbrev pub OnePostgres : List Container → Type 0
OnePostgres [] = Unit {0}
OnePostgres (c ∷ cs) = ((string_beq c.name "postgres" && has_postgres cs) ≡ false) × OnePostgres cs

plain_scheme : (cs : List Container) → has_postgres cs ≡ false → status_scheme cs ≡ "http"
unfolding status_scheme
plain_scheme [] h = refl
plain_scheme (c ∷ cs) h = ground (arith, plain_scheme cs)

pub contains-keep_flag :
    (args : List String)
    → contains (keep_flag args) "--status-port-tls" ≡ contains args "--status-port-tls"
unfolding keep_flag contains
contains-keep_flag args = ground (arith, string_beq_iff "--status-port-tls" "--status-port-tls")

scheme-keep_container :
    (cs : List Container) → OnePostgres cs → status_scheme (keep_container cs) ≡ status_scheme cs
unfolding status_scheme keep_container
scheme-keep_container [] one = refl
scheme-keep_container (c ∷ cs) (one, rest) = ground (
  arith,
  contains-keep_flag c.command,
  contains-keep_flag c.args,
  plain_scheme cs,
  scheme-keep_container cs rest,
)

ready-keep_condition :
    (cs : List Condition) → condition_ready (keep_condition cs) ≡ condition_ready cs
unfolding condition_ready keep_condition
ready-keep_condition [] = refl
ready-keep_condition (c ∷ cs) = ground (arith, ready-keep_condition cs)

id-keep_status :
    (ss : List ContainerStatus) → postgres_container_id (keep_status ss) ≡ postgres_container_id ss
unfolding postgres_container_id keep_status
id-keep_status [] = refl
id-keep_status (s ∷ ss) = ground (arith, id-keep_status ss)

owners_refl : (os : List OwnerReference) → owners_beq os os ≡ true
unfolding owners_beq
owners_refl [] = refl
owners_refl (o ∷ os) = ground (
  arith,
  owners_refl os,
  string_beq_iff o.api_version o.api_version,
  string_beq_iff o.kind o.kind,
  string_beq_iff o.name o.name,
  string_beq_iff o.uid o.uid,
)

same_bool_refl : (b : Bool) → same_bool b b ≡ true
unfolding same_bool
same_bool_refl b = ground arith

pub kept_lookup :
    (labels : Map String String) (key : String)
    → contains kept_labels key ≡ true
    → lookup key (keep_labels labels kept_labels []) ≡ lookup key labels
unfolding lookup
kept_lookup labels key h = ground (arith, lookup-keep_labels labels kept_labels [] key)

keeps_zone : contains kept_labels "topology.kubernetes.io/zone" ≡ true
unfolding contains string_beq
keeps_zone = refl

keeps_region : contains kept_labels "topology.kubernetes.io/region" ≡ true
unfolding contains string_beq
keeps_region = refl

label_kept :
    (pod : Pod) (key : String)
    → contains kept_labels key ≡ true
    → label (transform_pod_cache pod) key ≡ label pod key
unfolding transform_pod_cache
label_kept pod key h = ap (λ o. get_or o "") (kept_lookup pod.labels key h)

ready_kept : (pod : Pod) → pod_ready (transform_pod_cache pod) ≡ pod_ready pod
unfolding pod_ready transform_pod_cache
ready_kept pod = ground (arith, ready-keep_condition pod.conditions)

scheme_kept :
    (pod : Pod)
    → OnePostgres pod.containers
    → status_scheme (transform_pod_cache pod).containers ≡ status_scheme pod.containers
unfolding transform_pod_cache
scheme_kept pod one = scheme-keep_container pod.containers one

id_kept :
    (pod : Pod)
    → postgres_container_id (transform_pod_cache pod).container_statuses
      ≡ postgres_container_id pod.container_statuses
unfolding transform_pod_cache
id_kept pod = id-keep_status pod.container_statuses

-- The other fields that a route is made of are copied.
copied :
    (pod : Pod)
    → let kept = transform_pod_cache pod in
      (kept.name ≡ pod.name)
      × (kept.uid ≡ pod.uid)
      × (kept.pod_ip ≡ pod.pod_ip)
      × (kept.node_name ≡ pod.node_name)
      × (kept.owner_references ≡ pod.owner_references)
unfolding transform_pod_cache
copied pod = (refl, refl, refl, refl, refl)

same_route_kept :
    (a b : Pod)
    → OnePostgres a.containers
    → OnePostgres b.containers
    → same_pod_route (transform_pod_cache a) (transform_pod_cache b) ≡ same_pod_route a b
unfolding same_pod_route transform_pod_cache
same_route_kept a b one_a one_b =
    rw
      (
        copied a,
        copied b,
        ready_kept a,
        ready_kept b,
        scheme_kept a one_a,
        scheme_kept b one_b,
        id_kept a,
        id_kept b,
      )
      refl

string_refl : (s : String) → string_beq s s ≡ true
string_refl s = (string_beq_iff s s).1 refl

route_refl : (pod : Pod) → same_pod_route pod pod ≡ true
unfolding same_pod_route
route_refl pod = ground (
  arith,
  owners_refl pod.owner_references,
  same_bool_refl (pod_ready pod),
  string_refl pod.name,
  string_refl pod.uid,
  string_refl pod.pod_ip,
  string_refl pod.node_name,
  string_refl (status_scheme pod.containers),
  string_refl (postgres_container_id pod.container_statuses),
)

projected_route :
    (pod : Pod)
    → OnePostgres pod.containers
    → same_pod_route pod (transform_pod_cache pod) ≡ same_pod_route pod pod
unfolding same_pod_route
projected_route pod one =
    let (name, uid, ip, node, owners) = copied pod in
    rw (ready_kept pod, scheme_kept pod one, id_kept pod, name, uid, ip, node, owners) refl

projected_ignored :
    (pod : Pod) → OnePostgres pod.containers → is_ignored pod (transform_pod_cache pod) ≡ true
unfolding is_ignored
projected_ignored pod one = ground (
  arith,
  projected_route pod one,
  route_refl pod,
  label_kept pod "topology.kubernetes.io/zone" keeps_zone,
  label_kept pod "topology.kubernetes.io/region" keeps_region,
  string_refl (label pod "topology.kubernetes.io/zone"),
  string_refl (label pod "topology.kubernetes.io/region"),
)

-- For discovery the Pod that the informer keeps is the Pod itself: whatever its probe, the
-- fencing and the parameters, it gives the same member and the same reported role, and two Pods
-- have the same route exactly if the kept Pods have. It is assumed that no two containers of a Pod
-- are called postgres.
pub projected_same :
    (pod other : Pod) (fenced : List String) (params : Parameters) (server : String)
    (r : StatusResult)
    → OnePostgres pod.containers
    → OnePostgres other.containers
    → (member_of fenced params server (transform_pod_cache pod, r)
        ≡ member_of fenced params server (pod, r))
      × (reported_role fenced (transform_pod_cache pod, r) ≡ reported_role fenced (pod, r))
      × (same_pod_route (transform_pod_cache pod) (transform_pod_cache other)
          ≡ same_pod_route pod other)
projected_same pod other fenced params server r one other_one =
    let (member, role) =
      ignored_update_same_member pod (transform_pod_cache pod) fenced params server r
        (projected_ignored pod one) in
    (sym member, sym role, same_route_kept pod other one other_one)
