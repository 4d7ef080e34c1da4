-- ===== src/PodCache/Idempotence.antt =====
-- The projection of transformPodCache (internal/observer/cache.go) is idempotent, as its
-- counterpart for Clusters says of itself: the informer may apply it to what it has kept.
use cnpg_connect_plugin.Prelude.{
  String, string_eq, ◌≡◌, refl, List, [], ◌∷◌, arith, string_beq, contains, All,
}
use cnpg_connect_plugin.Prelude.Map.{Map, lookup}
use cnpg_connect_plugin.Kube.{Pod, Container, Condition, ContainerStatus}
use cnpg_connect_plugin.PodCache.{
  kept_labels, keep_labels, keep_flag, keep_container, keep_condition, keep_status,
  transform_pod_cache,
}
use cnpg_connect_plugin.PodCache.Projection.{kept_lookup, keep_labels_by, contains-keep_flag}

flag_twice : (args : List String) → keep_flag (keep_flag args) ≡ keep_flag args
unfolding keep_flag
flag_twice args = ground (arith, contains-keep_flag args)

container_twice : (cs : List Container) → keep_container (keep_container cs) ≡ keep_container cs
unfolding keep_container
container_twice [] = refl
container_twice (c ∷ cs) =
    ground (arith, container_twice cs, flag_twice c.command, flag_twice c.args)

condition_twice : (cs : List Condition) → keep_condition (keep_condition cs) ≡ keep_condition cs
unfolding keep_condition
condition_twice [] = refl
condition_twice (c ∷ cs) = ground (arith, condition_twice cs)

status_twice : (ss : List ContainerStatus) → keep_status (keep_status ss) ≡ keep_status ss
unfolding keep_status
status_twice [] = refl
status_twice (s ∷ ss) = ground (arith, status_twice ss)

abbrev AllKept : Map String String → List String → Type 0
AllKept labels =
    All (λ (k : String). lookup k (keep_labels labels kept_labels []) ≡ lookup k labels)

all_kept : (labels : Map String String) → AllKept labels kept_labels
unfolding contains string_beq
all_kept labels = (
  kept_lookup labels "cnpg.io/cluster" refl,
  (
    kept_lookup labels "cnpg.io/instanceName" refl,
    (
      kept_lookup labels "cnpg.io/instanceRole" refl,
      (
        kept_lookup labels "cnpg.io/podRole" refl,
        (
          kept_lookup labels "topology.kubernetes.io/zone" refl,
          (kept_lookup labels "topology.kubernetes.io/region" refl, tt),
        ),
      ),
    ),
  ),
)

labels_twice :
    (labels : Map String String)
    → keep_labels (keep_labels labels kept_labels []) kept_labels []
      ≡ keep_labels labels kept_labels []
labels_twice labels =
    keep_labels_by (keep_labels labels kept_labels []) labels [] kept_labels (all_kept labels)

-- Keeping what is already kept changes nothing.
pub transform_idem :
    (pod : Pod) → transform_pod_cache (transform_pod_cache pod) ≡ transform_pod_cache pod
unfolding transform_pod_cache
transform_idem pod =
    rw
      (
        labels_twice pod.labels,
        container_twice pod.containers,
        condition_twice pod.conditions,
        status_twice pod.container_statuses,
      )
      refl
