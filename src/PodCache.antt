-- ===== src/PodCache.antt =====
-- transformPodCache of internal/observer/cache.go: what the informer keeps of a Pod. Fields that
-- Kube leaves out are read nowhere.
pub mod Projection
pub mod Idempotence
mod Examples
use cnpg_connect_plugin.Prelude.{
  String, string_eq, ◌≡◌, refl, Bool, true, false, ◌||◌, Option, none, some, List, [], ◌∷◌, arith,
  if◌then◌else◌, string_beq, string_beq_iff, contains, Bool-cases, Option-cases, inl, inr, get_or,
}
use cnpg_connect_plugin.Prelude.Map.{Map, lookup, insert, lookup-insert}
use cnpg_connect_plugin.Kube.{Pod, Container, Condition, ContainerStatus, Parameters}
use cnpg_connect_plugin.Status.{StatusResult}
use cnpg_connect_plugin.Topology.{condition_ready, pod_ready, label, member_of}
use cnpg_connect_plugin.Routes.{status_scheme, postgres_container_id, same_pod_route, is_ignored}

abbrev pub kept_labels : List String
kept_labels =
    "cnpg.io/cluster" ∷ "cnpg.io/instanceName" ∷ "cnpg.io/instanceRole" ∷ "cnpg.io/podRole"
    ∷ "topology.kubernetes.io/zone" ∷ "topology.kubernetes.io/region" ∷ []

-- The loop over the keys; `kept` is what the rounds before have set.
pub keep_labels : Map String String → List String → Map String String → Map String String
keep_labels labels [] kept = kept
keep_labels labels (key ∷ keys) kept = elim (lookup key labels) [
  | none ↦ keep_labels labels keys kept
  | some value ↦ keep_labels labels keys (insert key value kept)
]

abbrev tls_flag : String
tls_flag = "--status-port-tls"

pub keep_flag : List String → List String
keep_flag args = if contains args tls_flag then tls_flag ∷ [] else []

-- The first container of the name "postgres", as no other is read.
pub keep_container : List Container → List Container
unfolding keep_flag
keep_container [] = []
keep_container (c ∷ cs) =
    let rest = keep_container cs in
    if string_beq c.name "postgres"
    then record { name = c.name; command = keep_flag c.command; args = keep_flag c.args } ∷ []
    else rest

pub keep_condition : List Condition → List Condition
keep_condition [] = []
keep_condition (c ∷ cs) =
    let rest = keep_condition cs in if string_beq c.type "Ready" then c ∷ [] else rest

pub keep_status : List ContainerStatus → List ContainerStatus
keep_status [] = []
keep_status (s ∷ ss) =
    let rest = keep_status ss in if string_beq s.name "postgres" then s ∷ [] else rest

pub transform_pod_cache : Pod → Pod
unfolding keep_labels keep_container keep_condition keep_status
transform_pod_cache pod = record pod {
  labels = keep_labels pod.labels kept_labels [];
  containers = keep_container pod.containers;
  conditions = keep_condition pod.conditions;
  container_statuses = keep_status pod.container_statuses;
}
