-- ===== src/Evidence.antt =====
-- internal/observer/primary_evidence.go: the primary claims that are kept against a Cluster.
-- `parse_fenced` is the JSON decoding of the fencing annotation, none where it fails; the results
-- of the probes stand beside their Pods.
pub mod Claims
pub mod Conflict
mod Examples
use cnpg_connect_plugin.Prelude.{
  ℕ, String, string_eq, Bool, true, false, ◌&&◌, ◌||◌, not, Option, none, some, List, [], ◌∷◌,
  if◌then◌else◌, get_or, string_beq, contains, length, nat_beq,
}
use cnpg_connect_plugin.Prelude.Map.{Map, lookup, insert, delete, has}
use cnpg_connect_plugin.Key.{ClusterKey, key_eq}
use cnpg_connect_plugin.Kube.{Pod, Cluster}
use cnpg_connect_plugin.Status.{StatusResult}
use cnpg_connect_plugin.Topology.{fenced_annotation}

pub record PrimaryEvidence : Type 0 where
  pub cluster_uid : String
  -- The Pods that claimed to be primary, by name, with their UIDs.
  pub members : Map String String

abbrev pub key_of : Cluster → ClusterKey
key_of c = record { namespace = c.namespace; name = c.name }

-- The evidence against this incarnation of the Cluster, empty where there is none.
unfoldable pub evidence_for : Map ClusterKey PrimaryEvidence → Cluster → PrimaryEvidence
evidence_for primaries c =
    let fresh : PrimaryEvidence = record { cluster_uid = c.uid; members = [] } in
    elim (lookup (key_of c) primaries) [
      | none ↦ fresh
      | some e ↦ if string_beq e.cluster_uid c.uid then e else fresh
    ]

-- `uid, ok := m[name]; ok && uid != other`
unfoldable pub differs : Map String String → String → String → Bool
differs m name other = elim (lookup name m) [ none ↦ false | some uid ↦ not (string_beq uid other) ]

-- The loop over the current Pods: their UIDs, and the claims less those of replaced Pods.
unfoldable pub drop_replaced :
    List Pod → Map String String → Map String String → Map String String × Map String String
unfolding differs
drop_replaced [] uids members = (uids, members)
drop_replaced (p ∷ ps) uids members =
    drop_replaced ps (insert p.name p.uid uids)
      (if differs members p.name p.uid then delete p.name members else members)

-- One round of the loop over the probed Pods.
unfoldable pub weigh_claim :
    Map String String → Pod × StatusResult → Map String String → Map String String
unfolding differs
weigh_claim uids (pod, r) members =
    if differs uids pod.name pod.uid || r.failed then members else elim r.status.is_primary [
      | none ↦ members
      | some true ↦ insert pod.name pod.uid members
      | some false ↦
          if string_beq (get_or (lookup pod.name members) "") pod.uid
          then delete pod.name members
          else members
    ]

unfoldable pub weigh_claims :
    Map String String → List (Pod × StatusResult) → Map String String → Map String String
unfolding weigh_claim
weigh_claims uids [] members = members
weigh_claims uids (pr ∷ prs) members = weigh_claims uids prs (weigh_claim uids pr members)

-- A claim of only the expected primary is no conflict.
unfoldable pub clear_expected : String → Map String String → Map String String
clear_expected expected members =
    if nat_beq (length members) 1 && has expected members then [] else members

-- `fenced` is none where the annotation cannot be decoded.
unfoldable pub fenced_by : (String → Option (List String)) → Cluster → Option (List String)
fenced_by parse_fenced c =
    let raw = get_or (lookup fenced_annotation c.annotations) "" in
    if string_beq raw "" then some [] else parse_fenced raw

unfoldable pub unresolved : List String → String → Map String String → Bool
unresolved fenced expected [] = false
unresolved fenced expected ((name, uid) ∷ members) =
    (not (string_beq name expected) && (not (contains fenced "*") && not (contains fenced name)))
    || unresolved fenced expected members

-- The claims after a collection that began with the Cluster `observed`.
unfoldable pub collect_claims :
    String → Map String String → List (Pod × StatusResult) → List Pod → Map String String
unfolding drop_replaced weigh_claims clear_expected
collect_claims expected members probed current =
    let (uids, kept) = drop_replaced current [] members in
    clear_expected expected (weigh_claims uids probed kept)

unfoldable pub conflicting_primary :
    (String → Option (List String))
    → Map ClusterKey PrimaryEvidence
    → Cluster
    → Cluster
    → List (Pod × StatusResult)
    → List Pod
    → Map ClusterKey PrimaryEvidence × Bool
unfolding evidence_for collect_claims fenced_by unresolved
conflicting_primary parse_fenced primaries observed c probed current =
    let evidence = evidence_for primaries c in
    let members = collect_claims observed.current_primary evidence.members probed current in
    (
      insert (key_of c) (record evidence { members = members }) primaries,
      elim (fenced_by parse_fenced c) [
        | none ↦ true
        | some fenced ↦ unresolved fenced c.current_primary members
      ],
    )
