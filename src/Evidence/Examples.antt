-- ===== src/Evidence/Examples.antt =====
-- Collections with conflicting primaries (internal/observer/primary_evidence.go).
use cnpg_connect_plugin.Prelude.{
  ◌≡◌, refl, string_eq, true, false, some, List, [], ◌∷◌, string_beq, contains,
}
use cnpg_connect_plugin.Prelude.Map.{Map, lookup}
use cnpg_connect_plugin.Key.{ClusterKey, key_eq, key_beq}
use cnpg_connect_plugin.Kube.{Pod}
use cnpg_connect_plugin.Status.{StatusResult}
use cnpg_connect_plugin.Evidence.{PrimaryEvidence, conflicting_primary, fenced_by, evidence_for}
use cnpg_connect_plugin.Evidence.Claims.{verdicts, same_uid}
use cnpg_connect_plugin.Evidence.Conflict.{fences, claim_of, unexpected_primary_conflicts}
use cnpg_connect_plugin.Samples.{cluster_a, parse_nothing, pod_1, pod_2, primary_1, reports, key_a}

-- Both instances say that they are primary.
abbrev rogue : Pod × StatusResult
rogue = (pod_2, reports true [])

abbrev split_brain : List (Pod × StatusResult)
split_brain = primary_1 ∷ rogue ∷ []

only_rogue : verdicts "orders-2" split_brain ≡ rogue ∷ []
unfolding string_beq
only_rogue = refl

still_there : same_uid "orders-2" "u2" (pod_1 ∷ pod_2 ∷ []) ≡ true
unfolding string_beq
still_there = refl

unexpected : string_beq "orders-2" cluster_a.current_primary ≡ false
unfolding string_beq
unexpected = refl

unfenced : fences parse_nothing cluster_a "orders-2" ≡ false
unfolding fenced_by lookup contains string_beq
unfenced = refl

unexpected_primary_conflicts_example :
    (conflicting_primary parse_nothing [] cluster_a cluster_a split_brain (pod_1 ∷ pod_2 ∷ [])).1
    ≡ true
unexpected_primary_conflicts_example =
    unexpected_primary_conflicts parse_nothing [] cluster_a cluster_a split_brain
      (pod_1 ∷ pod_2 ∷ []) "orders-2" "u2" rogue only_rogue refl refl still_there unexpected
      unexpected unfenced

-- Evidence against the second instance, which is not probed any more.
abbrev old_evidence : Map ClusterKey PrimaryEvidence
old_evidence = (key_a, record { cluster_uid = "c1"; members = ("orders-2", "u2") ∷ [] }) ∷ []

has_claim : claim_of old_evidence cluster_a "orders-2" ≡ some "u2"
unfolding evidence_for lookup key_beq string_beq
has_claim = refl

silent : verdicts "orders-2" (primary_1 ∷ []) ≡ []
unfolding string_beq
silent = refl
