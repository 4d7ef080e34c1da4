-- ===== src/Observer/Collection/Matching.antt =====
-- matchInstanceResults of internal/observer/collection.go: whose result a Pod is given.
use cnpg_connect_plugin.Prelude.{
  String, string_eq, ◌≡◌, refl, Option, none, some, List, [], ◌∷◌, map, arith, if◌then◌else◌,
  or_else, string_beq, Bool-cases, Option-cases, inl, inr,
}
use cnpg_connect_plugin.Prelude.Map.{Map, lookup, insert, lookup-insert}
use cnpg_connect_plugin.Kube.{Pod}
use cnpg_connect_plugin.Status.{StatusResult}
use cnpg_connect_plugin.Routes.{same_pod_route}
use cnpg_connect_plugin.Observer.Collection.{
  no_status, index_probed, match_result, match_instance_results,
}

-- The last Pod of a name, with its result.
pub last_named : String → List (Pod × StatusResult) → Option (Pod × StatusResult)
last_named name [] = none
last_named name ((pod, r) ∷ prs) =
    or_else (last_named name prs) (if string_beq pod.name name then some (pod, r) else none)

lookup-index_probed :
    (name : String) (prs : List (Pod × StatusResult)) (index : Map String (Pod × StatusResult))
    → lookup name (index_probed prs index) ≡ or_else (last_named name prs) (lookup name index)
unfolding index_probed last_named
lookup-index_probed name [] index = refl
lookup-index_probed name ((pod, r) ∷ prs) index =
    let rest = lookup-index_probed name prs (insert pod.name (pod, r) index) in
    let here = lookup-insert pod.name name (pod, r) index in
    elim (Option-cases (last_named name prs)) [
      | inl e ↦ elim (Bool-cases (string_beq pod.name name)) [
        | inl b ↦ ground (arith, rest, here, e, b)
        | inr b ↦ ground (arith, rest, here, e, b)
      ]
      | inr (x, e) ↦ ground (arith, rest, here, e)
    ]

-- A result by what was probed under the Pod's name.
abbrev result_of : Option (Pod × StatusResult) → Pod → StatusResult
result_of none pod = no_status
result_of (some (previous, r)) pod = if same_pod_route previous pod then r else no_status

abbrev pub attributed : List (Pod × StatusResult) → Pod → Pod × StatusResult
attributed probed pod = (pod, result_of (last_named pod.name probed) pod)

match-attributed :
    (probed : List (Pod × StatusResult)) (pod : Pod)
    → match_result (index_probed probed []) pod ≡ attributed probed pod
unfolding match_result lookup
match-attributed probed pod =
    let e = lookup-index_probed pod.name probed [] in
    elim (Option-cases (last_named pod.name probed)) [
      | inl f ↦ ground (arith, e, f)
      | inr ((q, r), f) ↦
          let found : lookup pod.name (index_probed probed []) ≡ some (q, r) =
            ground (arith, e, f) in
          elim (Bool-cases (same_pod_route q pod)) [
            | inl b ↦ rw (f, match_result, found, b) refl
            | inr b ↦ rw (f, match_result, found, b) refl
          ]
    ]

-- The results follow the current Pods: the matched list has exactly these, in their order, each
-- with the result of the last probed Pod of its name if that has the same route, and otherwise with
-- a failure.
pub match_instance_results-attributed :
    (probed : List (Pod × StatusResult)) (current : List Pod)
    → match_instance_results probed current ≡ map (attributed probed) current
unfolding match_instance_results
match_instance_results-attributed probed [] = refl
match_instance_results-attributed probed (p ∷ ps) =
    rw (match-attributed probed p, match_instance_results-attributed probed ps) refl
