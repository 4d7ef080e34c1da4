-- ===== src/Topology/Ready.antt =====
-- Which members buildSnapshot (internal/observer/topology.go) marks ready.
use cnpg_connect_plugin.Prelude.{
  ℕ, zero, suc, ◌≡◌, refl, subst, ◌⊎◌, inl, inr, String, Bool, true, false, ◌&&◌, some, List, [],
  ◌∷◌, map, arith, string_beq, string_beq_iff, string_eq, contains, All, Bool-cases, Option-cases,
}
use cnpg_connect_plugin.Prelude.Map.{lookup}
use cnpg_connect_plugin.Api.{Member}
use cnpg_connect_plugin.Kube.{Pod, Parameters}
use cnpg_connect_plugin.Status.{InstanceStatus, ReplicationStatus, StatusResult}
use cnpg_connect_plugin.Topology.{
  reported_role, member_of, SenderIndex, senders, streams, sync_states, verify_replica,
  verify_replicas,
}
use cnpg_connect_plugin.Topology.Build.{pair_at, mark_primary}
use cnpg_connect_plugin.Topology.Loop.{Pairs}
use cnpg_connect_plugin.Topology.Senders.{named_senders, senders_sole}

-- A replica that the primary vouches for: not fenced, its Pod ready, it reports itself as a
-- standby that replays and receives, of the primary's database system, and the primary has exactly
-- one sender of its name, which streams to it in a known state.
pub record IsReplica (fenced : List String) (primary pr : Pod × StatusResult) : Type 0 where
  pub standby : reported_role fenced pr ≡ some false
  pub replays : pr.1.status.replay_paused ≡ false
  pub receives : pr.1.status.wal_receiver_active ≡ true
  pub same_system : pr.1.status.system_id ≡ primary.1.status.system_id
  pub sender : ReplicationStatus
  pub sole_sender : named_senders pr.0.name primary.1.status.replication ≡ sender ∷ []
  pub streaming : sender.state ≡ "streaming"
  pub synced : contains sync_states sender.sync_state ≡ true

-- A relation between two lists, item by item.
abbrev pub Aligned : (Pod × StatusResult → Member → Type 0) → Pairs → List Member → Type 0
Aligned P [] [] = Unit
Aligned P (pr ∷ prs) (m ∷ ms) = P pr m × Aligned P prs ms
Aligned P _ _ = ⊥

-- What a published member says of its Pod, where `p` is the primary.
abbrev pub Vouched : List String → Pod × StatusResult → Pod × StatusResult → Member → Type 0
Vouched fenced p pr m =
    (m.id ≡ pr.0.uid)
    × (m.name ≡ pr.0.name)
    × ((m.ready ≡ false) ⊎ (pr ≡ p) ⊎ IsReplica fenced p pr)

abbrev pub found_of : Pod × StatusResult → SenderIndex
found_of p = senders p.1.status.replication (record { replication = []; duplicates = [] })

abbrev is_candidate : Member → Bool
is_candidate m = string_beq m.role "standby" && string_beq m.reason "replication_unverified"

role-literals : (string_beq "unknown" "standby" ≡ false) × (string_beq "primary" "standby" ≡ false)
unfolding string_beq
role-literals = (refl, refl)

reason-literals :
    (string_beq "replay_paused" "replication_unverified" ≡ false)
    × (string_beq "wal_receiver_inactive" "replication_unverified" ≡ false)
    × (string_beq "" "replication_unverified" ≡ false)
unfolding string_beq
reason-literals = (refl, refl, refl)

module _ (fenced : List String) (params : Parameters) (server : String) where
  member-names :
      (pr : Pod × StatusResult)
      → ((member_of fenced params server pr).id ≡ pr.0.uid)
        × ((member_of fenced params server pr).name ≡ pr.0.name)
        × ((member_of fenced params server pr).ready ≡ false)
  unfolding member_of
  member-names (pod, r) = ground arith

  candidate-reports :
      (pr : Pod × StatusResult)
      → is_candidate (member_of fenced params server pr) ≡ true
      → (reported_role fenced pr ≡ some false)
        × (pr.1.status.replay_paused ≡ false)
        × (pr.1.status.wal_receiver_active ≡ true)
  unfolding member_of reported_role
  candidate-reports (pod, r) h = ground (arith, role-literals, reason-literals)

  verify-skips :
      (p : Pod × StatusResult) (s : SenderIndex) (status : InstanceStatus) (m : Member)
      → is_candidate m ≡ false
      → verify_replica p.1.status s status m ≡ m
  unfolding verify_replica
  verify-skips p s status m h = ground arith

  sender-IsReplica :
      (p pr : Pod × StatusResult) (sender : ReplicationStatus)
      → let m = member_of fenced params server pr in
        is_candidate m ≡ true
        → string_beq pr.1.status.system_id p.1.status.system_id ≡ true
        → lookup m.name (found_of p).replication ≡ some sender
        → streams (found_of p) m sender ≡ true
        → IsReplica fenced p pr
  unfolding streams
  sender-IsReplica p pr sender candidate same e live =
      let (standby, replays, receives) = candidate-reports pr candidate in
      let m = member_of fenced params server pr in
      record {
        standby = standby;
        replays = replays;
        receives = receives;
        same_system = (string_beq_iff pr.1.status.system_id p.1.status.system_id).0 same;
        sender = sender;
        sole_sender =
            subst (λ n. named_senders n p.1.status.replication ≡ sender ∷ []) (member-names pr).1
              (senders_sole m.name p.1.status.replication sender e (ground arith));
        streaming = (string_beq_iff sender.state "streaming").0 (ground arith);
        synced = ground arith;
      }

  verify-Vouched :
      (p pr : Pod × StatusResult)
      → Vouched fenced p pr
          (verify_replica p.1.status (found_of p) pr.1.status (member_of fenced params server pr))
  unfolding verify_replica
  verify-Vouched p pr = elim (Bool-cases (is_candidate m)) [
    | inr no_candidate ↦
        rw (verify-skips p (found_of p) pr.1.status m no_candidate)
          (id, name, inl (ground (arith, unready)))
    | inl candidate ↦ elim (Bool-cases (string_beq pr.1.status.system_id p.1.status.system_id)) [
      | inr other ↦ (ground (arith, id), ground (arith, name), inl (ground (arith, unready)))
      | inl same ↦ elim (Option-cases (lookup m.name (found_of p).replication)) [
        | inl e ↦ (ground (arith, id), ground (arith, name), inl (ground (arith, unready)))
        | inr (sender, e) ↦ elim (Bool-cases (streams (found_of p) m sender)) [
          | inr silent ↦ (ground (arith, id), ground (arith, name), inl (ground (arith, unready)))
          | inl live ↦ (
            ground (arith, id),
            ground (arith, name),
            inr (inr (sender-IsReplica p pr sender candidate same e live)),
          )
        ]
      ]
    ]
  ]
    where
      m : Member
      m = member_of fenced params server pr

      id : m.id ≡ pr.0.uid
      id = (member-names pr).0

      name : m.name ≡ pr.0.name
      name = (member-names pr).1

      unready : m.ready ≡ false
      unready = (member-names pr).2

  abbrev pub loop_members : Pairs → List Member
  loop_members = map (member_of fenced params server)

  verify-rest :
      (p : Pod × StatusResult) (prs : Pairs)
      → Aligned
          (Vouched fenced p)
          prs
          (verify_replicas p.1.status (found_of p) prs (loop_members prs))
  unfolding verify_replicas
  verify-rest p [] = tt
  verify-rest p ((pod, r) ∷ prs) = (verify-Vouched p (pod, r), verify-rest p prs)

  verify-marked :
      (p : Pod × StatusResult) (s : SenderIndex) (pr : Pod × StatusResult)
      → pr ≡ p
      → Vouched fenced p pr (
          verify_replica p.1.status s pr.1.status
            (record (member_of fenced params server pr) { ready = true; reason = "" }))
  verify-marked p s pr e =
      rw
        (verify-skips p s pr.1.status
          (record (member_of fenced params server pr) { ready = true; reason = "" })
          (ground (arith, reason-literals)))
        ((member-names pr).0, (member-names pr).1, inr (inl e))

  -- The members that the verification leaves, the primary at its index marked.
  pub verify-members :
      (p : Pod × StatusResult) (i : ℕ) (prs : Pairs)
      → pair_at i prs ≡ some p
      → Aligned
          (Vouched fenced p)
          prs
          (verify_replicas p.1.status (found_of p) prs (mark_primary i (loop_members prs)))
  unfolding verify_replicas mark_primary pair_at
  verify-members p i [] h = tt
  verify-members p zero ((pod, r) ∷ prs) h =
      (verify-marked p (found_of p) (pod, r) (ground arith), verify-rest p prs)
  verify-members p (suc i) ((pod, r) ∷ prs) h =
      (verify-Vouched p (pod, r), verify-members p i prs h)

  pub members-unready : (prs : Pairs) → All (λ (m : Member). m.ready ≡ false) (loop_members prs)
  members-unready [] = tt
  members-unready (pr ∷ prs) = ((member-names pr).2, members-unready prs)
