-- ===== src/Topology/Senders.antt =====
-- The index of the primary's senders in buildSnapshot (internal/observer/topology.go).
use cnpg_connect_plugin.Prelude.{
  ◌≡◌, refl, String, Bool, true, false, none, some, List, [], ◌∷◌, arith, if◌then◌else◌, get_or,
  string_beq, string_beq_iff, string_eq, filter_by, inl, inr, Bool-cases,
}
use cnpg_connect_plugin.Prelude.Map.{lookup, insert, has, lookup-insert}
use cnpg_connect_plugin.Status.{ReplicationStatus}
use cnpg_connect_plugin.Topology.{SenderIndex, senders}

-- The senders that report a name.
abbrev pub named_senders : String → List ReplicationStatus → List ReplicationStatus
named_senders n = filter_by (λ (r : ReplicationStatus). string_beq r.application_name n)

abbrev is_duplicate : String → SenderIndex → Bool
is_duplicate n s = get_or (lookup n s.duplicates) false

add_sender : ReplicationStatus → SenderIndex → SenderIndex
add_sender r acc = record {
  duplicates =
      if has r.application_name acc.replication
      then insert r.application_name true acc.duplicates
      else acc.duplicates;
  replication = insert r.application_name r acc.replication;
}

senders_keep_duplicate :
    (n : String) (rs : List ReplicationStatus) (acc : SenderIndex)
    → is_duplicate n acc ≡ true
    → is_duplicate n (senders rs acc) ≡ true
unfolding senders add_sender
senders_keep_duplicate n [] acc h = h
senders_keep_duplicate n (r ∷ rs) acc h =
    senders_keep_duplicate n rs (add_sender r acc)
      (ground (arith, lookup-insert r.application_name n true acc.duplicates))

senders_known :
    (n : String) (rs : List ReplicationStatus) (acc : SenderIndex) (s t : ReplicationStatus)
    → lookup n acc.replication ≡ some t
    → lookup n (senders rs acc).replication ≡ some s
    → is_duplicate n (senders rs acc) ≡ false
    → (named_senders n rs ≡ []) × (s ≡ t)
unfolding senders add_sender
senders_known n [] acc s t a h d = (refl, ground arith)
senders_known n (r ∷ rs) acc s t a h d =
    let name_eq = string_beq_iff r.application_name n in
    elim (Bool-cases (string_beq r.application_name n)) [
      | inl same ↦
          let dup : is_duplicate n (add_sender r acc) ≡ true =
            ground
              (arith, lookup-insert r.application_name n true acc.duplicates, name_eq.0 same) in
          let kept = senders_keep_duplicate n rs (add_sender r acc) dup in cc
      | inr other ↦
          let known : lookup n (add_sender r acc).replication ≡ some t =
            ground (arith, lookup-insert r.application_name n r acc.replication) in
          rw other (senders_known n rs (add_sender r acc) s t known h d)
    ]

senders_new :
    (n : String) (rs : List ReplicationStatus) (acc : SenderIndex) (s : ReplicationStatus)
    → lookup n acc.replication ≡ none
    → lookup n (senders rs acc).replication ≡ some s
    → is_duplicate n (senders rs acc) ≡ false
    → named_senders n rs ≡ s ∷ []
unfolding senders add_sender
senders_new n [] acc s a h d = cc
senders_new n (r ∷ rs) acc s a h d =
    let name_eq = string_beq_iff r.application_name n in
    elim (Bool-cases (string_beq r.application_name n)) [
      | inl same ↦
          let known : lookup n (add_sender r acc).replication ≡ some r =
            ground (arith, lookup-insert r.application_name n r acc.replication) in
          let (none_left, e) = senders_known n rs (add_sender r acc) s r known h d in
          rw (same, none_left, e)
      | inr other ↦
          let fresh : lookup n (add_sender r acc).replication ≡ none =
            ground (arith, lookup-insert r.application_name n r acc.replication) in
          rw other (senders_new n rs (add_sender r acc) s fresh h d)
    ]

-- A name that the index finds and does not count as a duplicate has exactly one sender.
pub senders_sole :
    (n : String) (rs : List ReplicationStatus) (s : ReplicationStatus)
    → let found = senders rs (record { replication = []; duplicates = [] }) in
      lookup n found.replication ≡ some s
      → get_or (lookup n found.duplicates) false ≡ false
      → named_senders n rs ≡ s ∷ []
unfolding lookup
senders_sole n rs s h d = senders_new n rs (record { replication = []; duplicates = [] }) s refl h d
