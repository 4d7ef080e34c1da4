-- ===== src/Discovery/Examples.antt =====
-- A call of WatchTopology, and messages (internal/discovery/grpc.go).
use cnpg_connect_plugin.Prelude.{
  ◌≡◌, ◌≢◌, sym, subst, string_beq, string_beq_iff, false, refl, inl, inr, true, List, [], ◌∷◌, All,
}
use cnpg_connect_plugin.Api.{Snapshot, Time, api_version, numbered}
use cnpg_connect_plugin.Store.Operations.{Operation, puts, deletes, delivers, perform, perform_all}
use cnpg_connect_plugin.Discovery.Watch.{Event, operates, updates, cancels, Rising}
use cnpg_connect_plugin.Discovery.Stream.{watched, watch_sends-Rising}
use cnpg_connect_plugin.Discovery.Notices.{IsSafe, watch_sends-IsSafe}
use cnpg_connect_plugin.Store.Issued.{issued, Among, IsIssued}
use cnpg_connect_plugin.Store.{
  new_store, put_deferred, commit_snapshot, routing_changed, revise, next_revision, new_publication,
  notification, delete_deferred, tombstone,
}
use cnpg_connect_plugin.Prelude.Map.{lookup, insert, delete}
use cnpg_connect_plugin.Key.{key_beq}
use cnpg_connect_plugin.Mailbox.{Publication}
use cnpg_connect_plugin.Discovery.Proto.{IsSendable, to_proto, of_proto, of_proto-to_proto}
use cnpg_connect_plugin.Samples.{key_a, short_hash, snapshot_a, member_a}

abbrev one_put : List Operation
one_put = puts snapshot_a 110 111 ∷ []

abbrev other_primary : Snapshot
other_primary = record snapshot_a { primary_id = "u2" }

-- The first message is sent in time, the snapshot of the second one is over when the loop turns.
abbrev late_turns : List Event
late_turns =
    updates 130 130 true
    ∷ operates (puts other_primary 140 140)
    ∷ operates (delivers (record { snapshot = other_primary; order = 2 }) 0)
    ∷ updates 250 251 true
    ∷ cancels
    ∷ []

watch_sends-Rising_example :
    Rising (watched short_hash "p" one_put true true key_a 120 121 late_turns).sent
watch_sends-Rising_example =
    watch_sends-Rising short_hash "p" one_put true true key_a 120 121 late_turns

-- The Cluster is deleted during the call.
abbrev deletion : Publication
deletion = record {
  snapshot = record snapshot_a {
    api_version = api_version;
    revision = numbered "p" 2;
    available = false;
    reason = "deleted";
    primary_id = "";
    members = [];
  };
  order = 2;
}

abbrev deleted_turns : List Event
deleted_turns =
    updates 130 130 true
    ∷ operates (deletes key_a)
    ∷ operates (delivers deletion 0)
    ∷ updates 250 251 true
    ∷ cancels
    ∷ []

gives :
    issued short_hash (perform_all short_hash (new_store "p") one_put) (deletes key_a)
    ≡ deletion ∷ []
unfolding issued perform perform_all put_deferred commit_snapshot routing_changed revise
    next_revision new_publication notification delete_deferred tombstone new_store lookup insert
    delete key_beq string_beq
gives = refl

not_deleted : snapshot_a.reason ≢ "deleted"
unfolding string_beq
not_deleted h = let e : false ≡ true = (string_beq_iff snapshot_a.reason "deleted").1 h in cc

deletion-IsIssued : IsIssued short_hash deletion
deletion-IsIssued = (
  "p",
  one_put,
  deletes key_a,
  (tt, (not_deleted, tt)),
  subst (Among deletion) (sym gives) (inl refl),
)

watch_sends-IsSafe_example :
    All IsSafe (watched short_hash "p" one_put true true key_a 120 121 deleted_turns).sent
watch_sends-IsSafe_example =
    watch_sends-IsSafe short_hash "p" one_put true true key_a 120 121 deleted_turns
      (not_deleted, tt) (tt, (tt, (deletion-IsIssued, (tt, (tt, tt)))))

member_a-IsSendable : IsSendable member_a
member_a-IsSendable = record { role = inr (inl refl); sync_state = inl refl; ports = tt }

of_proto-to_proto_example : of_proto (λ t. t) (to_proto (λ (t : Time). t) snapshot_a) ≡ snapshot_a
of_proto-to_proto_example =
    of_proto-to_proto (λ (t : Time). t) (λ t. t) snapshot_a (λ t. refl) (member_a-IsSendable, tt)
