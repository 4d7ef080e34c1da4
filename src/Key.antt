-- ===== src/Key.antt =====
-- clusterKey of internal/discovery/store.go and internal/observer/observer.go: the name of a
-- Cluster within its namespace, by which both packages index their state.
use cnpg_connect_plugin.Prelude.{
  String, ◌≡◌, ◌↔◌, Bool, true, ◌&&◌, arith, Comparable, string_beq, string_beq_iff,
}

pub record ClusterKey : Type 0 where
  pub namespace : String
  pub name : String

unfoldable pub key_beq : ClusterKey → ClusterKey → Bool
key_beq a b = string_beq a.namespace b.namespace && string_beq a.name b.name

pub key_beq_iff : (a b : ClusterKey) → (key_beq a b ≡ true) ↔ (a ≡ b)
unfolding key_beq
key_beq_iff a b =
    ground (arith, string_beq_iff a.namespace b.namespace, string_beq_iff a.name b.name)

instance abbrev pub key_eq : Comparable ClusterKey
key_eq = record { test = key_beq; decides = key_beq_iff }
