-- ===== src/Store/Examples.antt =====
-- Runs of the store (internal/discovery/store.go).
use cnpg_connect_plugin.Prelude.{
  ◌≡◌, refl, false, true, none, some, nat_eq, List, [], ◌∷◌, string_beq,
}
use cnpg_connect_plugin.Prelude.Map.{lookup, insert, has}
use cnpg_connect_plugin.Key.{key_eq, key_beq}
use cnpg_connect_plugin.Api.{api_version, numbered}
use cnpg_connect_plugin.Routing.{invalidate}
use cnpg_connect_plugin.Mailbox.{Publication}
use cnpg_connect_plugin.Store.{
  Store, StoredRecord, new_store, put_deferred, read_publication, commit_snapshot, routing_changed,
  revise, next_revision, new_publication, notification, expire_record,
}
use cnpg_connect_plugin.Store.Invariant.{Inv}
use cnpg_connect_plugin.Store.Operations.{Operation, puts, perform, perform_all, store-Inv}
use cnpg_connect_plugin.Store.Freshness.{Fresh, read_fails_closed}
use cnpg_connect_plugin.Store.Publishing.{Committed, accepted, put_commits}
use cnpg_connect_plugin.Mailbox.{Subscription, publications}
use cnpg_connect_plugin.Samples.{key_a, short_hash, snapshot_a}

abbrev one_put : List Operation
one_put = puts snapshot_a 110 111 ∷ []

abbrev filled : Store
filled = perform_all short_hash (new_store "p") one_put

store-Inv_example : Inv short_hash filled.records
store-Inv_example = store-Inv short_hash "p" one_put

-- What a read finds after the end of the snapshot's validity, at 200.
abbrev closed_publication : Publication
closed_publication = record {
  snapshot = record (invalidate (record snapshot_a { api_version = api_version })) {
    revision = numbered "p" 2;
  };
  order = 2;
}

read_late : (read_publication short_hash filled key_a 250).1 ≡ some closed_publication
unfolding perform_all perform put_deferred commit_snapshot routing_changed revise next_revision
    new_publication notification read_publication expire_record invalidate new_store lookup insert
    key_beq string_beq
read_late = refl

read_fails_closed_example : Fresh 250 closed_publication.snapshot
read_fails_closed_example =
    read_fails_closed short_hash "p" one_put key_a 250 closed_publication read_late

put_commits_example :
    Committed short_hash filled key_a
      (accepted snapshot_a 120 121)
      (put_deferred short_hash filled snapshot_a 120 121)
put_commits_example = put_commits short_hash filled snapshot_a 120 121

abbrev valid_record : StoredRecord
valid_record = record {
  publication = record { snapshot = snapshot_a; order = 1 };
  routing = 1 ∷ [];
  expired = false;
}

abbrev one_record : Store
one_record = record (new_store "p") { records = (key_a, valid_record) ∷ [] }

finds_record : lookup key_a one_record.records ≡ some valid_record
unfolding lookup key_beq string_beq
finds_record = refl

abbrev open_watcher : Subscription
open_watcher = record { order = 0; closed = false; pending = publications none }

-- A store with one record, one watcher and a lease of 30 for unary readers.
abbrev watched_store : Store
watched_store = record one_record {
  unary_lease = 30;
  subscribers = (key_a, 0 ∷ []) ∷ [];
  watchers = (0, open_watcher) ∷ [];
}

knows_record : has key_a watched_store.records ≡ true
unfolding lookup key_beq string_beq
knows_record = refl

finds_watcher : lookup 0 watched_store.watchers ≡ some open_watcher
unfolding lookup
finds_watcher = refl
