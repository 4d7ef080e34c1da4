-- ===== src/Mailbox/Examples.antt =====
-- Deliveries to mailboxes (internal/discovery/publication.go).
use cnpg_connect_plugin.Prelude.{◌<◌, ◌≡◌, ◌≢◌, refl, false, none, List, [], ◌∷◌, arith}
use mathlib.Core.List.{Memᴰ}
use cnpg_connect_plugin.Mailbox.{Publication, publications, publication, Subscription, receive}
use cnpg_connect_plugin.Mailbox.Order.{Event}
use cnpg_connect_plugin.Mailbox.Latest.{deliver_all, newest, receive-newest}
use cnpg_connect_plugin.Samples.{snapshot_a}

abbrev first : Publication
first = record { snapshot = snapshot_a; order = 1 }

abbrev second : Publication
second = record { snapshot = snapshot_a; order = 2 }

abbrev empty_mailbox : Subscription
empty_mailbox = record { order = 0; closed = false; pending = publications none }

-- The older publication arrives late.
abbrev overtaken : List Event
overtaken = Event.delivers second ∷ Event.receives ∷ Event.delivers first ∷ Event.receives ∷ []

different_orders : first.order ≢ second.order
different_orders e = omega (arith, e)

newer_comes : 0 < newest 0 (second ∷ first ∷ [])
unfolding newest
newer_comes = omega arith

receive-newest_example :
    (r : Publication) × ((receive (deliver_all empty_mailbox (second ∷ first ∷ []))).1
      ≡ publication r)
    × (r.order ≡ newest 0 (second ∷ first ∷ []))
    × Memᴰ r (second ∷ first ∷ [])
receive-newest_example =
    receive-newest empty_mailbox none (second ∷ first ∷ []) refl refl newer_comes
