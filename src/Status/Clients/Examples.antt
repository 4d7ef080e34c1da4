-- ===== src/Status/Clients/Examples.antt =====
-- Two probes of a server whose CA is rotated between them, and the theorem at them.
use cnpg_connect_plugin.Prelude.{ℕ, ◌≡◌, refl, string_eq, string_beq, true, List, [], ◌∷◌}
use cnpg_connect_plugin.Prelude.Map.{lookup, insert}
use cnpg_connect_plugin.Routing.{Digest, digest_beq}
use cnpg_connect_plugin.Status.Clients.{
  StatusClients, new_client, find_client, enter_client, touch, enter,
}
use cnpg_connect_plugin.Status.Clients.Trusted.{
  AnswerTrusts, ClientEvent, enters, finds, client_step, client_steps, no_clients, client-Trusts,
}

abbrev digest_b : List ℕ → Digest
digest_b pem = pem

abbrev probed : List ClientEvent
probed = enters no_clients true (65 ∷ []) "orders-rw" 100 ∷ finds (65 ∷ []) "orders-rw" 110 ∷ []

abbrev rotated : StatusClients
rotated = record { entries = []; next_id = 1; retired = [] }

rotates :
    (enter_client digest_b
      (client_steps digest_b no_clients probed)
      (66 ∷ [])
      "orders-rw"
      (new_client rotated (66 ∷ []) "orders-rw" true).1
      120).0.retired
    ≡ 0 ∷ []
unfolding enter_client client_steps client_step find_client new_client touch enter lookup insert
    digest_beq string_beq
rotates = refl

client-Trusts_example :
    let s = client_steps digest_b no_clients probed in
    let candidate = (new_client rotated (66 ∷ []) "orders-rw" true).1 in
    AnswerTrusts digest_b (66 ∷ []) "orders-rw" (find_client digest_b s (66 ∷ []) "orders-rw" 120).1
    × AnswerTrusts digest_b
        (66 ∷ [])
        "orders-rw"
        (enter_client digest_b s (66 ∷ []) "orders-rw" candidate 120).1
client-Trusts_example = client-Trusts digest_b probed (66 ∷ []) "orders-rw" rotated true 120
