-- ===== src/Status/Clients/Trusted.antt =====
-- Which roots the clients of the status endpoint trust (internal/observer/status.go).
use cnpg_connect_plugin.Prelude.{
  ℕ, ◌≡◌, ◌⊎◌, refl, ◌∙◌, subst, String, string_eq, string_beq, string_beq_iff, Bool, true, false,
  Option, none, some, List, [], ◌∷◌, arith, All, Bool-cases, Option-cases, inl, inr,
}
use cnpg_connect_plugin.Prelude.Map.{Map, lookup, insert}
use cnpg_connect_plugin.Api.{Time}
use cnpg_connect_plugin.Routing.{Digest, digest_beq, digest_beq_iff}
use cnpg_connect_plugin.Status.Clients.{
  StatusClient, StatusClientEntry, StatusClients, touch, find_client, new_client, enter,
  enter_client, is_unused, keep_used, close_status_clients, prune_clients,
}

-- The client verifies this server with roots of this digest.
abbrev pub Trusts : (List ℕ → Digest) → Digest → String → StatusClient → Type 0
Trusts sha256 digest name client = (sha256 client.roots ≡ digest) × (client.server_name ≡ name)

-- No client, or one that does.
abbrev pub AnswerTrusts : (List ℕ → Digest) → Digest → String → Option StatusClient → Type 0
AnswerTrusts sha256 digest name answer =
    (answer ≡ none) ⊎ ((c : StatusClient) × (answer ≡ some c) × Trusts sha256 digest name c)

abbrev pub IsEntry : (List ℕ → Digest) → String × StatusClientEntry → Type 0
IsEntry sha256 (name, e) = Trusts sha256 e.digest name e.client

abbrev pub AreEntries : (List ℕ → Digest) → Map String StatusClientEntry → Type 0
AreEntries sha256 m = All (IsEntry sha256) m

-- What probes and sweeps do to the clients. Between the locks of a probe there may be others.
pub data ClientEvent : Type 0 where
  finds : List ℕ → String → Time → ClientEvent
  makes : List ℕ → String → Bool → ClientEvent
  -- What was made for these roots and this server when the clients were so, if the roots parsed.
  enters : StatusClients → Bool → List ℕ → String → Time → ClientEvent
  closes : ClientEvent
  prunes : Time → ClientEvent

unfoldable pub client_step : (List ℕ → Digest) → StatusClients → ClientEvent → StatusClients
client_step sha256 s (finds pem name now) = (find_client sha256 s pem name now).0
client_step sha256 s (makes pem name parses) = (new_client s pem name parses).0
client_step sha256 s (enters then' parses pem name now) =
    (enter_client sha256 s pem name (new_client then' pem name parses).1 now).0
client_step sha256 s closes = close_status_clients s
client_step sha256 s (prunes now) = prune_clients s now

unfoldable pub client_steps : (List ℕ → Digest) → StatusClients → List ClientEvent → StatusClients
client_steps sha256 s [] = s
client_steps sha256 s (e ∷ es) = client_steps sha256 (client_step sha256 s e) es

abbrev pub no_clients : StatusClients
no_clients = record { entries = []; next_id = 0; retired = [] }

module _ (sha256 : List ℕ → Digest) where
  insert-AreEntries :
      (name : String) (e : StatusClientEntry) (m : Map String StatusClientEntry)
      → Trusts sha256 e.digest name e.client
      → AreEntries sha256 m
      → AreEntries sha256 (insert name e m)
  unfolding insert
  insert-AreEntries name e [] t h = (t, tt)
  insert-AreEntries name e ((other, f) ∷ m) t h = elim (Bool-cases (string_beq other name)) [
    | inl same ↦ rw same (t, h.1)
    | inr differs ↦ rw differs (h.0, insert-AreEntries name e m t h.1)
  ]

  lookup-Trusts :
      (name : String) (e : StatusClientEntry) (m : Map String StatusClientEntry)
      → AreEntries sha256 m
      → lookup name m ≡ some e
      → Trusts sha256 e.digest name e.client
  unfolding lookup
  lookup-Trusts name e [] h found = cc
  lookup-Trusts name e ((other, f) ∷ m) h found = elim (Bool-cases (string_beq other name)) [
    | inl same ↦
        let here : f ≡ e = ground (arith, found, same) in
        subst (λ (x : StatusClientEntry). Trusts sha256 x.digest name x.client) here
          (subst (λ n. Trusts sha256 f.digest n f.client) ((string_beq_iff other name).0 same) h.0)
    | inr differs ↦ lookup-Trusts name e m h.1 (ground (arith, found, differs))
  ]

  keep-AreEntries :
      (now : Time) (m : Map String StatusClientEntry)
      → AreEntries sha256 m
      → AreEntries sha256 (keep_used now m)
  unfolding keep_used
  keep-AreEntries now [] h = tt
  keep-AreEntries now ((name, e) ∷ m) h = elim (Bool-cases (is_unused now e)) [
    | inl unused ↦ rw unused (keep-AreEntries now m h.1)
    | inr used ↦ rw used (h.0, keep-AreEntries now m h.1)
  ]

  module _ (s : StatusClients) (pem : List ℕ) (name : String) (now : Time)
      (h : AreEntries sha256 s.entries) where
    find-AreEntries : AreEntries sha256 (find_client sha256 s pem name now).0.entries
    unfolding find_client touch
    find-AreEntries = elim (Option-cases (lookup name s.entries)) [
      | inl e ↦ rw (e, find_client) h
      | inr (x, e) ↦ elim (Bool-cases (digest_beq x.digest (sha256 pem))) [
        | inl d ↦
            rw (e, find_client, d)
              (insert-AreEntries name _ s.entries (lookup-Trusts name x s.entries h e) h)
        | inr d ↦ rw (e, find_client, d) h
      ]
    ]

    enter-AreEntries :
        (c : StatusClient)
        → Trusts sha256 (sha256 pem) name c
        → AreEntries sha256 (enter_client sha256 s pem name (some c) now).0.entries
    unfolding enter_client touch enter
    enter-AreEntries c t = elim (Option-cases (lookup name s.entries)) [
      | inl e ↦ rw (e, enter_client) (insert-AreEntries name _ s.entries t h)
      | inr (x, e) ↦ elim (Bool-cases (digest_beq x.digest (sha256 pem))) [
        | inl d ↦
            rw (e, enter_client, d)
              (insert-AreEntries name _ s.entries (lookup-Trusts name x s.entries h e) h)
        | inr d ↦ rw (e, enter_client, d) (insert-AreEntries name _ s.entries t h)
      ]
    ]

    -- What new_client makes is for these roots and this server.
    enter_new-AreEntries :
        (then' : StatusClients) (parses : Bool)
        → AreEntries sha256
            (enter_client sha256 s pem name (new_client then' pem name parses).1 now).0.entries
    unfolding new_client
    enter_new-AreEntries then' true =
        enter-AreEntries (record { id = then'.next_id; roots = pem; server_name = name })
          (refl, refl)
    enter_new-AreEntries then' false = unfold enter_client in h

    cached-Trusts :
        (x : StatusClientEntry)
        → lookup name s.entries ≡ some x
        → digest_beq x.digest (sha256 pem) ≡ true
        → Trusts sha256 (sha256 pem) name x.client
    cached-Trusts x e d =
        let (roots, server) = lookup-Trusts name x s.entries h e in
        (roots ∙ (digest_beq_iff x.digest (sha256 pem)).0 d, server)

    found-Trusts :
        ((find_client sha256 s pem name now).1 ≡ none)
        ⊎ ((c : StatusClient) × ((find_client sha256 s pem name now).1 ≡ some c)
            × Trusts sha256 (sha256 pem) name c)
    unfolding find_client
    found-Trusts = elim (Option-cases (lookup name s.entries)) [
      | inl e ↦ inl (rw (e, find_client) refl)
      | inr (x, e) ↦ elim (Bool-cases (digest_beq x.digest (sha256 pem))) [
        | inl d ↦ inr (x.client, rw (e, find_client, d) refl, cached-Trusts x e d)
        | inr d ↦ inl (rw (e, find_client, d) refl)
      ]
    ]

    entered-Trusts :
        (c : StatusClient)
        → Trusts sha256 (sha256 pem) name c
        → AnswerTrusts sha256 (sha256 pem) name (enter_client sha256 s pem name (some c) now).1
    unfolding enter_client
    entered-Trusts c t = elim (Option-cases (lookup name s.entries)) [
      | inl e ↦ inr (c, rw (e, enter_client) refl, t)
      | inr (x, e) ↦ elim (Bool-cases (digest_beq x.digest (sha256 pem))) [
        | inl d ↦ inr (x.client, rw (e, enter_client, d) refl, cached-Trusts x e d)
        | inr d ↦ inr (c, rw (e, enter_client, d) refl, t)
      ]
    ]

    entered_new-Trusts :
        (then' : StatusClients) (parses : Bool)
        → AnswerTrusts sha256
            (sha256 pem)
            name
            (enter_client sha256 s pem name (new_client then' pem name parses).1 now).1
    unfolding new_client
    entered_new-Trusts then' true =
        entered-Trusts (record { id = then'.next_id; roots = pem; server_name = name }) (refl, refl)
    entered_new-Trusts then' false = inl (unfold enter_client in refl)

  new-AreEntries :
      (s : StatusClients) (pem : List ℕ) (name : String) (parses : Bool)
      → AreEntries sha256 s.entries
      → AreEntries sha256 (new_client s pem name parses).0.entries
  unfolding new_client
  new-AreEntries s pem name true h = h
  new-AreEntries s pem name false h = h

  step-AreEntries :
      (s : StatusClients) (e : ClientEvent)
      → AreEntries sha256 s.entries
      → AreEntries sha256 (client_step sha256 s e).entries
  unfolding client_step close_status_clients prune_clients
  step-AreEntries s (finds pem name now) h = find-AreEntries s pem name now h
  step-AreEntries s (makes pem name parses) h = new-AreEntries s pem name parses h
  step-AreEntries s (enters then' parses pem name now) h =
      enter_new-AreEntries s pem name now h then' parses
  step-AreEntries s closes h = tt
  step-AreEntries s (prunes now) h = keep-AreEntries now s.entries h

  steps-AreEntries :
      (s : StatusClients) (es : List ClientEvent)
      → AreEntries sha256 s.entries
      → AreEntries sha256 (client_steps sha256 s es).entries
  unfolding client_steps
  steps-AreEntries s [] h = h
  steps-AreEntries s (e ∷ es) h =
      steps-AreEntries (client_step sha256 s e) es (step-AreEntries s e h)

  -- Whatever probes and sweeps have come before and between, each half of statusClient gives no
  -- client, or one that verifies the server that it was asked for, with roots of the digest of the CA
  -- of the connection. This holds for the client that the second half was given, which was made at
  -- any earlier time, and for one that another probe has entered.
  pub client-Trusts :
      (es : List ClientEvent) (pem : List ℕ) (name : String) (then' : StatusClients) (parses : Bool)
      (now : Time)
      → let s = client_steps sha256 no_clients es in
        let candidate = (new_client then' pem name parses).1 in
        AnswerTrusts sha256 (sha256 pem) name (find_client sha256 s pem name now).1
        × AnswerTrusts sha256 (sha256 pem) name (enter_client sha256 s pem name candidate now).1
  client-Trusts es pem name then' parses now =
      let s = client_steps sha256 no_clients es in
      let entries = steps-AreEntries no_clients es tt in
      (found-Trusts s pem name now entries, entered_new-Trusts s pem name now entries then' parses)
