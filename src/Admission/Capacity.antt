-- ===== src/Admission/Capacity.antt =====
-- The capacity that the handlers of the discovery server hold (internal/server/admission.go): each
-- admitted request owns its reservation until its handler returns.
use cnpg_connect_plugin.Prelude.{
  ℕ, zero, suc, ◌+◌, ◌≤◌, ◌≡◌, Bool, true, false, ◌&&◌, not, Option, none, some, List, [], ◌∷◌,
  arith, ltb, if◌then◌else◌, length, filter_by, ◌||◌, get_or, Option-cases, inl, inr,
}
use cnpg_connect_plugin.Admission.{
  Limits, Admission, Admitted, admitted, normalized, default_limits, new_admission, reserve,
  reserve_watch, admit, finish, time_out,
}

-- The server with the reservations of the handlers that run, true for those of a watch.
pub record Serving : Type 0 where
  pub admission : Admission
  pub handlers : List Bool

pub data Event : Type 0 where
  arrives : Bool → Option Bool → Bool → Event
  -- The handler at an index returns.
  returns : ℕ → Event
  times_out : Event
  stops : Event

abbrev hold : Admitted → List Bool → List Bool
hold (admitted watch) hs = watch ∷ hs
hold _ hs = hs

abbrev handler_at : ℕ → List Bool → Option Bool
handler_at i [] = none
handler_at zero (h ∷ hs) = some h
handler_at (suc i) (h ∷ hs) = handler_at i hs

abbrev without : ℕ → List Bool → List Bool
without i [] = []
without zero (h ∷ hs) = hs
without (suc i) (h ∷ hs) = h ∷ without i hs

pub serve : Serving → Event → Serving
serve s (arrives cancelled authorize watch) =
    let (a, result) = admit s.admission cancelled authorize watch in
    record { admission = a; handlers = hold result s.handlers }
serve s (returns i) = elim (handler_at i s.handlers) [
  | none ↦ s
  | some h ↦ record { admission = finish s.admission h; handlers = without i s.handlers }
]
serve s times_out = record s { admission = time_out s.admission }
serve s stops = record s { admission = record s.admission { stopped = true } }

pub serve_all : Serving → List Event → Serving
serve_all s [] = s
serve_all s (e ∷ es) = serve_all (serve s e) es

abbrev watching : List Bool → ℕ
watching hs = length (filter_by (λ h. h) hs)

-- The tokens are those of the handlers that run, and within the limits.
abbrev pub Balanced : Limits → Serving → Type 0
Balanced l s =
    (s.admission.rpcs ≡ length s.handlers)
    × (s.admission.watches ≡ watching s.handlers)
    × (s.admission.rpcs ≤ l.max_rpcs)
    × (s.admission.watches ≤ l.max_watches)
    × (s.admission.limits ≡ l)

return_counts :
    (i : ℕ) (hs : List Bool) (h : Bool)
    → handler_at i hs ≡ some h
    → (length hs ≡ length (without i hs) + 1)
      × (watching hs ≡ watching (without i hs) + (if h then 1 else 0))
return_counts i [] h e = cc
return_counts zero (x ∷ hs) h e = ground arith
return_counts (suc i) (x ∷ hs) h e = let r = return_counts i hs h e in ground (arith, r.0, r.1)

serve-Balanced : (l : Limits) (s : Serving) (e : Event) → Balanced l s → Balanced l (serve s e)
unfolding serve
serve-Balanced l s (arrives cancelled authorize watch) v =
    unfold admit reserve reserve_watch in ground arith
serve-Balanced l s (returns i) v = elim (Option-cases (handler_at i s.handlers)) [
  | inl e ↦ rw (e, serve) v
  | inr (h, e) ↦
      rw (e, serve) (let r = return_counts i s.handlers h e in unfold finish in ground arith)
]
serve-Balanced l s times_out v = unfold time_out in v
serve-Balanced l s stops v = v

serve_all-Balanced :
    (l : Limits) (s : Serving) (es : List Event) → Balanced l s → Balanced l (serve_all s es)
unfolding serve_all
serve_all-Balanced l s [] v = v
serve_all-Balanced l s (e ∷ es) v = serve_all-Balanced l (serve s e) es (serve-Balanced l s e v)

-- Capacity is never lost or oversold: whatever requests arrive, however handlers return, time out
-- and the server stops, the tokens in the two channels are exactly one for each handler that runs
-- and one for each that watches, and neither exceeds the limits that the server normalized.
pub capacity_exact :
    (l : Limits) (a : Admission) (es : List Event)
    → new_admission l ≡ some a
    → Balanced a.limits (serve_all (record { admission = a; handlers = [] }) es)
unfolding new_admission
capacity_exact l a es h = elim (Option-cases (normalized l)) [
  | inl e ↦ cc
  | inr (n, e) ↦ serve_all-Balanced a.limits _ es (ground arith)
]

abbrev pub is_admitted : Admitted → Bool
is_admitted (admitted watch) = true
is_admitted _ = false

-- A request is admitted exactly if the server runs, the request is not cancelled, authorization
-- does not refuse it, and the capacity that it needs is free; it then takes one token, a watch one
-- of each kind, and a refusal takes none.
pub admission_exact :
    (a : Admission) (cancelled : Bool) (authorize : Option Bool) (watch : Bool)
    → let r = admit a cancelled authorize watch in
      (is_admitted r.1 ≡ (
        not a.stopped
        && (not cancelled
            && (get_or authorize true
                && (ltb a.rpcs a.limits.max_rpcs
                    && (not watch || ltb a.watches a.limits.max_watches))))))
      × (r.0.rpcs ≡ a.rpcs + (if is_admitted r.1 then 1 else 0))
      × (r.0.watches ≡ a.watches + (if is_admitted r.1 && watch then 1 else 0))
unfolding admit reserve reserve_watch
admission_exact a cancelled authorize watch = ground arith

-- The limits that a server may run with.
pub record IsLimits (l : Limits) : Type 0 where
  pub streams : (1 ≤ l.max_concurrent_streams) × (l.max_concurrent_streams ≤ 1000000)
  pub connections : (1 ≤ l.max_connections) × (l.max_connections ≤ 1000000)
  pub rpcs : (1 ≤ l.max_rpcs) × (l.max_rpcs ≤ 1000000)
  pub watches : (1 ≤ l.max_watches) × (l.max_watches ≤ 1000000)
  pub timeout : (1000000 ≤ l.initial_request_timeout) × (l.initial_request_timeout ≤ 60000000000)

-- Limits that normalization accepts are within their ranges, so that none is disabled, and they
-- are normal: normalizing them again changes nothing.
pub normalized-IsLimits :
    (l n : Limits) → normalized l ≡ some n → IsLimits n × (normalized n ≡ some n)
unfolding normalized default_limits
normalized-IsLimits l n h =
    let b : IsLimits n = record {
      streams = (ground arith, ground arith);
      connections = (ground arith, ground arith);
      rpcs = (ground arith, ground arith);
      watches = (ground arith, ground arith);
      timeout = (ground arith, ground arith);
    } in
    (b, ground (arith, b.streams, b.connections, b.rpcs, b.watches, b.timeout))
