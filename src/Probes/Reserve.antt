-- ===== src/Probes/Reserve.antt =====
-- The capacity that background probes leave to urgent ones (internal/observer/work.go).
use cnpg_connect_plugin.Prelude.{
  ℕ, zero, suc, ◌+◌, ◌-◌, ◌≤◌, ◌<◌, ◌≡◌, refl, ap, Bool, true, false, not, some, List, [], ◌∷◌,
  arith, if◌then◌else◌, length, filter_by, Option-cases, inl, inr,
}
use cnpg_connect_plugin.Probes.{
  Stage, wants_background, wants_probe, probes, Slots, reserved_capacity, configure_limits, call_at,
  without_call, take_probe, take_background_slot, acquire_probe, retry, give_up, release, Event,
  starts, retries, gives_up, releases, on_call, probe_step, probe_all,
}

abbrev pub is_probing : Bool → Stage → Bool
is_probing urgent (probes u) = if urgent then u else not u
is_probing urgent _ = false

abbrev pub holds_background : Stage → Bool
holds_background (probes u) = not u
holds_background (wants_probe u) = not u
holds_background wants_background = false

abbrev pub count : (Stage → Bool) → List Stage → ℕ
count p cs = length (filter_by p cs)

-- The tokens are those of the calls that hold one, and within the capacities.
pub record IsBalanced (limit : ℕ) (s : Slots) : Type 0 where
  pub taken : s.taken ≡ count (is_probing true) s.calls + count (is_probing false) s.calls
  pub background_taken : s.background_taken ≡ count holds_background s.calls
  pub within : s.taken ≤ s.limit
  pub background_within : s.background_taken ≤ s.background_limit
  pub limit_kept : s.limit ≡ limit
  pub background_limit_kept : s.background_limit ≡ limit - reserved_capacity limit

abbrev weight : Bool → ℕ
weight b = if b then 1 else 0

count-without :
    (p : Stage → Bool) (i : ℕ) (cs : List Stage) (c : Stage)
    → call_at i cs ≡ some c
    → count p cs ≡ count p (without_call i cs) + weight (p c)
count-without p i [] c h = cc
count-without p zero (x ∷ cs) c h =
    let same : x ≡ c = ground arith in ground (arith, ap (λ y. weight (p y)) same)
count-without p (suc i) (x ∷ cs) c h = let r = count-without p i cs c h in ground (arith, r)

-- The counts of the calls other than one.
abbrev Beside : Slots → Stage → List Stage → Type 0
Beside s c others =
    (count (is_probing true) s.calls ≡ count (is_probing true) others + weight (is_probing true c))
    × (count (is_probing false) s.calls
        ≡ count (is_probing false) others + weight (is_probing false c))
    × (count holds_background s.calls ≡ count holds_background others + weight (holds_background c))

module _ (limit : ℕ) where
  acquire_probe-IsBalanced :
      (s : Slots) (cancelled urgent : Bool)
      → IsBalanced limit s
      → IsBalanced limit (acquire_probe s cancelled urgent)
  unfolding acquire_probe take_probe take_background_slot
  acquire_probe-IsBalanced s cancelled urgent v = record {
    taken = ground (arith, v.taken);
    background_taken = ground (arith, v.background_taken);
    within = ground (arith, v.within);
    background_within = ground (arith, v.background_within);
    limit_kept = ground (arith, v.limit_kept);
    background_limit_kept = ground (arith, v.background_limit_kept);
  }

  retry-IsBalanced :
      (s : Slots) (c : Stage) (others : List Stage)
      → Beside s c others
      → IsBalanced limit s
      → IsBalanced limit (retry s c others)
  unfolding retry take_probe take_background_slot
  retry-IsBalanced s c others b v = record {
    taken = ground (arith, v.taken, b.0, b.1);
    background_taken = ground (arith, v.background_taken, b.2);
    within = ground (arith, v.within);
    background_within = ground (arith, v.background_within);
    limit_kept = ground (arith, v.limit_kept);
    background_limit_kept = ground (arith, v.background_limit_kept);
  }

  give_up-IsBalanced :
      (s : Slots) (c : Stage) (others : List Stage)
      → Beside s c others
      → IsBalanced limit s
      → IsBalanced limit (give_up s c others)
  unfolding give_up
  give_up-IsBalanced s c others b v = record {
    taken = ground (arith, v.taken, b.0, b.1);
    background_taken = ground (arith, v.background_taken, b.2);
    within = ground (arith, v.within);
    background_within = ground (arith, v.background_within);
    limit_kept = ground (arith, v.limit_kept);
    background_limit_kept = ground (arith, v.background_limit_kept);
  }

  release-IsBalanced :
      (s : Slots) (c : Stage) (others : List Stage)
      → Beside s c others
      → IsBalanced limit s
      → IsBalanced limit (release s c others)
  unfolding release
  release-IsBalanced s c others b v = record {
    taken = ground (arith, v.taken, b.0, b.1);
    background_taken = ground (arith, v.background_taken, b.2);
    within = ground (arith, v.within);
    background_within = ground (arith, v.background_within);
    limit_kept = ground (arith, v.limit_kept);
    background_limit_kept = ground (arith, v.background_limit_kept);
  }

  on_call-IsBalanced :
      (f : Slots → Stage → List Stage → Slots)
      → ((s : Slots) (c : Stage) (others : List Stage)
          → Beside s c others
          → IsBalanced limit s
          → IsBalanced limit (f s c others))
      → (s : Slots) (i : ℕ) → IsBalanced limit s
      → IsBalanced limit (on_call f s i)
  on_call-IsBalanced f keeps s i v = elim (Option-cases (call_at i s.calls)) [
    | inl e ↦ rw (e, on_call) v
    | inr (c, e) ↦
        rw (e, on_call)
          (keeps s c (without_call i s.calls)
            (
              count-without (is_probing true) i s.calls c e,
              count-without (is_probing false) i s.calls c e,
              count-without holds_background i s.calls c e,
            )
            v)
  ]

  probe_step-IsBalanced :
      (s : Slots) (e : Event) → IsBalanced limit s → IsBalanced limit (probe_step s e)
  unfolding probe_step
  probe_step-IsBalanced s (starts cancelled urgent) v =
      acquire_probe-IsBalanced s cancelled urgent v
  probe_step-IsBalanced s (retries i) v = on_call-IsBalanced retry retry-IsBalanced s i v
  probe_step-IsBalanced s (gives_up i) v = on_call-IsBalanced give_up give_up-IsBalanced s i v
  probe_step-IsBalanced s (releases i) v = on_call-IsBalanced release release-IsBalanced s i v

  probe_all-IsBalanced :
      (s : Slots) (es : List Event) → IsBalanced limit s → IsBalanced limit (probe_all s es)
  unfolding probe_all
  probe_all-IsBalanced s [] v = v
  probe_all-IsBalanced s (e ∷ es) v =
      probe_all-IsBalanced (probe_step s e) es (probe_step-IsBalanced s e v)

  configure_limits-IsBalanced : IsBalanced limit (configure_limits limit)
  unfolding configure_limits
  configure_limits-IsBalanced = record {
    taken = refl;
    background_taken = refl;
    within = omega arith;
    background_within = omega arith;
    limit_kept = refl;
    background_limit_kept = refl;
  }

-- No probe slot is lost or oversold: whatever calls start, wait, give up and return, the tokens in
-- the two channels are exactly those of the calls that hold one, and neither exceeds its capacity.
pub probes-IsBalanced :
    (limit : ℕ) (es : List Event) → IsBalanced limit (probe_all (configure_limits limit) es)
probes-IsBalanced limit es =
    probe_all-IsBalanced limit (configure_limits limit) es (configure_limits-IsBalanced limit)

reserve_below : (limit : ℕ) → reserved_capacity limit ≤ limit
unfolding reserved_capacity
reserve_below limit = ground arith

running_below_held : (cs : List Stage) → count (is_probing false) cs ≤ count holds_background cs
running_below_held [] = omega arith
running_below_held (c ∷ cs) = let r = running_below_held cs in ground (arith, r)

-- Background work cannot use up the reserve: while fewer urgent probes run than the reserved
-- capacity, whatever else runs or waits, an urgent call that is not cancelled gets its slot at
-- once.
pub urgent_never_waits :
    (limit : ℕ) (es : List Event)
    → count (is_probing true) (probe_all (configure_limits limit) es).calls
      < reserved_capacity limit
    → (acquire_probe (probe_all (configure_limits limit) es) false true).calls
      ≡ probes true ∷ (probe_all (configure_limits limit) es).calls
unfolding acquire_probe take_probe
urgent_never_waits limit es h =
    let s = probe_all (configure_limits limit) es in
    let v = probes-IsBalanced limit es in
    let r = running_below_held s.calls in
    let reserve = reserve_below limit in
    let free : s.taken < s.limit = omega (
      arith, v.taken, v.background_taken, v.background_within, v.background_limit_kept,
      v.limit_kept, r, reserve, h,
    ) in
    ground (arith, free)
