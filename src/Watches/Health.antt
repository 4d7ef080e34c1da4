-- ===== src/Watches/Health.antt =====
-- When an informer's watches are healthy (internal/observer/watch.go).
use cnpg_connect_plugin.Prelude.{
  ℕ, ◌+◌, ◌≡◌, ◌≢◌, ◌↔◌, ◌⊎◌, refl, sym, ◌∙◌, ap, subst, Bool, true, false, none, some, List, [],
  ◌∷◌, ◌++◌, arith, get_or, nat_eq, nat_beq, nat_beq_iff, All, Bool-cases, Option-cases, inl, inr,
}
use cnpg_connect_plugin.Prelude.Map.{Map, lookup, insert, lookup-insert}
use cnpg_connect_plugin.Watches.{
  new_health, begin_watch, load_health, WatchEvent, begins, starts, errors, ends, health_step,
  health_after, observer_ready,
}

-- An event of another watch that has begun before.
abbrev pub IsOther : ℕ → WatchEvent → Type 0
IsOther flag begins = ⊥
IsOther flag (starts other) = other ≢ flag
IsOther flag (errors other) = other ≢ flag
IsOther flag (ends other) = other ≢ flag

pub count_begun : List WatchEvent → ℕ
count_begun [] = 0
count_begun (begins ∷ older) = count_begun older + 1
count_begun (starts _ ∷ older) = count_begun older
count_begun (errors _ ∷ older) = count_begun older
count_begun (ends _ ∷ older) = count_begun older

-- The last watch that has begun has started, and nothing but events of older watches followed.
abbrev pub IsHealthy : List WatchEvent → Type 0
IsHealthy history =
    (flag : ℕ) × (recent : List WatchEvent) × (older : List WatchEvent) × (history
      ≡ recent ++ (starts flag ∷ older))
    × All (IsOther flag) recent
    × (count_begun older ≡ flag + 1)

-- The current flag is that of the last watch.
current_last :
    (history : List WatchEvent)
    → ((health_after history).next ≡ count_begun history)
      × (((count_begun history ≡ 0) × ((health_after history).current ≡ none))
          ⊎ ((flag : ℕ) × (count_begun history ≡ flag + 1)
              × ((health_after history).current ≡ some flag)))
unfolding health_after count_begun health_step begin_watch new_health
current_last [] = (refl, inl (refl, refl))
current_last (begins ∷ older) =
    let (next, _) = current_last older in
    (ap (λ n. n + 1) next, inr (count_begun older, refl, ap some next))
current_last (starts _ ∷ older) = current_last older
current_last (errors _ ∷ older) = current_last older
current_last (ends _ ∷ older) = current_last older

passed :
    (flag i : ℕ) (v : Bool) (m : Map ℕ Bool) → i ≢ flag → lookup flag (insert i v m) ≡ lookup flag m
passed flag i v m h = ground (arith, lookup-insert i flag v m, nat_beq_iff i flag, h)

-- Events of other watches leave the health.
others_leave :
    (flag : ℕ) (recent older : List WatchEvent)
    → All (IsOther flag) recent
    → (health_after older).current ≡ some flag
    → ((health_after (recent ++ older)).current ≡ some flag)
      × (lookup flag (health_after (recent ++ older)).flags
          ≡ lookup flag (health_after older).flags)
unfolding health_after health_step
others_leave flag [] older h c = (c, refl)
others_leave flag (begins ∷ recent) older h c = absurd h.0
others_leave flag (starts i ∷ recent) older h c =
    let (same, kept) = others_leave flag recent older h.1 c in
    (same, passed flag i true (health_after (recent ++ older)).flags h.0 ∙ kept)
others_leave flag (errors i ∷ recent) older h c =
    let (same, kept) = others_leave flag recent older h.1 c in
    (same, passed flag i false (health_after (recent ++ older)).flags h.0 ∙ kept)
others_leave flag (ends i ∷ recent) older h c =
    let (same, kept) = others_leave flag recent older h.1 c in
    (same, passed flag i false (health_after (recent ++ older)).flags h.0 ∙ kept)

started_flag :
    (flag : ℕ) (older : List WatchEvent)
    → lookup flag (health_after (starts flag ∷ older)).flags ≡ some true
unfolding health_after health_step
started_flag flag older =
    ground (arith, lookup-insert flag flag true (health_after older).flags, nat_beq_iff flag flag)

last_flag :
    (flag : ℕ) (older : List WatchEvent)
    → count_begun older ≡ flag + 1
    → (health_after (starts flag ∷ older)).current ≡ some flag
unfolding health_after health_step
last_flag flag older h = elim (current_last older).1 [
  | inl (none_begun, _) ↦ absurd (ground arith)
  | inr (i, begun, current) ↦ let same : i ≡ flag = ground arith in current ∙ ap some same
]

healthy_loads :
    (history : List WatchEvent) → IsHealthy history → load_health (health_after history) ≡ true
unfolding load_health
healthy_loads history (flag, recent, older, e, others, last) =
    let (current, kept) =
      others_leave flag recent (starts flag ∷ older) others (last_flag flag older last) in
    subst (λ es. load_health (health_after es) ≡ true) (sym e)
      (rw (current, kept ∙ started_flag flag older) refl)

-- The history of the last watch, by its flag.
abbrev Parts : ℕ → List WatchEvent → Type 0
Parts flag history =
    (recent : List WatchEvent) × (older : List WatchEvent) × (history
      ≡ recent ++ (starts flag ∷ older))
    × All (IsOther flag) recent
    × (count_begun older ≡ flag + 1)

extend :
    (flag : ℕ) (e : WatchEvent) (history : List WatchEvent)
    → IsOther flag e
    → Parts flag history
    → Parts flag (e ∷ history)
extend flag e history other (recent, older, same, others, last) =
    (e ∷ recent, older, ap (λ es. e ∷ es) same, (other, others), last)

begun :
    (flag : ℕ) (history : List WatchEvent)
    → (health_after history).current ≡ some flag
    → count_begun history ≡ flag + 1
begun flag history c = elim (current_last history).1 [
  | inl (_, current) ↦ absurd (ground (arith, c, current))
  | inr (i, count, current) ↦
      let same : i ≡ flag = ground (arith, c, current) in count ∙ ap (λ n. n + 1) same
]

-- A flag that was set to false is not loaded.
unset :
    (flag i : ℕ) (m : Map ℕ Bool)
    → nat_beq i flag ≡ true
    → get_or (lookup flag (insert i false m)) false ≡ true
    → ⊥
unset flag i m e h = absurd (ground (arith, lookup-insert i flag false m, e, h))

distinct : (i flag : ℕ) → nat_beq i flag ≡ false → i ≢ flag
distinct i flag h e = absurd (ground (arith, nat_beq_iff i flag, h, e))

loaded-Parts :
    (flag : ℕ) (history : List WatchEvent)
    → (health_after history).current ≡ some flag
    → get_or (lookup flag (health_after history).flags) false ≡ true
    → Parts flag history
unfolding health_after health_step begin_watch new_health
loaded-Parts flag [] c h = cc
loaded-Parts flag (begins ∷ older) c h =
    let same : (health_after older).next ≡ flag = ground (arith, c) in
    absurd (
      unset flag (health_after older).next (health_after older).flags
        ((nat_beq_iff (health_after older).next flag).1 same) h)
loaded-Parts flag (starts i ∷ older) c h = elim (Bool-cases (nat_beq i flag)) [
  | inl e ↦
      let same : i ≡ flag = (nat_beq_iff i flag).0 e in
      ([], older, ap (λ j. starts j ∷ older) same, tt, begun flag older c)
  | inr e ↦ extend flag (starts i) older (distinct i flag e) (
      loaded-Parts flag older c (
        subst (λ x. get_or x false ≡ true)
          (passed flag i true (health_after older).flags (distinct i flag e)) h))
]
loaded-Parts flag (errors i ∷ older) c h = elim (Bool-cases (nat_beq i flag)) [
  | inl e ↦ absurd (unset flag i (health_after older).flags e h)
  | inr e ↦ extend flag (errors i) older (distinct i flag e) (
      loaded-Parts flag older c (
        subst (λ x. get_or x false ≡ true)
          (passed flag i false (health_after older).flags (distinct i flag e)) h))
]
loaded-Parts flag (ends i ∷ older) c h = elim (Bool-cases (nat_beq i flag)) [
  | inl e ↦ absurd (unset flag i (health_after older).flags e h)
  | inr e ↦ extend flag (ends i) older (distinct i flag e) (
      loaded-Parts flag older c (
        subst (λ x. get_or x false ≡ true)
          (passed flag i false (health_after older).flags (distinct i flag e)) h))
]

loads-IsHealthy :
    (history : List WatchEvent) → load_health (health_after history) ≡ true → IsHealthy history
unfolding load_health
loads-IsHealthy history h = elim (Option-cases (health_after history).current) [
  | inl e ↦ absurd (ground (arith, h, e))
  | inr (flag, e) ↦
      let (recent, older, same, others, last) =
        loaded-Parts flag history e (ground (arith, h, e)) in
      (flag, recent, older, same, others, last)
]

-- The observer is ready if and only if its informers have synchronized and of each informer the last
-- watch that has begun has started, and since then has neither failed nor ended, and no new one has
-- begun. What older watches do meanwhile, their end included, makes no difference.
pub observer_ready-IsHealthy :
    (synced : Bool) (clusters pods secrets : List WatchEvent)
    → (observer_ready synced (health_after clusters) (health_after pods) (health_after secrets)
        ≡ true)
      ↔ ((synced ≡ true) × IsHealthy clusters × IsHealthy pods × IsHealthy secrets)
unfolding observer_ready
observer_ready-IsHealthy synced clusters pods secrets = (
  λ h. (
    ground (arith, h),
    loads-IsHealthy clusters (ground (arith, h)),
    loads-IsHealthy pods (ground (arith, h)),
    loads-IsHealthy secrets (ground (arith, h)),
  ),
  λ (s, c, p, k).
      ground (arith, s, healthy_loads clusters c, healthy_loads pods p, healthy_loads secrets k),
)
