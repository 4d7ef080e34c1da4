-- ===== src/Mailbox/Latest.antt =====
-- A slow watcher of a mailbox (internal/discovery/publication.go) finds the newest publication.
use mathlib.Core.List.{Memᴰ}
use cnpg_connect_plugin.Prelude.{
  ℕ, ◌<◌, ◌≤◌, ◌≡◌, ◌≢◌, refl, ◌⊎◌, inl, inr, false, Option, some, List, [], ◌∷◌, arith, max, leb,
  Bool-cases,
}
use cnpg_connect_plugin.Mailbox.{
  Publication, Mailbox, publications, snapshots, Subscription, put_pending, deliver, receive,
  publication,
}

-- Two deliveries commute: a mailbox of either kind, open or closed, ends in the same state
-- whichever of two publications of different orders reaches it first.
pub deliver_comm :
    (s : Subscription) (a b : Publication)
    → a.order ≢ b.order
    → (deliver (deliver s a).0 b).0 ≡ (deliver (deliver s b).0 a).0
deliver_comm s a b h = by_kind s.pending refl
  where
    by_kind :
        (m : Mailbox)
        → s.pending ≡ m
        → (deliver (deliver s a).0 b).0 ≡ (deliver (deliver s b).0 a).0
    by_kind (publications m) e = unfold deliver in ground arith
    by_kind (snapshots m) e = unfold deliver in ground arith

pub deliver_all : Subscription → List Publication → Subscription
deliver_all s [] = s
deliver_all s (p ∷ ps) = deliver_all (deliver s p).0 ps

-- The highest order among `n` and the publications.
unfoldable pub newest : ℕ → List Publication → ℕ
newest n [] = n
newest n (p ∷ ps) = newest (max n p.order) ps

newest-le : (n : ℕ) (ps : List Publication) → n ≤ newest n ps
unfolding newest
newest-le n [] = omega arith
newest-le n (p ∷ ps) = omega (arith, newest-le (max n p.order) ps)

deliver_old : (s : Subscription) (p : Publication) → p.order ≤ s.order → (deliver s p).0 ≡ s
unfolding deliver
deliver_old s p h = ground arith

record Pends (q : Publication) (s : Subscription) : Type 0 where
  pends : s.pending ≡ publications (some q)
  dated : s.order ≡ q.order
  awake : s.closed ≡ false

deliver_new :
    (s : Subscription) (p : Publication) (m : Option Publication)
    → s.pending ≡ publications m
    → s.closed ≡ false
    → s.order < p.order
    → Pends p (deliver s p).0
unfolding deliver put_pending
deliver_new s p m e o h = ground arith

within : {r q : Publication} {ps : List Publication} → (r ≡ q) ⊎ Memᴰ r ps → Memᴰ r (q ∷ ps)
within (inl e) = Memᴰ.head e
within (inr w) = Memᴰ.tail w

later :
    {r q : Publication} {ps : List Publication} (p : Publication)
    → (r ≡ q) ⊎ Memᴰ r ps
    → (r ≡ q) ⊎ Memᴰ r (p ∷ ps)
later p (inl e) = inl e
later p (inr w) = inr (Memᴰ.tail w)

-- A mailbox that holds a publication ends with that one or a newer one.
keeps_newest :
    (s : Subscription) (q : Publication) (ps : List Publication)
    → Pends q s
    → (r : Publication) × Pends r (deliver_all s ps)
      × (r.order ≡ newest q.order ps)
      × ((r ≡ q) ⊎ Memᴰ r ps)
unfolding deliver_all newest
keeps_newest s q [] h = (q, h, refl, inl refl)
keeps_newest s q (p ∷ ps) h = elim (Bool-cases (leb p.order q.order)) [
  | inl old ↦
      let m : max q.order p.order ≡ q.order = ground arith in
      let (r, t, n, w) = keeps_newest s q ps h in
      rw (deliver_old s p (ground (arith, h.dated)), m) (r, t, n, later p w)
  | inr new ↦
      let m : max q.order p.order ≡ p.order = ground arith in
      let d = deliver_new s p (some q) h.pends h.awake (ground (arith, h.dated)) in
      let (r, t, n, w) = keeps_newest (deliver s p).0 p ps d in rw m (r, t, n, inr (within w))
]

found_newest :
    (s : Subscription) (m : Option Publication) (ps : List Publication)
    → s.pending ≡ publications m
    → s.closed ≡ false
    → s.order < newest s.order ps
    → (r : Publication) × Pends r (deliver_all s ps) × (r.order ≡ newest s.order ps) × Memᴰ r ps
unfolding deliver_all newest
found_newest s m [] e o h = absurd (omega arith)
found_newest s m (p ∷ ps) e o h = elim (Bool-cases (leb p.order s.order)) [
  | inl old ↦
      let x : max s.order p.order ≡ s.order = ground arith in
      let (r, t, n, w) = found_newest s m ps e o (rw x at h) in
      rw (deliver_old s p (ground arith), x) (r, t, n, Memᴰ.tail w)
  | inr new ↦
      let x : max s.order p.order ≡ p.order = ground arith in
      let (r, t, n, w) = keeps_newest (deliver s p).0 p ps (deliver_new s p m e o (ground arith)) in
      rw x (r, t, n, within w)
]

-- A slow watcher misses intermediate publications, never the last: after any deliveries to an open
-- mailbox of publications, in any order, of which one is newer than what it had accepted, the next
-- read takes out the newest of them.
pub receive-newest :
    (s : Subscription) (m : Option Publication) (ps : List Publication)
    → s.pending ≡ publications m
    → s.closed ≡ false
    → s.order < newest s.order ps
    → (r : Publication) × ((receive (deliver_all s ps)).1 ≡ publication r)
      × (r.order ≡ newest s.order ps)
      × Memᴰ r ps
unfolding receive
receive-newest s m ps e o h =
    let (r, t, n, w) = found_newest s m ps e o h in (r, ground (arith, t.pends, t.awake), n, w)
