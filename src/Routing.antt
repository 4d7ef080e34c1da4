-- ===== src/Routing.antt =====
-- The helpers of internal/discovery/store.go over one snapshot: invalidation, and the digest by
-- which the store tells whether routing changed.
use cnpg_connect_plugin.Prelude.{
  ℕ, ◌≡◌, Bool, true, false, ◌&&◌, List, [], ◌∷◌, map, if◌then◌else◌, string_beq, nat_beq, ◌↔◌,
  arith,
}
use cnpg_connect_plugin.Prelude.Text.{string_less}
use cnpg_connect_plugin.Prelude.Sort.{sort_by}
use cnpg_connect_plugin.Api.{Snapshot, Member, blank}

-- [sha256.Size]byte
abbrev pub Digest : Type 0
Digest = List ℕ

unfoldable pub digest_beq : Digest → Digest → Bool
digest_beq [] [] = true
digest_beq (a ∷ as') (b ∷ bs) = nat_beq a b && digest_beq as' bs
digest_beq _ _ = false

pub digest_beq_iff : (a b : Digest) → (digest_beq a b ≡ true) ↔ (a ≡ b)
unfolding digest_beq
digest_beq_iff [] [] = ground arith
digest_beq_iff [] (b ∷ bs) = ground arith
digest_beq_iff (a ∷ as') [] = ground arith
digest_beq_iff (a ∷ as') (b ∷ bs) = ground (arith, digest_beq_iff as' bs)

unfoldable pub invalidate_member : Member → Member
invalidate_member m = record m { ready = false; reason = "expired" }

unfoldable pub invalidate : Snapshot → Snapshot
invalidate s = record s {
  available = false;
  reason = "expired";
  primary_id = "";
  members = map invalidate_member s.members;
}

unfoldable pub member_less : Member → Member → Bool
member_less a b = if string_beq a.id b.id then string_less a.name b.name else string_less a.id b.id

unfoldable pub without_lsn : Member → Member
without_lsn m = record m { replay_lsn = "" }

-- What routingDigest encodes: the snapshot with neither revision nor times, its members without
-- their replay positions and sorted.
unfoldable pub routing_view : Snapshot → Snapshot
unfolding member_less without_lsn
routing_view s = record s {
  members = sort_by member_less (map without_lsn s.members);
  revision = blank;
  observed_at = 0;
  valid_until = 0;
}

-- `hash` is SHA-256 of the JSON encoding.
unfoldable pub routing_digest : (Snapshot → Digest) → Snapshot → Digest
unfolding routing_view
routing_digest hash s = hash (routing_view s)
