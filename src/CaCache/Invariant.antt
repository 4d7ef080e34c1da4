-- ===== src/CaCache/Invariant.antt =====
-- The entries of the CA cache of internal/observer/connection.go hold what the API gave.
use cnpg_connect_plugin.Prelude.{sym, subst, none, some, List, [], ◌∷◌, arith, inl, inr, All}
use cnpg_connect_plugin.Key.{key_eq}
use cnpg_connect_plugin.CaCache.{CaCache}
use cnpg_connect_plugin.CaCache.History.{
  CaEvent, ca_step, ca_steps, Contents, FromApi, EntryInv, CacheInv, Keeps, forget-Keeps,
  asks-Keeps, begin-Keeps, prune-Keeps, informs, forgets, asks, begins, finishes, prunes,
}
use cnpg_connect_plugin.CaCache.Reads.{Adds, finish-Adds, failed-Keeps}

Keeps-CacheInv :
    (content : Contents) (old new : CaCache)
    → Keeps old new
    → CacheInv content old
    → CacheInv content new
Keeps-CacheInv content old new k v key ca h =
    subst (λ n. EntryInv content key n ca) (sym k.count) (v key ca (k.kept key ca h))

Adds-CacheInv :
    (content : Contents) (old new : CaCache)
    → Adds content old new
    → CacheInv content old
    → CacheInv content new
Adds-CacheInv content old new a v key ca h = elim (a.kept key ca h) [
  | inl before ↦
      let e = v key ca before in
      record {
        keyed = e.keyed;
        true_content = e.true_content;
        numbered = omega (arith, e.numbered, a.count);
      }
  | inr (keyed, c, id) ↦ record {
    keyed = keyed;
    true_content = c;
    numbered = omega (arith, id, a.count);
  }
]

-- Any step keeps the entries of the cache but for one that it adds.
pub step-CacheInv :
    (content : Contents) (cache : CaCache) (e : CaEvent)
    → FromApi content e
    → CacheInv content cache
    → CacheInv content (ca_step cache e)
unfolding ca_step
step-CacheInv content cache (informs key none) f v = v
step-CacheInv content cache (informs key (some meta)) f v = v
step-CacheInv content cache (forgets key) f v =
    Keeps-CacheInv content _ _ (forget-Keeps cache key) v
step-CacheInv content cache (asks c stopped) f v =
    Keeps-CacheInv content _ _ (asks-Keeps cache c stopped) v
step-CacheInv content cache (begins key demanded) f v =
    Keeps-CacheInv content _ _ (begin-Keeps cache key demanded) v
step-CacheInv content cache (finishes key meta none stopped ready demanded) f v =
    Keeps-CacheInv content _ _ (failed-Keeps cache key meta stopped ready demanded) v
step-CacheInv content cache (finishes key meta (some secret) stopped ready demanded) f v =
    Adds-CacheInv content _ _ (finish-Adds content cache key meta secret stopped ready demanded f) v
step-CacheInv content cache (prunes demanded) f v =
    Keeps-CacheInv content _ _ (prune-Keeps cache demanded) v

pub steps-CacheInv :
    (content : Contents) (events : List CaEvent) (cache : CaCache)
    → All (FromApi content) events
    → CacheInv content cache
    → CacheInv content (ca_steps cache events)
unfolding ca_steps
steps-CacheInv content [] cache f v = v
steps-CacheInv content (e ∷ es) cache (f, fs) v =
    steps-CacheInv content es (ca_step cache e) fs (step-CacheInv content cache e f v)
