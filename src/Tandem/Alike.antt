-- ===== src/Tandem/Alike.antt =====
-- Two caches with the same value at every key, whatever their orders of use, stay so under the same
-- changes: that of the leader in ws/handler.go, and that of the replica in replica/client.go.
use advo_cache.Base.{
  ℕ, ◌<◌, ◌≡◌, ◌≢◌, Bool, not, List, none, String, arith, text_key, length, keep, eq_iff,
}
use advo_cache.Value.{Value}
use advo_cache.Time.{Time, Duration}
use advo_cache.Cache.{Entry}
use advo_cache.Cache.Lru
use advo_cache.Cache.Lru.{seek, value_of, forget}
use advo_cache.Cache.Lru.Laws.{seek-forget, seek-set_ne}
use advo_cache.Reader.Sync.{set-seek_self, set-seek_absent, set-evicted, seek-keep}
use advo_cache.Replica.Storing.{set_room}
use advo_cache.Tandem.CatchUp.{SameValues}

module _ (es es' : List Entry) (same : SameValues es es') where
  pub forget-SameValues : (k : String) → SameValues (forget k es) (forget k es')
  forget-SameValues k j = ground (arith, seek-forget k j es, seek-forget k j es', same j)

  pub keep-SameValues :
      (test : String → Bool)
      → SameValues (keep (λ e. not (test e.key)) es) (keep (λ e. not (test e.key)) es')
  keep-SameValues test j = ground (arith, seek-keep test j es, seek-keep test j es', same j)

  module _ (capacity room : ℕ) (k : String) (v : Value) (ttl ttl' : Duration) (now now' : Time)
      (named : seek "" es ≡ none) (below : length es' < room) where
    -- What the leader has after the set, and the key that it evicts.
    abbrev ahead : List Entry
    ahead = (Lru.set capacity k v ttl now es).0

    abbrev gone : String
    gone = (Lru.set capacity k v ttl now es).1

    -- What the replica has after the set, and after it has heard of the eviction.
    abbrev behind : List Entry
    behind = (Lru.set room k v ttl' now' es').0

    pub set_quiet-SameValues : gone ≡ "" → SameValues ahead behind
    set_quiet-SameValues quiet j = ground (
      arith,
      (set_room room k j v ttl' now' es' below).0,
      set-seek_self capacity k v ttl now es,
      set-seek_absent capacity j k v ttl now es,
      seek-set_ne capacity k j v ttl now es,
      named,
      same j,
      eq_iff k j,
      eq_iff gone j,
    )

    pub set_loud-SameValues : gone ≢ "" → SameValues ahead (forget gone behind)
    set_loud-SameValues loud j =
        let (absent, other) = set-evicted capacity k v ttl now es loud in
        ground (
          arith,
          (set_room room k j v ttl' now' es' below).0,
          seek-forget gone j behind,
          set-seek_self capacity k v ttl now es,
          seek-set_ne capacity k j v ttl now es,
          absent,
          other,
          same j,
          eq_iff k j,
          eq_iff gone j,
        )
