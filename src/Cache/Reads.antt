-- ===== src/Cache/Reads.antt =====
-- What a caller of cache.go reads after a call.
use advo_cache.Base.{
  ℕ, ◌+◌, ◌*◌, ◌/◌, ◌≤◌, ◌<◌, ◌≡◌, ◌≢◌, true, false, List, [], ◌∷◌, ◌++◌, Option, none, some,
  String, arith, length,
}
use advo_cache.Value.{Value}
use advo_cache.Time.{Time, Duration, half, add, after}
use advo_cache.Cache.{Entry, Cache, get, set, set_with_jitter, jitter_bound}
use advo_cache.Cache.Lru
use advo_cache.Cache.Lru.{seek, forget}
use advo_cache.Cache.Lru.Laws.{Unique, get-set_self, seek-set_ne, set_full}
use advo_cache.Cache.Methods.{get-Implements, set-Implements}
use advo_cache.Cache.Rep.{Holds}

module _ (c : Cache) (es : List Entry) (k : String) (v : Value) (ttl : Duration) (now : Time)
    (h : Holds c es) where
  -- A Get of the key that was just set yields the value until the entry expires: both calls end, and
  -- neither panics.
  pub get-set_in_time :
      (later : Time)
      → after later (add now ttl) ≡ false
      → (c' : Cache) × (evicted : String) × (c'' : Cache) × (set k v ttl now c ≡ some (c', evicted))
        × (get k later c' ≡ some (c'', some v))
  get-set_in_time later fresh =
      let (c', run, holds, cap) = set-Implements c es k v ttl now h in
      let (c'', read, holds', cap') =
        get-Implements c' (Lru.set c.capacity k v ttl now es).0 k later holds in
      (
        c',
        (Lru.set c.capacity k v ttl now es).1,
        c'',
        run,
        rw read (ground (arith, get-set_self c.capacity k v ttl now later es fresh)),
      )

  -- A Set leaves every other key as it was, but for the key that it returns.
  get-set_ne :
      (j : String) (later : Time)
      → j ≢ k
      → (Lru.set c.capacity k v ttl now es).1 ≢ j
      → (c' : Cache) × (c'' : Cache) × (d : Cache) × (read : Option Value) × (set k v ttl now c
          ≡ some (c', (Lru.set c.capacity k v ttl now es).1))
        × (get j later c' ≡ some (c'', read))
        × (get j later c ≡ some (d, read))
  unfolding Lru.get
  get-set_ne j later ne kept =
      let (c', run, holds, cap) = set-Implements c es k v ttl now h in
      let (c'', read, holds', cap') =
        get-Implements c' (Lru.set c.capacity k v ttl now es).0 j later holds in
      let (d, before, holds'', cap'') = get-Implements c es j later h in
      (
        c',
        c'',
        d,
        (Lru.get j later es).1,
        run,
        rw read (ground (arith, seek-set_ne c.capacity k j v ttl now es ne kept)),
        before,
      )

-- A new key at a full cache: the least recently used entry, and only that, makes room, and its key is
-- what Set returns.
pub set-evicts_oldest :
    (c : Cache) (es : List Entry) (e : Entry) (k : String) (v : Value) (ttl : Duration) (now : Time)
    → Holds c (es ++ e ∷ [])
    → 0 < c.capacity
    → c.capacity ≤ length (es ++ e ∷ [])
    → Unique (es ++ e ∷ [])
    → seek k (es ++ e ∷ []) ≡ none
    → (c' : Cache) × (set k v ttl now c ≡ some (c', e.key))
      × Holds c' (record { key = k; value = v; expires_at = add now ttl } ∷ es)
set-evicts_oldest c es e k v ttl now h pos full u new =
    let (c', run, holds, cap) = set-Implements c (es ++ e ∷ []) k v ttl now h in
    let promised = set_full c.capacity k v ttl now es e pos full u new in
    (c', rw run (ground (arith, promised)), rw promised at holds)

-- An entry past its time is not returned, and is gone afterwards.
get_expired :
    (c : Cache) (es : List Entry) (k : String) (e : Entry) (now : Time)
    → Holds c es
    → seek k es ≡ some e
    → after now e.expires_at ≡ true
    → (c' : Cache) × (get k now c ≡ some (c', none)) × Holds c' (forget k es)
unfolding Lru.get
get_expired c es k e now h found late =
    let (c', run, (xs, rep, kept), cap) = get-Implements c es k now h in
    (c', rw run (ground arith), (xs, rep, rw kept (ground arith)))

-- The jittered time to live lies between the base and the base plus the given percentage, where the
-- int64 products do not overflow: the call is a Set with such a time, and does not panic.
pub set_with_jitter_bounds :
    (int63n : ℕ → ℕ) (c : Cache) (k : String) (v : Value) (base percent : ℕ) (now : Time)
    → ((n : ℕ) → 0 < n → int63n n < n)
    → base * percent < half
    → base + base * percent / 100 < half
    → (ttl : Duration) × (set_with_jitter int63n k v base percent now c ≡ set k v ttl now c)
      × (base ≤ ttl)
      × (ttl ≤ base + base * percent / 100)
unfolding set_with_jitter jitter_bound
set_with_jitter_bounds int63n c k v base percent now random small fits = (
  base + int63n (base * percent / 100 + 1),
  ground (arith, random (base * percent / 100 + 1)),
  omega arith,
  omega (arith, random (base * percent / 100 + 1) (omega arith)),
)
