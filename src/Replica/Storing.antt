-- ===== src/Replica/Storing.antt =====
-- The loop of applyFullState in replica/client.go that stores the entries of one sheet.
use advo_cache.Base.{
  ℕ, ◌+◌, ◌<◌, ◌≤◌, ◌≡◌, refl, ◌∙◌, inl, inr, List, [], ◌∷◌, some, String, arith, ◌==◌, text_key,
  if◌then◌else◌, length, eq_iff, Option-cases,
}
use advo_cache.Base.Dict.{Dict, lookup, has_key, DistinctKeys}
use advo_cache.Value.{Value}
use advo_cache.Time.{Time, Duration}
use advo_cache.Cache.{Cache, Entry}
use advo_cache.Cache.Lru
use advo_cache.Cache.Lru.{seek, value_of, forget}
use advo_cache.Cache.Lru.Laws.{seek-forget, length-forget-le}
use advo_cache.Cache.Methods.{set-Implements}
use advo_cache.Cache.Rep.{Holds}
use advo_cache.Replica.{set_all}

-- A Set with room to spare evicts nothing.
pub set_room :
    (capacity : ℕ) (k j : String) (v : Value) (ttl : Duration) (now : Time) (es : List Entry)
    → length es < capacity
    → (value_of (seek j (Lru.set capacity k v ttl now es).0)
        ≡ (if k == j then some v else value_of (seek j es)))
      × (length (Lru.set capacity k v ttl now es).0 ≤ length es + 1)
unfolding Lru.set Lru.make_room seek
set_room capacity k j v ttl now es room = elim (Option-cases (seek k es)) [
  | inl new ↦ (ground arith, ground arith)
  | inr (e, old) ↦ (ground (arith, seek-forget k j es), ground (arith, length-forget-le k es))
]

-- What a map lays over a list of entries.
abbrev pub Overlays : Dict String Value → List Entry → List Entry → Type 0
Overlays d es es' =
    (k : String)
    → value_of (seek k es') ≡ (if has_key k d then lookup k d else value_of (seek k es))

-- All entries of a map are stored, if there is room for them.
pub set_all_lem :
    (ttl : Duration) (clock : String → Time) (d : Dict String Value) (c : Cache) (es : List Entry)
    → Holds c es
    → DistinctKeys d
    → length es + length d ≤ c.capacity
    → (c' : Cache) × (es' : List Entry) × (set_all ttl clock d c ≡ some c')
      × Holds c' es'
      × (c'.capacity ≡ c.capacity)
      × Overlays d es es'
      × (length es' ≤ length es + length d)
unfolding set_all has_key lookup
set_all_lem ttl clock [] c es holds once room = (c, es, refl, holds, refl, (λ k. refl), omega arith)
set_all_lem ttl clock ((j, v) ∷ d) c es holds once room =
    let (c₁, run, holds₁, same) = set-Implements c es j v ttl (clock j) holds in
    let es₁ = (Lru.set c.capacity j v ttl (clock j) es).0 in
    let size = (set_room c.capacity j "" v ttl (clock j) es (omega arith)).1 in
    let (c₂, es₂, run', holds₂, same', shows, grown) =
      set_all_lem ttl clock d c₁ es₁ holds₁ once.1 (rw same (omega arith)) in
    (
      c₂,
      es₂,
      rw run run',
      holds₂,
      same' ∙ same,
      λ k. ground (
        arith,
        shows k,
        (set_room c.capacity j k v ttl (clock j) es (omega arith)).0,
        eq_iff j k,
        once.0,
      ),
      omega (arith, size, grown),
    )
