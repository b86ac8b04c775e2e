-- ===== src/Cache/Lru.antt =====
-- What cache.go promises: a list of entries, most recently used first, with no key twice. These are
-- the operations of the cache with the nodes, the map and the sentinels gone.
pub mod Laws
use advo_cache.Base.{
  ℕ, ◌+◌, ◌≤◌, ◌<◌, ◌≡◌, refl, ◌≢◌, Bool, not, ◌&&◌, List, [], ◌∷◌, Option, none, some, String,
  arith, leb, ltb, ◌==◌, text_key, if◌then◌else◌, keep, count, length,
}
use advo_cache.Value.{Value}
use advo_cache.Time.{Time, Duration, add, after}
use advo_cache.Cache.{Entry}

unfoldable pub seek : String → List Entry → Option Entry
seek k [] = none
seek k (e ∷ es) = if e.key == k then some e else seek k es

abbrev pub value_of : Option Entry → Option Value
value_of none = none
value_of (some e) = some e.value

unfoldable pub forget : String → List Entry → List Entry
forget k = keep (λ e. not (e.key == k))

unfoldable pub oldest : List Entry → Option Entry
oldest [] = none
oldest (e ∷ []) = some e
oldest (e ∷ d ∷ es) = oldest (d ∷ es)

unfoldable pub get : String → Time → List Entry → List Entry × Option Value
get k now es = elim (seek k es) [
  | none ↦ (es, none)
  | some e ↦ if after now e.expires_at then (forget k es, none) else (e ∷ forget k es, some e.value)
]

unfoldable pub evict : List Entry → List Entry × String
evict es = elim (oldest es) [ none ↦ (es, "") | some e ↦ (forget e.key es, e.key) ]

-- A capacity of 0 is no bound.
unfoldable pub make_room : ℕ → List Entry → List Entry × String
make_room capacity es = if ltb 0 capacity && leb capacity (length es) then evict es else (es, "")

unfoldable pub set : ℕ → String → Value → Duration → Time → List Entry → List Entry × String
set capacity k v ttl now es =
    let e : Entry = record { key = k; value = v; expires_at = add now ttl } in
    elim (seek k es) [
      | some _ ↦ (e ∷ forget k es, "")
      | none ↦ (e ∷ (make_room capacity es).0, (make_room capacity es).1)
    ]

unfoldable pub sweep : (Entry → Bool) → List Entry → List Entry × ℕ
sweep hit es = (keep (λ e. not (hit e)) es, count hit es)
