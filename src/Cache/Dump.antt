-- ===== src/Cache/Dump.antt =====
-- Dump of cache.go: the map that it builds.
use advo_cache.Base.{
  ◌≡◌, refl, inl, inr, List, [], ◌∷◌, some, String, arith, text_key, if◌then◌else◌, eq_iff,
  Bool-cases,
}
use advo_cache.Base.Dict.{
  Dict, lookup, insert, has_key, DistinctKeys, Enumerates, insert-DistinctKeys, lookup-insert,
  lookup-none_of_has_key,
}
use advo_cache.Value.{Value}
use advo_cache.Cache.{Entry, Ptr, Cache, dump}
use advo_cache.Cache.Cells.{Cells}
use advo_cache.Cache.Links.{node_live}
use advo_cache.Cache.Lru.{seek, value_of}
use advo_cache.Cache.Rep.{Rep, Holds, entries, seek_hit, seek_miss}
use advo_cache.Cache.Visit.{Pending, Pending-visit}

-- A map with these values.
abbrev pub Shows : List Entry → Dict String Value → Type 0
Shows es d = ((k : String) → lookup k d ≡ value_of (seek k es)) × DistinctKeys d

-- What is visited is in the map, and the rest is as before.
dump_loop :
    (order : Dict String Ptr) (c : Cache) (xs : Cells) (result : Dict String Value)
    → Rep c xs
    → DistinctKeys order
    → Pending order xs
    → DistinctKeys result
    → (d : Dict String Value) × (dump order c result ≡ some d)
      × DistinctKeys d
      × ((k : String)
          → lookup k d
            ≡ (if has_key k order then value_of (seek k (entries xs)) else lookup k result))
unfolding dump has_key Pending
dump_loop [] c xs result r once visit distinct = (result, refl, distinct, λ k. refl)
dump_loop ((j, p) ∷ rest) c xs result r once visit distinct =
    let (e, sought, held, same) = seek_hit j c.entry xs p r.stored visit.0 in
    let (d, run, distinct', shows) =
      dump_loop rest c xs (insert j e.value result) r once.1 visit.1
        (insert-DistinctKeys j e.value result distinct) in
    (
      d,
      ground (arith, node_live r j p visit.0),
      distinct',
      λ k. ground (arith, shows k, lookup-insert j k e.value result, eq_iff j k),
    )

-- Dump does not panic, and its map has the value of every entry, expired or not, and nothing else,
-- whatever the order in which `range` visits the nodes.
pub dump-Shows :
    (order : Dict String Ptr) (c : Cache) (es : List Entry)
    → Enumerates order c.nodes
    → Holds c es
    → (d : Dict String Value) × (dump order c [] ≡ some d) × Shows es d
unfolding lookup
dump-Shows order c es visit (xs, r, e) =
    let pending =
      Pending-visit order xs visit.once (λ k p at. ground (arith, visit.same k, r.index k)) in
    let (d, run, distinct, shows) = dump_loop order c xs [] r visit.once pending tt in
    (
      d,
      run,
      (
        λ k. rw (← e) (elim (Bool-cases (has_key k order)) [
          | inl seen ↦ ground (arith, shows k)
          | inr other ↦ ground (
            arith,
            shows k,
            lookup-none_of_has_key k order other,
            visit.same k,
            r.index k,
            seek_miss k xs,
          )
        ]),
        distinct,
      ),
    )
