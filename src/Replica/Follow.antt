-- ===== src/Replica/Follow.antt =====
-- A replica of replica/client.go applies what the leader sends to caches like the leader's.
use advo_cache.Base.{ℕ, ◌≡◌, false, List, [], none, some, String, arith, text_key}
use mathlib.Core.Path.{subst}
use advo_cache.Base.{sym, ◌∙◌}
use advo_cache.Base.Dict.{lookup-insert_self}
use advo_cache.Value.{Value}
use advo_cache.Config.{Config, cache_ttl}
use advo_cache.Message.{replicate, replicate_delete, replicate_evict}
use advo_cache.Cache
use advo_cache.Cache.{Cache, Entry, update, default_capacity}
use advo_cache.Cache.Lru
use advo_cache.Cache.Lru.{forget}
use advo_cache.Cache.Methods.{set-Implements, delete-forget, new_with_capacity_lem}
use advo_cache.Cache.Rep.{Holds}
use advo_cache.Sheet.{Sheets, Sheet, get_sheet, new_replica_sheet, add_sheet, allocate}
use advo_cache.Replica.{
  Client, Reads, find_or_add, put_cache, handle_message, apply_set, apply_delete, apply_evict,
}

-- A client that has a sheet of that ID, and the entries of its cache.
abbrev pub Follows : String → List Entry → Client → Type 0
Follows id es c =
    (p : ℕ) × (get_sheet id c.sheets ≡ some p)
    × Holds (c.sheets.cells p).cache es
    × ((c.sheets.cells p).cache.capacity ≡ default_capacity)

pub put_cache-Follows :
    (id : String) (es : List Entry) (c : Client) (m : Sheets) (p : ℕ) (cache : Cache)
    → get_sheet id m ≡ some p
    → Holds cache es
    → cache.capacity ≡ default_capacity
    → Follows id es (record c { sheets = put_cache p cache m })
put_cache-Follows id es c m p cache found holds bound =
    (p, found, subst (λ x. Holds x es) (sym there) holds, there_bound)
  where
    there : ((put_cache p cache m).cells p).cache ≡ cache
    there = ground arith

    there_bound : ((put_cache p cache m).cells p).cache.capacity ≡ default_capacity
    there_bound = ground arith

module _ (cfg : Config) (r : Reads) (id key : String) (v : Value) (c : Client) where
  -- A replicated set on a sheet that the replica has is the Set that the cache promises.
  pub replicate-Follows :
      (es : List Entry)
      → Follows id es c
      → (c' : Client) × (handle_message cfg r (replicate id key v false) c ≡ some c')
        × Follows id (Lru.set default_capacity key v (cache_ttl cfg) r.now es).0 c'
  unfolding handle_message apply_set find_or_add
  replicate-Follows es (p, found, holds, bound) =
      let (cache, run, holds', cap') =
        set-Implements (c.sheets.cells p).cache es key v (cache_ttl cfg) r.now holds in
      let c' = record c { sheets = put_cache p cache c.sheets } in
      (
        c',
        ground arith,
        put_cache-Follows id _ c c.sheets p cache found
            (subst (λ n. Holds cache (Lru.set n key v (cache_ttl cfg) r.now es).0) bound holds')
            (cap' ∙ bound),
      )

  -- Deletions and evictions that the leader reports take the key out.
  pub replicate_delete-Follows :
      (es : List Entry)
      → Follows id es c
      → (c' : Client) × (handle_message cfg r (replicate_delete id key) c ≡ some c')
        × (handle_message cfg r (replicate_evict id key) c ≡ some c')
        × Follows id (forget key es) c'
  unfolding handle_message apply_delete apply_evict
  replicate_delete-Follows es (p, found, holds, bound) =
      let (cache, run, holds', cap') = delete-forget (c.sheets.cells p).cache es key holds in
      let c' = record c { sheets = put_cache p cache c.sheets } in
      (
        c',
        ground arith,
        ground arith,
        put_cache-Follows id _ c c.sheets p cache found holds' (cap' ∙ bound),
      )

  -- A replicated set on a sheet that the replica does not have makes the sheet, without a password,
  -- with this one entry.
  replicate_new :
      get_sheet id c.sheets ≡ none
      → (c' : Client) × (handle_message cfg r (replicate id key v false) c ≡ some c')
        × Follows id (Lru.set default_capacity key v (cache_ttl cfg) r.now []).0 c'
        × ((c'.sheets.cells c.sheets.fresh).password_hash ≡ none)
  unfolding handle_message apply_set find_or_add new_replica_sheet Cache.new
  replicate_new absent =
      let (empty, made, none_held, size) = new_with_capacity_lem default_capacity in
      let (cache, run, holds, same) =
        set-Implements empty [] key v (cache_ttl cfg) r.now none_held in
      let s : Sheet = record { id = id; password_hash = none; cache = empty; collaborators = [] } in
      let m = add_sheet id c.sheets.fresh (allocate s c.sheets) in
      (
        record c { sheets = put_cache c.sheets.fresh cache m },
        ground (arith, made),
        put_cache-Follows id _ c m c.sheets.fresh cache
            (lookup-insert_self id c.sheets.fresh c.sheets.by_id)
            (subst (λ n. Holds cache (Lru.set n key v (cache_ttl cfg) r.now []).0) size holds)
            (same ∙ size),
        ground arith,
      )
