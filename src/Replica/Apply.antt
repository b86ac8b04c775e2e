-- ===== src/Replica/Apply.antt =====
-- What a message of the leader does to a sheet that a replica of replica/client.go has.
use advo_cache.Base.{
  ℕ, ◌+◌, ◌%◌, ◌≡◌, refl, ◌∙◌, inl, inr, Bool, true, not, ◌||◌, List, Option, some, String, arith,
  text_key, if◌then◌else◌, Bool-cases,
}
use mathlib.Core.Path.{subst}
use advo_cache.Base.Dict.{Enumerates}
use advo_cache.Value.{Value}
use advo_cache.Config.{Config, cache_ttl}
use advo_cache.Time.{Duration, is_positive, word}
use advo_cache.Message.{
  replicate, replicate_delete, replicate_evict, replicate_delete_prefix, replicate_delete_suffix,
}
use advo_cache.Cache
use advo_cache.Cache.{
  Cache, Entry, default_capacity, jitter_bound, set_with_jitter, has_prefix, has_suffix,
}
use advo_cache.Cache.Lru
use advo_cache.Cache.Lru.{forget}
use advo_cache.Cache.Methods.{set-Implements, delete-forget}
use advo_cache.Cache.Sweep.{delete_prefix-Implements, delete_suffix-Implements}
use advo_cache.Cache.Rep.{Holds}
use advo_cache.Replica.{
  Client, Reads, find_or_add, put_cache, handle_message, apply_set, apply_delete, apply_evict,
  apply_delete_prefix, apply_delete_suffix,
}
use advo_cache.Replica.Follow.{Follows, put_cache-Follows}

-- The message is applied, the sheet holds the entries, and the connection is as it was.
abbrev pub Applied : String → List Entry → Client → Option Client → Type 0
Applied id es c run =
    (c' : Client) × (run ≡ some c') × Follows id es c' × (c'.has_conn ≡ c.has_conn)

module _ (cfg : Config) (r : Reads) (id : String) (c : Client) (es : List Entry)
    (follows : Follows id es c) where
  abbrev cell : ℕ
  cell = follows.0

  -- A new cache in the place of the old.
  replaced :
      (cache : Cache) (es' : List Entry) (run : Option Client)
      → run ≡ some (record c { sheets = put_cache cell cache c.sheets })
      → Holds cache es'
      → cache.capacity ≡ (c.sheets.cells cell).cache.capacity
      → Applied id es' c run
  replaced cache es' run ran holds same =
      let (p, found, held, size) = follows in
      (
        record c { sheets = put_cache p cache c.sheets },
        ran,
        put_cache-Follows id es' c c.sheets p cache found holds (same ∙ size),
        refl,
      )

  jittered_lem :
      (key : String) (v : Value) (jitter : Bool) (cache : Cache)
      → (not jitter || is_positive (jitter_bound (cache_ttl cfg) cfg.jitter_percent)) ≡ true
      → (ttl : Duration) × ((if jitter
            then set_with_jitter r.int63n key v (cache_ttl cfg) cfg.jitter_percent r.now cache
            else Cache.set key v (cache_ttl cfg) r.now cache)
          ≡ Cache.set key v ttl r.now cache)
  unfolding set_with_jitter
  jittered_lem key v jitter cache bounded = elim (Bool-cases jitter) [
    | inl jittered ↦ (
      (cache_ttl cfg + r.int63n (jitter_bound (cache_ttl cfg) cfg.jitter_percent)) % word,
      rw (jittered, rw jittered at bounded) refl,
    )
    | inr plain ↦ (cache_ttl cfg, rw plain refl)
  ]

  set_lem :
      (key : String) (v : Value) (jitter : Bool) (ttl : Duration) (cache : Cache) (evicted : String)
      → (if jitter
          then set_with_jitter r.int63n key v
              (cache_ttl cfg)
              cfg.jitter_percent
              r.now
              (c.sheets.cells cell).cache
          else Cache.set key v (cache_ttl cfg) r.now (c.sheets.cells cell).cache)
        ≡ some (cache, evicted)
      → handle_message cfg r (replicate id key v jitter) c
        ≡ some (record c { sheets = put_cache cell cache c.sheets })
  unfolding handle_message apply_set find_or_add
  set_lem key v jitter ttl cache evicted ran = let (p, found, holds, size) = follows in ground arith

  -- A replicated set, with or without jitter, is a Set with some time to live.
  pub replicate-Applied :
      (key : String) (v : Value) (jitter : Bool)
      → (not jitter || is_positive (jitter_bound (cache_ttl cfg) cfg.jitter_percent)) ≡ true
      → (ttl : Duration) × Applied id
          (Lru.set default_capacity key v ttl r.now es).0
          c
          (handle_message cfg r (replicate id key v jitter) c)
  replicate-Applied key v jitter bounded =
      let (p, found, holds, size) = follows in
      let (ttl, same) = jittered_lem key v jitter (c.sheets.cells p).cache bounded in
      let (cache, run, holds', cap') =
        set-Implements (c.sheets.cells p).cache es key v ttl r.now holds in
      (
        ttl,
        replaced cache _ _ (set_lem key v jitter ttl cache _ (same ∙ run))
            (subst (λ n. Holds cache (Lru.set n key v ttl r.now es).0) size holds') cap',
      )

  pub delete-Applied :
      (key : String)
      → Applied id (forget key es) c (handle_message cfg r (replicate_delete id key) c)
        × Applied id (forget key es) c (handle_message cfg r (replicate_evict id key) c)
  unfolding handle_message apply_delete apply_evict
  delete-Applied key =
      let (p, found, holds, size) = follows in
      let (cache, run, holds', cap') = delete-forget (c.sheets.cells p).cache es key holds in
      (replaced cache _ _ (ground arith) holds' cap', replaced cache _ _ (ground arith) holds' cap')

  pub delete_prefix-Applied :
      (prefix : String)
      → Enumerates (r.order cell) (c.sheets.cells cell).cache.nodes
      → Applied id
          (Lru.sweep (λ e. has_prefix prefix e.key) es).0
          c
          (handle_message cfg r (replicate_delete_prefix id prefix) c)
  unfolding handle_message apply_delete_prefix
  delete_prefix-Applied prefix visit =
      let (p, found, holds, size) = follows in
      let (cache, run, holds', cap') =
        delete_prefix-Implements prefix (r.order p) (c.sheets.cells p).cache es visit holds in
      replaced cache _ _ (ground arith) holds' cap'

  pub delete_suffix-Applied :
      (suffix : String)
      → Enumerates (r.order cell) (c.sheets.cells cell).cache.nodes
      → Applied id
          (Lru.sweep (λ e. has_suffix suffix e.key) es).0
          c
          (handle_message cfg r (replicate_delete_suffix id suffix) c)
  unfolding handle_message apply_delete_suffix
  delete_suffix-Applied suffix visit =
      let (p, found, holds, size) = follows in
      let (cache, run, holds', cap') =
        delete_suffix-Implements suffix (r.order p) (c.sheets.cells p).cache es visit holds in
      replaced cache _ _ (ground arith) holds' cap'
