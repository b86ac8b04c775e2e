-- ===== src/Server/Writes.antt =====
-- What a set of ws/handler.go does, from the request to the last message.
use advo_cache.Base.{
  ◌+◌, ◌%◌, true, not, ◌||◌, ◌∙◌, ℕ, ◌≡◌, refl, false, inl, inr, List, [], ◌∷◌, ◌++◌, some, String,
  arith, ◌==◌, text_key, if◌then◌else◌, Bool-cases, map, sym,
}
use mathlib.Core.Path.{subst}
use mathlib.Core.List.{append-nil, append_assoc}
use advo_cache.Time.{Duration, is_positive, word}
use advo_cache.Cache
use advo_cache.Config.{Config, cache_ttl}
use advo_cache.Cache.{Cache, Entry, set_with_jitter, jitter_bound}
use advo_cache.Cache.Lru
use advo_cache.Cache.Lru.{forget}
use advo_cache.Cache.Methods.{set-Implements}
use advo_cache.Cache.Rep.{Holds}
use advo_cache.Message.{
  Request, Message, response, success_response, broadcast_set, replicate, invalidate,
  replicate_evict,
}
use advo_cache.Sheet.{Conn, audience}
use advo_cache.Server.{Outside, Reads, Handler, put_cache, handle_set, announce_eviction, keys}

-- A message to each of the connections, in turn.
abbrev pub to_all : List Conn → Message → List (Conn × Message)
to_all conns msg = map (λ c. (c, msg)) conns

-- The cache of the sheet at `p` holds these entries.
abbrev pub Stores : ℕ → List Entry → Handler → Type 0
Stores p es h = Holds (h.sheets.cells p).cache es

module _ (conn p : ℕ) (h : Handler) where
  -- The other collaborators of the sheet, and the replicas.
  abbrev pub others : List Conn
  others = audience conn (h.sheets.cells p)

  abbrev pub followers : List Conn
  followers = keys h.replicas

  -- The notices of an eviction.
  abbrev pub eviction_notices : String → List (Conn × Message)
  eviction_notices key =
      if key == ""
      then []
      else to_all others (invalidate key "" "")
        ++ to_all followers (replicate_evict (h.sheets.cells p).id key)

  pub announce_eviction-sheets :
      (key : String) (h' : Handler) → (announce_eviction conn p key h').sheets ≡ h'.sheets
  unfolding announce_eviction
  announce_eviction-sheets key h' = ground arith

  -- The sheet whose cache was replaced.
  pub stored :
      (cache : Cache)
      → (put_cache p cache h).sheets.cells p ≡ record (h.sheets.cells p) { cache = cache }
  stored cache = ground arith

  pub audience-stored :
      (cache : Cache) → audience conn ((put_cache p cache h).sheets.cells p) ≡ others
  unfolding audience
  audience-stored cache = rw (stored cache) refl

  pub announce_eviction-outbox :
      (key : String) (cache : Cache) (sent : List (Conn × Message))
      → (announce_eviction conn p key (record (put_cache p cache h) { outbox = sent })).outbox
        ≡ sent ++ eviction_notices key
  unfolding announce_eviction audience
  announce_eviction-outbox key cache sent = elim (Bool-cases (key == "")) [
    | inl quiet ↦ rw quiet (sym (append-nil sent))
    | inr loud ↦ rw (loud, audience-stored cache, stored cache) (append_assoc sent _ _)
  ]

  -- What is sent for a set, up to the notices of an eviction.
  abbrev pub set_notices : Request → List (Conn × Message)
  set_notices req =
      ((h.outbox ++ (conn, response (record success_response { key = req.key })) ∷ [])
        ++ to_all others (broadcast_set req.key req.value))
      ++ to_all followers (replicate (h.sheets.cells p).id req.key req.value req.jitter)

module _ (cfg : Config) (out : Outside) (r : Reads) (conn p : ℕ) (req : Request) (h : Handler)
    (es : List Entry) where
  -- The call of SetWithJitter or of Set is a Set with this time to live.
  abbrev pub IsTtl : Duration → Type 0
  IsTtl ttl =
      (if req.jitter
        then Cache.set_with_jitter r.int63n req.key req.value (cache_ttl cfg) cfg.jitter_percent
            r.now (h.sheets.cells p).cache
        else Cache.set req.key req.value (cache_ttl cfg) r.now (h.sheets.cells p).cache)
      ≡ Cache.set req.key req.value ttl r.now (h.sheets.cells p).cache

  pub set-IsTtl :
      (not req.jitter || is_positive (jitter_bound (cache_ttl cfg) cfg.jitter_percent)) ≡ true
      → (ttl : Duration) × IsTtl ttl
  unfolding set_with_jitter
  set-IsTtl bounded = elim (Bool-cases req.jitter) [
    | inl jittered ↦ (
      (cache_ttl cfg + r.int63n (jitter_bound (cache_ttl cfg) cfg.jitter_percent)) % word,
      rw (jittered, rw jittered at bounded) refl,
    )
    | inr plain ↦ (cache_ttl cfg, rw plain refl)
  ]

  abbrev pub promised : Duration → List Entry × String
  promised ttl = Lru.set (h.sheets.cells p).cache.capacity req.key req.value ttl r.now es

  -- A set does not panic, if it is a Set. The cache does what Set promises; the client gets its
  -- response, then the other collaborators the value, then the replicas; and if a key was evicted, both
  -- hear of that too.
  pub handle_set_any :
      (ttl : Duration)
      → IsTtl ttl
      → Stores p es h
      → (h' : Handler) × (handle_set cfg out r conn p req h ≡ some h')
        × Stores p (promised ttl).0 h'
        × (h'.outbox ≡ set_notices conn p h req ++ eviction_notices conn p h (promised ttl).1)
  unfolding handle_set
  handle_set_any ttl same holds =
      let (cache, ran, holds', bound) =
        set-Implements (h.sheets.cells p).cache es req.key req.value ttl r.now holds in
      let run = same ∙ ran in
      let evicted = (promised ttl).1 in
      let cached = record (put_cache p cache h) { outbox = set_notices conn p h req } in
      let there : Stores p (promised ttl).0 cached = rw (stored conn p h cache) holds' in
      (
        announce_eviction conn p evicted cached,
        rw (run, audience-stored conn p h cache, stored conn p h cache) refl,
        subst (λ m. Holds (m.cells p).cache (promised ttl).0)
            (sym (announce_eviction-sheets conn p h evicted cached)) there,
        announce_eviction-outbox conn p h evicted cache (set_notices conn p h req),
      )

  -- A set without jitter does not panic. The cache does what Set promises; the client gets its
  -- response, then the other collaborators the value, then the replicas; and if a key was evicted, both hear
  -- of that too.
  pub handle_set_lem :
      req.jitter ≡ false
      → Stores p es h
      → (h' : Handler) × (handle_set cfg out r conn p req h ≡ some h')
        × Stores p
            (Lru.set (h.sheets.cells p).cache.capacity req.key req.value (cache_ttl cfg) r.now es).0
            h'
        × (h'.outbox
            ≡ (((h.outbox ++ (conn, response (record success_response { key = req.key })) ∷ [])
                  ++ to_all (others conn p h) (broadcast_set req.key req.value))
                ++ to_all
                    (followers conn p h)
                    (replicate (h.sheets.cells p).id req.key req.value false))
              ++ eviction_notices conn p h
                  (Lru.set
                    (h.sheets.cells p).cache.capacity
                    req.key
                    req.value
                    (cache_ttl cfg)
                    r.now
                    es).1)
  handle_set_lem plain holds =
      let (h', run, there, wrote) = handle_set_any (cache_ttl cfg) (rw plain refl) holds in
      (h', run, there, wrote ∙ rw plain refl)
