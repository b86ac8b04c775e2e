-- ===== src/Tandem/Standby.antt =====
-- A replica of replica/client.go keeps the values of a sheet of its leader while a client of the leader
-- takes an action in ws/handler.go.
use advo_cache.Base.{
  ℕ, ◌+◌, ◌<◌, ◌≤◌, ◌≡◌, ◌≢◌, refl, sym, ap, ◌∙◌, inl, inr, Bool, true, false, not, ◌||◌, List, [],
  ◌∷◌, ◌++◌, Option, none, some, String, arith, ◌==◌, text_key, conn_key, if◌then◌else◌, ◌=?◌,
  length, eq_iff, Bool-cases,
}
use advo_cache.Value.{Value}
use advo_cache.Time.{Time, Duration, is_positive}
use advo_cache.Config.{Config, cache_ttl}
use advo_cache.Cache.{Entry, default_capacity, jitter_bound}
use advo_cache.Cache.Lru
use advo_cache.Cache.Lru.{seek, forget}
use advo_cache.Cache.Lru.Laws.{length-forget-le}
use advo_cache.Message.{
  Request, Message, response, success_response, broadcast_set, replicate, replicate_evict,
}
use advo_cache.Sheet.{Conn}
use advo_cache.Server.{
  Outside, Handler, handle_set, handle_set_null, handle_delete, handle_delete_prefix,
  handle_delete_suffix, put_cache, broadcast, broadcast_to_replicas, write, announce_eviction,
}
use advo_cache.Server
use advo_cache.Server.System.Members.{occurrences}
use advo_cache.Server.Writes.{
  Stores, others, followers, eviction_notices, handle_set_any, set-IsTtl, promised,
}
use advo_cache.Reader.Sync.{set-seek_absent}
use advo_cache.Replica
use advo_cache.Replica.{Client, hear, handle_message}
use advo_cache.Replica.Follow.{Follows}
use advo_cache.Replica.Apply.{Applied, replicate-Applied, delete-Applied}
use advo_cache.Replica.Storing.{set_room}
use advo_cache.Tandem.{inbox}
use advo_cache.Tandem.Alike.{set_quiet-SameValues, set_loud-SameValues}
use advo_cache.Tandem.CatchUp.{SameValues}
use advo_cache.Tandem.Followers.{round, told, told_eviction}
use advo_cache.Tandem.Inbox.{inbox-append}
use advo_cache.Tandem.Mirror.{hear_next}
use advo_cache.Tandem.Writing.{regroup_four}

-- The replica has the values of the sheet, which has no empty key, and its cache has room for `n`
-- more entries.
abbrev pub Backs : ℕ → ℕ → String → Handler → Client → Type 0
Backs n p id h c =
    (es es' : List Entry) × Stores p es h
    × Follows id es' c
    × SameValues es es'
    × (seek "" es ≡ none)
    × (length es' + n ≤ default_capacity)

module _ (cfg : Config) (reads : ℕ → Replica.Reads) (rep : Conn) where
  -- The handler of the leader ends, and the replica backs the sheet, once it has heard what was
  -- written to its connection.
  abbrev pub Backed : ℕ → ℕ → String → Handler → Client → Option Handler → Type 0
  Backed n p id h c run =
      (h' : Handler) × (sent : List (Conn × Message)) × (c' : Client) × (run ≡ some h')
      × (h'.outbox ≡ h.outbox ++ sent)
      × (hear cfg reads 0 (inbox rep sent) c ≡ some c')
      × (c'.has_conn ≡ true)
      × Backs n p id h' c'

module _ (rcfg : Config) (reads : ℕ → Replica.Reads) (n conn rep p : ℕ) (h : Handler) (c : Client)
    (other : (conn =? rep) ≡ false) (apart : occurrences rep (others conn p h) ≡ 0)
    (once : occurrences rep (followers conn p h) ≡ 1) (online : c.has_conn ≡ true) where
  abbrev id : String
  id = (h.sheets.cells p).id

  hear_one :
      (m : Message) (c' : Client)
      → handle_message rcfg (reads 0) m c ≡ some c'
      → hear rcfg reads 0 (m ∷ []) c ≡ some c'
  unfolding hear
  hear_one m c' run = hear_next rcfg reads c online 0 m [] c' run

  hear_two :
      (m m' : Message) (c₁ c' : Client)
      → handle_message rcfg (reads 0) m c ≡ some c₁
      → c₁.has_conn ≡ true
      → handle_message rcfg (reads 1) m' c₁ ≡ some c'
      → hear rcfg reads 0 (m ∷ m' ∷ []) c ≡ some c'
  unfolding hear
  hear_two m m' c₁ c' run still run' =
      hear_next rcfg reads c online 0 m (m' ∷ []) c₁ run
      ∙ hear_next rcfg reads c₁ still 1 m' [] c' run'

  -- One message for the replica, which it applies.
  pub one_Backed :
      (run : Option Handler) (h' : Handler) (sent : List (Conn × Message)) (m : Message)
      (es es' : List Entry)
      → run ≡ some h'
      → h'.outbox ≡ h.outbox ++ sent
      → inbox rep sent ≡ m ∷ []
      → Stores p es h'
      → Applied id es' c (handle_message rcfg (reads 0) m c)
      → SameValues es es'
      → seek "" es ≡ none
      → length es' + n ≤ default_capacity
      → Backed rcfg reads rep n p id h c run
  one_Backed run h' sent m es es' ran wrote got holds (c', applied, follows, kept) same named room =
      (
        h',
        sent,
        c',
        ran,
        wrote,
        ap (λ ms. hear rcfg reads 0 ms c) got ∙ hear_one m c' applied,
        kept ∙ online,
        (es, es', holds, follows, same, named, room),
      )

  module _ (es es' : List Entry) (holds : Stores p es h) (follows : Follows id es' c)
      (same : SameValues es es') (named : seek "" es ≡ none)
      (room : length es' + (n + 1) ≤ default_capacity) where
    -- What the replica makes of a set on the leader, and of the eviction.
    pub heard_set :
        (capacity : ℕ) (k : String) (v : Value) (ttl : Duration) (now : Time) (jitter : Bool)
        → (not jitter || is_positive (jitter_bound (cache_ttl rcfg) rcfg.jitter_percent)) ≡ true
        → (c' : Client) × (es₂ : List Entry) × (hear rcfg reads 0
              (replicate id k v jitter
                ∷ (if (Lru.set capacity k v ttl now es).1 == ""
                    then []
                    else replicate_evict id (Lru.set capacity k v ttl now es).1 ∷ []))
              c
            ≡ some c')
          × (c'.has_conn ≡ true)
          × Follows id es₂ c'
          × SameValues (Lru.set capacity k v ttl now es).0 es₂
          × (length es₂ + n ≤ default_capacity)
    heard_set capacity k v ttl now jitter bounded =
        let gone = (Lru.set capacity k v ttl now es).1 in
        let (ttl', (c₁, run, there, kept)) =
          replicate-Applied rcfg (reads 0) id c es' follows k v jitter bounded in
        let below : length es' < default_capacity = omega arith in
        let es₁ = (Lru.set default_capacity k v ttl' (reads 0).now es').0 in
        let size = (set_room default_capacity k "" v ttl' (reads 0).now es' below).1 in
        elim (Bool-cases (gone == "")) [
          | inl quiet ↦ (
            c₁,
            es₁,
            rw quiet (hear_one (replicate id k v jitter) c₁ run),
            kept ∙ online,
            there,
            set_quiet-SameValues es es' same capacity default_capacity k v ttl ttl' now
                (reads 0).now named below (ground (arith, eq_iff gone "")),
            omega (arith, size),
          )
          | inr loud ↦
              let (c₂, run', there', kept') =
                (delete-Applied rcfg (reads 1) id c₁ es₁ there gone).1 in
              (
                c₂,
                forget gone es₁,
                rw loud (
                    hear_two (replicate id k v jitter) (replicate_evict id gone) c₁ c₂ run
                      (kept ∙ online) run'),
                kept' ∙ kept ∙ online,
                there',
                set_loud-SameValues es es' same capacity default_capacity k v ttl ttl' now
                    (reads 0).now named below (λ e. absurd (ground (arith, eq_iff gone ""))),
                omega (arith, size, length-forget-le gone es₁),
              )
        ]

    module _ (cfg : Config) (out : Outside) (given : Server.Reads) (req : Request)
        (bounded : is_positive (jitter_bound (cache_ttl cfg) cfg.jitter_percent) ≡ true)
        (bounded' : is_positive (jitter_bound (cache_ttl rcfg) rcfg.jitter_percent) ≡ true) where
      pub handle_set-Backed :
          req.key ≢ "" → Backed rcfg reads rep n p id h c (handle_set cfg out given conn p req h)
      handle_set-Backed filled =
          let cap = (h.sheets.cells p).cache.capacity in
          let (ttl, is) = set-IsTtl cfg out given conn p req h es (ground arith) in
          let evicted = (promised cfg out given conn p req h es ttl).1 in
          let (h', run, there, wrote) = handle_set_any cfg out given conn p req h es ttl is holds in
          let (c', es₂, heard, still, follows', alike, fits) =
            heard_set cap req.key req.value ttl given.now req.jitter (ground arith) in
          let answer = response (record success_response { key = req.key }) in
          let m = broadcast_set req.key req.value in
          let m' = replicate id req.key req.value req.jitter in
          let got : inbox rep (round conn p h answer m m' ++ eviction_notices conn p h evicted)
              ≡ m' ∷ (if evicted == "" then [] else replicate_evict id evicted ∷ []) =
            inbox-append rep (round conn p h answer m m') (eviction_notices conn p h evicted)
            ∙ rw
                (
                  told conn rep p h other apart once answer m m',
                  told_eviction conn rep p h other apart once evicted,
                )
                refl in
          (
            h',
            round conn p h answer m m' ++ eviction_notices conn p h evicted,
            c',
            run,
            wrote ∙ regroup_four h.outbox _ _ _ _,
            ap (λ ms. hear rcfg reads 0 ms c) got ∙ heard,
            still,
            (
              _,
              es₂,
              there,
              follows',
              alike,
              set-seek_absent cap "" req.key req.value ttl given.now es named (λ e. filled (sym e)),
              fits,
            ),
          )
