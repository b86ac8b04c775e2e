-- ===== src/Tandem/Mirror.antt =====
-- A replica of replica/client.go holds what the leader holds, while the leader's clients set values.
use mathlib.Core.Path.{subst}
use advo_cache.Base.{
  ℕ, suc, Bool, ◌≡◌, refl, sym, ap, ◌∙◌, inl, inr, true, false, List, [], ◌∷◌, ◌++◌, Option, none,
  some, String, arith, ◌==◌, text_key, conn_key, if◌then◌else◌, ◌=?◌, ◌>>=◌, Bool-cases, eq_iff,
}
use advo_cache.Value.{Value}
use advo_cache.Config.{Config, cache_ttl}
use advo_cache.Cache
use advo_cache.Cache.{Entry, default_capacity, set_with_jitter}
use advo_cache.Cache.Contents.{contents, contents-set_same, contents-forget_same}
use advo_cache.Cache.Lru
use advo_cache.Cache.Lru.{seek, forget}
use advo_cache.Cache.Lru.Laws.{forget_absent}
use advo_cache.Message.{
  Request, Message, response, success_response, broadcast_set, replicate, replicate_evict,
  invalidate,
}
use advo_cache.Sheet.{Conn}
use advo_cache.Server.{
  Outside, Handler, handle_set, handle_delete, broadcast, broadcast_to_replicas, write,
}
use advo_cache.Cache.Methods.{delete-forget}
use advo_cache.Server.Writes.{stored, audience-stored}
use advo_cache.Server
use advo_cache.Server.System.Members.{occurrences}
use advo_cache.Server.Writes.{Stores, others, followers, eviction_notices, handle_set_lem}
use advo_cache.Reader.Sync.{set-evicted}
use advo_cache.Replica
use advo_cache.Replica.{Client, handle_message, hear, apply_set, find_or_add, put_cache}
use advo_cache.Replica.Follow.{Follows, replicate-Follows, replicate_delete-Follows}
use advo_cache.Tandem.{inbox}
use advo_cache.Tandem.Followers.{round, told, told_eviction}
use advo_cache.Tandem.Inbox.{inbox-append}
use advo_cache.Tandem.Writing.{regroup_three, regroup_four}

-- The leader's sheet at `p` and the replica's sheet of that ID hold the same keys and values, in the
-- same order of use.
abbrev pub Mirrors : ℕ → String → Handler → Client → Type 0
Mirrors p id h c =
    (es es' : List Entry) × Stores p es h × Follows id es' c × (contents es ≡ contents es')

-- Of the replica after a message, if it does not panic.
Online : Option Client → Type 0
Online none = Unit
Online (some c) = c.has_conn ≡ true

bind-Online :
    {A : Type 0} (run : Option A) (f : A → Option Client)
    → ((x : A) → Online (f x))
    → Online (run >>= f)
unfolding Online
bind-Online none f g = tt
bind-Online (some x) f g = g x

some-Online : (c : Client) → c.has_conn ≡ true → Online (some c)
unfolding Online
some-Online c online = online

Online-some : (c : Client) → Online (some c) → c.has_conn ≡ true
unfolding Online
Online-some c online = online

module _ (cfg : Config) (reads : ℕ → Replica.Reads) (c : Client) (online : c.has_conn ≡ true) where
  replicate-Online :
      (r : Replica.Reads) (id key : String) (v : Value) (jitter : Bool)
      → Online (handle_message cfg r (replicate id key v jitter) c)
  unfolding handle_message apply_set
  replicate-Online r id key v jitter = bind-Online (find_or_add id c.sheets) _ λ (m, p).
      bind-Online
        (if jitter
          then set_with_jitter r.int63n key v (cache_ttl cfg) cfg.jitter_percent r.now
              (m.cells p).cache
          else Cache.set key v (cache_ttl cfg) r.now (m.cells p).cache)
        _ λ (cache, evicted). some-Online (record c { sheets = put_cache p cache m }) online

  pub hear_next :
      (n : ℕ) (m : Message) (ms : List Message) (c' : Client)
      → handle_message cfg (reads n) m c ≡ some c'
      → hear cfg reads n (m ∷ ms) c ≡ hear cfg reads (suc n) ms c'
  unfolding hear
  hear_next n m ms c' run = rw (run, online) refl

module _ (conn rep p : ℕ) (h : Handler) (other : (conn =? rep) ≡ false)
    (apart : occurrences rep (others conn p h) ≡ 0)
    (once : occurrences rep (followers conn p h) ≡ 1) where
  module _ (cfg : Config) (out : Outside) (given : Server.Reads) (req : Request)
      (plain : req.jitter ≡ false) (size : (h.sheets.cells p).cache.capacity ≡ default_capacity)
      (reads : ℕ → Replica.Reads) (c : Client) (online : c.has_conn ≡ true) where
    abbrev id : String
    id = (h.sheets.cells p).id

    abbrev value : Message
    value = replicate id req.key req.value false

    abbrev notices : String → List Message
    notices key = if key == "" then [] else replicate_evict id key ∷ []

    -- The replica applies the value and, if the leader evicted a key, takes out what is no longer
    -- there.
    heard :
        (es es' : List Entry)
        → Follows id es' c
        → contents es ≡ contents es'
        → (c' : Client) × (hear cfg reads 0
              (replicate id req.key req.value false
                ∷ (if (Lru.set default_capacity req.key req.value (cache_ttl cfg) given.now es).1
                      == ""
                    then []
                    else replicate_evict id
                        (Lru.set default_capacity req.key req.value (cache_ttl cfg) given.now es).1
                      ∷ []))
              c
            ≡ some c')
          × Follows id
              (Lru.set default_capacity req.key req.value (cache_ttl cfg) (reads 0).now es').0
              c'
    unfolding hear
    heard es es' follows same =
        let (c₁, run, there) = replicate-Follows cfg (reads 0) id req.key req.value c es' follows in
        let key = (Lru.set default_capacity req.key req.value (cache_ttl cfg) given.now es).1 in
        let (alike, same_key) =
          contents-set_same default_capacity req.key req.value (cache_ttl cfg) (cache_ttl cfg)
            given.now (reads 0).now es es' same in
        elim (Bool-cases (key == "")) [
          | inl quiet ↦
              (c₁, hear_next cfg reads c online 0 value (notices key) c₁ run ∙ rw quiet refl, there)
          | inr loud ↦
              let held =
                (Lru.set default_capacity req.key req.value (cache_ttl cfg) (reads 0).now es').0 in
              let (c₂, deleted, ran, gone) =
                replicate_delete-Follows cfg (reads 1) id key req.value c₁ held there in
              let still = Online-some c₁ (
                subst Online run
                  (replicate-Online cfg reads c online (reads 0) id req.key req.value false)) in
              let absent : seek key held ≡ none =
                subst (λ k. seek k held ≡ none) (sym same_key)
                  (set-evicted default_capacity req.key req.value (cache_ttl cfg) (reads 0).now es'
                    (λ e. ground (arith, eq_iff key "", same_key, e))).0 in
              (
                c₂,
                hear_next cfg reads c online 0 value (notices key) c₁ run
                    ∙ rw loud (hear_next cfg reads c₁ still 1 (replicate_evict id key) [] c₂ ran),
                subst (λ x. Follows id x c₂) (forget_absent key held absent) gone,
              )
        ]

    -- While a client sets a value without jitter on a leader, the handler ends. A replica that is
    -- connected, once among the replicas and no collaborator, and mirrors the sheet, does so again once
    -- it has heard what was written to its connection, evictions included, if both caches are of the
    -- default capacity.
    handle_set-Mirrors :
        Mirrors p id h c
        → (h' : Handler) × (sent : List (Conn × Message)) × (c' : Client) × (handle_set cfg out
              given conn p req h
            ≡ some h')
          × (h'.outbox ≡ h.outbox ++ sent)
          × (hear cfg reads 0 (inbox rep sent) c ≡ some c')
          × Mirrors p id h' c'
    handle_set-Mirrors (es, es', holds, follows, same) =
        let (h', run, there, wrote) = handle_set_lem cfg out given conn p req h es plain holds in
        let (c', ran, there') = heard es es' follows same in
        let (alike, same_key) =
          contents-set_same default_capacity req.key req.value (cache_ttl cfg) (cache_ttl cfg)
            given.now (reads 0).now es es' same in
        let answer = response (record success_response { key = req.key }) in
        let m = broadcast_set req.key req.value in
        let m' = replicate id req.key req.value false in
        let evicted =
          (Lru.set (h.sheets.cells p).cache.capacity req.key req.value (cache_ttl cfg) given.now
            es).1 in
        let got : inbox rep (round conn p h answer m m' ++ eviction_notices conn p h evicted)
            ≡ m' ∷ (if evicted == "" then [] else replicate_evict id evicted ∷ []) =
          inbox-append rep (round conn p h answer m m') (eviction_notices conn p h evicted)
          ∙ rw
              (
                told conn rep p h other apart once answer m m',
                told_eviction conn rep p h other apart once evicted,
              )
              refl in
        (
          h',
          round conn p h answer m m' ++ eviction_notices conn p h evicted,
          c',
          run,
          wrote ∙ regroup_four h.outbox _ _ _ _,
          ap (λ ms. hear cfg reads 0 ms c) got ∙ rw size ran,
          (_, _, there, there', rw size alike),
        )

  module _ (cfg : Config) (out : Outside) (req : Request) (reads : ℕ → Replica.Reads) (c : Client)
      (online : c.has_conn ≡ true) where
    -- While a client deletes a key, the handler ends, and a replica that is connected, once among the
    -- replicas and no collaborator, and mirrors the sheet, does so again once it has heard what was
    -- written to its connection.
    handle_delete-Mirrors :
        Mirrors p (h.sheets.cells p).id h c
        → (h' : Handler) × (sent : List (Conn × Message)) × (c' : Client) × (handle_delete cfg out
              conn p req h
            ≡ some h')
          × (h'.outbox ≡ h.outbox ++ sent)
          × (hear cfg reads 0 (inbox rep sent) c ≡ some c')
          × Mirrors p (h.sheets.cells p).id h' c'
    unfolding handle_delete hear
    handle_delete-Mirrors (es, es', holds, follows, same) =
        let (cache, run, there, bound) = delete-forget (h.sheets.cells p).cache es req.key holds in
        let (c', deleted, ran, there') =
          replicate_delete-Follows cfg (reads 0) (h.sheets.cells p).id req.key req.value c es'
            follows in
        let answer = response (record success_response { key = req.key; deleted = 1 }) in
        let m = invalidate req.key "" "" in
        let m' = Message.replicate_delete (h.sheets.cells p).id req.key in
        (
          broadcast_to_replicas m'
              (broadcast conn p m (write conn answer (Server.put_cache p cache h))),
          round conn p h answer m m',
          c',
          rw (run, stored conn p h cache) refl,
          rw (audience-stored conn p h cache) (regroup_three h.outbox _ _ _),
          ap (λ ms. hear cfg reads 0 ms c) (told conn rep p h other apart once answer m m')
              ∙ hear_next cfg reads c online 0 m' [] c' deleted,
          (
            _,
            _,
            rw (stored conn p h cache) there,
            there',
            contents-forget_same req.key es es' same,
          ),
        )
