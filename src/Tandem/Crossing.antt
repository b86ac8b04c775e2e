-- ===== src/Tandem/Crossing.antt =====
-- Two writes that cross: a reader of reader/reader.go sets a key, while what another client has set
-- there is on its way from ws/handler.go to the reader.
use mathlib.Core.Path.{subst}
use mathlib.Core.List.{append_assoc}
use advo_cache.Base.{
  ℕ, ◌≡◌, ◌≢◌, refl, sym, ap, ◌∙◌, inl, inr, true, false, List, [], ◌∷◌, ◌++◌, Option, some, String,
  arith, ◌==◌, text_key, conn_key, if◌then◌else◌, ◌=?◌, ◌>>=◌, eq_iff, Bool-cases,
}
use advo_cache.Base.Dict.{has_key, insert, lookup-insert, lookup-remove}
use advo_cache.Value.{Value}
use advo_cache.Time.{is_positive}
use advo_cache.Config.{Config, cache_ttl}
use advo_cache.Cache.{Entry, jitter_bound}
use advo_cache.Cache.Lru.{seek, value_of}
use advo_cache.Message.{
  Request, Message, response, success_response, broadcast_set, replicate, replicate_evict,
  invalidate,
}
use advo_cache.Sheet.{Conn, audience}
use advo_cache.Server.{Outside, Reads, Handler, handle_set}
use advo_cache.Server.Isolation.{set-SameBut, Safely, SameBut}
use advo_cache.Server.System.Members.{occurrences, occurrences-keep_self}
use advo_cache.Server.Writes.{
  Stores, to_all, others, followers, eviction_notices, handle_set_any, set-IsTtl, promised,
}
use advo_cache.Reader.{Reader, handle_message, hear, get, set_value}
use advo_cache.Reader.Sync.{set-seek_self, set-evicted}
use advo_cache.Tandem.{inbox}
use advo_cache.Tandem.Inbox.{inbox-append, inbox-to_all_none, occurrences-keys, IsOpen}
use advo_cache.Tandem.Session.{hear-append}
use advo_cache.Tandem.Writing.{round, told, heard_of_eviction, regroup_four}

-- What is written when a connection sets a value, to the end.
abbrev written : ℕ → ℕ → Handler → Request → String → List (Conn × Message)
written conn p h req evicted =
    ((((conn, response (record success_response { key = req.key })) ∷ [])
        ++ to_all (others conn p h) (broadcast_set req.key req.value))
      ++ to_all (followers conn p h) (replicate (h.sheets.cells p).id req.key req.value req.jitter))
    ++ eviction_notices conn p h evicted

own_answer : (c : Conn) (m : Message) → inbox c ((c, m) ∷ []) ≡ m ∷ []
unfolding inbox
own_answer c m = ground arith

module _ (c p : ℕ) (h : Handler) (client : has_key c h.replicas ≡ false) where
  not_to_itself : (m : Message) → inbox c (to_all (others c p h) m) ≡ []
  unfolding audience
  not_to_itself m =
      inbox-to_all_none c (others c p h) m
        (occurrences-keep_self c (h.sheets.cells p).collaborators)

  no_replica : (m : Message) → inbox c (to_all (followers c p h) m) ≡ []
  no_replica m = inbox-to_all_none c (followers c p h) m (occurrences-keys c h.replicas client)

  no_notice : (key : String) → inbox c (eviction_notices c p h key) ≡ []
  unfolding inbox
  no_notice key = elim (Bool-cases (key == "")) [
    | inl quiet ↦ rw quiet refl
    | inr loud ↦
        rw
          (
            loud,
            inbox-append c (to_all (others c p h) (invalidate key "" ""))
                (to_all (followers c p h) (replicate_evict (h.sheets.cells p).id key)),
            not_to_itself (invalidate key "" ""),
            no_replica (replicate_evict (h.sheets.cells p).id key),
          )
          refl
  ]

  -- A connection hears only the answer to its own set, and not of the eviction.
  own_set :
      (req : Request) (evicted : String)
      → inbox c (written c p h req evicted)
        ≡ response (record success_response { key = req.key }) ∷ []
  own_set req evicted =
      let answer = response (record success_response { key = req.key }) in
      let m = broadcast_set req.key req.value in
      let m' = replicate (h.sheets.cells p).id req.key req.value req.jitter in
      let first = ((c, answer) ∷ []) ++ to_all (others c p h) m in
      rw
        (
          inbox-append c (first ++ to_all (followers c p h) m') (eviction_notices c p h evicted),
          inbox-append c first (to_all (followers c p h) m'),
          inbox-append c ((c, answer) ∷ []) (to_all (others c p h) m),
          own_answer c answer,
          not_to_itself m,
          no_replica m',
          no_notice evicted,
        )
        refl

-- An open reader that hears of a value, and of an eviction of another key, reads the value.
hear_value :
    (key : String) (v : Value) (evicted : String) (r : Reader)
    → IsOpen r
    → (evicted ≢ "" → (key == evicted) ≡ false)
    → get key (
        hear
          (broadcast_set key v ∷ (if evicted == "" then [] else invalidate evicted "" "" ∷ []))
          r)
      ≡ some v
unfolding hear handle_message get
hear_value key v evicted r o apart = elim (Bool-cases (evicted == "")) [
  | inl quiet ↦ rw quiet (ground (arith, lookup-insert key key v r.cache, eq_iff key key))
  | inr loud ↦
      let other = apart (λ e. absurd (ground (arith, eq_iff evicted ""))) in
      rw loud (
        ground (
          arith,
          lookup-insert key key v r.cache,
          lookup-remove evicted key (insert key v r.cache),
          eq_iff key key,
          eq_iff evicted key,
        ))
]

module _ (cfg : Config) (out : Outside) (given given' : Reads) (conn c p : ℕ) (req req' : Request)
    (h : Handler) where
  -- The two sets, in the order in which the server handles them.
  abbrev pub both : Option Handler
  both = do h₁ ← handle_set cfg out given conn p req h; handle_set cfg out given' c p req' h₁

module _ (cfg : Config) (out : Outside) (given given' : Reads) (conn c p : ℕ) (req req' : Request)
    (h : Handler) (r : Reader) (es : List Entry) where
  hear_answer :
      (key : String) (r' : Reader)
      → hear (response (record success_response { key = key }) ∷ []) r' ≡ r'
  unfolding hear handle_message
  hear_answer key r' = ground arith

  set_value-IsOpen : (k : String) (v : Value) → IsOpen r → IsOpen (set_value k v true r).0
  unfolding set_value
  set_value-IsOpen k v o = ground arith

  -- Another client sets a key. The open reader of a connection that is once among the collaborators and
  -- no replica sets the same key, in its local copy at once, before it has heard of that; the server handles
  -- its request second. If the bound of the configured jitter is above zero in int64, both handlers end, the
  -- sheet holds what the reader has set, and the reader, once it has heard what was written to its
  -- connection, reads what the other client had set before.
  pub crossed_sets :
      is_positive (jitter_bound (cache_ttl cfg) cfg.jitter_percent) ≡ true
      → Stores p es h
      → (conn =? c) ≡ false
      → occurrences c (h.sheets.cells p).collaborators ≡ 1
      → has_key c h.replicas ≡ false
      → IsOpen r
      → req.key ≡ req'.key
      → (h₂ : Handler) × (sent : List (Conn × Message)) × (es₂ : List Entry) × (both cfg out given
            given' conn c p req req' h
          ≡ some h₂)
        × (h₂.outbox ≡ h.outbox ++ sent)
        × Stores p es₂ h₂
        × (value_of (seek req'.key es₂) ≡ some req'.value)
        × (get req'.key (hear (inbox c sent) (set_value req'.key req'.value true r).0)
            ≡ some req.value)
  crossed_sets bounded holds other once client o same =
      let (ttl, is) = set-IsTtl cfg out given conn p req h es (ground arith) in
      let r' = (set_value req'.key req'.value true r).0 in
      let o' = set_value-IsOpen req'.key req'.value o in
      let cap = (h.sheets.cells p).cache.capacity in
      let (es₁, evicted) = promised cfg out given conn p req h es ttl in
      let (h₁, ran, there, wrote) = handle_set_any cfg out given conn p req h es ttl is holds in
      let (ttl', is') = set-IsTtl cfg out given' c p req' h₁ es₁ (ground arith) in
      let (h₂, ran', there', wrote') =
        handle_set_any cfg out given' c p req' h₁ es₁ ttl' is' there in
      let evicted' = (promised cfg out given' c p req' h₁ es₁ ttl').1 in
      let (cells, ident, hash, members, names, fresh, joined, clients, replicas, closed) =
        subst (Safely (SameBut p h)) ran (set-SameBut cfg out given conn p req h) in
      let client' : has_key c h₁.replicas ≡ false = ap (has_key c) replicas ∙ client in
      let sent = written conn p h req evicted in
      let sent' = written c p h₁ req' evicted' in
      let m = broadcast_set req.key req.value in
      let notice = if evicted == "" then [] else invalidate evicted "" "" ∷ [] in
      let answer = response (record success_response { key = req.key }) in
      let m' = replicate (h.sheets.cells p).id req.key req.value req.jitter in
      let got : inbox c sent ≡ m ∷ notice =
        inbox-append c (round conn c p h r other once client answer m m')
          (eviction_notices conn p h evicted)
        ∙ rw
            (
              told conn c p h r other once client answer m m',
              heard_of_eviction conn c p h r other once client evicted,
            )
            refl in
      let own = own_set c p h₁ client' req' evicted' in
      let r₁ = hear (inbox c sent) r' in
      let quiet : hear (inbox c (sent ++ sent')) r' ≡ r₁ =
        ap (λ ms. hear ms r') (inbox-append c sent sent')
        ∙ hear-append (inbox c sent) (inbox c sent') r' o'
        ∙ ap (λ ms. hear ms r₁) own
        ∙ hear_answer req'.key r₁ in
      let apart : evicted ≢ "" → (req.key == evicted) ≡ false =
        λ loud. (set-evicted cap req.key req.value ttl given.now es loud).1 in
      (
        h₂,
        sent ++ sent',
        (promised cfg out given' c p req' h₁ es₁ ttl').0,
        rw ran ran',
        wrote'
            ∙ regroup_four h₁.outbox _ _ _ _
            ∙ ap (λ x. x ++ sent') (wrote ∙ regroup_four h.outbox _ _ _ _)
            ∙ append_assoc h.outbox sent sent',
        there',
        set-seek_self (h₁.sheets.cells p).cache.capacity req'.key req'.value ttl' given'.now es₁,
        ap (get req'.key) quiet
            ∙ ap (λ ms. get req'.key (hear ms r')) got
            ∙ ap (λ k. get k (hear (m ∷ notice) r')) (sym same)
            ∙ hear_value req.key req.value evicted r' o' apart,
      )
