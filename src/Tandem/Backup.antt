-- ===== src/Tandem/Backup.antt =====
-- The actions that a replica of replica/client.go ignores or hears of alone, and the whole switch of
-- ws/handler.go.
use mathlib.Core.Path.{subst}
use mathlib.Core.List.{append_assoc}
use advo_cache.Base.{
  ℕ, ◌+◌, ◌≤◌, ◌≡◌, ◌≢◌, refl, sym, ap, ◌∙◌, inl, inr, true, false, List, [], ◌∷◌, ◌++◌, Option,
  none, some, arith, ◌==◌, text_key, conn_key, if◌then◌else◌, ◌=?◌, length, Option-cases,
}
use advo_cache.Base.Dict.{Enumerates}
use advo_cache.Value.{text, object, members, null_placeholder}
use advo_cache.Time.{is_positive}
use advo_cache.Config.{Config, cache_ttl}
use advo_cache.Cache.{Entry, default_capacity, jitter_bound, set_null}
use advo_cache.Cache.Dump.{dump-Shows}
use advo_cache.Cache.Lru
use advo_cache.Cache.Lru.{seek, value_of}
use advo_cache.Cache.Methods.{set-Implements, get-Implements}
use advo_cache.Cache.Rep.{Holds}
use advo_cache.Lock
use advo_cache.Message.{
  Request, Message, response, success_response, error_response, replicate, replicate_evict,
}
use advo_cache.Sheet.{Conn}
use advo_cache.Server.{
  Outside, Handler, handle_set_null, handle_get, handle_dump, handle_lock, handle_unlock, put_cache,
  dispatch, write, broadcast_to_replicas, announce_eviction, replicate_set, requested_ttl,
  error_text, send_error,
}
use advo_cache.Server
use advo_cache.Server.Isolation.{Result-cases}
use advo_cache.Server.System.Members.{occurrences}
use advo_cache.Server.Writes.{
  Stores, to_all, others, followers, eviction_notices, stored, announce_eviction-outbox,
  announce_eviction-sheets,
}
use advo_cache.Reader.Sync.{set-seek_absent}
use advo_cache.Replica
use advo_cache.Replica.{Client, hear, handle_message}
use advo_cache.Replica.Follow.{Follows}
use advo_cache.Tandem.{inbox}
use advo_cache.Tandem.CatchUp.{SameValues}
use advo_cache.Tandem.Followers.{for_it, told_eviction}
use advo_cache.Tandem.Inbox.{inbox-append}
use advo_cache.Tandem.Reading.{is_current, seek-get}
use advo_cache.Tandem.Standby.{Backed, heard_set, one_Backed}

module _ (rcfg : Config) (reads : ℕ → Replica.Reads) (n conn rep p : ℕ) (h : Handler) (c : Client)
    (other : (conn =? rep) ≡ false) (apart : occurrences rep (others conn p h) ≡ 0)
    (once : occurrences rep (followers conn p h) ≡ 1) (online : c.has_conn ≡ true)
    (es es' : List Entry) (holds : Stores p es h) (follows : Follows (h.sheets.cells p).id es' c)
    (same : SameValues es es') (named : seek "" es ≡ none)
    (room : length es' + (n + 1) ≤ default_capacity) where
  -- Nothing is written to the replica.
  quiet_Backed :
      (run : Option Handler) (h' : Handler) (sent : List (Conn × Message)) (es₁ : List Entry)
      → run ≡ some h'
      → h'.outbox ≡ h.outbox ++ sent
      → inbox rep sent ≡ []
      → Stores p es₁ h'
      → SameValues es₁ es'
      → seek "" es₁ ≡ none
      → Backed rcfg reads rep n p (h.sheets.cells p).id h c run
  unfolding hear
  quiet_Backed run h' sent es₁ ran wrote unheard there alike named₁ = (
    h',
    sent,
    c,
    ran,
    wrote,
    ap (λ ms. hear rcfg reads 0 ms c) unheard,
    online,
    (es₁, es', there, follows, alike, named₁, omega (arith, room)),
  )

  unheard_answer : (m : Message) → inbox rep ((conn, m) ∷ []) ≡ []
  unfolding inbox
  unheard_answer m = rw other refl

  -- The answer, and one message to the replicas.
  heard_followers :
      (m m' : Message) → inbox rep (((conn, m) ∷ []) ++ to_all (followers conn p h) m') ≡ m' ∷ []
  unfolding inbox
  heard_followers m m' = rw other (for_it conn rep p h other apart once m')

  -- The answer alone.
  pub answered_Backed :
      (run : Option Handler) (h' : Handler) (m : Message)
      → run ≡ some h'
      → h'.outbox ≡ h.outbox ++ (conn, m) ∷ []
      → h'.sheets ≡ h.sheets
      → Backed rcfg reads rep n p (h.sheets.cells p).id h c run
  answered_Backed run h' m ran wrote kept =
      quiet_Backed run h' ((conn, m) ∷ []) es ran wrote (unheard_answer m)
        (subst (λ x. Holds (x.cells p).cache es) (sym kept) holds) same named

  -- A message that the replica only logs.
  logged_Backed :
      (run : Option Handler) (h' : Handler) (m m' : Message)
      → run ≡ some h'
      → h'.outbox ≡ h.outbox ++ (((conn, m) ∷ []) ++ to_all (followers conn p h) m')
      → h'.sheets ≡ h.sheets
      → handle_message rcfg (reads 0) m' c ≡ some c
      → Backed rcfg reads rep n p (h.sheets.cells p).id h c run
  logged_Backed run h' m m' ran wrote kept ignored =
      one_Backed rcfg reads n conn rep p h c other apart once online run h' _ m' es es' ran wrote
        (heard_followers m m') (subst (λ x. Holds (x.cells p).cache es) (sym kept) holds)
        (c, ignored, follows, refl) same named (omega (arith, room))

  module _ (cfg : Config) (out : Outside) (given : Server.Reads) (req : Request) where
    pub get-Backed :
        is_current given.now (seek req.key es) ≡ true
        → Backed rcfg reads rep n p
            (h.sheets.cells p).id
            h
            c
            (handle_get cfg out given conn p req h)
    unfolding handle_get
    get-Backed current =
        let (cache, run, there, bound) =
          get-Implements (h.sheets.cells p).cache es req.key given.now holds in
        let es₁ = (Lru.get req.key given.now es).0 in
        let alike : SameValues es₁ es' =
          λ k. same k ∙ ap value_of (sym (seek-get req.key k given.now es current)) in
        let named₁ = seek-get req.key "" given.now es current ∙ named in
        elim (Option-cases (Lru.get req.key given.now es).1) [
          | inl missing ↦
              let m = response (error_response "key not found") in
              quiet_Backed (handle_get cfg out given conn p req h)
                (write conn m (put_cache p cache h)) ((conn, m) ∷ []) es₁ (rw (run, missing) refl)
                refl (unheard_answer m) (rw (stored conn p h cache) there) alike named₁
          | inr (v, hit) ↦
              let m = response (record success_response { key = req.key; value = v }) in
              quiet_Backed (handle_get cfg out given conn p req h)
                (write conn m (put_cache p cache h)) ((conn, m) ∷ []) es₁ (rw (run, hit) refl) refl
                (unheard_answer m) (rw (stored conn p h cache) there) alike named₁
        ]

    pub dump-Backed :
        Enumerates (given.order p) (h.sheets.cells p).cache.nodes
        → Backed rcfg reads rep n p (h.sheets.cells p).id h c (handle_dump cfg out given conn p h)
    unfolding handle_dump
    dump-Backed visit =
        let (d, run, shows) = dump-Shows (given.order p) (h.sheets.cells p).cache es visit holds in
        let m =
          response (record success_response { value = object (members d); count = length d }) in
        answered_Backed (handle_dump cfg out given conn p h) (write conn m h) m (rw run refl) refl
          refl

    pub lock-Backed :
        Backed rcfg reads rep n p (h.sheets.cells p).id h c (handle_lock cfg out given conn p req h)
    unfolding handle_lock handle_message
    lock-Backed =
        let id = (h.sheets.cells p).id in
        let asked =
          Lock.try_acquire id req.key (out.format_pointer conn) (requested_ttl cfg out req)
            given.now given.seen given.again h.locks in
        let h₁ = record h { locks = asked.0 } in
        elim (Result-cases asked.1) [
          | inl (l, f) ↦
              let m = response (record success_response { key = req.key }) in
              let m' =
                Message.replicate_lock id req.key (out.format_pointer conn)
                  (out.format_time l.expires_at) in
              logged_Backed (handle_lock cfg out given conn p req h)
                (broadcast_to_replicas m' (write conn m h₁)) m m' (rw f refl)
                (append_assoc h.outbox _ _) refl refl
          | inr (e, f) ↦ elim (Option-cases (Lock.is_locked id req.key given.later asked.0)) [
            | inl g ↦
                let m = response (error_response (error_text cfg out e)) in
                answered_Backed (handle_lock cfg out given conn p req h) (write conn m h₁) m
                  (rw (f, g) refl) refl refl
            | inr (l, g) ↦
                let m =
                  response
                    (record (error_response "lock held by another client") { key = req.key }) in
                answered_Backed (handle_lock cfg out given conn p req h) (write conn m h₁) m
                  (rw (f, g) refl) refl refl
          ]
        ]

    pub unlock-Backed :
        Backed rcfg reads rep n p (h.sheets.cells p).id h c (handle_unlock cfg out conn p req h)
    unfolding handle_unlock handle_message
    unlock-Backed =
        let id = (h.sheets.cells p).id in
        let asked = Lock.release id req.key (out.format_pointer conn) h.locks in
        let h₁ = record h { locks = asked.0 } in
        elim (Option-cases asked.1) [
          | inl f ↦
              let m = response (record success_response { key = req.key }) in
              let m' = Message.replicate_unlock id req.key in
              logged_Backed (handle_unlock cfg out conn p req h)
                (broadcast_to_replicas m' (write conn m h₁)) m m' (rw f refl)
                (append_assoc h.outbox _ _) refl refl
          | inr (e, f) ↦
              let m = response (error_response (error_text cfg out e)) in
              answered_Backed (handle_unlock cfg out conn p req h) (write conn m h₁) m (rw f refl)
                refl refl
        ]

    module _
        (bounded' : is_positive (jitter_bound (cache_ttl rcfg) rcfg.jitter_percent) ≡ true) where
      pub set_null-Backed :
          req.key ≢ ""
          → Backed rcfg reads rep n p
              (h.sheets.cells p).id
              h
              c
              (handle_set_null cfg out given conn p req h)
      unfolding handle_set_null set_null inbox
      set_null-Backed filled =
          let cap = (h.sheets.cells p).cache.capacity in
          let v = text null_placeholder in
          let (cache, run, there, bound) =
            set-Implements (h.sheets.cells p).cache es req.key v (cache_ttl cfg) given.now holds in
          let evicted = (Lru.set cap req.key v (cache_ttl cfg) given.now es).1 in
          let (c', es₂, heard, still, follows', alike, fits) =
            heard_set rcfg reads n conn rep p h c other apart once online es es' holds follows same
              named room cap req.key v (cache_ttl cfg) given.now false refl in
          let answer = response (record success_response { key = req.key }) in
          let m' = replicate (h.sheets.cells p).id req.key v false in
          let first = ((conn, answer) ∷ []) ++ to_all (followers conn p h) m' in
          let base = (h.outbox ++ (conn, answer) ∷ []) ++ to_all (followers conn p h) m' in
          let h₃ = record (put_cache p cache h) { outbox = base } in
          let got : inbox rep (first ++ eviction_notices conn p h evicted)
              ≡ m'
                ∷ (if evicted == ""
                    then []
                    else replicate_evict (h.sheets.cells p).id evicted ∷ []) =
            inbox-append rep first (eviction_notices conn p h evicted)
            ∙ rw (heard_followers answer m', told_eviction conn rep p h other apart once evicted)
                refl in
          (
            announce_eviction conn p evicted h₃,
            first ++ eviction_notices conn p h evicted,
            c',
            rw (run, stored conn p h cache) refl,
            announce_eviction-outbox conn p h evicted cache base
                ∙ ap (λ x. x ++ eviction_notices conn p h evicted)
                    (append_assoc h.outbox ((conn, answer) ∷ []) (to_all (followers conn p h) m'))
                ∙ append_assoc h.outbox first (eviction_notices conn p h evicted),
            ap (λ ms. hear rcfg reads 0 ms c) got ∙ heard,
            still,
            (
              _,
              es₂,
              subst
                  (λ m.
                    Holds (m.cells p).cache (Lru.set cap req.key v (cache_ttl cfg) given.now es).0)
                  (sym (announce_eviction-sheets conn p h evicted h₃))
                  (rw (stored conn p h cache) there),
              follows',
              alike,
              set-seek_absent cap "" req.key v (cache_ttl cfg) given.now es named
                  (λ e. filled (sym e)),
              fits,
            ),
          )
