-- ===== src/Tandem/Reading.antt =====
-- A reader stays in sync with its server while another client reads or locks.
use mathlib.Core.Path.{subst}
use mathlib.Core.List.{append_assoc}
use advo_cache.Base.{
  ℕ, ◌≡◌, refl, sym, ap, ◌∙◌, inl, inr, Bool, true, false, not, List, [], ◌∷◌, ◌++◌, Option, none,
  some, String, arith, text_key, conn_key, ◌=?◌, eq_iff, Option-cases,
}
use advo_cache.Base.Dict.{has_key, Enumerates}
use advo_cache.Time.{Time, after}
use advo_cache.Config.{Config}
use advo_cache.Cache.{Entry}
use advo_cache.Cache.Dump.{dump-Shows}
use advo_cache.Cache.Lru
use advo_cache.Cache.Lru.{seek, value_of, forget}
use advo_cache.Cache.Lru.Laws.{seek-forget}
use advo_cache.Cache.Methods.{get-Implements}
use advo_cache.Lock
use advo_cache.Value.{object, members}
use advo_cache.Cache.Rep.{Holds}
use advo_cache.Base.{length}
use advo_cache.Message.{Request, Message, response, success_response, error_response}
use advo_cache.Sheet.{Conn}
use advo_cache.Server.{
  Outside, Reads, Handler, handle_get, handle_dump, handle_lock, handle_unlock, requested_ttl,
  put_cache, write, broadcast_to_replicas, error_text,
}
use advo_cache.Server.Isolation.{Result-cases}
use advo_cache.Server.Writes.{Stores, to_all, followers, stored}
use advo_cache.Reader.{Reader, hear}
use advo_cache.Reader.Sync.{InSync, seek_key}
use advo_cache.Tandem.{inbox}
use advo_cache.Tandem.Inbox.{inbox-to_all_none, occurrences-keys}
use advo_cache.Tandem.Writing.{Follows}

-- Whether an entry that is there has not expired.
abbrev pub is_current : Time → Option Entry → Bool
is_current now none = true
is_current now (some e) = not (after now e.expires_at)

-- A Get that removes nothing changes the order of use alone.
pub seek-get :
    (key k : String) (now : Time) (es : List Entry)
    → is_current now (seek key es) ≡ true
    → seek k (Lru.get key now es).0 ≡ seek k es
unfolding Lru.get seek
seek-get key k now es current = elim (Option-cases (seek key es)) [
  | inl absent ↦ ground arith
  | inr (e, found) ↦ ground (
    arith,
    seek-forget key k es,
    ap (λ j. seek j es) (seek_key key es e found),
    seek_key key es e found,
    eq_iff key k,
  )
]

module _ (conn c p : ℕ) (h : Handler) (r : Reader) (other : (conn =? c) ≡ false)
    (client : has_key c h.replicas ≡ false) where
  -- Nothing is written to the reader, and nothing that it reads is changed.
  aside_Follows :
      (run : Option Handler) (h' : Handler) (sent : List (Conn × Message)) (es : List Entry)
      → run ≡ some h'
      → h'.outbox ≡ h.outbox ++ sent
      → inbox c sent ≡ []
      → Stores p es h'
      → InSync es r
      → Follows p c es r h run
  unfolding hear
  aside_Follows run h' sent es ran wrote unheard holds sync =
      (h', sent, ran, wrote, holds, subst (InSync es) (sym (ap (λ ms. hear ms r) unheard)) sync)

  -- An answer to the client that asked.
  unheard_answer : (m : Message) → inbox c ((conn, m) ∷ []) ≡ []
  unfolding inbox
  unheard_answer m = rw other refl

  -- And a message to the replicas.
  unheard_round :
      (m m' : Message) → inbox c (((conn, m) ∷ []) ++ to_all (followers conn p h) m') ≡ []
  unfolding inbox
  unheard_round m m' =
      rw other (inbox-to_all_none c (followers conn p h) m' (occurrences-keys c h.replicas client))

  module _ (cfg : Config) (out : Outside) (given : Reads) (req : Request) (es : List Entry)
      (holds : Stores p es h) (sync : InSync es r) where
    pub handle_get-Follows :
        is_current given.now (seek req.key es) ≡ true
        → Follows p c (Lru.get req.key given.now es).0 r h (handle_get cfg out given conn p req h)
    unfolding handle_get
    handle_get-Follows current =
        let (cache, run, there, bound) =
          get-Implements (h.sheets.cells p).cache es req.key given.now holds in
        let synced : InSync (Lru.get req.key given.now es).0 r =
          λ k. sync k ∙ ap value_of (sym (seek-get req.key k given.now es current)) in
        elim (Option-cases (Lru.get req.key given.now es).1) [
          | inl missing ↦
              let m = response (error_response "key not found") in
              aside_Follows (handle_get cfg out given conn p req h)
                (write conn m (put_cache p cache h)) ((conn, m) ∷ [])
                (Lru.get req.key given.now es).0 (rw (run, missing) refl) refl (unheard_answer m)
                (rw (stored conn p h cache) there) synced
          | inr (v, hit) ↦
              let m = response (record success_response { key = req.key; value = v }) in
              aside_Follows (handle_get cfg out given conn p req h)
                (write conn m (put_cache p cache h)) ((conn, m) ∷ [])
                (Lru.get req.key given.now es).0 (rw (run, hit) refl) refl (unheard_answer m)
                (rw (stored conn p h cache) there) synced
        ]

    -- The answer alone.
    pub answered-Follows :
        (run : Option Handler) (m : Message) (h' : Handler)
        → run ≡ some h'
        → h'.outbox ≡ h.outbox ++ (conn, m) ∷ []
        → h'.sheets ≡ h.sheets
        → Follows p c es r h run
    answered-Follows run m h' ran wrote same =
        aside_Follows run h' ((conn, m) ∷ []) es ran wrote (unheard_answer m)
          (subst (λ x. Holds (x.cells p).cache es) (sym same) holds) sync

    pub handle_dump-Follows :
        Enumerates (given.order p) (h.sheets.cells p).cache.nodes
        → Follows p c es r h (handle_dump cfg out given conn p h)
    unfolding handle_dump
    handle_dump-Follows visit =
        let (d, run, shows) = dump-Shows (given.order p) (h.sheets.cells p).cache es visit holds in
        let m =
          response (record success_response { value = object (members d); count = length d }) in
        answered-Follows (handle_dump cfg out given conn p h) m (write conn m h) (rw run refl) refl
          refl

    pub handle_lock-Follows : Follows p c es r h (handle_lock cfg out given conn p req h)
    unfolding handle_lock
    handle_lock-Follows =
        let id = (h.sheets.cells p).id in
        let asked =
          Lock.try_acquire id req.key (out.format_pointer conn) (requested_ttl cfg out req)
            given.now given.seen given.again h.locks in
        let h₁ = record h { locks = asked.0 } in
        elim (Result-cases asked.1) [
          | inl (l, f) ↦
              let m = response (record success_response { key = req.key }) in
              let m' =
                Message.replicate_lock id req.key (out.format_pointer conn)
                  (out.format_time l.expires_at) in
              aside_Follows (handle_lock cfg out given conn p req h)
                (broadcast_to_replicas m' (write conn m h₁))
                (((conn, m) ∷ []) ++ to_all (followers conn p h) m') es (rw f refl)
                (append_assoc h.outbox _ _) (unheard_round m m') holds sync
          | inr (e, f) ↦ elim (Option-cases (Lock.is_locked id req.key given.later asked.0)) [
            | inl g ↦
                let m = response (error_response (error_text cfg out e)) in
                answered-Follows (handle_lock cfg out given conn p req h) m (write conn m h₁)
                  (rw (f, g) refl) refl refl
            | inr (l, g) ↦
                let m =
                  response
                    (record (error_response "lock held by another client") { key = req.key }) in
                answered-Follows (handle_lock cfg out given conn p req h) m (write conn m h₁)
                  (rw (f, g) refl) refl refl
          ]
        ]

    pub handle_unlock-Follows : Follows p c es r h (handle_unlock cfg out conn p req h)
    unfolding handle_unlock
    handle_unlock-Follows =
        let id = (h.sheets.cells p).id in
        let asked = Lock.release id req.key (out.format_pointer conn) h.locks in
        let h₁ = record h { locks = asked.0 } in
        elim (Option-cases asked.1) [
          | inl f ↦
              let m = response (record success_response { key = req.key }) in
              let m' = Message.replicate_unlock id req.key in
              aside_Follows (handle_unlock cfg out conn p req h)
                (broadcast_to_replicas m' (write conn m h₁))
                (((conn, m) ∷ []) ++ to_all (followers conn p h) m') es (rw f refl)
                (append_assoc h.outbox _ _) (unheard_round m m') holds sync
          | inr (e, f) ↦
              let m = response (error_response (error_text cfg out e)) in
              answered-Follows (handle_unlock cfg out conn p req h) m (write conn m h₁) (rw f refl)
                refl refl
        ]
