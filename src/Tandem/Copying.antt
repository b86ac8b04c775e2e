-- ===== src/Tandem/Copying.antt =====
-- A leader of ws/handler.go and a replica of replica/client.go through many calls of the clients of a
-- sheet: after each call the replica hears what was written to its connection.
use mathlib.Core.Path.{subst}
use advo_cache.Base.{
  ℕ, ◌+◌, ◌≤◌, ◌≡◌, refl, sym, ap, ◌∙◌, true, false, List, [], ◌∷◌, ◌++◌, Option, some, String,
  arith, text_key, conn_key, ◌=?◌, ◌>>=◌, length,
}
use advo_cache.Base.Dict.{Enumerates}
use advo_cache.Time.{is_positive}
use advo_cache.Config.{Config, cache_ttl}
use advo_cache.Cache.{Entry, jitter_bound}
use advo_cache.Message.{Request, Message}
use advo_cache.Sheet.{Conn, get_sheet, audience}
use advo_cache.Server.{Outside, Handler, dispatch}
use advo_cache.Server
use advo_cache.Server.Isolation.{dispatch-SameBut, Safely, SameBut}
use advo_cache.Server.System.Members.{occurrences, occurrences-keep}
use advo_cache.Server.Writes.{Stores}
use advo_cache.Replica
use advo_cache.Replica.{Client, hear}
use advo_cache.Tandem.{inbox}
use advo_cache.Tandem.Copied.{is_copied, dispatch-Backed}
use advo_cache.Tandem.Standby.{Backed, Backs}

-- A call of a client, with what the handler and the replica read of their surroundings.
pub record Exchange : Type 0 where
  pub conn : Conn
  pub given : Server.Reads
  pub req : Request
  pub heard : ℕ → Replica.Reads

-- What was written after some other messages.
unfoldable pub since : List (Conn × Message) → List (Conn × Message) → List (Conn × Message)
since [] ms = ms
since (_ ∷ _) [] = []
since (_ ∷ os) (_ ∷ ms) = since os ms

since-append : (os ms : List (Conn × Message)) → since os (os ++ ms) ≡ ms
unfolding since
since-append [] ms = refl
since-append (o ∷ os) ms = since-append os ms

module _ (cfg : Config) (out : Outside) (rcfg : Config) (p : ℕ) (id : String) (rep : Conn) where
  -- The calls in the order in which they are served.
  unfoldable pub copy : List Exchange → Handler → Client → Option (Handler × Client)
  unfolding since
  copy [] h c = some (h, c)
  copy (x ∷ xs) h c = do
    h' ← dispatch cfg out x.given x.conn p x.req h
    c' ← hear rcfg x.heard 0 (inbox rep (since h.outbox h'.outbox)) c
    copy xs h' c'

  -- Other connections make the calls, the maps are visited as they are, and the replicas are told.
  abbrev pub AreCopied : List Exchange → Handler → Client → Type 0
  AreCopied [] h c = Unit
  AreCopied (x ∷ xs) h c =
      ((x.conn =? rep) ≡ false)
      × Enumerates (x.given.order p) (h.sheets.cells p).cache.nodes
      × ((q : ℕ)
          → get_sheet id c.sheets ≡ some q
          → Enumerates ((x.heard 0).order q) (c.sheets.cells q).cache.nodes)
      × ((es : List Entry) → Stores p es h → is_copied x.given.now es x.req ≡ true)
      × ((h' : Handler) (c' : Client)
          → dispatch cfg out x.given x.conn p x.req h ≡ some h'
          → hear rcfg x.heard 0 (inbox rep (since h.outbox h'.outbox)) c ≡ some c'
          → AreCopied xs h' c')

  -- A connected replica that backs the sheet, once among the replicas and no collaborator.
  abbrev pub Standing : ℕ → Handler → Client → Type 0
  Standing n h c =
      Backs n p id h c
      × ((h.sheets.cells p).id ≡ id)
      × (occurrences rep (h.sheets.cells p).collaborators ≡ 0)
      × (occurrences rep (Server.keys h.replicas) ≡ 1)
      × (c.has_conn ≡ true)

  module _ (bounded : is_positive (jitter_bound (cache_ttl cfg) cfg.jitter_percent) ≡ true)
      (bounded' : is_positive (jitter_bound (cache_ttl rcfg) rcfg.jitter_percent) ≡ true) where
    copied_once :
        (n : ℕ) (x : Exchange) (xs : List Exchange) (h : Handler) (c : Client)
        → Standing (n + 1) h c
        → AreCopied (x ∷ xs) h c
        → (h' : Handler) × (c' : Client) × (dispatch cfg out x.given x.conn p x.req h ≡ some h')
          × (hear rcfg x.heard 0 (inbox rep (since h.outbox h'.outbox)) c ≡ some c')
          × Standing n h' c'
    unfolding audience
    copied_once n x xs h c
          ((es, es', holds, follows, same, named, room), ident, apart, once, online)
          (other, visit, visit', told, next) =
        let Q : String → Type 0 =
          λ i. Backed rcfg x.heard rep n p i h c (dispatch cfg out x.given x.conn p x.req h) in
        let follows₁ = subst (λ i. Replica.Follow.Follows i es' c) (sym ident) follows in
        let backed =
          dispatch-Backed rcfg x.heard n x.conn rep p h c other
            (occurrences-keep rep x.conn (h.sheets.cells p).collaborators other ∙ apart) once online
            es es' holds follows₁ same named room cfg out x.given x.req bounded bounded' visit
            (visit' follows₁.0
              (subst (λ i. get_sheet i c.sheets ≡ some follows₁.0) ident follows₁.1))
            (told es holds) in
        let (h', sent, c', ran, wrote, heard, online', backs) = subst Q ident backed in
        let but =
          subst (Safely (SameBut p h)) ran (dispatch-SameBut cfg out x.given x.conn p x.req h) in
        let (cells, ident', hash, members, names, fresh, joined, clients, replicas, closed) = but in
        (
          h',
          c',
          ran,
          rw (wrote, since-append h.outbox sent) heard,
          (
            backs,
            ident' ∙ ident,
            ap (occurrences rep) members ∙ apart,
            ap (λ m. occurrences rep (Server.keys m)) replicas ∙ once,
            online',
          ),
        )

    fewer : (m n : ℕ) (h : Handler) (c : Client) → n ≤ m → Standing m h c → Standing n h c
    fewer m n h c small ((es, es', holds, follows, same, named, room), ident, apart, once, online) =
        (
          (es, es', holds, follows, same, named, omega (arith, small, room)),
          ident,
          apart,
          once,
          online,
        )

    -- Clients of a sheet, other than the connection of the replica, make any calls, one after the
    -- other, that the replicas are told of if they change a value, with maps that are visited as
    -- they are: all but a set or a set_null of the empty key, and a get that finds an expired
    -- entry. If the bounds of the configured jitters are above zero in int64, every call ends, and
    -- a connected replica that has the same value at every key of the sheet, which has no empty
    -- key, once among the replicas and no collaborator, is so again after it has heard, call by
    -- call, what was written to its connection; its cache has room for one more entry per call.
    pub copy-Standing :
        (xs : List Exchange) (h : Handler) (c : Client)
        → Standing (length xs) h c
        → AreCopied xs h c
        → (h' : Handler) × (c' : Client) × (copy xs h c ≡ some (h', c')) × Standing 0 h' c'
    unfolding copy
    copy-Standing [] h c standing given = (h, c, refl, standing)
    copy-Standing (x ∷ xs) h c standing given =
        let (h₁, c₁, ran, heard, standing₁) =
          copied_once (length xs) x xs h c
            (fewer (length (x ∷ xs)) (length xs + 1) h c (omega arith) standing) given in
        let (other, visit, visit', told, next) = given in
        let (h₂, c₂, run, standing₂) = copy-Standing xs h₁ c₁ standing₁ (next h₁ c₁ ran heard) in
        (h₂, c₂, rw (ran, heard) run, standing₂)
