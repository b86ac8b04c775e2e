-- ===== src/Tandem/Session.antt =====
-- A reader and its server through a whole session: the calls of the other clients of the sheet, one
-- after the other, as the switch of ws/handler.go serves them.
use mathlib.Core.Path.{subst}
use mathlib.Core.List.{append_assoc, append-nil}
use advo_cache.Base.{
  ℕ, ◌≡◌, refl, sym, ap, ◌∙◌, true, false, List, [], ◌∷◌, ◌++◌, Option, none, some, text_key,
  conn_key, ◌=?◌, ◌>>=◌,
}
use advo_cache.Base.Dict.{has_key, Enumerates}
use advo_cache.Time.{is_positive}
use advo_cache.Config.{Config, cache_ttl}
use advo_cache.Cache.{Entry, jitter_bound}
use advo_cache.Cache.Lru.{seek}
use advo_cache.Message.{Request, Message}
use advo_cache.Sheet.{Conn}
use advo_cache.Server.{Outside, Reads, Handler, dispatch}
use advo_cache.Server.Isolation.{dispatch-SameBut, Safely, SameBut}
use advo_cache.Server.System.Members.{occurrences}
use advo_cache.Server.Writes.{Stores}
use advo_cache.Reader.{Reader, hear, handle_message}
use advo_cache.Reader.Sync.{InSync}
use advo_cache.Tandem.{inbox}
use advo_cache.Tandem.Inbox.{inbox-append, IsOpen, hear_next, handle_message-IsOpen}
use advo_cache.Tandem.Told.{is_told, dispatch-Follows}

-- An open reader beside its server: its connection is once among the collaborators of a sheet
-- without an empty key, and no replica.
abbrev pub Paired : ℕ → Conn → Handler → Reader → Type 0
Paired p c h r =
    (es : List Entry) × Stores p es h
    × InSync es r
    × (seek "" es ≡ none)
    × (occurrences c (h.sheets.cells p).collaborators ≡ 1)
    × (has_key c h.replicas ≡ false)
    × IsOpen r

-- A call of a client, with what the handler reads from the outside.
pub record Call : Type 0 where
  pub conn : Conn
  pub given : Reads
  pub req : Request

module _ (cfg : Config) (out : Outside) (p : ℕ) where
  -- The calls of the clients of a sheet, in the order in which they are served.
  unfoldable pub serve : List Call → Handler → Option Handler
  serve [] h = some h
  serve (x ∷ xs) h = do h' ← dispatch cfg out x.given x.conn p x.req h; serve xs h'

  -- Other clients make the calls, the maps are visited as they are, and the readers are told.
  abbrev pub Told : Conn → List Call → Handler → Type 0
  Told c [] h = Unit
  Told c (x ∷ xs) h =
      ((x.conn =? c) ≡ false)
      × Enumerates (x.given.order p) (h.sheets.cells p).cache.nodes
      × ((es : List Entry) → Stores p es h → is_told x.given.now es x.req ≡ true)
      × ((h' : Handler) → dispatch cfg out x.given x.conn p x.req h ≡ some h' → Told c xs h')

hear-IsOpen : (ms : List Message) (r : Reader) → IsOpen r → IsOpen (hear ms r)
unfolding hear
hear-IsOpen [] r o = o
hear-IsOpen (m ∷ ms) r o =
    subst IsOpen (sym (hear_next m ms r o))
      (hear-IsOpen ms (handle_message m r) (handle_message-IsOpen m r o))

pub hear-append :
    (ms ns : List Message) (r : Reader) → IsOpen r → hear (ms ++ ns) r ≡ hear ns (hear ms r)
unfolding hear
hear-append [] ns r o = refl
hear-append (m ∷ ms) ns r o =
    hear_next m (ms ++ ns) r o
    ∙ hear-append ms ns (handle_message m r) (handle_message-IsOpen m r o)
    ∙ ap (hear ns) (sym (hear_next m ms r o))

-- The reader and its server after these writes.
abbrev pub Serves : ℕ → Conn → Handler → Reader → Option Handler → Type 0
Serves p c h r run =
    (h' : Handler) × (sent : List (Conn × Message)) × (run ≡ some h')
    × (h'.outbox ≡ h.outbox ++ sent)
    × Paired p c h' (hear (inbox c sent) r)

module _ (cfg : Config) (out : Outside) (p c : ℕ)
    (jitter : is_positive (jitter_bound (cache_ttl cfg) cfg.jitter_percent) ≡ true) where
  served_once :
      (x : Call) (xs : List Call) (h : Handler) (r : Reader)
      → Paired p c h r
      → Told cfg out p c (x ∷ xs) h
      → Serves p c h r (dispatch cfg out x.given x.conn p x.req h)
  served_once x xs h r (es, holds, sync, named, once, client, o) (other, visit, told, next) =
      let (es', named', (h', sent, ran, wrote, holds', sync')) =
        dispatch-Follows x.conn c p h r other once client o es sync named cfg out x.given x.req
          holds visit jitter (told es holds) in
      let same =
        subst (Safely (SameBut p h)) ran (dispatch-SameBut cfg out x.given x.conn p x.req h) in
      let (cells, id, hash, members, names, fresh, joined, clients, replicas, closed) = same in
      (
        h',
        sent,
        ran,
        wrote,
        (
          es',
          holds',
          sync',
          named',
          ap (occurrences c) members ∙ once,
          ap (has_key c) replicas ∙ client,
          hear-IsOpen (inbox c sent) r o,
        ),
      )

  -- Other clients of a sheet make any calls, one after the other, that the readers are told of if
  -- they change what is read, with maps that are visited as they are: all but a set or a delete of
  -- the empty key, a deletion by an empty prefix or suffix, a set_null, and a get that finds an
  -- expired entry. If the bound of the configured jitter is above zero in int64, every call ends,
  -- and an open reader in sync with a sheet that has no empty key, once among its collaborators and
  -- no replica, is so again once it has heard all that was written to its connection.
  pub serve-Paired :
      (xs : List Call) (h : Handler) (r : Reader)
      → Paired p c h r
      → Told cfg out p c xs h
      → Serves p c h r (serve cfg out p xs h)
  unfolding serve inbox hear
  serve-Paired [] h r paired told = (h, [], refl, sym (append-nil h.outbox), paired)
  serve-Paired (x ∷ xs) h r paired told =
      let (h₁, sent, ran, wrote, paired₁) = served_once x xs h r paired told in
      let (es, holds, sync, named, once, client, o) = paired in
      let (other, visit, t, next) = told in
      let (h₂, sent', ran', wrote', paired₂) =
        serve-Paired xs h₁ (hear (inbox c sent) r) paired₁ (next h₁ ran) in
      let heard =
        ap (λ ms. hear ms r) (inbox-append c sent sent')
        ∙ hear-append (inbox c sent) (inbox c sent') r o in
      (
        h₂,
        sent ++ sent',
        rw (ran) ran',
        wrote' ∙ rw wrote (append_assoc h.outbox sent sent'),
        subst (Paired p c h₂) (sym heard) paired₂,
      )
