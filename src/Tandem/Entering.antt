-- ===== src/Tandem/Entering.antt =====
-- A reader that opens a sheet is in sync with the server from the start.
use mathlib.Core.List.{append_assoc}
use advo_cache.Base.{
  ℕ, ◌≡◌, refl, ◌∙◌, true, false, ◌||◌, List, [], ◌∷◌, ◌++◌, none, some, String, arith, ◌==◌,
  text_key, conn_key, if◌then◌else◌, =?_iff, eq_iff,
}
use advo_cache.Base.Dict.{
  Dict, lookup, insert, has_key, DistinctKeys, Enumerates, lookup-insert, lookup-none_of_has_key,
}
use advo_cache.Value.{Value}
use advo_cache.Config.{Config}
use advo_cache.Cache.{Entry}
use advo_cache.Cache.Dump.{Shows, dump-Shows}
use advo_cache.Cache.Rep.{Holds}
use advo_cache.Message.{Request, Message, response, success_response, sheet_state}
use advo_cache.Sheet.{Conn, Sheets, ok, get_or_create_sheet, add_collaborator}
use advo_cache.Server.{Outside, Reads, Handler, handle_open, write}
use advo_cache.Server.Opening.{admitted, handle_open-let_in}
use advo_cache.Server.Writes.{Stores}
use advo_cache.Reader.{Reader, Attempt, load, load_state, await, connect_to, get}
use advo_cache.Reader.Sync.{InSync}
use advo_cache.Tandem.{inbox}

-- The local copy of a reader is the map of the message.
lookup-load :
    (k : String) (d cache : Dict String Value)
    → DistinctKeys d
    → lookup k (load d cache) ≡ (if has_key k d then lookup k d else lookup k cache)
unfolding load lookup has_key
lookup-load k [] cache once = refl
lookup-load k ((j, v) ∷ d) cache once = ground (
  arith,
  lookup-load k d (insert j v cache),
  lookup-insert j k v cache,
  once,
  eq_iff j k,
  lookup-none_of_has_key k d,
)

load_state-InSync :
    (es : List Entry) (d : Dict String Value) (r : Reader) → Shows es d → InSync es (load_state d r)
unfolding load_state get lookup
load_state-InSync es d r (shows, once) k =
    ground (arith, lookup-load k d [] once, shows k, lookup-none_of_has_key k d)

-- What the reader makes of the connection.
abbrev pub attempt : List Message → Attempt
attempt ms = record { dialed = true; wrote = true; incoming = ms }

abbrev pub online : String → Dict String Value → Reader → Reader
online addr d r = record (load_state d r) { has_conn = true; connected = true; current_addr = addr }

connect_to_lem :
    (addr sheet : String) (d : Dict String Value) (r : Reader)
    → connect_to addr
        (attempt (response (record success_response { sheet = sheet }) ∷ sheet_state d ∷ []))
        r
      ≡ (online addr d r, none)
unfolding connect_to await load_state
connect_to_lem addr sheet d r = refl

module _ (cfg : Config) (out : Outside) (given : Reads) (conn : Conn) (req : Request) (h : Handler)
    (addr : String) (r : Reader) (m : Sheets) (p : ℕ) (es : List Entry) where
  -- A client without a sheet opens one and is let in: the handler ends, and a reader that connects
  -- with what was written to the client is connected without an error, in sync with the sheet.
  pub handle_open-InSync :
      h.joined conn ≡ none
      → (req.sheet == "" || req.password == "") ≡ false
      → get_or_create_sheet out.bcrypt req.sheet req.password given.salt h.sheets ≡ some (m, ok p)
      → Holds (m.cells p).cache es
      → Enumerates (given.order p) (m.cells p).cache.nodes
      → (h' : Handler) × (sent : List (Conn × Message)) × (r' : Reader) × (handle_open cfg out given
            conn req h
          ≡ some h')
        × (h'.outbox ≡ h.outbox ++ sent)
        × (h'.joined conn ≡ some p)
        × Stores p es h'
        × (connect_to addr (attempt (inbox conn sent)) r ≡ (r', none))
        × (r'.connected ≡ true)
        × InSync es r'
  unfolding inbox add_collaborator get load_state
  handle_open-InSync free filled found holds visit =
      let (d, run, shows) = dump-Shows (given.order p) (m.cells p).cache es visit holds in
      let answer = response (record success_response { sheet = req.sheet }) in
      let mine = (=?_iff conn conn).1 refl in
      (
        write conn (sheet_state d) (admitted cfg out given conn req h m p),
        (conn, answer) ∷ (conn, sheet_state d) ∷ [],
        online addr d r,
        handle_open-let_in cfg out given conn req h free filled m p found ∙ rw run refl,
        append_assoc h.outbox _ _,
        ground arith,
        rw ((=?_iff p p).1 refl) holds,
        rw mine (connect_to_lem addr req.sheet d r),
        refl,
        load_state-InSync es d r shows,
      )
