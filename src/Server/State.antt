-- ===== src/Server/State.antt =====
-- ws/handler.go: what the server keeps, its writes to the sockets, and what its handlers share.
use advo_cache.Base.{
  ℕ, Bool, List, [], ◌∷◌, ◌++◌, Option, none, some, String, ◌==◌, text_key, conn_key, if◌then◌else◌,
  ◌>>=◌, length, ◌=?◌, map,
}
use advo_cache.Base.Dict.{Dict, insert}
use advo_cache.Value.{Value}
use advo_cache.Time.{Time}
use advo_cache.Cache
use advo_cache.Cache.{Cache, Ptr, update}
use advo_cache.Lock
use advo_cache.Lock.{Lock}
use advo_cache.Sheet
use advo_cache.Sheet.{Bcrypt, Conn, Sheet, Sheets, ok, err}
use advo_cache.Message.{Message, error_response, response, invalidate, replicate, heartbeat}

-- The libraries that the handlers call: bcrypt, the formatting of a pointer by `%p`, and
-- time's RFC3339.
pub record Outside : Type 0 where
  pub bcrypt : Bcrypt
  pub format_pointer : Conn → String
  pub parse_time : String → Option Time
  pub format_time : Time → String

-- What one call reads of its surroundings: the clock (the readings of TryAcquire, and one more), the
-- salt of bcrypt, math/rand, and the orders in which `range` visits a cache's map and the maps of sheets and
-- locks.
pub record Reads : Type 0 where
  pub now : Time
  pub seen : Time
  pub again : Time
  pub later : Time
  pub salt : ℕ
  pub int63n : ℕ → ℕ
  pub order : ℕ → Dict String Ptr
  pub visit : Dict String ℕ
  pub lock_order : Dict String Lock

pub record Replica : Type 0 where
  pub instance_id : String
  pub started_at : Time

-- `joined` is the field `Sheet` of the Client of a connection. `closed` are the connections that the
-- server has closed.
pub record Handler : Type 0 where
  pub sheets : Sheets
  pub locks : Lock.Manager
  pub clients : Dict Conn Conn
  pub joined : Conn → Option ℕ
  pub replicas : Dict Conn Replica
  pub closed : List Conn
  pub outbox : List (Conn × Message)

-- NewHandler. The fields instanceID, startedAt and isLeader are set, and read by nothing.
abbrev pub new_handler : Sheets → Handler
new_handler sheets = record {
  sheets = sheets;
  locks = Lock.new_manager;
  clients = [];
  joined = λ _. none;
  replicas = [];
  closed = [];
  outbox = [];
}

abbrev pub write : Conn → Message → Handler → Handler
write conn msg h = record h { outbox = h.outbox ++ (conn, msg) ∷ [] }

abbrev pub write_all : List Conn → Message → Handler → Handler
write_all conns msg h = record h { outbox = h.outbox ++ map (λ c. (c, msg)) conns }

abbrev pub send_error : Conn → String → Handler → Handler
send_error conn msg = write conn (response (error_response msg))

-- The keys of a `sync.Map`.
abbrev pub keys : {A : Type 0} → Dict Conn A → List Conn
keys = map (λ e. e.0)

abbrev pub broadcast_to_replicas : Message → Handler → Handler
broadcast_to_replicas msg h = write_all (keys h.replicas) msg h

-- The messages to the replicas, one function to each.
abbrev pub replicate_set : String → String → Value → Bool → Handler → Handler
replicate_set id key value jitter = broadcast_to_replicas (replicate id key value jitter)

abbrev pub replicate_delete : String → String → Handler → Handler
replicate_delete id key = broadcast_to_replicas (Message.replicate_delete id key)

abbrev pub replicate_delete_prefix : String → String → Handler → Handler
replicate_delete_prefix id prefix =
    broadcast_to_replicas (Message.replicate_delete_prefix id prefix)

abbrev pub replicate_delete_suffix : String → String → Handler → Handler
replicate_delete_suffix id suffix =
    broadcast_to_replicas (Message.replicate_delete_suffix id suffix)

abbrev pub replicate_lock : Outside → String → String → String → Time → Handler → Handler
replicate_lock out id key owner expires_at =
    broadcast_to_replicas (Message.replicate_lock id key owner (out.format_time expires_at))

abbrev pub replicate_unlock : String → String → Handler → Handler
replicate_unlock id key = broadcast_to_replicas (Message.replicate_unlock id key)

abbrev pub replicate_evict : String → String → Handler → Handler
replicate_evict id key = broadcast_to_replicas (Message.replicate_evict id key)

unfoldable pub broadcast_heartbeat : Handler → Handler
broadcast_heartbeat = broadcast_to_replicas heartbeat

-- Sheet.Broadcast and Sheet.BroadcastSetMsg.
abbrev pub broadcast : Conn → ℕ → Message → Handler → Handler
broadcast sender p msg h = write_all (Sheet.audience sender (h.sheets.cells p)) msg h

abbrev pub put_cache : ℕ → Cache → Handler → Handler
put_cache p c h = record h {
  sheets = record h.sheets {
    cells = update h.sheets.cells p (record (h.sheets.cells p) { cache = c });
  };
}

abbrev pub client_count : Handler → ℕ
client_count h = length h.clients

abbrev pub replica_count : Handler → ℕ
replica_count h = length h.replicas

-- The start of ServeWS.
unfoldable pub connect : Conn → Handler → Handler
connect conn h = record h {
  clients = insert conn conn h.clients;
  joined = update h.joined conn none;
}

-- sendFullState: the sheets are dumped one by one.
unfoldable pub dump_sheets :
    Reads → Dict String ℕ → Handler → Option (Dict String (Dict String Value))
dump_sheets r [] h = some []
dump_sheets r ((id, p) ∷ rest) h = do
  d ← Cache.dump (r.order p) (h.sheets.cells p).cache []
  ds ← dump_sheets r rest h
  some ((id, d) ∷ ds)

-- The replication that follows an eviction, with the notice to the collaborators.
unfoldable pub announce_eviction : Conn → ℕ → String → Handler → Handler
announce_eviction conn p key h =
    if key == ""
    then h
    else replicate_evict (h.sheets.cells p).id key (broadcast conn p (invalidate key "" "") h)

-- The part of onDisconnect for a client in a sheet: the last one out deletes it.
unfoldable pub leave_sheet : Conn → Handler → Handler
leave_sheet conn h = elim (h.joined conn) [
  | none ↦ h
  | some p ↦
      let (s, remaining) = Sheet.remove_collaborator conn (h.sheets.cells p) in
      let left = record h.sheets { cells = update h.sheets.cells p s } in
      record h { sheets = if remaining =? 0 then Sheet.delete_sheet s.id left else left }
]
