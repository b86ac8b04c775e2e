-- ===== src/Server/System.antt =====
-- A server of main.go and ws/handler.go as a whole: what happens to it, in whatever order. Every
-- connection has a goroutine in ServeWS, and there are tickers; each handler and each tick is one
-- event here, and runs alone. The process is a leader, not a replica.
pub mod Consistency
pub mod Arrival
pub mod Departure
pub mod Distinct
pub mod Caches
pub mod Health
pub mod Progress
pub mod Reach
mod Tests
pub mod Invariant
pub mod Joining
pub mod Leaving
pub mod Members
use advo_cache.Base.{
  ℕ, ◌≤◌, ◌<◌, ◌≡◌, Bool, true, false, ◌||◌, List, [], ◌∷◌, Option, none, some, String, ◌==◌,
  text_key, conn_key, ◌=?◌, ◌>>=◌,
}
use advo_cache.Base.Dict.{Dict, lookup, has_key, Enumerates}
use advo_cache.Time.{Time}
use advo_cache.Config.{Config}
use advo_cache.Cache
use advo_cache.Cache.{Ptr}
use advo_cache.Lock
use advo_cache.Lock.{Lock}
use advo_cache.Sheet.{Conn, Sheets}
use advo_cache.Server.{
  Outside, Reads, Handler, connect, on_disconnect, broadcast_heartbeat, put_cache, new_handler,
}
use advo_cache.Server.Session.{Frame, handle_frame}

-- A connection is accepted, a message is read from it, or a read from it fails; or the ticker of the
-- heartbeat, of the cleanup of the locks or of the cache of a sheet fires. These are the events of a
-- leader: a replica also has the messages of its leader (`Replica.handle_message`), which change the
-- same sheets and are no events here.
pub data Event : Type 0 where
  accepted : Conn → Event
  received : Conn → Reads → Frame → Event
  lost : Conn → Reads → Event
  heartbeat_tick : Event
  lock_tick : (String → Time) → Dict String Lock → Event
  cache_tick : ℕ → Time → Dict String Ptr → Event

-- Whether ServeWS runs for a connection: from the start it is a client, and may become a replica.
abbrev pub is_live : Conn → Handler → Bool
is_live conn h = has_key conn h.clients || has_key conn h.replicas

-- The loop bodies of main's goroutine for the locks, and of StartTTLCleaner.
abbrev pub clean_locks : (String → Time) → Dict String Lock → Handler → Handler
clean_locks clock order h = record h { locks = (Lock.cleanup_expired clock order h.locks).0 }

abbrev pub clean_cache : ℕ → Time → Dict String Ptr → Handler → Option Handler
clean_cache p now order h = do
  (c, removed) ← Cache.cleanup_expired now order (h.sheets.cells p).cache
  some (put_cache p c h)

module _ (cfg : Config) (out : Outside) where
  unfoldable pub perform : Event → Handler → Option Handler
  perform (accepted conn) h = some (connect conn h)
  perform (received conn r frame) h = handle_frame cfg out conn r frame h
  perform (lost conn r) h = some (on_disconnect cfg out r conn h)
  perform heartbeat_tick h = some (broadcast_heartbeat h)
  perform (lock_tick clock order) h = some (clean_locks clock order h)
  perform (cache_tick p now order) h = clean_cache p now order h
