-- ===== src/Lib.antt =====
-- advo_cache: a multi-tenant cache server over WebSockets, with replicas and an embedded reader.
--
-- A client opens a sheet (a tenant, guarded by a password) on a server and then gets, sets, deletes
-- and locks keys of that sheet. The server tells the other clients of the sheet, the collaborators,
-- about changes, and its replicas too; a replica promotes itself when the leader is gone. A reader is
-- a client library with a local copy of a sheet, which it keeps by the messages of the server.
--
-- Which file models which part:
--   Cache      cache/cache.go: Get, Set, Delete and their kin on a doubly linked list with sentinels,
--              a memory of nodes and a map from keys to nodes. A nil pointer in use is a panic, which
--              is `none`. `Cache.Lru` is the specification, a list of entries; `Cache.Rep` relates
--              the two, `Cache.History` has runs of calls, `Cache.Contents` the keys and values.
--   Lock       lock/lock.go: TryAcquire, Release, IsLocked, ReleaseAllByOwner, CleanupExpired and the
--              rest, each as one step; `Lock.Race` has TryAcquire as atomic steps of many goroutines,
--              and `Lock.Race.Sweeping` CleanupExpired beside them.
--   Sheet      sheet/sheet.go and sheet/manager.go: passwords, collaborators, GetOrCreateSheet.
--              `Sheet.Race` has the last of these as atomic steps of many goroutines.
--   Message    the requests, responses and messages of ws/handler.go, sheet/sheet.go and
--              replica/replica.go.
--   Server     ws/handler.go: handleAction and each of its handlers, onDisconnect, the broadcasts
--              (`Server.State` has the state and what the handlers share). What is written to the
--              sockets is the field `outbox`, in order. `Server.Session` is ServeWS for one
--              connection, `Server.Race` handleOpen in two steps. `Server.System` is the leader that
--              main.go starts, as a whole: every connection, message, loss and tick is an event, and
--              events come in any order (`Server.System.Reach`).
--   Reader     reader/reader.go: reads, writes, connectTo, listen, handleMessage, handleDisconnect
--              (`Reader.Schedule` has the order of its attempts).
--   Replica    replica/client.go: the messages of the leader, listen, the monitor, the promotion;
--              `Replica.Race` has these goroutines beside one another.
--   Tandem     a reader, or a replica, beside the server that it is connected to: what the handlers
--              write to its connection is what it hears. `Tandem.Session` has a reader through many
--              calls of others, `Tandem.CatchUp` a replica that registers, `Tandem.Copying` and
--              `Tandem.Joining` one beside its leader through many calls, `Tandem.Mirror` one that keeps
--              the order of use as well.
--   Start      main.go: whether a process starts, and what, as a leader or as a replica.
--   Logger     logger/logger.go: the messages that pass the level.
--   Decimal    itoa, of cache/cache.go and of four other files.
--   Config     config/config.go: LoadConfig, the values and what is computed from them.
--   Value, Time, Base: JSON values; instants and 64-bit durations; tests, lists and Go's maps.
--
-- Conventions. A Go map or a sync.Map is an association list; a loop over one takes the order of
-- `range` as an argument, any order that enumerates the map. Readings of the clock are arguments. A
-- time.Duration is the 64-bit pattern of its int64, products wrap. Pointers that are shared (sheets,
-- nodes, locks in Lock.Race) are addresses in a memory. Loops are recursion on the list they visit or
-- on the number of attempts left, so no fuel is needed: every function of the model ends.
--
-- Outside the model: bcrypt, math/rand, viper, the formatting of a pointer and of times are
-- parameters; where a theorem says so, bcrypt tells any two passwords apart, as the real one does
-- up to the 72nd byte, and each call has its own random numbers. encoding/json and the WebSocket
-- library are left out, and so are the texts that are logged, the HTTP routes, delays and Stats. A
-- handler runs alone, as one step; only Lock.Race, Sheet.Race, Server.Race and Replica.Race
-- interleave, and `Server.System` is a leader: on a replica the messages of its leader, which
-- `Replica` has, change the same sheets and are no events of it. That a write of the server fails, or that two
-- goroutines write to a connection at once, is not modelled. A panic of time.NewTicker is in
-- `Start` only: elsewhere the interval of the heartbeat is above zero.
pub mod Base
pub mod Value
pub mod Logger
pub mod Time
pub mod Decimal
pub mod Cache
pub mod Lock
pub mod Config
pub mod Sheet
pub mod Message
pub mod Server
pub mod Reader
pub mod Tandem
pub mod Replica
pub mod Start
