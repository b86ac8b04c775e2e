-- ===== src/Server/Contention.antt =====
-- Two clients of ws/handler.go that want the same lock.
use advo_cache.Base.{ℕ, text_key}
use advo_cache.Config.{Config}
use advo_cache.Lock
use advo_cache.Lock.{Lock, is_expired}
use advo_cache.Message.{Request, response, success_response, error_response, replicate_lock}
use advo_cache.Server.{Outside, Reads, Handler, requested_ttl, broadcast_to_replicas, write}

module _ (cfg : Config) (out : Outside) (r : Reads) (conn p : ℕ) (req : Request) (h : Handler)
    (m : Lock.Manager) (l : Lock) where
  -- What the handler was given by the lock manager.
  abbrev asked : Lock.Manager × Lock.Result Lock
  asked =
      Lock.try_acquire (h.sheets.cells p).id req.key (out.format_pointer conn)
        (requested_ttl cfg out req) r.now r.seen r.again h.locks

  abbrev granted : Handler
  granted =
      broadcast_to_replicas
        (replicate_lock (h.sheets.cells p).id req.key (out.format_pointer conn)
          (out.format_time l.expires_at))
        (write conn (response (record success_response { key = req.key })) (record h { locks = m }))

  abbrev refused : Handler
  refused =
      write conn
        (response (record (error_response "lock held by another client") { key = req.key }))
        (record h { locks = m })
