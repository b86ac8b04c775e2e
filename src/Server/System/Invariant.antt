-- ===== src/Server/System/Invariant.antt =====
-- Every event keeps the connections of ws/handler.go and the sheets of sheet/manager.go consistent.
use advo_cache.Base.{◌≡◌, true, text_key, conn_key}
use advo_cache.Config.{Config}
use advo_cache.Cache
use advo_cache.Cache.{update}
use advo_cache.Server.{Outside, Handler, broadcast_heartbeat}
use advo_cache.Server.Isolation.{SameBut, Safely, Safely-map, cached, put_cache-SameBut}
use advo_cache.Server.Session.{malformed, request, handle_frame}
use advo_cache.Server.System.{
  Event, accepted, received, lost, heartbeat_tick, lock_tick, cache_tick, is_live, perform,
}
use advo_cache.Server.System.Consistency.{
  IsConsistent, written, Alike-IsConsistent, SameBut-Alike, connect-IsConsistent,
}
use advo_cache.Server.System.Arrival.{action-IsConsistent}
use advo_cache.Server.System.Departure.{disconnect-IsConsistent}

module _ (cfg : Config) (out : Outside) where
  -- Only a connection that is live has a handler running.
  abbrev pub IsEvent : Event → Handler → Type 0
  IsEvent (received conn r frame) h = is_live conn h ≡ true
  IsEvent (lost conn r) h = is_live conn h ≡ true
  IsEvent _ h = Unit

  -- An event that does not panic keeps the server consistent.
  pub perform-IsConsistent :
      (e : Event) (h : Handler)
      → IsEvent e h
      → IsConsistent h
      → Safely IsConsistent (perform cfg out e h)
  unfolding perform handle_frame broadcast_heartbeat
  perform-IsConsistent (accepted conn) h given v = connect-IsConsistent conn h v
  perform-IsConsistent (received conn r malformed) h live v = written h _ h.closed v
  perform-IsConsistent (received conn r (request req)) h live v =
      action-IsConsistent conn h live v cfg out r req
  perform-IsConsistent (lost conn r) h live v = disconnect-IsConsistent conn h live v cfg out r
  perform-IsConsistent heartbeat_tick h given v = written h _ h.closed v
  perform-IsConsistent (lock_tick clock order) h given v = record {
    sheets = v.sheets;
    clients = v.clients;
  }
  perform-IsConsistent (cache_tick p now order) h given v =
      Safely-map (SameBut p h) IsConsistent _
        (λ h' same. Alike-IsConsistent h h' (SameBut-Alike p h h' same) v)
        (cached 0 p h (Cache.cleanup_expired now order (h.sheets.cells p).cache) _
          (λ c removed. put_cache-SameBut 0 p h c))
