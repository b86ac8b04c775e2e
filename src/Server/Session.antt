-- ===== src/Server/Session.antt =====
-- ServeWS of ws/handler.go: one connection from its start to its end, when nothing else runs.
use advo_cache.Base.{List, [], ◌∷◌, Option, some, ◌>>=◌}
use advo_cache.Config.{Config}
use advo_cache.Message.{Request}
use advo_cache.Sheet.{Conn}
use advo_cache.Server.{Outside, Reads, Handler, send_error, connect, on_disconnect, handle_action}

-- What ReadMessage yields, after encoding/json.
pub data Frame : Type 0 where
  malformed : Frame
  request : Request → Frame

module _ (cfg : Config) (out : Outside) (conn : Conn) where
  unfoldable pub handle_frame : Reads → Frame → Handler → Option Handler
  handle_frame r malformed h = some (send_error conn "invalid JSON" h)
  handle_frame r (request req) h = handle_action cfg out r conn req h

  -- The message loop, up to the read that fails.
  unfoldable pub read_loop : List (Reads × Frame) → Handler → Option Handler
  unfolding handle_frame
  read_loop [] h = some h
  read_loop ((r, frame) ∷ frames) h = do h' ← handle_frame r frame h; read_loop frames h'

  -- The whole of ServeWS, the deferred onDisconnect included.
  unfoldable pub serve : List (Reads × Frame) → Reads → Handler → Option Handler
  unfolding read_loop
  serve frames last h = do
    h' ← read_loop frames (connect conn h)
    some (on_disconnect cfg out last conn h')
