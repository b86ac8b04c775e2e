-- ===== src/Tandem.antt =====
-- A reader of reader/reader.go beside the server of ws/handler.go that it is connected to: what the
-- handlers write to the connection of the reader is what it hears, in this order. A replica of
-- replica/client.go hears the leader in the same way.
pub mod Followers
pub mod Inbox
pub mod Alike
pub mod Backup
pub mod CatchUp
pub mod Copied
pub mod Copying
pub mod Crossing
pub mod Deleting
pub mod Entering
pub mod Erasing
pub mod Joining
pub mod Mirror
pub mod Reading
pub mod Session
pub mod Stale
pub mod Standby
pub mod Told
pub mod Writing
mod Tests
use advo_cache.Base.{List, [], ◌∷◌, if◌then◌else◌, ◌=?◌}
use advo_cache.Message.{Message}
use advo_cache.Sheet.{Conn}

-- The messages to one connection, among all that were written.
unfoldable pub inbox : Conn → List (Conn × Message) → List Message
inbox c [] = []
inbox c ((d, m) ∷ ms) = let rest = inbox c ms in if d =? c then m ∷ rest else rest
