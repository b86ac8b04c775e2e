-- ===== src/Tandem/Inbox.antt =====
-- What comes in at a connection when the handlers of ws/handler.go write to many.
use advo_cache.Base.{◌≡◌, refl, true, false, List, [], ◌∷◌, ◌++◌, arith, conn_key}
use advo_cache.Base.Dict.{Dict, has_key}
use advo_cache.Message.{
  Message, response, sheet_state, full_state, broadcast_set, invalidate, replicate,
  replicate_delete, replicate_delete_prefix, replicate_delete_suffix, replicate_unlock,
  replicate_evict, replicate_lock, heartbeat,
}
use advo_cache.Sheet.{Conn}
use advo_cache.Server.{keys}
use advo_cache.Server.System.Members.{occurrences}
use advo_cache.Server.Writes.{to_all}
use advo_cache.Reader.{Reader, handle_message, hear}
use advo_cache.Tandem.{inbox}

pub inbox-append :
    (c : Conn) (ms ns : List (Conn × Message)) → inbox c (ms ++ ns) ≡ inbox c ms ++ inbox c ns
unfolding inbox
inbox-append c [] ns = refl
inbox-append c ((d, m) ∷ ms) ns = ground (arith, inbox-append c ms ns)

pub inbox-to_all_none :
    (c : Conn) (ds : List Conn) (m : Message) → occurrences c ds ≡ 0 → inbox c (to_all ds m) ≡ []
unfolding inbox
inbox-to_all_none c [] m h = refl
inbox-to_all_none c (d ∷ ds) m h = ground (arith, inbox-to_all_none c ds m)

pub inbox-to_all_once :
    (c : Conn) (ds : List Conn) (m : Message)
    → occurrences c ds ≡ 1
    → inbox c (to_all ds m) ≡ m ∷ []
unfolding inbox
inbox-to_all_once c [] m h = absurd (omega arith)
inbox-to_all_once c (d ∷ ds) m h =
    ground (arith, inbox-to_all_once c ds m, inbox-to_all_none c ds m)

pub occurrences-keys :
    {A : Type 0} (c : Conn) (m : Dict Conn A) → has_key c m ≡ false → occurrences c (keys m) ≡ 0
unfolding has_key
occurrences-keys c [] h = refl
occurrences-keys c ((d, a) ∷ m) h = ground (arith, occurrences-keys c m)

-- A reader that listens.
abbrev pub IsOpen : Reader → Type 0
IsOpen r = (r.closed ≡ false) × (r.has_conn ≡ true)

pub handle_message-IsOpen : (m : Message) (r : Reader) → IsOpen r → IsOpen (handle_message m r)
unfolding handle_message
handle_message-IsOpen (response x) r o = o
handle_message-IsOpen (sheet_state d) r o = o
handle_message-IsOpen (full_state d) r o = o
handle_message-IsOpen (broadcast_set k v) r o = o
handle_message-IsOpen (invalidate key prefix suffix) r o = ground arith
handle_message-IsOpen (replicate s k v j) r o = o
handle_message-IsOpen (replicate_delete s k) r o = o
handle_message-IsOpen (replicate_delete_prefix s k) r o = o
handle_message-IsOpen (replicate_delete_suffix s k) r o = o
handle_message-IsOpen (replicate_unlock s k) r o = o
handle_message-IsOpen (replicate_evict s k) r o = o
handle_message-IsOpen (replicate_lock s k w t) r o = o
handle_message-IsOpen heartbeat r o = o

-- An open reader handles the next message.
pub hear_next :
    (m : Message) (ms : List Message) (r : Reader)
    → IsOpen r
    → hear (m ∷ ms) r ≡ hear ms (handle_message m r)
unfolding hear
hear_next m ms r o = ground arith
