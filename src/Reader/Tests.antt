-- ===== src/Reader/Tests.antt =====
-- The theorems on readers, at one reader.
use advo_cache.Base.{
  ℕ, suc, ◌≡◌, ◌↔◌, refl, true, false, not, ◌&&◌, List, [], ◌∷◌, ◌++◌, none, some, String, arith,
  ◌==◌, text_key, eq_iff, if◌then◌else◌,
}
use advo_cache.Base.Dict.{lookup}
use advo_cache.Value.{text}
use advo_cache.Cache.{Entry}
use advo_cache.Cache.Lru.{seek}
use advo_cache.Message.{response, success_response, sheet_state}
use advo_cache.Reader.{
  Config, Reader, Attempt, Try, tried, connect_to, set, get, set_value, handle_disconnect,
}
use advo_cache.Reader.Connect.{Accepted, Settled, connect_to-Settled}
use advo_cache.Reader.Recovery.{disconnected, handle_disconnect-Ends}
use advo_cache.Reader.Schedule.{Ends, schedule}
use advo_cache.Reader.Local.{set_value_lem}
use advo_cache.Reader.Sync.{InSync}

abbrev settings : Config
settings = record {
  leader_addr = "a";
  backup_addr = "b";
  sheet = "shop";
  password = "pw";
  max_reconnect_attempts = 3;
  reconnect_delay = 1000000000;
}

abbrev k : String
k = "k"

abbrev reader : Reader
reader = record {
  config = settings;
  has_conn = true;
  cache = ("user:1", text "x") ∷ [];
  connected = true;
  closed = false;
  current_addr = "a";
  sent = [];
}

abbrev held : List Entry
held = record { key = "user:1"; value = text "x"; expires_at = 110 } ∷ []

reader-InSync : InSync held reader
unfolding get seek lookup
reader-InSync k = ground (arith, eq_iff "user:1" k)

set_value_lem_example :
    (((set_value "k" (text "v") false reader).1 ≡ none)
      ↔ ((not reader.closed && (reader.connected && (reader.has_conn && false))) ≡ true))
    × (get "k" (set_value "k" (text "v") false reader).0 ≡ (
        if not reader.closed && reader.connected
        then if k == k then some (text "v") else get "k" reader
        else get "k" reader))
    × ((set_value "k" (text "v") false reader).0.sent ≡ (
        if not reader.closed && (reader.connected && (reader.has_conn && false))
        then reader.sent ++ set "k" (text "v") ∷ []
        else reader.sent))
set_value_lem_example = set_value_lem "k" (text "v") false reader "k"

abbrev good : Attempt
good = record {
  dialed = true;
  wrote = true;
  incoming = response success_response ∷ sheet_state (("k", text "v") ∷ []) ∷ [];
}

abbrev bad : Attempt
bad = record { dialed = false; wrote = true; incoming = [] }

connect_to-Settled_example :
    Settled (λ s. Accepted s good.incoming) "a" reader (connect_to "a" good reader)
connect_to-Settled_example = connect_to-Settled "a" good reader

-- The fifth attempt succeeds, at the backup.
abbrev tries : ℕ → Try
tries (suc (suc (suc (suc n)))) = tried good
tries _ = tried bad

handle_disconnect-Ends_example :
    Ends tries (disconnected reader) 0 (schedule reader) (handle_disconnect tries reader)
handle_disconnect-Ends_example = handle_disconnect-Ends tries reader refl
