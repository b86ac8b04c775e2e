-- ===== src/Replica.antt =====
-- replica/client.go: a server that follows a leader. Its sheets are those of `Sheet`; the messages of
-- the leader are applied one by one, each alone. `none` is a panic.
pub mod Apply
pub mod Failover
pub mod Follow
pub mod Load
pub mod Race
pub mod Storing
mod Tests
use advo_cache.Base.{
  ℕ, zero, suc, ◌+◌, ◌-◌, Bool, true, false, not, List, [], ◌∷◌, Option, none, some, String,
  if◌then◌else◌, ◌>>=◌, ltb,
}
use advo_cache.Base.Dict.{Dict}
use advo_cache.Value.{Value}
use advo_cache.Time.{Time, Duration, exceeds}
use advo_cache.Config.{Config, cache_ttl, heartbeat_timeout}
use advo_cache.Cache
use advo_cache.Cache.{Cache, Ptr, update}
use advo_cache.Sheet
use advo_cache.Sheet.{Sheets, get_sheet, add_sheet, allocate, new_replica_sheet}
use advo_cache.Message.{
  Message, full_state, replicate, replicate_delete, replicate_delete_prefix,
  replicate_delete_suffix, replicate_evict, heartbeat,
}

-- `has_conn` says whether `conn` is set.
pub record Client : Type 0 where
  pub has_conn : Bool
  pub sheets : Sheets
  pub last_heartbeat : Time
  pub is_promoted : Bool

-- What one call reads of its surroundings: the clock, the clock at the Set of each entry of a full
-- state (by its sheet and its key), math/rand, and the orders in which `range` visits a cache's map.
pub record Reads : Type 0 where
  pub now : Time
  pub set_at : String → String → Time
  pub int63n : ℕ → ℕ
  pub order : ℕ → Dict String Ptr

-- The address of a sheet, which is made first if it is not there.
unfoldable pub find_or_add : String → Sheets → Option (Sheets × ℕ)
find_or_add id m = elim (get_sheet id m) [
  | some p ↦ some (m, p)
  | none ↦ do s ← new_replica_sheet id; some (add_sheet id m.fresh (allocate s m), m.fresh)
]

abbrev pub put_cache : ℕ → Cache → Sheets → Sheets
put_cache p c m = record m { cells = update m.cells p (record (m.cells p) { cache = c }) }

-- s.Set for each entry that `range` yields; the clock is read at each of them.
unfoldable pub set_all : Duration → (String → Time) → Dict String Value → Cache → Option Cache
set_all ttl clock [] c = some c
set_all ttl clock ((key, value) ∷ rest) c = do
  (c', _) ← Cache.set key value ttl (clock key) c
  set_all ttl clock rest c'

-- A change to the cache of a sheet, if there is such a sheet.
abbrev pub on_sheet : String → (ℕ → Cache → Option Cache) → Client → Option Client
on_sheet id f c = elim (get_sheet id c.sheets) [
  | none ↦ some c
  | some p ↦ do
    cache ← f p (c.sheets.cells p).cache
    some (record c { sheets = put_cache p cache c.sheets })
]

unfoldable pub promote_to_leader : Client → Client
promote_to_leader c = if c.is_promoted then c else record c { is_promoted = true; has_conn = false }

-- An attempt to connect: the dial and the registration succeed, at an instant; or one of them
-- fails, the dial before `conn` is set, the registration after it.
pub data Attempt : Type 0 where
  dial_failed : Attempt
  write_failed connected : Time → Attempt

unfoldable pub connect : Attempt → Client → Client × Bool
connect dial_failed c = (c, false)
connect (write_failed now) c = (record c { has_conn = true; last_heartbeat = now }, false)
connect (connected now) c = (record c { has_conn = true; last_heartbeat = now }, true)

-- The three attempts of handleLeaderDisconnect, and the promotion when all have failed.
unfoldable pub reconnect : ℕ → (ℕ → Attempt) → Client → Client
unfolding connect promote_to_leader
reconnect zero attempts c = promote_to_leader c
reconnect (suc left) attempts c =
    let (c', done) = connect (attempts left) c in
    let rest = reconnect left attempts c' in if done then c' else rest

unfoldable pub handle_leader_disconnect : (ℕ → Attempt) → Client → Client
unfolding reconnect
handle_leader_disconnect attempts c = if c.is_promoted then c else reconnect 3 attempts c

module _ (cfg : Config) where
  unfoldable pub apply_full_state : Reads → Dict String (Dict String Value) → Client → Option Client
  unfolding find_or_add set_all
  apply_full_state r [] c = some c
  apply_full_state r ((id, entries) ∷ rest) c = do
    (m, p) ← find_or_add id c.sheets
    cache ← set_all (cache_ttl cfg) (r.set_at id) entries (m.cells p).cache
    apply_full_state r rest (record c { sheets = put_cache p cache m })

  unfoldable pub apply_set : Reads → String → String → Value → Bool → Client → Option Client
  unfolding find_or_add
  apply_set r id key value jitter c = do
    (m, p) ← find_or_add id c.sheets
    let cache = (m.cells p).cache
    (cache', _) ←
        (if jitter
          then Cache.set_with_jitter r.int63n key value (cache_ttl cfg) cfg.jitter_percent r.now
              cache
          else Cache.set key value (cache_ttl cfg) r.now cache)
    some (record c { sheets = put_cache p cache' m })

  unfoldable pub apply_delete : String → String → Client → Option Client
  apply_delete id key = on_sheet id (λ _. Cache.delete key)

  unfoldable pub apply_delete_prefix : Reads → String → String → Client → Option Client
  apply_delete_prefix r id prefix =
      on_sheet id
        λ p cache. do (cache', _) ← Cache.delete_prefix prefix (r.order p) cache; some cache'

  unfoldable pub apply_delete_suffix : Reads → String → String → Client → Option Client
  apply_delete_suffix r id suffix =
      on_sheet id
        λ p cache. do (cache', _) ← Cache.delete_suffix suffix (r.order p) cache; some cache'

  unfoldable pub apply_evict : String → String → Client → Option Client
  apply_evict id key = on_sheet id (λ _. Cache.delete key)

  -- The messages about locks, responses and unknown messages are only logged.
  unfoldable pub handle_message : Reads → Message → Client → Option Client
  unfolding apply_full_state apply_set apply_delete apply_delete_prefix apply_delete_suffix
      apply_evict
  handle_message r heartbeat c = some (record c { last_heartbeat = r.now })
  handle_message r (full_state sheets) c = apply_full_state r sheets c
  handle_message r (replicate id key value jitter) c = apply_set r id key value jitter c
  handle_message r (replicate_delete id key) c = apply_delete id key c
  handle_message r (replicate_delete_prefix id prefix) c = apply_delete_prefix r id prefix c
  handle_message r (replicate_delete_suffix id suffix) c = apply_delete_suffix r id suffix c
  handle_message r (replicate_evict id key) c = apply_evict id key c
  handle_message r _ c = some c

  -- Whether the monitor goes on, after one tick of its ticker.
  unfoldable pub monitor_tick : Time → Client → Client × Bool
  unfolding promote_to_leader
  monitor_tick now c =
      if c.is_promoted
      then (c, false)
      else if exceeds (now - c.last_heartbeat) (heartbeat_timeout cfg)
      then (promote_to_leader c, false)
      else (c, true)

  -- The loop of `listen` that handles what comes in, while there is a connection; `n` counts the
  -- messages.
  unfoldable pub hear : (ℕ → Reads) → ℕ → List Message → Client → Option Client
  unfolding handle_message
  hear reads n [] c = some c
  hear reads n (m ∷ ms) c =
      let rest = (do c' ← handle_message (reads n) m c; hear reads (suc n) ms c') in
      if not c.has_conn then some c else rest

  -- `listen`, up to the read that fails.
  unfoldable pub listen : (ℕ → Attempt) → (ℕ → Reads) → List Message → Client → Option Client
  unfolding hear handle_leader_disconnect
  listen attempts reads ms c = do
    c' ← hear reads 0 ms c
    some (if not c'.has_conn then c' else handle_leader_disconnect attempts c')

-- NewClient: the sheets are the manager's.
unfoldable pub new_client : Sheets → Time → Client
new_client sheets now = record {
  has_conn = false;
  sheets = sheets;
  last_heartbeat = now;
  is_promoted = false;
}
