-- ===== src/Reader.antt =====
-- reader/reader.go: the embedded client, with a local copy of its sheet. A `sync.Map` that is swept by
-- `Range` is filtered in place. A connection attempt is what the network gives: whether the dial and
-- the first write succeed, and the messages that arrive before a read fails. Each method runs alone.
pub mod Local
pub mod Sync
pub mod Connect
pub mod Schedule
pub mod Recovery
mod Tests
use advo_cache.Base.{
  ℕ, zero, suc, ◌+◌, Bool, true, false, not, ◌||◌, List, [], ◌∷◌, ◌++◌, Option, none, some, String,
  ◌==◌, text_key, if◌then◌else◌, length, keep, ◌&&◌, ◌⊎◌, inl, inr,
}
use advo_cache.Base.Dict.{Dict, lookup, insert, remove}
use advo_cache.Time.{is_positive}
use advo_cache.Value.{Value, Members, text, object, null_placeholder}
use advo_cache.Cache.{has_prefix, has_suffix}
use advo_cache.Message.{
  Message, Response, response, sheet_state, broadcast_set, replicate, invalidate,
}

-- `max_reconnect_attempts` and `reconnect_delay` are the 64-bit patterns of their ints.
pub record Config : Type 0 where
  pub leader_addr : String
  pub backup_addr : String
  pub sheet : String
  pub password : String
  pub max_reconnect_attempts : ℕ
  pub reconnect_delay : ℕ

-- ErrNotConnected, ErrAuthFailed, ErrClosed, and the errors of the websocket library.
pub data ReaderError : Type 0 where
  not_connected auth_failed closed_error dial_failed write_failed read_failed : ReaderError

-- What a client writes: the maps that Set, Delete and their kin marshal, and the open request.
pub data Outgoing : Type 0 where
  open_sheet : String → String → Outgoing
  set : String → Value → Outgoing
  delete delete_prefix delete_suffix : String → Outgoing

-- `has_conn` says whether `conn` is set, `sent` what was written to it.
pub record Reader : Type 0 where
  pub config : Config
  pub has_conn : Bool
  pub cache : Dict String Value
  pub connected : Bool
  pub closed : Bool
  pub current_addr : String
  pub sent : List Outgoing

-- READ OPERATIONS
unfoldable pub get : String → Reader → Option Value
get key r = lookup key r.cache

abbrev as_text : Option Value → Option String
as_text (some (text s)) = some s
as_text _ = none

unfoldable pub get_string : String → Reader → Option String
get_string key r = as_text (lookup key r.cache)

abbrev as_object : Option Value → Option Members
as_object (some (object m)) = some m
as_object _ = none

unfoldable pub get_map : String → Reader → Option Members
get_map key r = as_object (lookup key r.cache)

abbrev is_some {ℓ} : {A : Type ℓ} → Option A → Bool
is_some none = false
is_some (some _) = true

unfoldable pub has : String → Reader → Bool
has key r = is_some (lookup key r.cache)

abbrev is_placeholder : Option String → Bool
is_placeholder none = false
is_placeholder (some s) = s == null_placeholder

unfoldable pub is_null : String → Reader → Bool
is_null key r = is_placeholder (as_text (lookup key r.cache))

-- `r.cache.Range` with a test on the key, and `r.cache.Delete` for each key that passes.
unfoldable pub sweep : (String → Bool) → Dict String Value → Dict String Value
sweep test = keep (λ entry. not (test entry.0))

-- WRITE OPERATIONS
unfoldable pub send : Outgoing → (wrote : Bool) → Reader → Reader × Option ReaderError
send msg wrote r =
    if not r.has_conn
    then (r, some not_connected)
    else if wrote
    then (record r { sent = r.sent ++ msg ∷ [] }, none)
    else (r, some write_failed)

-- The guards of every write, and the rest of it.
unfoldable pub guarded :
    (Dict String Value → Dict String Value)
    → Outgoing
    → (wrote : Bool) → Reader
    → Reader × Option ReaderError
unfolding send
guarded local msg wrote r =
    if r.closed
    then (r, some closed_error)
    else if not r.connected
    then (r, some not_connected)
    else send msg wrote (record r { cache = local r.cache })

unfoldable pub set_value : String → Value → Bool → Reader → Reader × Option ReaderError
unfolding guarded
set_value key value = guarded (insert key value) (set key value)

unfoldable pub delete_key : String → Bool → Reader → Reader × Option ReaderError
unfolding guarded
delete_key key = guarded (remove key) (delete key)

unfoldable pub delete_by_prefix : String → Bool → Reader → Reader × Option ReaderError
unfolding guarded sweep
delete_by_prefix prefix = guarded (sweep (has_prefix prefix)) (delete_prefix prefix)

unfoldable pub delete_by_suffix : String → Bool → Reader → Reader × Option ReaderError
unfolding guarded sweep
delete_by_suffix suffix = guarded (sweep (has_suffix suffix)) (delete_suffix suffix)

-- LIFECYCLE
unfoldable pub close : Reader → Reader
close r = if r.closed then r else record r { closed = true; connected = false }

abbrev pub is_connected : Reader → Bool
is_connected r = r.connected

abbrev pub current_server : Reader → String
current_server r = r.current_addr

abbrev pub cache_size : Reader → ℕ
cache_size r = length r.cache

-- The map of a JSON object: its entries are stored in turn, after the old ones have gone.
unfoldable pub load : Dict String Value → Dict String Value → Dict String Value
load [] cache = cache
load ((key, value) ∷ rest) cache = load rest (insert key value cache)

unfoldable pub load_state : Dict String Value → Reader → Reader
unfolding load
load_state state r = record r { cache = load state [] }

unfoldable pub handle_message : Message → Reader → Reader
unfolding load_state sweep
handle_message (sheet_state state) r = load_state state r
handle_message (broadcast_set key value) r = record r { cache = insert key value r.cache }
handle_message (replicate sheet key value jitter) r = record r { cache = insert key value r.cache }
handle_message (invalidate key prefix suffix) r =
    if not (key == "")
    then record r { cache = remove key r.cache }
    else if not (prefix == "")
    then record r { cache = sweep (has_prefix prefix) r.cache }
    else if not (suffix == "")
    then record r { cache = sweep (has_suffix suffix) r.cache }
    else r
handle_message _ r = r

-- CONNECTION MANAGEMENT
pub record Attempt : Type 0 where
  pub dialed : Bool
  pub wrote : Bool
  pub incoming : List Message

-- The fields of `baseMsg` that every message has.
abbrev pub success_of : Message → Bool
success_of (response r) = r.success
success_of _ = false

abbrev pub error_of : Message → String
error_of (response r) = r.error
error_of _ = ""

abbrev pub state_of : Message → Option (Dict String Value)
state_of (sheet_state state) = some state
state_of _ = none

-- The loop that waits for the response and for the state, up to the state.
unfoldable pub await : (authenticated : Bool) → List Message → Reader → Reader × Option ReaderError
unfolding load_state
await authenticated [] r = (r, some read_failed)
await false (m ∷ ms) r =
    let refused : Reader × Option ReaderError = (r, some auth_failed) in
    let rest = await (success_of m) ms r in
    if not (success_of m) && not (error_of m == "") then refused else rest
await true (m ∷ ms) r =
    let rest = await true ms r in
    elim (state_of m) [ some state ↦ (load_state state r, none) | none ↦ rest ]

-- What follows the loop: the connection is in use.
abbrev pub connected_to : String → Reader × Option ReaderError → Reader × Option ReaderError
connected_to addr (r, none) =
    (record r { has_conn = true; connected = true; current_addr = addr }, none)
connected_to addr (r, some e) = (r, some e)

unfoldable pub connect_to : String → Attempt → Reader → Reader × Option ReaderError
unfolding await
connect_to addr a r =
    if not a.dialed
    then (r, some dial_failed)
    else if not a.wrote
    then (r, some write_failed)
    else connected_to addr (await false a.incoming r)

-- The defaults of `New`; a delay of 1 s is 1000000000 ns.
abbrev pub with_defaults : Config → Config
with_defaults cfg = record cfg {
  max_reconnect_attempts = elim cfg.max_reconnect_attempts [ zero ↦ 3 | suc n ↦ suc n ];
  reconnect_delay = elim cfg.reconnect_delay [ zero ↦ 1000000000 | suc n ↦ suc n ];
}

abbrev blank : Config → Reader
blank cfg = record {
  config = cfg;
  has_conn = false;
  cache = [];
  connected = false;
  closed = false;
  current_addr = "";
  sent = [];
}

abbrev result : Reader × Option ReaderError → Reader ⊎ ReaderError
result (r, none) = inl r
result (r, some e) = inr e

-- The second attempt is made if the first one fails and there is a backup.
unfoldable pub new : Config → (leader backup : Attempt) → Reader ⊎ ReaderError
unfolding connect_to
new cfg leader backup =
    let r = blank (with_defaults cfg) in
    let (r₁, failed) = connect_to cfg.leader_addr leader r in
    elim failed [
      | none ↦ inl r₁
      | some e ↦
          if not (cfg.backup_addr == "")
          then result (connect_to cfg.backup_addr backup r₁)
          else inr e
    ]

-- FAILOVER: before each attempt the reader may be closed.
pub data Try : Type 0 where
  stopped : Try
  tried : Attempt → Try

pub data Outcome : Type 0 where
  reconnected gave_up exhausted : Outcome

-- How often the loop `i < MaxReconnectAttempts` runs.
abbrev pub rounds : Config → ℕ
rounds cfg = if is_positive cfg.max_reconnect_attempts then cfg.max_reconnect_attempts else 0

-- One loop of attempts at one address; `round` numbers the tries of a whole call.
unfoldable pub retry : String → (left round : ℕ) → (ℕ → Try) → Reader → Reader × Outcome
unfolding connect_to
retry addr zero round tries r = (r, exhausted)
retry addr (suc left) round tries r = elim (tries round) [
  | stopped ↦ (r, gave_up)
  | tried a ↦
      let (r₁, failed) = connect_to addr a r in
      let rest = retry addr left (suc round) tries r₁ in
      elim failed [ none ↦ (r₁, reconnected) | some _ ↦ rest ]
]

-- A loop that is entered only under a condition, and only if the one before it is exhausted.
unfoldable pub fail_over : Bool → String → ℕ → (ℕ → Try) → Reader × Outcome → Reader × Outcome
unfolding retry
fail_over true addr round tries (r, exhausted) = retry addr (rounds r.config) round tries r
fail_over _ addr round tries (r, o) = (r, o)

unfoldable pub handle_disconnect : (ℕ → Try) → Reader → Reader × Outcome
unfolding retry fail_over
handle_disconnect tries r =
    if r.closed
    then (r, gave_up)
    else let cfg = r.config in
      let n = rounds cfg in
      let lost = record r { connected = false; has_conn = false } in
      let (r₁, o₁) = retry lost.current_addr n 0 tries lost in
      let (r₂, o₂) =
        fail_over (not (cfg.backup_addr == "") && not (r₁.current_addr == cfg.backup_addr))
          cfg.backup_addr n tries (r₁, o₁) in
      let spent =
        if not (cfg.backup_addr == "") && not (r₁.current_addr == cfg.backup_addr)
        then n + n
        else n in
      fail_over (not (cfg.leader_addr == "") && not (r₂.current_addr == cfg.leader_addr))
        cfg.leader_addr spent tries (r₂, o₂)

-- The loop of `listen` that handles what comes in, while the reader is open and has a connection.
unfoldable pub hear : List Message → Reader → Reader
unfolding handle_message
hear [] r = r
hear (m ∷ ms) r =
    let rest = hear ms (handle_message m r) in if r.closed || not r.has_conn then r else rest

-- `listen`, up to the read that fails.
unfoldable pub listen : (ℕ → Try) → List Message → Reader → Reader
unfolding hear handle_disconnect
listen tries ms r =
    let r' = hear ms r in
    if r'.closed || not r'.has_conn then r' else (handle_disconnect tries r').0
