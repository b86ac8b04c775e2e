-- ===== src/Start.antt =====
-- main.go: what a process starts, by its configuration. The sheets are shared by the handler of the
-- websockets and the client of the leader. Logging, the routes and the listening socket are left out.
use advo_cache.Base.{
  inl, inr, ℕ, ◌≡◌, refl, Bool, true, false, ◌||◌, ◌&&◌, List, [], ◌∷◌, Option, none, some,
  if◌then◌else◌,
}
use advo_cache.Time.{Time, is_positive}
use advo_cache.Config.{
  Config, is_replica, lock_cleanup_interval, heartbeat_interval, Viper, load_config,
}
use advo_cache.Sheet.{Sheet}
use advo_cache.Server.{Handler}
use advo_cache.Server.System.Reach.{started}
use advo_cache.Replica.{Client, Attempt, dial_failed, write_failed, connected, new_client, connect}

-- `heartbeats` says whether StartHeartbeat was called, `following` holds the client of a leader.
pub record Process : Type 0 where
  pub handler : Handler
  pub heartbeats : Bool
  pub following : Option Client

-- main, up to the routes; `memory` is what lies at the addresses that are not in use.
unfoldable pub start : Config → Time → (ℕ → Sheet) → Process
start cfg now memory =
    let handler = started memory in
    if is_replica cfg
    then record {
      handler = handler;
      heartbeats = false;
      following = some (new_client handler.sheets now);
    }
    else record { handler = handler; heartbeats = true; following = none }

-- main as a whole: it exits with a status if the settings cannot be loaded, before anything is
-- started, or crashes by a panic of time.NewTicker.
pub data Run : Type 0 where
  exited : ℕ → Run
  crashed : Run
  serving : Process → Run

-- time.NewTicker panics for an interval that is not above zero: that of the cleanup of the locks, or
-- that of the heartbeat, which only a leader starts here.
abbrev pub tickers_start : Config → Bool
tickers_start cfg =
    is_positive (lock_cleanup_interval cfg)
    && (is_replica cfg || is_positive (heartbeat_interval cfg))

unfoldable pub main : Viper → Time → (ℕ → Sheet) → Run
unfolding start load_config
main v now memory = elim (load_config v) [
  | inr e ↦ exited 1
  | inl cfg ↦ if tickers_start cfg then serving (start cfg now memory) else crashed
]

-- The goroutine that connects, after some attempts: whether one has succeeded. The monitor that the
-- one that succeeds starts makes a ticker, and `none` is the panic of that.
unfoldable pub connect_in_background : Config → List Attempt → Client → Option (Client × Bool)
connect_in_background cfg [] c = some (c, false)
connect_in_background cfg (a ∷ attempts) c =
    let (c', done) = connect a c in
    let rest = connect_in_background cfg attempts c' in
    if done then if is_positive (heartbeat_interval cfg) then some (c', true) else none else rest

abbrev succeeds : Attempt → Bool
succeeds (connected now) = true
succeeds _ = false

abbrev any_succeeds : List Attempt → Bool
any_succeeds [] = false
any_succeeds (a ∷ attempts) = succeeds a || any_succeeds attempts

-- The goroutine goes on until an attempt succeeds, however many fail: it never promotes the replica. The
-- interval of the heartbeat is above zero.
connect_in_background_lem :
    (cfg : Config) (attempts : List Attempt) (c : Client)
    → is_positive (heartbeat_interval cfg) ≡ true
    → (c' : Client) × (connect_in_background cfg attempts c ≡ some (c', any_succeeds attempts))
      × (c'.is_promoted ≡ c.is_promoted)
      × (c'.sheets ≡ c.sheets)
unfolding connect_in_background connect
connect_in_background_lem cfg [] c fits = (c, refl, refl, refl)
connect_in_background_lem cfg (dial_failed ∷ attempts) c fits =
    connect_in_background_lem cfg attempts c fits
connect_in_background_lem cfg (write_failed now ∷ attempts) c fits =
    connect_in_background_lem cfg attempts _ fits
connect_in_background_lem cfg (connected now ∷ attempts) c fits =
    (record c { has_conn = true; last_heartbeat = now }, rw fits refl, refl, refl)
