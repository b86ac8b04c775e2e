-- ===== src/Replica/Race.antt =====
-- The goroutines of replica/client.go beside one another: the one that listens and tries again when it
-- has lost the leader, and the monitors of the heartbeat. A stage of the first, or a tick of a monitor,
-- is one step.
pub mod Promotion
use advo_cache.Base.{
  Option, none, ap, ◌∙◌, ℕ, zero, suc, ◌-◌, ◌≡◌, refl, Bool, true, false, not, ◌||◌, List, [], ◌∷◌,
  some, String, arith, if◌then◌else◌,
}
use advo_cache.Time.{Time, exceeds}
use advo_cache.Config.{Config, cache_ttl, heartbeat_timeout}
use advo_cache.Value.{Value}
use advo_cache.Cache.{Entry, default_capacity}
use advo_cache.Cache.Lru
use advo_cache.Message.{replicate}
use advo_cache.Replica.{
  Client, Reads, Attempt, dial_failed, write_failed, connected, connect, promote_to_leader,
  monitor_tick, handle_message,
}
use advo_cache.Replica.Failover.{succeeds}
use advo_cache.Replica.Follow.{Follows, replicate-Follows}

-- Where the goroutine stands: it reads, it has so many attempts left, or it has ended.
pub data Stage : Type 0 where
  listening finished : Stage
  retrying : ℕ → Stage

-- `closed` says whether the channel `done` is closed.
pub record Running : Type 0 where
  pub client : Client
  pub stage : Stage
  pub closed : Bool

-- The loop of listen begins again (it ends if the channel is closed or there is no connection), a read
-- fails, handleLeaderDisconnect sleeps and goes on, a monitor
-- ticks, or a heartbeat comes in.
pub data Step : Type 0 where
  looped dropped : Step
  resumed : Attempt → Step
  ticked heartbeat_heard : Time → Step

-- Close: a second one panics. The connection is closed, and stays where it is.
unfoldable pub close : Running → Option Running
close s = if s.closed then none else some (record s { closed = true })

-- The next attempt, or the promotion when none is left.
unfoldable pub resume : Attempt → ℕ → Client → Client × Stage
unfolding connect promote_to_leader
resume a zero c = (promote_to_leader c, finished)
resume a (suc n) c = let (c', done) = connect a c in (c', if done then listening else retrying n)

abbrev pub overdue : Config → Time → Client → Bool
overdue cfg now c = exceeds (now - c.last_heartbeat) (heartbeat_timeout cfg)

module _ (cfg : Config) where
  unfoldable pub advance : Step → Running → Running
  unfolding resume monitor_tick
  advance looped s = elim s.stage [
    | listening ↦ record s {
      stage = if s.closed || not s.client.has_conn then finished else listening;
    }
    | finished ↦ s
    | retrying n ↦ s
  ]
  advance dropped s = elim s.stage [
    | listening ↦ record s { stage = if s.client.is_promoted then finished else retrying 3 }
    | finished ↦ s
    | retrying n ↦ s
  ]
  advance (resumed a) s = elim s.stage [
    | listening ↦ s
    | finished ↦ s
    | retrying n ↦ let (c, stage) = resume a n s.client in record s { client = c; stage = stage }
  ]
  advance (ticked now) s = record s { client = (monitor_tick cfg now s.client).0 }
  advance (heartbeat_heard now) s = elim s.stage [
    | listening ↦ record s { client = record s.client { last_heartbeat = now } }
    | finished ↦ s
    | retrying n ↦ s
  ]

  unfoldable pub advance_all : List Step → Running → Running
  unfolding advance
  advance_all [] s = s
  advance_all (x ∷ xs) s = advance_all xs (advance x s)

  -- A step that promotes: a tick when the heartbeat is overdue, or an attempt when none is left.
  abbrev pub promotes : Step → Running → Bool
  promotes looped s = false
  promotes dropped s = false
  promotes (heartbeat_heard now) s = false
  promotes (ticked now) s = overdue cfg now s.client
  promotes (resumed a) s = elim s.stage [
    | listening ↦ false
    | finished ↦ false
    | retrying n ↦ elim n [ zero ↦ true | suc k ↦ false ]
  ]

  abbrev pub some_promotes : List Step → Running → Bool
  some_promotes [] s = false
  some_promotes (x ∷ xs) s = promotes x s || some_promotes xs (advance x s)
