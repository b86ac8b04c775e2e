-- ===== src/Replica/Failover.antt =====
-- When a replica of replica/client.go makes itself a leader.
use advo_cache.Base.{
  ℕ, zero, suc, ◌-◌, ◌≡◌, refl, Bool, true, false, not, ◌||◌, inl, inr, arith, Bool-cases,
}
use advo_cache.Config.{Config, heartbeat_timeout}
use advo_cache.Time.{Time, exceeds}
use advo_cache.Replica.{
  Client, Attempt, dial_failed, write_failed, connected, connect, reconnect, promote_to_leader,
  monitor_tick,
}

-- Whether an attempt connects.
abbrev pub succeeds : Attempt → Bool
succeeds (connected now) = true
succeeds _ = false

connect-succeeds : (a : Attempt) (c : Client) → (connect a c).1 ≡ succeeds a
unfolding connect
connect-succeeds dial_failed c = refl
connect-succeeds (write_failed now) c = refl
connect-succeeds (connected now) c = refl

connect-is_promoted : (a : Attempt) (c : Client) → (connect a c).0.is_promoted ≡ c.is_promoted
unfolding connect
connect-is_promoted dial_failed c = refl
connect-is_promoted (write_failed now) c = refl
connect-is_promoted (connected now) c = refl

connect-has_conn : (a : Attempt) (c : Client) → succeeds a ≡ true → (connect a c).0.has_conn ≡ true
unfolding connect
connect-has_conn dial_failed c h = ground arith
connect-has_conn (write_failed now) c h = ground arith
connect-has_conn (connected now) c h = refl

-- Whether one of the attempts below a number connects.
unfoldable pub any_succeeds : ℕ → (ℕ → Attempt) → Bool
any_succeeds zero attempts = false
any_succeeds (suc n) attempts = succeeds (attempts n) || any_succeeds n attempts

-- Trying again ends in a promotion exactly if every attempt fails; otherwise the replica has a
-- connection.
pub reconnect-promotes :
    (n : ℕ) (attempts : ℕ → Attempt) (c : Client)
    → c.is_promoted ≡ false
    → ((reconnect n attempts c).is_promoted ≡ not (any_succeeds n attempts))
      × ((reconnect n attempts c).has_conn ≡ any_succeeds n attempts)
unfolding reconnect promote_to_leader any_succeeds
reconnect-promotes zero attempts c p = (ground arith, ground arith)
reconnect-promotes (suc n) attempts c p = elim (Bool-cases (succeeds (attempts n))) [
  | inl done ↦ (
    ground (arith, connect-succeeds (attempts n) c, connect-is_promoted (attempts n) c),
    ground (arith, connect-has_conn (attempts n) c done),
  )
  | inr failed ↦
      let (ih, ih') =
        reconnect-promotes n attempts (connect (attempts n) c).0
          (ground (arith, connect-is_promoted (attempts n) c)) in
      (
        ground (arith, connect-succeeds (attempts n) c),
        ground (arith, connect-succeeds (attempts n) c),
      )
]

module _ (cfg : Config) (now : Time) (c : Client) where
  -- A tick of the monitor promotes exactly a replica that is none yet whose last heartbeat is older than the
  -- timeout; it goes on watching exactly if the replica is still one. A promoted replica has dropped
  -- its connection, and keeps its sheets.
  monitor_tick-promotes :
      (((monitor_tick cfg now c).0.is_promoted)
        ≡ (c.is_promoted || exceeds (now - c.last_heartbeat) (heartbeat_timeout cfg)))
      × ((monitor_tick cfg now c).1 ≡ not (monitor_tick cfg now c).0.is_promoted)
      × ((monitor_tick cfg now c).0.sheets ≡ c.sheets)
  unfolding monitor_tick promote_to_leader
  monitor_tick-promotes = (ground arith, ground arith, ground arith)
