-- ===== src/Replica/Race/Promotion.antt =====
-- When a replica of replica/client.go promotes itself, however its goroutines interleave.
use advo_cache.Base.{
  ap, ◌∙◌, ℕ, zero, suc, ◌≡◌, refl, true, false, ◌||◌, List, [], ◌∷◌, some, String, arith,
}
use advo_cache.Time.{Time}
use advo_cache.Config.{Config, cache_ttl}
use advo_cache.Value.{Value}
use advo_cache.Cache.{Entry, default_capacity}
use advo_cache.Cache.Lru
use advo_cache.Message.{replicate}
use advo_cache.Replica.{
  Client, Reads, Attempt, dial_failed, write_failed, connected, connect, promote_to_leader,
  monitor_tick, handle_message,
}
use advo_cache.Replica.Failover.{succeeds}
use advo_cache.Replica.Follow.{Follows, replicate-Follows}
use advo_cache.Replica.Race.{
  Stage, listening, finished, retrying, Running, Step, looped, dropped, resumed, ticked,
  heartbeat_heard, close, resume, overdue, advance, advance_all, promotes, some_promotes,
}

module _ (cfg : Config) where
  resume-promotes :
      (a : Attempt) (n : ℕ) (c : Client)
      → (resume a n c).0.is_promoted ≡ (c.is_promoted || elim n [ zero ↦ true | suc k ↦ false ])
  unfolding resume connect promote_to_leader
  resume-promotes a zero c = ground arith
  resume-promotes dial_failed (suc n) c = ground arith
  resume-promotes (write_failed now) (suc n) c = ground arith
  resume-promotes (connected now) (suc n) c = ground arith

  advance-promotes :
      (x : Step) (s : Running) (stage : Stage)
      → s.stage ≡ stage
      → (advance cfg x s).client.is_promoted ≡ (s.client.is_promoted || promotes cfg x s)
  unfolding advance monitor_tick promote_to_leader
  advance-promotes looped s listening at = ground arith
  advance-promotes looped s finished at = ground arith
  advance-promotes looped s (retrying n) at = ground arith
  advance-promotes dropped s listening at = ground arith
  advance-promotes dropped s finished at = ground arith
  advance-promotes dropped s (retrying n) at = ground arith
  advance-promotes (ticked now) s stage at = ground arith
  advance-promotes (heartbeat_heard now) s listening at = ground arith
  advance-promotes (heartbeat_heard now) s finished at = ground arith
  advance-promotes (heartbeat_heard now) s (retrying n) at = ground arith
  advance-promotes (resumed a) s listening at = ground arith
  advance-promotes (resumed a) s finished at = ground arith
  advance-promotes (resumed a) s (retrying n) at = rw at (resume-promotes a n s.client)

  -- However the goroutines interleave, a replica is promoted exactly if it was promoted before, or a
  -- tick finds the heartbeat overdue, or an attempt is due when none is left. So a promotion is never undone.
  pub advance_all-promotes :
      (xs : List Step) (s : Running)
      → (advance_all cfg xs s).client.is_promoted ≡ (s.client.is_promoted || some_promotes cfg xs s)
  unfolding advance_all
  advance_all-promotes [] s = ground arith
  advance_all-promotes (x ∷ xs) s =
      ground (arith, advance_all-promotes xs (advance cfg x s), advance-promotes x s s.stage refl)

  -- The connection is lost, the monitor promotes the replica while handleLeaderDisconnect sleeps, and
  -- then its first attempt succeeds.
  abbrev pub late_connection : Time → Time → List Step
  late_connection now later = dropped ∷ ticked now ∷ resumed (connected later) ∷ []

  late_lem :
      (s : Running) (now later : Time)
      → s.stage ≡ listening
      → s.client.is_promoted ≡ false
      → overdue cfg now s.client ≡ true
      → advance_all cfg (late_connection now later) s ≡ record {
        client = record s.client { is_promoted = true; has_conn = true; last_heartbeat = later };
        stage = listening;
        closed = s.closed;
      }
  unfolding advance_all advance resume monitor_tick promote_to_leader connect
  late_lem s now later at plain late = ground arith

  -- A replica that is listening and not promoted loses the leader, and its heartbeat is overdue at
  -- a tick before its first attempt to connect again, which succeeds: then it is promoted and
  -- connected at once, goes on listening, and sets a value, without a jitter, that the old leader
  -- sends for a sheet that it has.
  pub promoted_and_connected :
      (r : Reads) (s : Running) (now later : Time) (id key : String) (v : Value) (es : List Entry)
      → s.stage ≡ listening
      → s.client.is_promoted ≡ false
      → overdue cfg now s.client ≡ true
      → Follows id es s.client
      → (s' : Running) × (c' : Client) × (advance_all cfg (late_connection now later) s ≡ s')
        × (s'.client.is_promoted ≡ true)
        × (s'.client.has_conn ≡ true)
        × (s'.stage ≡ listening)
        × (handle_message cfg r (replicate id key v false) s'.client ≡ some c')
        × Follows id (Lru.set default_capacity key v (cache_ttl cfg) r.now es).0 c'
  unfolding advance_all
  promoted_and_connected r s now later id key v es at plain late follows =
      let c = record s.client { is_promoted = true; has_conn = true; last_heartbeat = later } in
      let s' : Running = record { client = c; stage = listening; closed = s.closed } in
      let (c', ran, set) = replicate-Follows cfg r id key v c es follows in
      (s', c', late_lem s now later at plain late, refl, refl, refl, ran, set)

  abbrev at_stage : Running → Client → Stage → Running
  at_stage s c stage = record s { client = c; stage = stage }

  failed_try :
      (s : Running) (a : Attempt) (n : ℕ) (c : Client)
      → succeeds a ≡ false
      → advance cfg (resumed a) (at_stage s c (retrying (suc n)))
        ≡ at_stage s (connect a c).0 (retrying n)
  unfolding advance resume connect
  failed_try s dial_failed n c failed = refl
  failed_try s (write_failed now) n c failed = refl
  failed_try s (connected now) n c failed = absurd (ground arith)

  noticed :
      (s : Running)
      → s.stage ≡ listening
      → s.client.is_promoted ≡ false
      → advance cfg dropped s ≡ at_stage s s.client (retrying 3)
  unfolding advance
  noticed s at plain = ground arith

  last_try :
      (s : Running) (e : Attempt) (c : Client)
      → (advance cfg (resumed e) (at_stage s c (retrying 0))).client.is_promoted ≡ true
  unfolding advance resume promote_to_leader
  last_try s e c = ground arith

  -- Three attempts and the promotion after them.
  abbrev pub last_tries : Attempt → Attempt → Attempt → Attempt → List Step
  last_tries a b d e = dropped ∷ resumed a ∷ resumed b ∷ resumed d ∷ resumed e ∷ []

  -- A replica that is listening and not promoted is closed, which ends its read: if none of its
  -- three attempts to connect again succeeds, it promotes itself to a leader, and has ended.
  pub closed_and_promoted :
      (s : Running) (a b d e : Attempt)
      → s.stage ≡ listening
      → s.client.is_promoted ≡ false
      → s.closed ≡ false
      → (succeeds a || (succeeds b || succeeds d)) ≡ false
      → (s' : Running) × (close s ≡ some s')
        × ((advance_all cfg (last_tries a b d e) s').closed ≡ true)
        × ((advance_all cfg (last_tries a b d e) s').client.is_promoted ≡ true)
        × ((advance_all cfg (last_tries a b d e) s').stage ≡ finished)
  unfolding close advance_all
  closed_and_promoted s a b d e at plain live failed =
      let s' = record s { closed = true } in
      let c₁ = (connect a s.client).0 in
      let c₂ = (connect b c₁).0 in
      let c₃ = (connect d c₂).0 in
      let whole : advance_all cfg (last_tries a b d e) s'
          ≡ advance cfg (resumed e) (at_stage s' c₃ (retrying 0)) =
        cc (
          noticed s' at plain,
          failed_try s' a 2 s.client (ground arith),
          failed_try s' b 1 c₁ (ground arith),
          failed_try s' d 0 c₂ (ground arith),
        ) in
      let last : (advance cfg (resumed e) (at_stage s' c₃ (retrying 0))).client.is_promoted ≡ true =
        last_try s' e c₃ in
      (
        s',
        ground arith,
        ap (λ x. x.closed) whole,
        ap (λ x. x.client.is_promoted) whole ∙ last,
        ap (λ x. x.stage) whole,
      )
