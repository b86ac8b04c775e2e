-- ===== src/Lock/Race.antt =====
-- TryAcquire of lock.go with its goroutines interleaved: each call of the `sync.Map` is one atomic
-- step, with readings of the clock of its own, and locks are shared through pointers. All attempts
-- here are on one composite key, one attempt to a client.
pub mod Alone
pub mod Exclusive
pub mod Sweeping
pub mod Swept
pub mod Twice
use advo_cache.Base.{
  ℕ, ◌+◌, ◌≤◌, ◌≡◌, ◌≢◌, Bool, true, false, not, ◌&&◌, List, [], ◌∷◌, Option, none, some, String,
  ◌==◌, text_key, if◌then◌else◌,
}
use advo_cache.Base.Dict.{Dict, lookup, insert}
use advo_cache.Time.{Time, Duration, add}
use advo_cache.Cache.{update}
use advo_cache.Lock.{Lock, is_expired, new_lock, composite_key}

-- The locks in memory, the next address, and the map from composite keys to addresses.
pub record Store : Type 0 where
  pub cells : ℕ → Lock
  pub fresh : ℕ
  pub locks : Dict String ℕ

-- Where an attempt stands. `creating` carries the first reading of the clock, `refreshing` that and
-- the address of the client's own lock, `overwriting` and `won` the address of a lock.
pub data Stage : Type 0 where
  start lost : Stage
  creating : Time → Stage
  refreshing : Time → ℕ → Stage
  overwriting won : ℕ → Stage

-- The key that all attempts are on.
pub record Target : Type 0 where
  pub sheet_id : String
  pub key : String

abbrev pub composite : Target → String
composite t = composite_key t.sheet_id t.key

-- One step of an attempt: `now` is what `time.Now()` reads at its start, `seen` what IsExpired reads.
unfoldable pub step : Target → String → Duration → (now seen : Time) → Stage → Store → Store × Stage
step t owner ttl now seen start s = elim (lookup (composite t) s.locks) [
  | none ↦ (s, creating now)
  | some p ↦
      if is_expired (s.cells p) seen
      then (s, creating now)
      else if (s.cells p).owner == owner
      then (s, refreshing now p)
      else (s, lost)
]
step t owner ttl now seen (refreshing began p) s = (
  record s { cells = update s.cells p (record (s.cells p) { expires_at = add began ttl }) },
  won p,
)
step t owner ttl now seen (creating began) s =
    let lock = new_lock t.sheet_id t.key owner ttl began in
    let s' = record s { cells = update s.cells s.fresh lock; fresh = s.fresh + 1 } in
    elim (lookup (composite t) s.locks) [
      | none ↦ (record s' { locks = insert (composite t) s.fresh s.locks }, won s.fresh)
      | some p ↦
          if not ((s.cells p).owner == owner) && not (is_expired (s.cells p) seen)
          then (s', lost)
          else (s', overwriting s.fresh)
    ]
step t owner ttl now seen (overwriting p) s =
    (record s { locks = insert (composite t) p s.locks }, won p)
step t owner ttl now seen (won p) s = (s, won p)
step t owner ttl now seen lost s = (s, lost)

-- The clients, by number, and where each stands.
pub record System : Type 0 where
  pub store : Store
  pub stages : ℕ → Stage

-- Who is at turn, and what it reads of the clock.
pub record Turn : Type 0 where
  pub client : ℕ
  pub now : Time
  pub seen : Time

module _ (t : Target) (owner : ℕ → String) (ttl : ℕ → Duration) where
  unfoldable pub move : Turn → System → System
  unfolding step
  move turn sys =
      let i = turn.client in
      let (s, stage) = step t (owner i) (ttl i) turn.now turn.seen (sys.stages i) sys.store in
      record { store = s; stages = update sys.stages i stage }

  unfoldable pub run : List Turn → System → System
  unfolding move
  run [] sys = sys
  run (turn ∷ turns) sys = run turns (move turn sys)
