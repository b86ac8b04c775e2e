-- ===== src/Lock/Race/Swept.antt =====
-- The cleanup of lock.go can delete a lock that was acquired after the old one had been collected.
use mathlib.Core.Path.{subst}
use advo_cache.Base.{
  sym, ℕ, ◌+◌, ◌<◌, ◌≤◌, ◌≡◌, refl, false, true, [], ◌∷◌, List, none, some, String, arith, ◌=?◌,
  text_key, eq_iff, ap,
}
use advo_cache.Base.Dict.{lookup, insert, lookup-remove}
use advo_cache.Time.{Time, Duration, add}
use advo_cache.Cache.{update}
use advo_cache.Lock.{is_expired, new_lock}
use advo_cache.Lock.Race.{composite, start, won, creating, Target, System, move}
use advo_cache.Lock.Race.Twice.{
  turn, checked, created, stored, BothHold, move-checked, move-created, move-stored,
}
use advo_cache.Lock.Race.Sweeping.{
  Phase, collecting, deleting, Step, attempted, visited, ranged, deleted, Cleaning, visit, without,
  advance, advance_all,
}

-- The cleanup collects the key, a client acquires it, and the key is deleted.
abbrev pub swept_schedule : String → Time → ℕ → List Step
swept_schedule k now i =
    visited k now
    ∷ ranged
    ∷ attempted (turn now i)
    ∷ attempted (turn now i)
    ∷ attempted (turn now i)
    ∷ deleted
    ∷ []

-- Only then another client begins, and takes its two steps.
abbrev pub late_schedule : Time → ℕ → List Step
late_schedule now j = attempted (turn now j) ∷ attempted (turn now j) ∷ []

module _ (t : Target) (owner : ℕ → String) (ttl : ℕ → Duration) (now : Time) (i : ℕ)
    (sys : System) where
  -- The steps of a client that finds no lock.
  abbrev taken : System
  taken = record sys {
    store = record sys.store {
      cells =
          update sys.store.cells sys.store.fresh (new_lock t.sheet_id t.key (owner i) (ttl i) now);
      fresh = sys.store.fresh + 1;
      locks = insert (composite t) sys.store.fresh sys.store.locks;
    };
    stages = update sys.stages i (won sys.store.fresh);
  }

  move-free :
      sys.stages i ≡ start
      → lookup (composite t) sys.store.locks ≡ none
      → move t owner ttl (turn now i) sys ≡ checked t owner ttl now i sys
  unfolding move
  move-free at absent = ground arith

  move-taken :
      sys.stages i ≡ creating now
      → lookup (composite t) sys.store.locks ≡ none
      → move t owner ttl (turn now i) sys ≡ taken
  unfolding move
  move-taken at absent = ground arith

module _ (t : Target) (owner : ℕ → String) (ttl : ℕ → Duration) where
  abbrev cleaning : System → Phase → Cleaning
  cleaning sys phase = record { attempts = sys; phase = phase }

  visited_lem :
      (k : String) (now : Time) (sys : System) (p : ℕ)
      → lookup k sys.store.locks ≡ some p
      → is_expired (sys.store.cells p) now ≡ true
      → advance t owner ttl (visited k now) (cleaning sys (collecting []))
        ≡ cleaning sys (collecting (k ∷ []))
  unfolding advance visit
  visited_lem k now sys p found old = ground arith

  attempted_lem :
      (now : Time) (i : ℕ) (sys sys' : System) (phase : Phase)
      → move t owner ttl (turn now i) sys ≡ sys'
      → advance t owner ttl (attempted (turn now i)) (cleaning sys phase) ≡ cleaning sys' phase
  unfolding advance
  attempted_lem now i sys sys' phase e = ap (λ x. cleaning x phase) e

  ranged_lem :
      (sys : System) (ks : List String)
      → advance t owner ttl ranged (cleaning sys (collecting ks)) ≡ cleaning sys (deleting ks)
  unfolding advance
  ranged_lem sys ks = refl

  deleted_lem :
      (sys : System) (k : String) (ks : List String)
      → advance t owner ttl deleted (cleaning sys (deleting (k ∷ ks)))
        ≡ cleaning (without k sys) (deleting ks)
  unfolding advance
  deleted_lem sys k ks = refl

  module _ (sys : System) (p i j : ℕ) (now : Time)
      (found : lookup (composite t) sys.store.locks ≡ some p) (below : p < sys.store.fresh)
      (old : is_expired (sys.store.cells p) now ≡ true) (si : sys.stages i ≡ start) where
    abbrev acquired : System
    acquired =
        stored t owner ttl now i (created t owner ttl now i (checked t owner ttl now i sys))
          sys.store.fresh

    swept_away_lem :
        advance_all t owner ttl (swept_schedule (composite t) now i) (cleaning sys (collecting []))
        ≡ cleaning (without (composite t) acquired) (deleting [])
    unfolding advance_all
    swept_away_lem =
        let s₁ = checked t owner ttl now i sys in
        let s₂ = created t owner ttl now i s₁ in
        let k = composite t in
        let ks = deleting (k ∷ []) in
        cc (
          visited_lem k now sys p found old,
          ranged_lem sys (k ∷ []),
          attempted_lem now i sys s₁ ks (move-checked t owner ttl now i sys p si found old),
          attempted_lem now i s₁ s₂ ks
              (move-created t owner ttl now i s₁ p (ground arith) found old),
          attempted_lem now i s₂ acquired ks
              (move-stored t owner ttl now i s₂ sys.store.fresh (ground arith)),
          deleted_lem acquired k [],
        )

    -- Whenever the lock on a key has expired, there is a schedule in which the cleanup deletes the lock
    -- of a client that has acquired the key, while it has not expired: a second client that begins only then
    -- acquires the key too. Before, the cleanup has collected nothing and neither client has begun; their
    -- locks do not end before now, and the old lock is in memory.
    pub swept_away :
        (i =? j) ≡ false
        → sys.stages j ≡ start
        → now ≤ add now (ttl i)
        → now ≤ add now (ttl j)
        → (s : Cleaning) × (a : ℕ) × (advance_all t owner ttl
              (swept_schedule (composite t) now i)
              (cleaning sys (collecting []))
            ≡ s)
          × (s.attempts.stages i ≡ won a)
          × ((s.attempts.store.cells a).owner ≡ owner i)
          × (is_expired (s.attempts.store.cells a) now ≡ false)
          × (lookup (composite t) s.attempts.store.locks ≡ none)
          × (s.attempts.stages j ≡ start)
          × BothHold owner now i j (advance_all t owner ttl (late_schedule now j) s).attempts
    unfolding advance_all
    swept_away ne sj ti tj =
        let f = sys.store.fresh in
        let s = without (composite t) acquired in
        let ph = deleting [] in
        let free : lookup (composite t) s.store.locks ≡ none = ground (
          arith,
          lookup-remove (composite t) (composite t) acquired.store.locks,
          eq_iff (composite t) (composite t),
        ) in
        let s₇ = checked t owner ttl now j s in
        let s₈ = taken t owner ttl now j s₇ in
        let late : advance_all t owner ttl (late_schedule now j) (cleaning s ph) ≡ cleaning s₈ ph =
          cc (
            attempted_lem now j s s₇ ph (move-free t owner ttl now j s (ground arith) free),
            attempted_lem now j s₇ s₈ ph (move-taken t owner ttl now j s₇ (ground arith) free),
          ) in
        (
          cleaning s ph,
          f,
          swept_away_lem,
          ground arith,
          ground arith,
          ground arith,
          free,
          ground arith,
          subst (λ x. BothHold owner now i j x.attempts) (sym late)
              (
                f,
                f + 1,
                ground arith,
                ground arith,
                ground arith,
                ground arith,
                ground arith,
                ground arith,
              ),
        )
