-- ===== src/Lock/Race/Twice.antt =====
-- Two clients that find an expired lock can both acquire it.
use mathlib.Core.Path.{subst}
use advo_cache.Base.{
  sym, ℕ, ◌+◌, ◌<◌, ◌≤◌, ◌≡◌, true, false, [], ◌∷◌, List, some, String, arith, ◌=?◌, text_key,
}
use advo_cache.Base.Dict.{lookup, insert}
use advo_cache.Time.{Time, Duration, add}
use advo_cache.Cache.{update}
use advo_cache.Lock.{is_expired, new_lock}
use advo_cache.Lock.Race.{
  composite, start, won, creating, overwriting, Target, System, Turn, move, run,
}

-- Each takes its three steps in turn, and every reading of the clock is the same.
abbrev pub turn : Time → ℕ → Turn
turn now i = record { client = i; now = now; seen = now }

abbrev pub schedule : Time → ℕ → ℕ → List Turn
schedule now i j = turn now i ∷ turn now j ∷ turn now i ∷ turn now j ∷ turn now i ∷ turn now j ∷ []

module _ (t : Target) (owner : ℕ → String) (ttl : ℕ → Duration) (now : Time) (i : ℕ)
    (sys : System) where
  -- The states after each of the three steps.
  abbrev pub checked : System
  checked = record sys { stages = update sys.stages i (creating now) }

  abbrev pub created : System
  created = record sys {
    store = record sys.store {
      cells =
          update sys.store.cells sys.store.fresh (new_lock t.sheet_id t.key (owner i) (ttl i) now);
      fresh = sys.store.fresh + 1;
    };
    stages = update sys.stages i (overwriting sys.store.fresh);
  }

  abbrev pub stored : ℕ → System
  stored q = record sys {
    store = record sys.store { locks = insert (composite t) q sys.store.locks };
    stages = update sys.stages i (won q);
  }

  pub move-checked :
      (p : ℕ)
      → sys.stages i ≡ start
      → lookup (composite t) sys.store.locks ≡ some p
      → is_expired (sys.store.cells p) now ≡ true
      → move t owner ttl (turn now i) sys ≡ checked
  unfolding move
  move-checked p at found old = ground arith

  pub move-created :
      (p : ℕ)
      → sys.stages i ≡ creating now
      → lookup (composite t) sys.store.locks ≡ some p
      → is_expired (sys.store.cells p) now ≡ true
      → move t owner ttl (turn now i) sys ≡ created
  unfolding move
  move-created p at found old = ground arith

  pub move-stored :
      (q : ℕ) → sys.stages i ≡ overwriting q → move t owner ttl (turn now i) sys ≡ stored q
  unfolding move
  move-stored q at = ground arith

-- Two clients have acquired the key, each with a lock of its own that has not expired.
abbrev pub BothHold : (ℕ → String) → Time → ℕ → ℕ → System → Type 0
BothHold owner now i j sys =
    (a : ℕ) × (b : ℕ) × (sys.stages i ≡ won a)
    × (sys.stages j ≡ won b)
    × ((sys.store.cells a).owner ≡ owner i)
    × ((sys.store.cells b).owner ≡ owner j)
    × (is_expired (sys.store.cells a) now ≡ false)
    × (is_expired (sys.store.cells b) now ≡ false)

-- Whenever a key's lock has expired, there is a schedule in which two clients both acquire it, each
-- with a lock of its own that has not expired.
pub both_won :
    (t : Target) (owner : ℕ → String) (ttl : ℕ → Duration) (sys : System) (p i j : ℕ) (now : Time)
    → lookup (composite t) sys.store.locks ≡ some p
    → p < sys.store.fresh
    → is_expired (sys.store.cells p) now ≡ true
    → (i =? j) ≡ false
    → sys.stages i ≡ start
    → sys.stages j ≡ start
    → now ≤ add now (ttl i)
    → now ≤ add now (ttl j)
    → BothHold owner now i j (run t owner ttl (schedule now i j) sys)
unfolding run
both_won t owner ttl sys p i j now found low old ne si sj ti tj =
    let f = sys.store.fresh in
    let s₁ = checked t owner ttl now i sys in
    let s₂ = checked t owner ttl now j s₁ in
    let s₃ = created t owner ttl now i s₂ in
    let s₄ = created t owner ttl now j s₃ in
    let s₅ = stored t owner ttl now i s₄ f in
    let s₆ = stored t owner ttl now j s₅ (f + 1) in
    let whole : run t owner ttl (schedule now i j) sys ≡ s₆ = cc (
      move-checked t owner ttl now i sys p si found old,
      move-checked t owner ttl now j s₁ p (ground arith) found old,
      move-created t owner ttl now i s₂ p (ground arith) found old,
      move-created t owner ttl now j s₃ p (ground arith) found (ground arith),
      move-stored t owner ttl now i s₄ f (ground arith),
      move-stored t owner ttl now j s₅ (f + 1) (ground arith),
    ) in
    subst (BothHold owner now i j) (sym whole)
      (f, f + 1, ground arith, ground arith, ground arith, ground arith, ground arith, ground arith)
