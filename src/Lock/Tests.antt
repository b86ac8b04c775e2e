-- ===== src/Lock/Tests.antt =====
-- The theorems on locks, at concrete locks and schedules.
use Prim.Native.String.{◌++◌}
use text.Mathlib.TextLemmas.{append_cancel_left, append-eq-nil_iff}
use advo_cache.Base.{
  zero, suc, ◌=?◌, ℕ, ◌≡◌, refl, false, List, [], ◌∷◌, none, String, arith, ◌==◌, text_key, eq_iff,
}
use advo_cache.Base.Dict.{lookup, insert, remove}
use advo_cache.Lock.{Lock, Manager, ok, err, lock_held, composite_key, new_lock, try_acquire}
use advo_cache.Lock.Keys.{try_acquire_across_sheets}
use advo_cache.Lock.Race.{Store, start, Target, Turn, step, move, run}
use advo_cache.Lock.Race.Alone.{Agree, attempt, attempt-try_acquire}
use advo_cache.Lock.Race.Exclusive.{run_exclusive}
use advo_cache.Lock.Race.Twice.{BothHold, schedule, both_won}
use advo_cache.Lock.Race.Sweeping.{
  collecting, Step, attempted, visited, ranged, deleted, Cleaning, advance, advance_all,
  advance_all_exclusive, visit,
}
use advo_cache.Lock.Race.Swept.{late_schedule, swept_schedule, swept_away}
use advo_cache.Base.{some}
use advo_cache.Lock.{is_expired}
use advo_cache.Lock.Race.{won, System}

abbrev cart : String
cart = "cart"

abbrev cart_lock : Lock
cart_lock = new_lock "shop" "cart" "a" 10 100

abbrev locks : Manager
locks = ("shop:cart", cart_lock) ∷ ("shop:till", new_lock "shop" "till" "b" 10 100) ∷ []

try_acquire_across_sheets_example :
    (m' : Manager) × (l : Lock) × (try_acquire "shop" "eu:cart" "a" 10 100 100 100 [] ≡ (m', ok l))
    × (try_acquire "shop:eu" "cart" "b" 10 105 105 105 m' ≡ (m', err lock_held))
unfolding lookup
try_acquire_across_sheets_example =
    try_acquire_across_sheets [] "shop" "eu" "cart" "a" "b" 10 10 100 100 100 105 105 105
      (ground (arith, eq_iff "a" "b")) (omega arith) tt refl

abbrev target : Target
target = record { sheet_id = "shop"; key = "cart" }

abbrev owner_of : ℕ → String
owner_of zero = ""
owner_of (suc n) = "x" ++ owner_of n

owner_of-distinct : (i j : ℕ) → (i =? j) ≡ false → (owner_of i == owner_of j) ≡ false
owner_of-distinct zero zero ne = absurd (ground arith)
owner_of-distinct zero (suc j) ne = ground (
  arith,
  eq_iff "" ("x" ++ owner_of j),
  append-eq-nil_iff {p = "x"} {q = owner_of j},
  eq_iff "x" "",
)
owner_of-distinct (suc i) zero ne = ground (
  arith,
  eq_iff ("x" ++ owner_of i) "",
  append-eq-nil_iff {p = "x"} {q = owner_of i},
  eq_iff "x" "",
)
owner_of-distinct (suc i) (suc j) ne = ground (
  arith,
  owner_of-distinct i j,
  eq_iff (owner_of i) (owner_of j),
  eq_iff (owner_of (suc i)) (owner_of (suc j)),
  append_cancel_left "x" (owner_of i) (owner_of j),
)

-- One lock in memory, which ends at 110.
abbrev store : Store
store = record { cells = λ _. cart_lock; fresh = 4; locks = ("shop:cart", 3) ∷ [] }

both_won_example : BothHold owner_of 120 0 1 (
    run target owner_of
      (λ _. 10)
      (schedule 120 0 1)
      (record { store = store; stages = λ _. start }))
unfolding lookup composite_key
both_won_example =
    both_won target owner_of (λ _. 10) (record { store = store; stages = λ _. start }) 3 0 1 120
      refl (omega arith) refl refl refl refl (omega arith) (omega arith)

attempt-try_acquire_example :
    Agree
      (composite_key "shop" "cart")
      (attempt target "b" 10 120 120 120 store)
      (try_acquire "shop" "cart" "b" 10 120 120 120 (("shop:cart", cart_lock) ∷ []))
unfolding lookup composite_key
attempt-try_acquire_example =
    attempt-try_acquire target "b" 10 120 120 120 store (("shop:cart", cart_lock) ∷ [])
      (λ p found. ground arith) refl

abbrev one : ℕ
one = 1

-- Client 1 acquires the free key in three steps, while client 0 is refused.
abbrev turns : List Turn
turns =
    record { client = 1; now = 100; seen = 100 }
    ∷ record { client = 1; now = 100; seen = 101 }
    ∷ record { client = 0; now = 102; seen = 102 }
    ∷ []

abbrev free_store : Store
free_store = record { cells = λ _. cart_lock; fresh = 4; locks = [] }

run_exclusive_example : one ≡ one
unfolding lookup run move step insert remove composite_key
run_exclusive_example =
    run_exclusive target owner_of (λ _. 10) 110 owner_of-distinct turns
      (record { store = free_store; stages = λ _. start }) 1 1 4 4 (refl, λ i. tt)
      ((omega arith, omega arith), ((omega arith, omega arith), ((omega arith, omega arith), tt)))
      refl refl

-- A round of the cleanup runs among the steps of client 1, and another one after them.
abbrev steps : List Step
steps =
    visited "shop:cart" 100
    ∷ attempted (record { client = 1; now = 100; seen = 100 })
    ∷ ranged
    ∷ attempted (record { client = 1; now = 100; seen = 101 })
    ∷ deleted
    ∷ visited "shop:cart" 109
    ∷ ranged
    ∷ deleted
    ∷ []

abbrev tidy : Cleaning
tidy = record {
  attempts = record { store = free_store; stages = λ _. start };
  phase = collecting [];
}

advance_all_exclusive_example :
    (lookup "shop:cart" (advance_all target owner_of (λ _. 10) steps tidy).attempts.store.locks
      ≡ some 4)
    × (one ≡ one)
unfolding lookup advance_all advance visit move step insert remove composite_key
advance_all_exclusive_example =
    advance_all_exclusive target owner_of (λ _. 10) 110 owner_of-distinct steps tidy 1 1 4 4
      (refl, λ i. tt) refl
      (
        omega arith,
        (
          (omega arith, omega arith),
          (tt, ((omega arith, omega arith), (tt, (omega arith, (tt, (tt, tt)))))),
        ),
      )
      refl refl

abbrev waiting : System
waiting = record { store = store; stages = λ _. start }

swept_away_example :
    (s : Cleaning) × (a : ℕ) × (advance_all target owner_of
        (λ _. 10)
        (swept_schedule (composite_key "shop" "cart") 120 0)
        (record { attempts = waiting; phase = collecting [] })
      ≡ s)
    × (s.attempts.stages 0 ≡ won a)
    × ((s.attempts.store.cells a).owner ≡ owner_of 0)
    × (is_expired (s.attempts.store.cells a) 120 ≡ false)
    × (lookup (composite_key "shop" "cart") s.attempts.store.locks ≡ none)
    × (s.attempts.stages 1 ≡ start)
    × BothHold owner_of 120 0 1
        (advance_all target owner_of (λ _. 10) (late_schedule 120 1) s).attempts
unfolding lookup composite_key
swept_away_example =
    swept_away target owner_of (λ _. 10) waiting 3 0 1 120 refl (omega arith) refl refl refl refl
      (omega arith) (omega arith)
