-- ===== src/Lock/Race/Sweeping.antt =====
-- CleanupExpired of lock.go beside the attempts of the clients: its Range visits one key after the
-- other, and the keys that it has collected are deleted in a second loop. Each visit and each deletion
-- is one atomic step of the `sync.Map`.
use advo_cache.Base.{
  ℕ, ◌≤◌, ◌≡◌, refl, sym, ap, ◌∙◌, inl, inr, false, ◌||◌, List, [], ◌∷◌, ◌++◌, none, some, String,
  arith, ◌=?◌, ◌==◌, text_key, if◌then◌else◌, eq_iff, Bool-cases, Option-cases,
}
use advo_cache.Base.Dict.{lookup, remove, lookup-remove}
use advo_cache.Time.{Time, Duration}
use advo_cache.Lock.{is_expired}
use advo_cache.Lock.Cleanup.{contains}
use advo_cache.Lock.Race.{composite, Store, won, Target, System, Turn, move}
use advo_cache.Lock.Race.Exclusive.{Free, InTime, Kept, move-Kept, sole_holder}

-- The two loops; the list is `toDelete`.
pub data Phase : Type 0 where
  collecting deleting : List String → Phase

-- A client takes a step, or the cleanup does: Range visits a key, at a reading of the clock, Range
-- ends, or the next key is deleted.
pub data Step : Type 0 where
  attempted : Turn → Step
  visited : String → Time → Step
  ranged deleted : Step

pub record Cleaning : Type 0 where
  pub attempts : System
  pub phase : Phase

abbrev pub store_of : Cleaning → Store
store_of s = s.attempts.store

abbrev pub to_delete : Phase → List String
to_delete (collecting ks) = ks
to_delete (deleting ks) = ks

-- The key at which a lock stands that has expired.
unfoldable pub visit : String → Time → Store → List String → List String
visit k now s ks = elim (lookup k s.locks) [
  | none ↦ ks
  | some p ↦ if is_expired (s.cells p) now then ks ++ k ∷ [] else ks
]

abbrev pub without : String → System → System
without k sys = record sys { store = record sys.store { locks = remove k sys.store.locks } }

module _ (t : Target) (owner : ℕ → String) (ttl : ℕ → Duration) where
  -- After the last deletion comes the next round of the ticker.
  unfoldable pub advance : Step → Cleaning → Cleaning
  unfolding move visit
  advance (attempted turn) s = record s { attempts = move t owner ttl turn s.attempts }
  advance (visited k now) s = elim s.phase [
    | collecting ks ↦ record s { phase = collecting (visit k now (store_of s) ks) }
    | deleting ks ↦ s
  ]
  advance ranged s = record s { phase = deleting (to_delete s.phase) }
  advance deleted s = elim s.phase [
    | collecting ks ↦ s
    | deleting ks ↦ elim ks [
      | [] ↦ record s { phase = collecting [] }
      | k ∷ rest ↦ record { attempts = without k s.attempts; phase = deleting rest }
    ]
  ]

  unfoldable pub advance_all : List Step → Cleaning → Cleaning
  unfolding advance
  advance_all [] s = s
  advance_all (x ∷ xs) s = advance_all xs (advance x s)

module _ (t : Target) (owner : ℕ → String) (ttl : ℕ → Duration) (horizon : Time) where
  -- The readings of the clock lie before the horizon, and no lock that is created ends before it.
  abbrev pub IsInTime : Step → Type 0
  IsInTime (attempted turn) = InTime t owner ttl horizon turn
  IsInTime (visited k now) = now ≤ horizon
  IsInTime _ = Unit

  abbrev pub AreInTime : List Step → Type 0
  AreInTime [] = Unit
  AreInTime (x ∷ xs) = IsInTime x × AreInTime xs

  -- One client at most holds the key, and the cleanup has not collected it.
  abbrev Unswept : Cleaning → Type 0
  Unswept s =
      Kept t owner ttl horizon s.attempts × (contains (composite t) (to_delete s.phase) ≡ false)

  contains-append :
      (k j : String) (ks : List String) → contains k (ks ++ j ∷ []) ≡ (contains k ks || (j == k))
  contains-append k j [] = ground arith
  contains-append k j (i ∷ ks) = ground (arith, contains-append k j ks)

  -- Another key is deleted.
  without-Kept :
      (k : String) (sys : System)
      → (k == composite t) ≡ false
      → Kept t owner ttl horizon sys
      → Kept t owner ttl horizon (without k sys)
  without-Kept k sys other (inl (absent, waiting)) =
      inl (rw (lookup-remove k (composite t) sys.store.locks, other) absent, waiting)
  without-Kept k sys other (inr h) = inr (record {
    cell = h.cell;
    holder = h.holder;
    found = rw (lookup-remove k (composite t) sys.store.locks, other) h.found;
    below = h.below;
    owned = h.owned;
    lasting = h.lasting;
    holds = h.holds;
    others = h.others;
  })

  visit_absent :
      (k : String) (now : Time) (s : Store) (ks : List String)
      → lookup k s.locks ≡ none
      → visit k now s ks ≡ ks
  unfolding visit
  visit_absent k now s ks absent = ground arith

  visit_current :
      (k : String) (now : Time) (s : Store) (ks : List String) (p : ℕ)
      → lookup k s.locks ≡ some p
      → is_expired (s.cells p) now ≡ false
      → visit k now s ks ≡ ks
  unfolding visit
  visit_current k now s ks p found current = ground arith

  -- A visit does not collect the key: its lock has not expired.
  visit-Kept :
      (k : String) (now : Time) (sys : System) (ks : List String)
      → now ≤ horizon
      → Kept t owner ttl horizon sys
      → contains (composite t) ks ≡ false
      → contains (composite t) (visit k now sys.store ks) ≡ false
  unfolding visit
  visit-Kept k now sys ks early kept free = elim (Bool-cases (k == composite t)) [
    | inr other ↦ elim (Option-cases (lookup k sys.store.locks)) [
      | inl absent ↦ ground arith
      | inr (p, found) ↦ ground (arith, contains-append (composite t) k ks)
    ]
    | inl same ↦
        let here = ap (λ j. lookup j sys.store.locks) ((eq_iff k (composite t)).0 same) in
        elim kept [
          | inl (absent, waiting) ↦ rw (visit_absent k now sys.store ks (here ∙ absent)) free
          | inr h ↦
              let current : is_expired (sys.store.cells h.cell) now ≡ false =
                ground (arith, h.lasting) in
              rw (visit_current k now sys.store ks h.cell (here ∙ h.found) current) free
        ]
  ]

  module _ (distinct : (i j : ℕ) → (i =? j) ≡ false → (owner i == owner j) ≡ false) where
    advance-Unswept :
        (x : Step) (s : Cleaning) (phase : Phase)
        → s.phase ≡ phase
        → IsInTime x
        → Unswept s
        → Unswept (advance t owner ttl x s)
    unfolding advance
    advance-Unswept (attempted turn) s phase at ok (kept, free) =
        (move-Kept t owner ttl horizon distinct turn s.attempts ok kept, free)
    advance-Unswept ranged s phase at ok (kept, free) = (kept, free)
    advance-Unswept (visited k now) s (collecting ks) at ok (kept, free) =
        rw at (kept, visit-Kept k now s.attempts ks ok kept (rw at at free))
    advance-Unswept (visited k now) s (deleting ks) at ok (kept, free) = rw at (kept, rw at at free)
    advance-Unswept deleted s (collecting ks) at ok (kept, free) = rw at (kept, rw at at free)
    advance-Unswept deleted s (deleting []) at ok (kept, free) = rw at (kept, refl)
    advance-Unswept deleted s (deleting (k ∷ ks)) at ok (kept, free) =
        let f : (k == composite t || contains (composite t) ks) ≡ false = rw at at free in
        rw at (without-Kept k s.attempts (ground arith) kept, ground arith)

    advance_all-Unswept :
        (xs : List Step) (s : Cleaning)
        → AreInTime xs
        → Unswept s
        → Unswept (advance_all t owner ttl xs s)
    unfolding advance_all
    advance_all-Unswept [] s ok kept = kept
    advance_all-Unswept (x ∷ xs) s ok kept =
        advance_all-Unswept xs (advance t owner ttl x s) ok.1
          (advance-Unswept x s s.phase refl ok.0 kept)

    -- Of the clients that find a key without a lock, one at most has acquired it after any
    -- interleaving of their steps with those of the cleanup, in any number of rounds, as long as the clock
    -- reads no later than some horizon and no lock that is created ends before it; and the lock of a client that
    -- has acquired it still stands in the map. The owners are distinct, and at first the cleanup has not
    -- collected the key.
    pub advance_all_exclusive :
        (xs : List Step) (s : Cleaning) (i j a b : ℕ)
        → Free t owner ttl horizon s.attempts
        → contains (composite t) (to_delete s.phase) ≡ false
        → AreInTime xs
        → (advance_all t owner ttl xs s).attempts.stages i ≡ won a
        → (advance_all t owner ttl xs s).attempts.stages j ≡ won b
        → (lookup (composite t) (advance_all t owner ttl xs s).attempts.store.locks ≡ some a)
          × (i ≡ j)
    advance_all_exclusive xs s i j a b free clear ok wi wj =
        elim (advance_all-Unswept xs s ok (inl free, clear)).0 [
          | inl still ↦ absurd (rw wi at (still.1 i))
          | inr h ↦
              let mine = sole_holder t owner ttl horizon distinct h i a wi in
              let held : won a ≡ won h.cell =
                sym wi ∙ ap (advance_all t owner ttl xs s).attempts.stages mine ∙ h.holds in
              let same : a ≡ h.cell = ground arith in
              (
                h.found ∙ ap some (sym same),
                mine ∙ sym (sole_holder t owner ttl horizon distinct h j b wj),
              )
        ]
