-- ===== src/Lock/Race/Exclusive.antt =====
-- Of any number of clients that find a key without a lock, one at most acquires it, however their
-- steps interleave, as long as no lock that they create expires meanwhile.
use mathlib.Core.Path.{subst}
use advo_cache.Base.{
  ℕ, ◌+◌, ◌<◌, ◌≤◌, ◌≡◌, ◌⊎◌, inl, inr, refl, sym, ◌∙◌, false, [], ◌∷◌, List, none, some, String,
  arith, ◌=?◌, =?_iff, ◌==◌, text_key, Bool-cases,
}
use advo_cache.Base.Dict.{lookup, insert, lookup-insert_self}
use advo_cache.Cache.{update}
use advo_cache.Time.{Time, Duration, add}
use advo_cache.Lock.{new_lock}
use advo_cache.Lock.Race.{
  composite, Store, Stage, start, lost, creating, refreshing, overwriting, won, Target, System,
  Turn, move, run,
}

module _ (t : Target) (owner : ℕ → String) (ttl : ℕ → Duration) (horizon : Time) where
  -- Has not acquired the key, and creates no lock that expires before the horizon.
  abbrev pub Waiting : ℕ → Stage → Type 0
  Waiting i (creating began) = horizon ≤ add began (ttl i)
  Waiting i start = Unit
  Waiting i lost = Unit
  Waiting i _ = ⊥

  -- The key is free and nobody holds it.
  abbrev pub Free : System → Type 0
  Free sys = (lookup (composite t) sys.store.locks ≡ none) × ((i : ℕ) → Waiting i (sys.stages i))

  -- One client holds the key, beyond the horizon, and nobody else.
  pub record Held (sys : System) : Type 0 where
    pub cell : ℕ
    pub holder : ℕ
    pub found : lookup (composite t) sys.store.locks ≡ some cell
    pub below : cell < sys.store.fresh
    pub owned : (sys.store.cells cell).owner ≡ owner holder
    pub lasting : horizon ≤ (sys.store.cells cell).expires_at
    pub holds : sys.stages holder ≡ won cell
    pub others : (i : ℕ) → (i =? holder) ≡ false → Waiting i (sys.stages i)

  -- A turn whose readings of the clock lie before the horizon, and whose lock would end behind it.
  abbrev pub InTime : Turn → Type 0
  InTime turn = (turn.seen ≤ horizon) × (horizon ≤ add turn.now (ttl turn.client))

  abbrev pub AllInTime : List Turn → Type 0
  AllInTime [] = Unit
  AllInTime (turn ∷ turns) = InTime turn × AllInTime turns

  swapped : (i j : ℕ) → (j =? i) ≡ false → (i =? j) ≡ false
  swapped i j ne = ground arith

  Waiting-update :
      (stages : ℕ → Stage) (i j : ℕ) (v : Stage)
      → Waiting i v
      → ((i =? j) ≡ false → Waiting j (stages j))
      → Waiting j (update stages i v j)
  Waiting-update stages i j v w rest = elim (Bool-cases (i =? j)) [
    | inl same ↦ rw same (subst (λ k. Waiting k v) ((=?_iff i j).0 same) w)
    | inr other ↦ rw other (rest other)
  ]

  abbrev pub Kept : System → Type 0
  Kept sys = Free sys ⊎ Held sys

  -- The system when the client's stage alone has changed.
  abbrev moved : System → ℕ → Stage → System
  moved sys i stage = record sys { stages = update sys.stages i stage }

  -- The store with the client's new lock in memory.
  abbrev allocated : System → ℕ → Time → Store
  allocated sys i began = record sys.store {
    cells =
        update sys.store.cells sys.store.fresh (new_lock t.sheet_id t.key (owner i) (ttl i) began);
    fresh = sys.store.fresh + 1;
  }

  move-Free :
      (turn : Turn) (sys : System) (stage : Stage)
      → InTime turn
      → Free sys
      → sys.stages turn.client ≡ stage
      → Kept (move t owner ttl turn sys)
  unfolding move
  move-Free turn sys start ok (absent, waiting) at =
      let next : move t owner ttl turn sys ≡ moved sys turn.client (creating turn.now) =
        ground arith in
      subst Kept (sym next)
        (inl (absent, λ j. Waiting-update sys.stages turn.client j _ ok.1 (λ ne. waiting j)))
  move-Free turn sys lost ok (absent, waiting) at =
      let next : move t owner ttl turn sys ≡ moved sys turn.client lost = ground arith in
      subst Kept (sym next)
        (inl (absent, λ j. Waiting-update sys.stages turn.client j lost tt (λ ne. waiting j)))
  move-Free turn sys (creating began) ok (absent, waiting) at =
      let i = turn.client in
      let f = sys.store.fresh in
      let next : move t owner ttl turn sys ≡ record {
        store = record (allocated sys i began) { locks = insert (composite t) f sys.store.locks };
        stages = update sys.stages i (won f);
      } =
        ground arith in
      subst Kept (sym next) (
        inr (record {
          cell = f;
          holder = i;
          found = lookup-insert_self (composite t) f sys.store.locks;
          below = omega arith;
          owned = ground arith;
          lasting = ground (arith, rw at at (waiting i));
          holds = ground arith;
          others = λ j ne. rw (swapped i j ne) (waiting j);
        }))
  move-Free turn sys (refreshing began p) ok (absent, waiting) at =
      absurd (rw at at (waiting turn.client))
  move-Free turn sys (overwriting p) ok (absent, waiting) at =
      absurd (rw at at (waiting turn.client))
  move-Free turn sys (won p) ok (absent, waiting) at = absurd (rw at at (waiting turn.client))

  module _ (distinct : (i j : ℕ) → (i =? j) ≡ false → (owner i == owner j) ≡ false) where
    -- A client that waits gives up, with or without a lock of its own in memory.
    Held-after :
        (sys : System) (h : Held sys) (i : ℕ) (stage : Stage) (s : Store)
        → Waiting i stage
        → (i =? h.holder) ≡ false
        → lookup (composite t) s.locks ≡ some h.cell
        → s.cells h.cell ≡ sys.store.cells h.cell
        → sys.store.fresh ≤ s.fresh
        → Held (record { store = s; stages = update sys.stages i stage })
    Held-after sys h i stage s waits ne found same grown = record {
      cell = h.cell;
      holder = h.holder;
      found = found;
      below = omega (arith, h.below);
      owned = rw same h.owned;
      lasting = rw same h.lasting;
      holds = ground (arith, h.holds);
      others = λ j other. Waiting-update sys.stages i j stage waits (λ k. h.others j other);
    }

    move-Held :
        (turn : Turn) (sys : System) (stage : Stage)
        → InTime turn
        → (h : Held sys) → (turn.client =? h.holder) ≡ false
        → sys.stages turn.client ≡ stage
        → Held (move t owner ttl turn sys)
    unfolding move
    move-Held turn sys start ok h ne at =
        let i = turn.client in
        let next : move t owner ttl turn sys ≡ moved sys i lost =
          ground
            (arith, h.found, h.lasting, h.owned, distinct h.holder i (swapped h.holder i ne)) in
        subst Held (sym next) (Held-after sys h i lost sys.store tt ne h.found refl (omega arith))
    move-Held turn sys lost ok h ne at =
        let i = turn.client in
        let next : move t owner ttl turn sys ≡ moved sys i lost = ground arith in
        subst Held (sym next) (Held-after sys h i lost sys.store tt ne h.found refl (omega arith))
    move-Held turn sys (creating began) ok h ne at =
        let i = turn.client in
        let s = allocated sys i began in
        let next : move t owner ttl turn sys
            ≡ record { store = s; stages = update sys.stages i lost } =
          ground
            (arith, h.found, h.lasting, h.owned, distinct h.holder i (swapped h.holder i ne)) in
        subst Held (sym next)
          (Held-after sys h i lost s tt ne h.found (ground (arith, h.below)) (omega arith))
    move-Held turn sys (refreshing began p) ok h ne at = absurd (rw at at (h.others turn.client ne))
    move-Held turn sys (overwriting p) ok h ne at = absurd (rw at at (h.others turn.client ne))
    move-Held turn sys (won p) ok h ne at = absurd (rw at at (h.others turn.client ne))

    move-Held_holder :
        (turn : Turn) (sys : System) (h : Held sys)
        → turn.client ≡ h.holder
        → Held (move t owner ttl turn sys)
    unfolding move
    move-Held_holder turn sys h same =
        let at : sys.stages turn.client ≡ won h.cell = rw same h.holds in
        let next : move t owner ttl turn sys ≡ moved sys turn.client (won h.cell) = ground arith in
        subst Held (sym next) (record {
          cell = h.cell;
          holder = h.holder;
          found = h.found;
          below = h.below;
          owned = h.owned;
          lasting = h.lasting;
          holds = ground arith;
          others = λ j other.
              let apart : (turn.client =? j) ≡ false = ground arith in rw apart (h.others j other);
        })

    pub move-Kept :
        (turn : Turn) (sys : System) → InTime turn → Kept sys → Kept (move t owner ttl turn sys)
    move-Kept turn sys ok (inl free) = move-Free turn sys (sys.stages turn.client) ok free refl
    move-Kept turn sys ok (inr h) = elim (Bool-cases (turn.client =? h.holder)) [
      | inl same ↦ inr (move-Held_holder turn sys h ((=?_iff turn.client h.holder).0 same))
      | inr other ↦ inr (move-Held turn sys (sys.stages turn.client) ok h other refl)
    ]

    run-Kept :
        (turns : List Turn) (sys : System)
        → AllInTime turns
        → Kept sys
        → Kept (run t owner ttl turns sys)
    unfolding run
    run-Kept [] sys ok kept = kept
    run-Kept (turn ∷ turns) sys ok kept =
        run-Kept turns (move t owner ttl turn sys) ok.1 (move-Kept turn sys ok.0 kept)

    pub sole_holder : {sys : System} (h : Held sys) (i a : ℕ) → sys.stages i ≡ won a → i ≡ h.holder
    sole_holder h i a wi = elim (Bool-cases (i =? h.holder)) [
      | inl same ↦ (=?_iff i h.holder).0 same
      | inr other ↦ absurd (rw wi at (h.others i other))
    ]

    -- Whatever the interleaving, two clients never both acquire a key that was free.
    pub run_exclusive :
        (turns : List Turn) (sys : System) (i j a b : ℕ)
        → Free sys
        → AllInTime turns
        → (run t owner ttl turns sys).stages i ≡ won a
        → (run t owner ttl turns sys).stages j ≡ won b
        → i ≡ j
    run_exclusive turns sys i j a b free ok wi wj = elim (run-Kept turns sys ok (inl free)) [
      | inl still ↦ absurd (rw wi at (still.1 i))
      | inr h ↦ sole_holder h i a wi ∙ sym (sole_holder h j b wj)
    ]
