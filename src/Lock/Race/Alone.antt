-- ===== src/Lock/Race/Alone.antt =====
-- An attempt whose steps nothing comes between is the `try_acquire` of `Lock`.
use advo_cache.Base.{
  ℕ, ◌+◌, ◌<◌, ◌≡◌, inl, inr, refl, none, some, Option, String, arith, ◌==◌, text_key, Bool-cases,
  Option-cases,
}
use advo_cache.Base.Dict.{lookup, insert, lookup-insert_self}
use advo_cache.Time.{Time, Duration, add}
use advo_cache.Lock.{Lock, Manager, Result, ok, err, lock_held, is_expired, new_lock, try_acquire}
use advo_cache.Lock.Race.{Store, Stage, start, lost, won, Target, step, composite}
use advo_cache.Cache.{update}

-- What the map of pointers shows at a key.
abbrev pub view : String → Store → Option Lock
view k s = elim (lookup k s.locks) [ none ↦ none | some p ↦ some (s.cells p) ]

-- An attempt has at most three steps.
unfoldable pub attempt :
    Target → String → Duration → (now seen again : Time) → Store → Store × Stage
attempt t owner ttl now seen again s =
    let (s₁, stage₁) = step t owner ttl now seen start s in
    let (s₂, stage₂) = step t owner ttl now again stage₁ s₁ in step t owner ttl now again stage₂ s₂

-- The result that a finished attempt returns.
abbrev pub Returns : Store → Stage → Result Lock → Type 0
Returns s (won p) r = r ≡ ok (s.cells p)
Returns s lost r = r ≡ err lock_held
Returns s _ r = ⊥

-- What both leave behind: the same result, and the same lock at the key.
abbrev pub Agree : String → Store × Stage → Manager × Result Lock → Type 0
Agree k run call =
    (s : Store) × (stage : Stage) × (m : Manager) × (r : Result Lock) × (run ≡ (s, stage))
    × (call ≡ (m, r))
    × Returns s stage r
    × (lookup k m ≡ view k s)

-- Alone, an attempt ends, returns what `try_acquire` returns, and leaves at the key the lock that it
-- leaves.
pub attempt-try_acquire :
    (t : Target) (owner : String) (ttl : Duration) (now seen again : Time) (s : Store) (m : Manager)
    → ((p : ℕ) → lookup (composite t) s.locks ≡ some p → p < s.fresh)
    → lookup (composite t) m ≡ view (composite t) s
    → Agree
        (composite t)
        (attempt t owner ttl now seen again s)
        (try_acquire t.sheet_id t.key owner ttl now seen again m)
unfolding attempt step try_acquire
attempt-try_acquire t owner ttl now seen again s m low same =
    elim (Option-cases (lookup ck s.locks)) [
      | inl f ↦
          let none_there : lookup ck m ≡ none = ground arith in
          (
            created,
            won s.fresh,
            insert ck lock m,
            ok lock,
            ground arith,
            ground arith,
            ground arith,
            stored,
          )
      | inr (p, f) ↦
          let below = low p f in
          let there : lookup ck m ≡ some (s.cells p) = ground arith in
          elim (Bool-cases (is_expired (s.cells p) seen)) [
            | inl old ↦ elim (Bool-cases (is_expired (s.cells p) again)) [
              | inl still ↦ (
                created,
                won s.fresh,
                insert ck lock m,
                ok lock,
                ground arith,
                ground arith,
                ground arith,
                stored,
              )
              | inr back ↦ elim (Bool-cases ((s.cells p).owner == owner)) [
                | inl mine ↦ (
                  created,
                  won s.fresh,
                  insert ck lock m,
                  ok lock,
                  ground arith,
                  ground arith,
                  ground arith,
                  stored,
                )
                | inr other ↦ (
                  allocated,
                  lost,
                  m,
                  err lock_held,
                  ground arith,
                  ground arith,
                  refl,
                  ground arith,
                )
              ]
            ]
            | inr live ↦ elim (Bool-cases ((s.cells p).owner == owner)) [
              | inl mine ↦
                  let longer = record (s.cells p) { expires_at = add now ttl } in
                  (
                    record s { cells = update s.cells p longer },
                    won p,
                    insert ck longer m,
                    ok longer,
                    ground arith,
                    ground arith,
                    ground arith,
                    ground (arith, lookup-insert_self ck longer m),
                  )
              | inr other ↦
                  (s, lost, m, err lock_held, ground arith, ground arith, refl, ground arith)
            ]
          ]
    ]
  where
    ck : String
    ck = composite t

    lock : Lock
    lock = new_lock t.sheet_id t.key owner ttl now

    allocated : Store
    allocated = record s { cells = update s.cells s.fresh lock; fresh = s.fresh + 1 }

    created : Store
    created = record allocated { locks = insert ck s.fresh s.locks }

    stored : lookup ck (insert ck lock m) ≡ view ck created
    stored = ground (arith, lookup-insert_self ck lock m, lookup-insert_self ck s.fresh s.locks)
