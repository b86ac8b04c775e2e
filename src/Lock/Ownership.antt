-- ===== src/Lock/Ownership.antt =====
-- Who holds a lock of lock.go, and when.
use advo_cache.Base.{
  ◌≤◌, ◌≡◌, ◌≢◌, refl, ◌⊎◌, ◌↔◌, inl, inr, true, false, Option, none, some, String, ◌==◌, text_key,
  if◌then◌else◌, arith, eq_iff, Bool-cases, Option-cases,
}
use advo_cache.Base.Dict.{lookup, insert, lookup-insert, lookup-remove}
use advo_cache.Time.{Time, Duration, add, after}
use advo_cache.Lock.{
  Lock, Manager, ok, err, lock_held, composite_key, new_lock, is_expired, try_acquire, release,
}

-- A lock of another owner that has not expired.
abbrev pub HeldByOther : String → Time → Option Lock → Type 0
HeldByOther owner now none = ⊥
HeldByOther owner now (some l) = ((l.owner == owner) ≡ false) × (is_expired l now ≡ false)

-- Free for the owner: no lock, an expired one, or one of its own.
abbrev pub FreeFor : String → Time → Option Lock → Type 0
FreeFor owner now none = Unit
FreeFor owner now (some l) = (is_expired l now ≡ true) ⊎ ((l.owner == owner) ≡ true)

module _ (m : Manager) (sheet_id key owner : String) (ttl : Duration) (now seen again : Time) where
  -- A lock that another owner holds is refused, and nothing changes.
  pub try_acquire_held :
      HeldByOther owner seen (lookup (composite_key sheet_id key) m)
      → try_acquire sheet_id key owner ttl now seen again m ≡ (m, err lock_held)
  unfolding try_acquire
  try_acquire_held h = elim (Option-cases (lookup (composite_key sheet_id key) m)) [
    | inl f ↦ absurd (rw f at h)
    | inr (l, f) ↦ let held : HeldByOther owner seen (some l) = rw f at h in ground arith
  ]

  -- A key that is free for the owner is acquired: the lock that is returned is the one in the map,
  -- belongs to the owner and runs until `now + ttl`; no other key changes.
  pub try_acquire_free :
      (k : String)
      → seen ≤ again
      → FreeFor owner seen (lookup (composite_key sheet_id key) m)
      → (l : Lock) × (m' : Manager) × (try_acquire sheet_id key owner ttl now seen again m
          ≡ (m', ok l))
        × (lookup (composite_key sheet_id key) m' ≡ some l)
        × (l.owner ≡ owner)
        × (l.expires_at ≡ add now ttl)
        × (lookup k m' ≡ (if composite_key sheet_id key == k then some l else lookup k m))
  unfolding try_acquire
  try_acquire_free k later h = elim (Option-cases (lookup ck m)) [
    | inl f ↦ (fresh, insert ck fresh m, ground arith, stored fresh, refl, refl, spared fresh)
    | inr (l, f) ↦
        let free : FreeFor owner seen (some l) = rw f at h in
        elim (Bool-cases (is_expired l seen)) [
          | inl old ↦
              (fresh, insert ck fresh m, ground arith, stored fresh, refl, refl, spared fresh)
          | inr live ↦
              let again_mine = record l { expires_at = add now ttl } in
              (
                again_mine,
                insert ck again_mine m,
                ground arith,
                stored again_mine,
                ground (arith, eq_iff l.owner owner),
                refl,
                spared again_mine,
              )
        ]
  ]
    where
      ck : String
      ck = composite_key sheet_id key

      fresh : Lock
      fresh = new_lock sheet_id key owner ttl now

      stored : (l : Lock) → lookup ck (insert ck l m) ≡ some l
      stored l = ground (arith, lookup-insert ck ck l m, eq_iff ck ck)

      spared : (l : Lock) → lookup k (insert ck l m) ≡ (if ck == k then some l else lookup k m)
      spared l = lookup-insert ck k l m

-- Mutual exclusion: once an owner has acquired a key, another is refused, and changes nothing, until
-- the lock expires.
try_acquire-excludes :
    (m : Manager) (sheet_id key a b : String) (ttl ttl' : Duration)
    (now seen again now' seen' again' : Time)
    → a ≢ b
    → seen ≤ again
    → FreeFor a seen (lookup (composite_key sheet_id key) m)
    → after seen' (add now ttl) ≡ false
    → (m' : Manager) × (l : Lock) × (try_acquire sheet_id key a ttl now seen again m ≡ (m', ok l))
      × (try_acquire sheet_id key b ttl' now' seen' again' m' ≡ (m', err lock_held))
try_acquire-excludes m sheet_id key a b ttl ttl' now seen again now' seen' again' ne later free
      live =
    let (l, m', run, found, mine, until, rest) =
      try_acquire_free m sheet_id key a ttl now seen again key later free in
    (
      m',
      l,
      run,
      try_acquire_held m' sheet_id key b ttl' now' seen' again'
          (rw found (ground (arith, eq_iff l.owner b), ground arith)),
    )

-- Whether a key has a lock that belongs to the owner.
abbrev pub OwnedBy : String → Option Lock → Type 0
OwnedBy owner none = ⊥
OwnedBy owner (some l) = l.owner ≡ owner

-- Release succeeds exactly when the key has a lock of the caller, expired or not; then that lock goes
-- and no other key changes. In every other case nothing changes.
release-owned :
    (m : Manager) (sheet_id key owner k : String)
    → (((release sheet_id key owner m).1 ≡ none)
        ↔ OwnedBy owner (lookup (composite_key sheet_id key) m))
      × ((((release sheet_id key owner m).1 ≢ none) × ((release sheet_id key owner m).0 ≡ m))
          ⊎ (((release sheet_id key owner m).1 ≡ none)
              × (lookup k (release sheet_id key owner m).0
                  ≡ (if composite_key sheet_id key == k then none else lookup k m))))
unfolding release
release-owned m sheet_id key owner k =
    let ck = composite_key sheet_id key in
    elim (Option-cases (lookup ck m)) [
      | inl f ↦ rw (f, release) ((λ h. cc, λ h. absurd h), inl ((λ h. cc), refl))
      | inr (l, f) ↦ elim (Bool-cases (l.owner == owner)) [
        | inl same ↦
            rw (f, release)
              (ground (arith, eq_iff l.owner owner), ground (arith, lookup-remove ck k m))
        | inr other ↦ rw (f, release) (ground (arith, eq_iff l.owner owner), ground arith)
      ]
    ]
