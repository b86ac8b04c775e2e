-- ===== src/Lock/Keys.antt =====
-- The composite keys of lock.go: `sheetID + ":" + key`.
use Prim.Native.String.{◌++◌}
use text.Mathlib.TextLemmas.{append_assoc, append_cancel_left}
use advo_cache.Base.{◌≡◌, ◌≢◌, String, arith, ◌≤◌, eq_iff, text_key}
use advo_cache.Time.{Time, Duration, add, after}
use advo_cache.Base.{false, some}
use advo_cache.Base.Dict.{lookup}
use advo_cache.Lock.{Manager, Lock, ok, err, lock_held, composite_key, try_acquire}
use advo_cache.Lock.Ownership.{FreeFor, try_acquire_free, try_acquire_held}

-- Within a sheet, different keys have different composite keys.
composite_key-injective :
    (sheet_id a b : String) → composite_key sheet_id a ≡ composite_key sheet_id b → a ≡ b
unfolding composite_key
composite_key-injective sheet_id a b h =
    append_cancel_left ":" a b (append_cancel_left sheet_id (":" ++ a) (":" ++ b) h)

-- Across sheets they collide where an ID has a colon: key `b:k` of sheet `s` is key `k` of sheet
-- `s:b`.
pub composite_key-collides :
    (s b k : String) → composite_key s (b ++ (":" ++ k)) ≡ composite_key (s ++ (":" ++ b)) k
unfolding composite_key
composite_key-collides s b k = simp append_assoc

-- So a client of one sheet can lock out the clients of another: with the lock on `b:k` of sheet `s`
-- taken, the other's key `k` of sheet `s:b` is refused, until the lock expires.
pub try_acquire_across_sheets :
    (m : Manager) (s b k owner other : String) (ttl ttl' : Duration)
    (now seen again now' seen' again' : Time)
    → owner ≢ other
    → seen ≤ again
    → FreeFor owner seen (lookup (composite_key s (b ++ (":" ++ k))) m)
    → after seen' (add now ttl) ≡ false
    → (m' : Manager) × (l : Lock) × (try_acquire s (b ++ (":" ++ k)) owner ttl now seen again m
        ≡ (m', ok l))
      × (try_acquire (s ++ (":" ++ b)) k other ttl' now' seen' again' m' ≡ (m', err lock_held))
try_acquire_across_sheets m s b k owner other ttl ttl' now seen again now' seen' again' ne later
      free live =
    let key = b ++ (":" ++ k) in
    let (l, m', run, found, mine, until, rest) =
      try_acquire_free m s key owner ttl now seen again key later free in
    let there : lookup (composite_key (s ++ (":" ++ b)) k) m' ≡ some l =
      rw (← composite_key-collides s b k) found in
    (
      m',
      l,
      run,
      try_acquire_held m' (s ++ (":" ++ b)) k other ttl' now' seen' again'
          (rw there (ground (arith, eq_iff l.owner other), ground arith)),
    )
