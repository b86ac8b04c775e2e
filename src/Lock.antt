-- ===== src/Lock.antt =====
-- lock/lock.go: locks with an owner and a time to live, kept as data. The `sync.Map` is a map from
-- composite keys to locks. Here a call runs alone; `Lock.Race` takes TryAcquire apart into the atomic
-- steps of the map. A lock that is refreshed in place is written back to its key. Readings of the
-- clock are arguments, one for each `time.Now()`; a loop over the map has one for each key.
pub mod Cleanup
pub mod Keys
pub mod Ownership
pub mod Race
mod Tests
use Prim.Native.String
use Prim.Native.String.{◌++◌}
use advo_cache.Base.{
  ℕ, ◌≡◌, Bool, true, false, not, ◌&&◌, List, [], ◌∷◌, Option, none, some, String, ◌==◌, text_key,
  if◌then◌else◌, length,
}
use advo_cache.Base.Dict.{Dict, lookup, insert, remove}
use advo_cache.Time.{Time, Duration, add, after}
use advo_cache.Cache.{has_prefix}

pub data LockError : Type 0 where
  lock_held not_owner lock_not_found : LockError

pub data Result {ℓ} (A : Type ℓ) : Type ℓ where
  ok : A → Result A
  err : LockError → Result A

pub record Lock : Type 0 where
  pub key : String
  pub owner : String
  pub sheet_id : String
  pub acquired_at : Time
  pub expires_at : Time

abbrev pub is_expired : Lock → Time → Bool
is_expired l now = after now l.expires_at

-- The field `locks` of lock.Manager.
abbrev pub Manager : Type 0
Manager = Dict String Lock

abbrev pub new_manager : Manager
new_manager = []

unfoldable pub composite_key : String → String → String
composite_key sheet_id key = sheet_id ++ (":" ++ key)

-- The lock that TryAcquire creates.
abbrev pub new_lock : String → String → String → Duration → Time → Lock
new_lock sheet_id key owner ttl now = record {
  key = key;
  owner = owner;
  sheet_id = sheet_id;
  acquired_at = now;
  expires_at = add now ttl;
}

-- LoadOrStore, and the Store that may follow it.
unfoldable pub store_new : String → Lock → Time → Manager → Manager × Result Lock
store_new ck lock again m = elim (lookup ck m) [
  | none ↦ (insert ck lock m, ok lock)
  | some existing ↦
      if not (existing.owner == lock.owner) && not (is_expired existing again)
      then (m, err lock_held)
      else (insert ck lock m, ok lock)
]

-- `now` is the first reading of the clock, `seen` and `again` those of the two calls of IsExpired.
unfoldable pub try_acquire :
    String → String → String → Duration → (now seen again : Time) → Manager → Manager × Result Lock
unfolding store_new
try_acquire sheet_id key owner ttl now seen again m =
    let ck = composite_key sheet_id key in
    let lock = new_lock sheet_id key owner ttl now in
    elim (lookup ck m) [
      | none ↦ store_new ck lock again m
      | some existing ↦
          if is_expired existing seen
          then store_new ck lock again m
          else if existing.owner == owner
          then (
            insert ck (record existing { expires_at = add now ttl }) m,
            ok (record existing { expires_at = add now ttl }),
          )
          else (m, err lock_held)
    ]

unfoldable pub release : String → String → String → Manager → Manager × Option LockError
release sheet_id key owner m =
    let ck = composite_key sheet_id key in
    elim (lookup ck m) [
      | none ↦ (m, some lock_not_found)
      | some lock ↦ if not (lock.owner == owner) then (m, some not_owner) else (remove ck m, none)
    ]

unfoldable pub is_locked : String → String → Time → Manager → Option Lock
is_locked sheet_id key now m = elim (lookup (composite_key sheet_id key) m) [
  | none ↦ none
  | some lock ↦ if is_expired lock now then none else some lock
]

-- The `Range` that collects `toDelete`.
unfoldable pub collect : (String → Lock → Bool) → Dict String Lock → List String
collect test [] = []
collect test ((k, lock) ∷ rest) = if test k lock then k ∷ collect test rest else collect test rest

-- The loop that deletes what was collected.
unfoldable pub delete_keys : List String → Manager → Manager
delete_keys [] m = m
delete_keys (k ∷ ks) m = delete_keys ks (remove k m)

-- ReleaseAllByOwner and CleanupExpired differ in their test alone.
unfoldable pub delete_collected : (String → Lock → Bool) → Dict String Lock → Manager → Manager × ℕ
unfolding collect delete_keys
delete_collected test order m = (delete_keys (collect test order) m, length (collect test order))

unfoldable pub release_all_by_owner : String → Dict String Lock → Manager → Manager × ℕ
unfolding delete_collected
release_all_by_owner owner = delete_collected (λ _ lock. lock.owner == owner)

unfoldable pub cleanup_expired : (String → Time) → Dict String Lock → Manager → Manager × ℕ
unfolding delete_collected
cleanup_expired clock = delete_collected (λ k lock. is_expired lock (clock k))

abbrev pub count : Dict String Lock → ℕ
count order = length order

unfoldable pub get_all_by_sheet : String → (String → Time) → Dict String Lock → List Lock
get_all_by_sheet sheet_id clock [] = []
get_all_by_sheet sheet_id clock ((k, lock) ∷ rest) =
    let found = get_all_by_sheet sheet_id clock rest in
    if has_prefix (sheet_id ++ ":") k
    then (if not (is_expired lock (clock k)) then lock ∷ found else found)
    else found

unfoldable pub set_lock : Lock → Manager → Manager
set_lock lock = insert (composite_key lock.sheet_id lock.key) lock
