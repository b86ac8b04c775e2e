-- ===== src/Cache/Methods.antt =====
-- The methods of cache.go, on any cache that stands for a list of entries: none of them panics, each
-- returns what `Cache.Lru` promises, and leaves a cache that stands for what is promised.
use advo_cache.Base.{
  ℕ, ◌≡◌, refl, inl, inr, List, [], ◌∷◌, none, some, String, arith, text_key, Option-cases,
}
use advo_cache.Base.Dict.{lookup}
use advo_cache.Value.{Value}
use advo_cache.Time.{Time, Duration, add}
use advo_cache.Cache.{Entry, Ptr, Cache, update, get, set, delete, new_with_capacity}
use advo_cache.Cache.Cells.{Cells, find, erase, has-erase_self}
use advo_cache.Cache.Front.{Rep-moved, Rep-added, added, add_to_front_lem}
use advo_cache.Cache.Links.{node_live, moved, move_to_front_lem}
use advo_cache.Cache.Lru
use advo_cache.Cache.Lru.{seek, forget}
use advo_cache.Cache.Refine.{Implements, get_found, get_missing, delete_lem, make_room_lem}
use advo_cache.Cache.Rep.{
  Rep, Holds, Stored-erase, Stored-update, entries, entries-erase, seek_hit, seek_miss,
}

-- An empty cache, of the capacity that was asked for.
pub new_with_capacity_lem :
    (capacity : ℕ)
    → (c : Cache) × (new_with_capacity capacity ≡ some c) × Holds c [] × (c.capacity ≡ capacity)
unfolding new_with_capacity find lookup
new_with_capacity_lem capacity = (
  _,
  refl,
  (
    [],
    record {
      chain = (refl, refl);
      apart = refl;
      head_live = refl;
      cells_live = refl;
      head_below = omega arith;
      cells_below = omega arith;
      stored = tt;
      unique = tt;
      index = λ k. refl;
      keys = tt;
      counted = refl;
    },
    refl,
  ),
  refl,
)

-- Get: a hit moves to the front and yields its value; an expired entry is removed; a miss changes
-- nothing.
pub get-Implements :
    (c : Cache) (es : List Entry) (k : String) (now : Time)
    → Holds c es
    → Implements c.capacity (get k now c) (Lru.get k now es)
get-Implements c es k now (xs, r, e) = elim (Option-cases (find k xs)) [
  | inl f ↦ rw (← e) (get_missing r k now f)
  | inr (n, f) ↦ rw (← e) (get_found r k now n f)
]

module _ {c : Cache} {xs : Cells} (r : Rep c xs) (k : String) (v : Value) (ttl : Duration)
    (now : Time) where
  -- The entry that Set stores.
  abbrev stored_entry : Entry
  stored_entry = record { key = k; value = v; expires_at = add now ttl }

  set_found :
      (n : Ptr)
      → find k xs ≡ some n
      → Implements c.capacity (set k v ttl now c) (Lru.set c.capacity k v ttl now (entries xs))
  unfolding set Lru.set
  set_found n f =
      let (e, sought, held, same) = seek_hit k c.entry xs n r.stored f in
      let indexed : lookup k c.nodes ≡ some n = ground (arith, r.index k) in
      let entry = update c.entry n (some stored_entry) in
      (
        record (moved n c) { entry = entry },
        ground (arith, node_live r k n f, move_to_front_lem r k n f entry),
        (
          (n, stored_entry) ∷ erase k xs,
          Rep-moved r k n f stored_entry entry refl (ground arith) (
              Stored-update c.entry n (some stored_entry) (erase k xs) c.tail
                (has-erase_self k c.head xs c.tail n r.apart r.unique f)
                (Stored-erase k c.entry xs r.stored)),
          ground (arith, entries-erase k xs),
        ),
        refl,
      )

  set_missing :
      find k xs ≡ none
      → Implements c.capacity (set k v ttl now c) (Lru.set c.capacity k v ttl now (entries xs))
  unfolding set Lru.set
  set_missing f =
      let indexed : lookup k c.nodes ≡ none = ground (arith, r.index k) in
      let (c₁, xs₁, r₁, run, left, gone, cap) = make_room_lem c xs k r f in
      (
        added stored_entry c₁,
        ground (arith, seek_miss k xs f, run, add_to_front_lem r₁ stored_entry),
        (
          (c₁.fresh, stored_entry) ∷ xs₁,
          Rep-added r₁ stored_entry gone,
          ground (arith, seek_miss k xs f),
        ),
        cap,
      )

-- Set: an update replaces the entry and moves it to the front; a new key goes in front, at a full
-- cache for the oldest entry, whose key is returned.
pub set-Implements :
    (c : Cache) (es : List Entry) (k : String) (v : Value) (ttl : Duration) (now : Time)
    → Holds c es
    → Implements c.capacity (set k v ttl now c) (Lru.set c.capacity k v ttl now es)
set-Implements c es k v ttl now (xs, r, e) = elim (Option-cases (find k xs)) [
  | inl f ↦ rw (← e) (set_missing r k v ttl now f)
  | inr (n, f) ↦ rw (← e) (set_found r k v ttl now n f)
]

-- Delete takes the key out and leaves the rest as it was; it does nothing for an absent key.
pub delete-forget :
    (c : Cache) (es : List Entry) (k : String)
    → Holds c es
    → (c' : Cache) × (delete k c ≡ some c') × Holds c' (forget k es) × (c'.capacity ≡ c.capacity)
delete-forget c es k (xs, r, e) = rw (← e) (delete_lem r k)
