-- ===== src/Reader/Sync.antt =====
-- The local copy of reader/reader.go against the cache of the server that sends to it.
use advo_cache.Base.{
  ℕ, ◌≡◌, ◌≢◌, Bool, false, not, ◌&&◌, inl, inr, List, [], ◌∷◌, none, some, String, arith, ◌==◌,
  text_key, if◌then◌else◌, Bool-cases, Option-cases, keep, eq_iff, ltb, leb, length,
}
use advo_cache.Base.Dict.{Dict, lookup, insert, lookup-insert, lookup-remove}
use advo_cache.Value.{Value}
use advo_cache.Time.{Time, Duration}
use advo_cache.Message.{broadcast_set, invalidate}
use advo_cache.Cache.{Entry, has_prefix, has_suffix}
use advo_cache.Cache.Lru
use advo_cache.Cache.Lru.{value_of, seek, forget, oldest}
use advo_cache.Cache.Lru.Laws.{seek-forget, seek-set_ne}
use advo_cache.Reader.{Reader, handle_message, sweep, get}

-- The reader reads what the entries of the server have, for every key.
abbrev pub InSync : List Entry → Reader → Type 0
InSync es r = (k : String) → get k r ≡ value_of (seek k es)

pub seek_key : (k : String) (es : List Entry) (e : Entry) → seek k es ≡ some e → e.key ≡ k
unfolding seek
seek_key k [] e h = ground arith
seek_key k (d ∷ es) e h = ground (arith, seek_key k es e, eq_iff d.key k)

-- A sweep by a test on the key removes the same keys on both sides.
pub seek-keep :
    (test : String → Bool) (k : String) (es : List Entry)
    → seek k (keep (λ e. not (test e.key)) es) ≡ (if test k then none else seek k es)
unfolding seek keep
seek-keep test k [] = ground arith
seek-keep test k (e ∷ es) = ground (arith, seek-keep test k es, eq_iff e.key k)

lookup-sweep :
    (test : String → Bool) (k : String) (m : Dict String Value)
    → lookup k (sweep test m) ≡ (if test k then none else lookup k m)
unfolding sweep keep lookup
lookup-sweep test k [] = ground arith
lookup-sweep test k ((j, v) ∷ m) = ground (arith, lookup-sweep test k m, eq_iff j k)

oldest-seek :
    (es : List Entry) (e : Entry) → oldest es ≡ some e → (d : Entry) × (seek e.key es ≡ some d)
unfolding oldest seek
oldest-seek [] e h = absurd (ground arith)
oldest-seek (d ∷ []) e h = (d, ground (arith, eq_iff d.key e.key))
oldest-seek (d ∷ d' ∷ es) e h = elim (Bool-cases (d.key == e.key)) [
  | inl same ↦ (d, ground arith)
  | inr other ↦ let (found, there) = oldest-seek (d' ∷ es) e h in (found, ground arith)
]

-- The key that a Set evicts was there and is gone; it is another key than the one that was set.
pub set-evicted :
    (capacity : ℕ) (k : String) (v : Value) (ttl : Duration) (now : Time) (es : List Entry)
    → (Lru.set capacity k v ttl now es).1 ≢ ""
    → (seek (Lru.set capacity k v ttl now es).1 (Lru.set capacity k v ttl now es).0 ≡ none)
      × ((k == (Lru.set capacity k v ttl now es).1) ≡ false)
unfolding Lru.set Lru.make_room Lru.evict seek
set-evicted capacity k v ttl now es shown = elim (Option-cases (seek k es)) [
  | inr (e, f) ↦ absurd (shown (ground arith))
  | inl f ↦ elim (Bool-cases (ltb 0 capacity && leb capacity (length es))) [
    | inr room ↦ absurd (shown (ground arith))
    | inl full ↦ elim (Option-cases (oldest es)) [
      | inl nobody ↦ absurd (shown (ground arith))
      | inr (e, last) ↦
          let (d, there) = oldest-seek es e last in
          let differs : (k == e.key) ≡ false = ground (arith, eq_iff k e.key) in
          (ground (arith, seek-forget e.key e.key es, eq_iff e.key e.key), ground arith)
    ]
  ]
]

pub set-seek_self :
    (capacity : ℕ) (k : String) (v : Value) (ttl : Duration) (now : Time) (es : List Entry)
    → value_of (seek k (Lru.set capacity k v ttl now es).0) ≡ some v
unfolding Lru.set seek
set-seek_self capacity k v ttl now es = ground (arith, eq_iff k k)

make_room-seek_absent :
    (capacity : ℕ) (j : String) (es : List Entry)
    → seek j es ≡ none
    → seek j (Lru.make_room capacity es).0 ≡ none
unfolding Lru.make_room Lru.evict
make_room-seek_absent capacity j es absent = elim (Option-cases (oldest es)) [
  | inl nobody ↦ ground arith
  | inr (e, last) ↦ ground (arith, seek-forget e.key j es)
]

pub set-seek_absent :
    (capacity : ℕ) (j k : String) (v : Value) (ttl : Duration) (now : Time) (es : List Entry)
    → seek j es ≡ none
    → j ≢ k
    → seek j (Lru.set capacity k v ttl now es).0 ≡ none
unfolding Lru.set seek
set-seek_absent capacity j k v ttl now es absent ne =
    ground (arith, eq_iff k j, seek-forget k j es, make_room-seek_absent capacity j es absent)

module _ (es : List Entry) (r : Reader) (sync : InSync es r) where
  -- A notice of a deletion keeps a reader in sync, if the key is not empty.
  pub invalidate_key-InSync :
      (key : String) → key ≢ "" → InSync (forget key es) (handle_message (invalidate key "" "") r)
  unfolding handle_message get
  invalidate_key-InSync key given k =
      ground (arith, sync k, lookup-remove key k r.cache, seek-forget key k es, eq_iff key "")

  -- A notice of a deletion by a prefix that is not empty keeps a reader in sync.
  pub invalidate_prefix-InSync :
      (prefix : String)
      → prefix ≢ ""
      → InSync
          (Lru.sweep (λ e. has_prefix prefix e.key) es).0
          (handle_message (invalidate "" prefix "") r)
  unfolding handle_message get Lru.sweep
  invalidate_prefix-InSync prefix given k = ground (
    arith,
    sync k,
    lookup-sweep (has_prefix prefix) k r.cache,
    seek-keep (has_prefix prefix) k es,
    eq_iff prefix "",
  )

  -- A notice of a deletion by a suffix that is not empty keeps a reader in sync.
  pub invalidate_suffix-InSync :
      (suffix : String)
      → suffix ≢ ""
      → InSync
          (Lru.sweep (λ e. has_suffix suffix e.key) es).0
          (handle_message (invalidate "" "" suffix) r)
  unfolding handle_message get Lru.sweep
  invalidate_suffix-InSync suffix given k = ground (
    arith,
    sync k,
    lookup-sweep (has_suffix suffix) k r.cache,
    seek-keep (has_suffix suffix) k es,
    eq_iff suffix "",
  )

  -- What a reader hears of a Set: the value, and then the key that was evicted, if it is not empty.
  abbrev pub hear_set : String → Value → String → Reader
  hear_set key v evicted =
      let r' = handle_message (broadcast_set key v) r in
      if evicted == "" then r' else handle_message (invalidate evicted "" "") r'

  -- The messages of a Set, that of its eviction included, keep a reader in sync, unless the server
  -- holds an entry with an empty key.
  pub hear_set-InSync :
      (capacity : ℕ) (key : String) (v : Value) (ttl : Duration) (now : Time)
      → seek "" es ≡ none
      → InSync
          (Lru.set capacity key v ttl now es).0
          (hear_set key v (Lru.set capacity key v ttl now es).1)
  unfolding handle_message get
  hear_set-InSync capacity key v ttl now named k =
      let evicted = (Lru.set capacity key v ttl now es).1 in
      let self = set-seek_self capacity key v ttl now es in
      let absent = set-seek_absent capacity k key v ttl now es in
      let rest = seek-set_ne capacity key k v ttl now es in
      elim (Bool-cases (evicted == "")) [
        | inl quiet ↦ ground (
          arith,
          sync k,
          self,
          absent,
          rest,
          named,
          lookup-insert key k v r.cache,
          eq_iff key k,
          eq_iff evicted "",
          eq_iff evicted k,
        )
        | inr loud ↦
            let (gone, other) =
              set-evicted capacity key v ttl now es (ground (arith, eq_iff evicted "")) in
            ground (
              arith,
              sync k,
              self,
              rest,
              gone,
              lookup-insert key k v r.cache,
              lookup-remove evicted k (insert key v r.cache),
              eq_iff key k,
              eq_iff evicted k,
            )
      ]
