-- ===== src/Cache/Lru/Laws.antt =====
-- What a user of the promise of `Cache.Lru` may rely on.
use advo_cache.Base.{
  ℕ, ◌≤◌, ◌<◌, ◌≡◌, ◌≢◌, refl, ◌⊎◌, inl, inr, false, not, List, [], ◌∷◌, ◌++◌, none, some, String,
  arith, ◌==◌, text_key, if◌then◌else◌, length, keep, length-keep-le, eq_iff, Bool-cases,
  Option-cases,
}
use advo_cache.Value.{Value}
use advo_cache.Time.{Time, Duration, add, after}
use advo_cache.Cache.{Entry}
use advo_cache.Cache.Lru
use advo_cache.Cache.Lru.{seek, forget, oldest}

-- No key twice.
abbrev pub Unique : List Entry → Type 0
Unique [] = Unit
Unique (e ∷ es) = (seek e.key es ≡ none) × Unique es

-- A capacity of 0 bounds nothing.
abbrev pub Fits : ℕ → List Entry → Type 0
Fits capacity es = (capacity ≡ 0) ⊎ (length es ≤ capacity)

pub seek-forget :
    (k j : String) (es : List Entry) → seek j (forget k es) ≡ (if k == j then none else seek j es)
unfolding seek forget keep
seek-forget k j [] = ground arith
seek-forget k j (e ∷ es) =
    ground (arith, eq_iff k j, eq_iff e.key k, eq_iff e.key j, seek-forget k j es)

pub forget_absent : (k : String) (es : List Entry) → seek k es ≡ none → forget k es ≡ es
unfolding seek forget keep
forget_absent k [] h = refl
forget_absent k (e ∷ es) h = ground (arith, forget_absent k es)

pub length-forget-le : (k : String) (es : List Entry) → length (forget k es) ≤ length es
unfolding forget
length-forget-le k es = length-keep-le (λ e. not (e.key == k)) es

pub length-forget_hit :
    (k : String) (es : List Entry) (e : Entry)
    → seek k es ≡ some e
    → length (forget k es) < length es
unfolding seek forget keep
length-forget_hit k [] e h = cc
length-forget_hit k (d ∷ es) e h = ground (arith, length-forget_hit k es e, length-forget-le k es)

oldest-seek :
    (es : List Entry) (e : Entry) → oldest es ≡ some e → (d : Entry) × (seek e.key es ≡ some d)
unfolding oldest seek
oldest-seek [] e h = cc
oldest-seek (d ∷ []) e h = (d, ground (arith, eq_iff d.key e.key))
oldest-seek (d ∷ b ∷ es) e h =
    let (x, found) = oldest-seek (b ∷ es) e h in
    elim (Bool-cases (d.key == e.key)) [
      | inl same ↦ (d, ground arith)
      | inr other ↦ (x, ground arith)
    ]

oldest-none : (es : List Entry) → oldest es ≡ none → length es ≡ 0
unfolding oldest
oldest-none [] h = refl
oldest-none (e ∷ []) h = cc
oldest-none (e ∷ d ∷ es) h = absurd (omega (arith, oldest-none (d ∷ es) h))

make_room-Fits :
    (capacity : ℕ) (es : List Entry)
    → Fits capacity es
    → (capacity ≡ 0) ⊎ (length (Lru.make_room capacity es).0 < capacity)
unfolding Lru.make_room Lru.evict
make_room-Fits capacity es fits = elim (Option-cases (oldest es)) [
  | inl nothing ↦ ground (arith, oldest-none es)
  | inr (e, last) ↦
      let (d, found) = oldest-seek es e last in ground (arith, length-forget_hit e.key es d)
]

pub set-Fits :
    (capacity : ℕ) (k : String) (v : Value) (ttl : Duration) (now : Time) (es : List Entry)
    → Fits capacity es
    → Fits capacity (Lru.set capacity k v ttl now es).0
unfolding Lru.set
set-Fits capacity k v ttl now es fits = elim (Option-cases (seek k es)) [
  | inl new ↦ ground (arith, make_room-Fits capacity es fits)
  | inr (e, old) ↦ ground (arith, length-forget_hit k es e)
]

pub get-Fits :
    (capacity : ℕ) (k : String) (now : Time) (es : List Entry)
    → Fits capacity es
    → Fits capacity (Lru.get k now es).0
unfolding Lru.get
get-Fits capacity k now es fits = elim (Option-cases (seek k es)) [
  | inl new ↦ ground arith
  | inr (e, old) ↦ ground (arith, length-forget_hit k es e)
]

pub forget-Unique : (k : String) (es : List Entry) → Unique es → Unique (forget k es)
unfolding forget keep
forget-Unique k [] u = u
forget-Unique k (e ∷ es) u = ground (arith, forget-Unique k es, seek-forget k e.key es)

-- A stored value is what the next Get yields, until it expires.
pub get-set_self :
    (capacity : ℕ) (k : String) (v : Value) (ttl : Duration) (now later : Time) (es : List Entry)
    → after later (add now ttl) ≡ false
    → (Lru.get k later (Lru.set capacity k v ttl now es).0).1 ≡ some v
unfolding Lru.get Lru.set seek
get-set_self capacity k v ttl now later es fresh = ground (arith, eq_iff k k)

seek-make_room_ne :
    (capacity : ℕ) (j : String) (es : List Entry)
    → (Lru.make_room capacity es).1 ≢ j
    → seek j (Lru.make_room capacity es).0 ≡ seek j es
unfolding Lru.make_room Lru.evict
seek-make_room_ne capacity j es ne = elim (Option-cases (oldest es)) [
  | inl nothing ↦ ground arith
  | inr (e, last) ↦ ground (arith, seek-forget e.key j es, eq_iff e.key j)
]

-- Set changes no other key, but for the one that it returns.
pub seek-set_ne :
    (capacity : ℕ) (k j : String) (v : Value) (ttl : Duration) (now : Time) (es : List Entry)
    → j ≢ k
    → (Lru.set capacity k v ttl now es).1 ≢ j
    → seek j (Lru.set capacity k v ttl now es).0 ≡ seek j es
unfolding Lru.set seek
seek-set_ne capacity k j v ttl now es ne kept = elim (Option-cases (seek k es)) [
  | inl new ↦ ground (arith, seek-make_room_ne capacity j es, eq_iff k j)
  | inr (e, old) ↦ ground (arith, seek-forget k j es, eq_iff k j)
]

oldest-append : (es : List Entry) (e : Entry) → oldest (es ++ e ∷ []) ≡ some e
unfolding oldest
oldest-append [] e = refl
oldest-append (d ∷ []) e = refl
oldest-append (d ∷ b ∷ es) e = oldest-append (b ∷ es) e

seek_last : (es : List Entry) (e : Entry) → seek e.key (es ++ e ∷ []) ≢ none
unfolding seek
seek_last [] e = ground (arith, eq_iff e.key e.key)
seek_last (d ∷ es) e = ground (arith, seek_last es e)

forget-last :
    (es : List Entry) (e : Entry) → Unique (es ++ e ∷ []) → forget e.key (es ++ e ∷ []) ≡ es
unfolding forget keep seek
forget-last [] e u = ground (arith, eq_iff e.key e.key)
forget-last (d ∷ es) e u = ground (arith, forget-last es e u.1, eq_iff d.key e.key, seek_last es e)

-- A new key at a full cache evicts the least recently used entry, and nothing else.
pub set_full :
    (capacity : ℕ) (k : String) (v : Value) (ttl : Duration) (now : Time) (es : List Entry)
    (e : Entry)
    → 0 < capacity
    → capacity ≤ length (es ++ e ∷ [])
    → Unique (es ++ e ∷ [])
    → seek k (es ++ e ∷ []) ≡ none
    → Lru.set capacity k v ttl now (es ++ e ∷ [])
      ≡ (record { key = k; value = v; expires_at = add now ttl } ∷ es, e.key)
unfolding Lru.set Lru.make_room Lru.evict
set_full capacity k v ttl now es e pos full u new =
    ground (arith, oldest-append es e, forget-last es e u)
