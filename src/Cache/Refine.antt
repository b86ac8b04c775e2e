-- ===== src/Cache/Refine.antt =====
-- The methods of cache.go do what `Cache.Lru` promises, and never panic.
use advo_cache.Base.{
  ℕ, ◌≡◌, refl, sym, ap, ◌∙◌, inl, inr, false, List, [], ◌∷◌, Option, none, some, String, arith,
  ◌=?◌, text_key, eq_iff, Bool-cases, Option-cases, ltb, leb, ◌&&◌,
}
use advo_cache.Base.Dict.{lookup}
use advo_cache.Time.{Time, after}
use advo_cache.Cache.{Entry, Ptr, null, Cache, get, delete, make_room, evict_oldest}
use advo_cache.Cache.Cells.{Cells, find, find-erase, erase, erase_absent, has, UniqueKeys}
use advo_cache.Cache.Chain.{Chain}
use advo_cache.Cache.Front.{Rep-moved}
use advo_cache.Cache.Links.{
  node_live, node-ne-head, dropped, moved, drop_lem, Rep-dropped, move_to_front_lem,
}
use advo_cache.Cache.Lru
use advo_cache.Cache.Lru.{seek, forget, oldest}
use advo_cache.Cache.Rep.{
  Rep, Holds, length-entries, Stored, Stored-erase, entries, entries-erase, seek_hit, seek_miss,
}

-- A run ends without a panic, returns what the promise says, and leaves a cache of the same capacity
-- that holds the entries of the promise.
abbrev pub Implements {ℓ} : {A : Type ℓ} → ℕ → Option (Cache × A) → List Entry × A → Type ℓ
Implements capacity r (es, a) =
    (c : Cache) × (r ≡ some (c, a)) × Holds c es × (c.capacity ≡ capacity)

module _ {c : Cache} {xs : Cells} (r : Rep c xs) (k : String) where
  pub get_found :
      (now : Time) (n : Ptr)
      → find k xs ≡ some n
      → Implements c.capacity (get k now c) (Lru.get k now (entries xs))
  unfolding get Lru.get
  get_found now n f =
      let (e, sought, held, same) = seek_hit k c.entry xs n r.stored f in
      let indexed : lookup k c.nodes ≡ some n = ground (arith, r.index k) in
      elim (Bool-cases (after now e.expires_at)) [
        | inl late ↦ (
          dropped k n c,
          ground (arith, node_live r k n f, drop_lem r k n f),
          (erase k xs, Rep-dropped r k n f, ground (arith, entries-erase k xs)),
          refl,
        )
        | inr fresh ↦ (
          moved n c,
          ground (arith, node_live r k n f, move_to_front_lem r k n f c.entry),
          (
            (n, e) ∷ erase k xs,
            Rep-moved r k n f e c.entry same held (Stored-erase k c.entry xs r.stored),
            ground (arith, entries-erase k xs),
          ),
          refl,
        )
      ]

  pub get_missing :
      (now : Time)
      → find k xs ≡ none
      → Implements c.capacity (get k now c) (Lru.get k now (entries xs))
  unfolding get Lru.get
  get_missing now f =
      let indexed : lookup k c.nodes ≡ none = ground (arith, r.index k) in
      (c, ground (arith, seek_miss k xs f), (xs, r, ground (arith, seek_miss k xs f)), refl)

  pub delete_lem :
      (c' : Cache) × (delete k c ≡ some c')
      × Holds c' (forget k (entries xs))
      × (c'.capacity ≡ c.capacity)
  unfolding delete
  delete_lem = elim (Option-cases (find k xs)) [
    | inl f ↦
        let indexed : lookup k c.nodes ≡ none = ground (arith, r.index k) in
        (
          c,
          ground arith,
          (xs, r, sym (ap entries (erase_absent k xs f)) ∙ entries-erase k xs),
          refl,
        )
    | inr (n, f) ↦
        let indexed : lookup k c.nodes ≡ some n = ground (arith, r.index k) in
        (
          dropped k n c,
          ground (arith, drop_lem r k n f),
          (erase k xs, Rep-dropped r k n f, entries-erase k xs),
          refl,
        )
  ]

tail_live : (xs : Cells) (end : Ptr) → has null xs end ≡ false → (end =? null) ≡ false
tail_live [] end h = ground arith
tail_live ((p, e) ∷ xs) end h = ground (arith, tail_live xs end)

-- `c.tail.prev` is the node of the oldest entry.
oldest_cell :
    (next prev : Ptr → Ptr) (f : Ptr → Option Entry) (start p : Ptr) (d : Entry) (xs : Cells)
    (end : Ptr)
    → Chain next prev start ((p, d) ∷ xs) end
    → UniqueKeys ((p, d) ∷ xs)
    → Stored f ((p, d) ∷ xs)
    → (e : Entry) × (oldest (entries ((p, d) ∷ xs)) ≡ some e)
      × (find e.key ((p, d) ∷ xs) ≡ some (prev end))
      × (f (prev end) ≡ some e)
unfolding oldest find
oldest_cell next prev f start p d [] end h u s =
    (d, refl, ground (arith, eq_iff d.key d.key), ground arith)
oldest_cell next prev f start p d ((q, b) ∷ xs) end h u s =
    let (e, last, found, held) = oldest_cell next prev f p q b xs end h.2 u.1 s.1 in
    (e, last, ground (arith, eq_iff d.key e.key, found, u.0), held)

-- With an entry in the cache, the oldest one goes.
evict_lem :
    (c : Cache) (p : Ptr) (d : Entry) (xs : Cells) (r : Rep c ((p, d) ∷ xs))
    → (e : Entry) × (evict_oldest c ≡ some (dropped e.key (c.prev c.tail) c, e.key))
      × (oldest (d ∷ entries xs) ≡ some e)
      × Rep (dropped e.key (c.prev c.tail) c) (erase e.key ((p, d) ∷ xs))
unfolding evict_oldest
evict_lem c p d xs r =
    let (e, last, found, held) =
      oldest_cell c.next c.prev c.entry c.head p d xs c.tail r.chain r.unique r.stored in
    (
      e,
      ground (
        arith,
        tail_live ((p, d) ∷ xs) c.tail r.cells_live,
        node_live r e.key (c.prev c.tail) found,
        node-ne-head r e.key (c.prev c.tail) found,
        drop_lem r e.key (c.prev c.tail) found,
        held,
      ),
      last,
      Rep-dropped r e.key (c.prev c.tail) found,
    )

-- Making room keeps the promise, and brings no key back.
pub make_room_lem :
    (c : Cache) (xs : Cells) (k : String) (r : Rep c xs)
    → find k xs ≡ none
    → (c' : Cache) × (xs' : Cells) × Rep c' xs'
      × (make_room c ≡ some (c', (Lru.make_room c.capacity (entries xs)).1))
      × (entries xs' ≡ (Lru.make_room c.capacity (entries xs)).0)
      × (find k xs' ≡ none)
      × (c'.capacity ≡ c.capacity)
unfolding make_room Lru.make_room Lru.evict
make_room_lem c [] k r f = (c, [], r, ground (arith, r.counted), ground arith, f, refl)
make_room_lem c ((p, d) ∷ xs) k r f =
    let all : Cells = (p, d) ∷ xs in
    let (e, run, last, kept) = evict_lem c p d xs r in
    elim (Bool-cases (ltb 0 c.capacity && leb c.capacity c.length)) [
      | inl full ↦ (
        dropped e.key (c.prev c.tail) c,
        erase e.key all,
        kept,
        ground (arith, run, last, r.counted, length-entries xs),
        ground (arith, last, r.counted, length-entries xs, entries-erase e.key all),
        ground (arith, find-erase e.key k all, f),
        refl,
      )
      | inr room ↦ (
        c,
        all,
        r,
        ground (arith, r.counted, length-entries xs),
        ground (arith, r.counted, length-entries xs),
        f,
        refl,
      )
    ]
