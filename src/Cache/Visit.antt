-- ===== src/Cache/Visit.antt =====
-- The loops of cache.go over its map: what is left to visit, and what a sweep of that does.
use advo_cache.Base.{
  ℕ, ◌+◌, ◌≡◌, refl, ◌⊎◌, inl, inr, Bool, true, false, not, ◌&&◌, [], ◌∷◌, Option, none, some,
  String, arith, ◌=?◌, ◌==◌, text_key, length, keep, eq_iff, Bool-cases,
}
use advo_cache.Base.Dict.{Dict, lookup, has_key, DistinctKeys, lookup-none_of_has_key}
use advo_cache.Cache.{Entry, Ptr, Cache, sweep}
use advo_cache.Cache.Cells.{Cells, find, find-erase, erase, length-erase, UniqueKeys}
use advo_cache.Cache.Links.{node_live, dropped, drop_lem, Rep-dropped}
use advo_cache.Cache.Lru.{seek}
use advo_cache.Cache.Rep.{Rep, entries, seek_hit}

-- What is left of the visit: keys that lead to nodes of the cache.
unfoldable pub Pending : Dict String Ptr → Cells → Type 0
Pending [] xs = Unit
Pending ((k, p) ∷ rest) xs = (find k xs ≡ some p) × Pending rest xs

Pending-erase :
    (k : String) (rest : Dict String Ptr) (xs : Cells)
    → has_key k rest ≡ false
    → Pending rest xs
    → Pending rest (erase k xs)
unfolding Pending has_key
Pending-erase k [] xs out h = h
Pending-erase k ((j, p) ∷ rest) xs out h = (
  ground (arith, find-erase k j xs, eq_iff k j, eq_iff j k),
  Pending-erase k rest xs (ground arith) h.1,
)

-- Every entry with the key answers the test in the same way.
Agrees : (Entry → Bool) → String → Bool → Cells → Type 0
Agrees hit k b [] = Unit
Agrees hit k b ((p, e) ∷ xs) = ((e.key == k) ≡ true → hit e ≡ b) × Agrees hit k b xs

Agrees-absent :
    (hit : Entry → Bool) (k : String) (b : Bool) (xs : Cells) → find k xs ≡ none → Agrees hit k b xs
unfolding Agrees find
Agrees-absent hit k b [] f = tt
Agrees-absent hit k b ((p, e) ∷ xs) f = (λ h. ground arith, Agrees-absent hit k b xs (ground arith))

Agrees-unique :
    (hit : Entry → Bool) (k : String) (xs : Cells) (d : Entry)
    → UniqueKeys xs
    → seek k (entries xs) ≡ some d
    → Agrees hit k (hit d) xs
unfolding Agrees find seek
Agrees-unique hit k [] d u s = tt
Agrees-unique hit k ((p, e) ∷ xs) d u s = elim (Bool-cases (e.key == k)) [
  | inl same ↦
      (λ h. ground arith, Agrees-absent hit k (hit d) xs (ground (arith, eq_iff e.key k, u.0)))
  | inr other ↦ (λ h. ground arith, Agrees-unique hit k xs d u.1 (ground arith))
]

-- What a visit of these keys leaves.
unfoldable pub left : (Entry → Bool) → Dict String Ptr → Cells → Cells
left hit order = keep (λ cell. not (hit cell.1 && has_key cell.1.key order))

left_hit :
    (hit : Entry → Bool) (k : String) (p : Ptr) (rest : Dict String Ptr) (xs : Cells)
    → Agrees hit k true xs
    → left hit rest (erase k xs) ≡ left hit ((k, p) ∷ rest) xs
unfolding left keep Agrees erase has_key
left_hit hit k p rest [] h = refl
left_hit hit k p rest ((q, e) ∷ xs) h =
    ground (arith, left_hit hit k p rest xs h.1, h.0, eq_iff e.key k, eq_iff k e.key)

left_miss :
    (hit : Entry → Bool) (k : String) (p : Ptr) (rest : Dict String Ptr) (xs : Cells)
    → Agrees hit k false xs
    → left hit rest xs ≡ left hit ((k, p) ∷ rest) xs
unfolding left keep Agrees has_key
left_miss hit k p rest [] h = refl
left_miss hit k p rest ((q, e) ∷ xs) h =
    ground (arith, left_miss hit k p rest xs h.1, h.0, eq_iff e.key k, eq_iff k e.key)

left_nothing : (hit : Entry → Bool) (xs : Cells) → left hit [] xs ≡ xs
unfolding left keep has_key
left_nothing hit [] = refl
left_nothing hit ((p, e) ∷ xs) = ground (arith, left_nothing hit xs)

-- A selection that answers by the entry of the node.
abbrev pub SelectsBy : (Cache → String → Ptr → Option Bool) → (Entry → Bool) → Type 0
SelectsBy select hit =
    (c : Cache) (k : String) (p : Ptr) (e : Entry)
    → (p =? 0) ≡ false
    → c.entry p ≡ some e
    → e.key ≡ k
    → select c k p ≡ some (hit e)

module _ (select : Cache → String → Ptr → Option Bool) (hit : Entry → Bool)
    (answers : SelectsBy select hit) where
  -- The loop over what is left of the visit.
  pub sweep_loop :
      (order : Dict String Ptr) (c : Cache) (xs : Cells) (n : ℕ)
      → Rep c xs
      → DistinctKeys order
      → Pending order xs
      → (c' : Cache) × (m : ℕ) × (sweep select order c n ≡ some (c', m))
        × Rep c' (left hit order xs)
        × (m + length (left hit order xs) ≡ n + length xs)
        × (c'.capacity ≡ c.capacity)
  unfolding sweep Pending
  sweep_loop [] c xs n r d h =
      (c, n, refl, rw (left_nothing hit xs) r, rw (left_nothing hit xs), refl)
  sweep_loop ((k, p) ∷ rest) c xs n r d h =
      let (e, sought, held, same) = seek_hit k c.entry xs p r.stored h.0 in
      let chosen : select c k p ≡ some (hit e) = answers c k p e (node_live r k p h.0) held same in
      elim (Bool-cases (hit e)) [
        | inl yes_hit ↦
            let (c', m, run, r', sum, cap) =
              sweep_loop rest (dropped k p c) (erase k xs) (n + 1) (Rep-dropped r k p h.0) d.1
                (Pending-erase k rest xs d.0 h.1) in
            let all =
              left_hit hit k p rest xs
                (rw (← yes_hit) (Agrees-unique hit k xs e r.unique sought)) in
            (
              c',
              m,
              ground (arith, chosen, drop_lem r k p h.0, run),
              rw (← all) r',
              rw (← all) (omega (arith, sum, length-erase k xs p r.unique h.0)),
              cap,
            )
        | inr no_hit ↦
            let (c', m, run, r', sum, cap) = sweep_loop rest c xs n r d.1 h.1 in
            let all =
              left_miss hit k p rest xs
                (rw (← no_hit) (Agrees-unique hit k xs e r.unique sought)) in
            (c', m, ground (arith, chosen, run), rw (← all) r', rw (← all) sum, cap)
      ]

-- A whole visit has every key of the cache.
pub left_all :
    (hit : Entry → Bool) (order : Dict String Ptr) (xs : Cells)
    → ((k : String) → (find k xs ≡ none) ⊎ (has_key k order ≡ true))
    → entries (left hit order xs) ≡ keep (λ e. not (hit e)) (entries xs)
unfolding left keep find
left_all hit order [] h = refl
left_all hit order ((p, e) ∷ xs) h =
    ground (arith, h e.key, eq_iff e.key e.key, left_all hit order xs (λ k. ground (arith, h k)))

pub Pending-visit :
    (order : Dict String Ptr) (xs : Cells)
    → DistinctKeys order
    → ((k : String) (p : Ptr) → lookup k order ≡ some p → find k xs ≡ some p)
    → Pending order xs
unfolding Pending lookup
Pending-visit [] xs d h = tt
Pending-visit ((k, p) ∷ rest) xs d h = (
  ground (arith, h k p, eq_iff k k),
  Pending-visit rest xs d.1
      λ j q at. ground (arith, h j q, eq_iff k j, lookup-none_of_has_key k rest d.0),
)

pub has_key_of_lookup :
    (k : String) (p : Ptr) (m : Dict String Ptr) → lookup k m ≡ some p → has_key k m ≡ true
unfolding lookup has_key
has_key_of_lookup k p [] h = cc
has_key_of_lookup k p ((j, q) ∷ m) h = ground (arith, has_key_of_lookup k p m)
