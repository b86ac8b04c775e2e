-- ===== src/Cache/Rep.antt =====
-- The invariant of cache.go's structure, and the entries that it stands for.
use advo_cache.Base.{
  ℕ, ◌≤◌, ◌<◌, ◌≡◌, refl, inl, inr, true, false, List, [], ◌∷◌, Option, none, some, String, arith,
  ◌=?◌, ◌==◌, text_key, keep, length, Bool-cases, eq_iff,
}
use advo_cache.Base.Dict.{lookup, DistinctKeys}
use advo_cache.Cache.{Entry, Ptr, null, Cache, update}
use advo_cache.Cache.Cells.{Cells, has, Apart, find, erase, UniqueKeys}
use advo_cache.Cache.Chain.{Chain}
use advo_cache.Cache.Lru.{seek, forget}

-- Every address in use lies below the next one that is handed out.
abbrev pub Below : ℕ → Cells → Ptr → Type 0
Below bound [] end = end < bound
Below bound ((p, _) ∷ xs) end = (p < bound) × Below bound xs end

-- The nodes hold the entries of the cells.
abbrev pub Stored : (Ptr → Option Entry) → Cells → Type 0
Stored entry [] = Unit
Stored entry ((p, e) ∷ xs) = (entry p ≡ some e) × Stored entry xs

abbrev pub entries : Cells → List Entry
entries [] = []
entries ((p, e) ∷ xs) = e ∷ entries xs

pub record Rep (c : Cache) (xs : Cells) : Type 0 where
  pub chain : Chain c.next c.prev c.head xs c.tail
  pub apart : Apart c.head xs c.tail
  pub head_live : (c.head =? null) ≡ false
  pub cells_live : has null xs c.tail ≡ false
  pub head_below : c.head < c.fresh
  pub cells_below : Below c.fresh xs c.tail
  pub stored : Stored c.entry xs
  pub unique : UniqueKeys xs
  pub index : (k : String) → lookup k c.nodes ≡ find k xs
  pub keys : DistinctKeys c.nodes
  pub counted : c.length ≡ length xs

-- The cache stands for these entries, most recently used first.
abbrev pub Holds : Cache → List Entry → Type 0
Holds c es = (xs : Cells) × Rep c xs × (entries xs ≡ es)

pub has-fresh : (bound : ℕ) (xs : Cells) (end : Ptr) → Below bound xs end → has bound xs end ≡ false
has-fresh bound [] end b = ground arith
has-fresh bound ((p, e) ∷ xs) end b = ground (arith, has-fresh bound xs end b.1)

pub Below-of_has :
    (a bound : ℕ) (xs : Cells) (end : Ptr) → Below bound xs end → has a xs end ≡ true → a < bound
Below-of_has a bound [] end b h = ground arith
Below-of_has a bound ((p, e) ∷ xs) end b h = ground (arith, Below-of_has a bound xs end b.1)

pub Below-mono : (m n : ℕ) (xs : Cells) (end : Ptr) → m ≤ n → Below m xs end → Below n xs end
Below-mono m n [] end le b = omega arith
Below-mono m n ((p, e) ∷ xs) end le b = (omega arith, Below-mono m n xs end le b.1)

pub Below-erase :
    (k : String) (n : ℕ) (xs : Cells) (end : Ptr) → Below n xs end → Below n (erase k xs) end
unfolding erase keep
Below-erase k n [] end b = b
Below-erase k n ((p, e) ∷ xs) end b = ground (arith, Below-erase k n xs end b.1)

pub Stored-erase :
    (k : String) (f : Ptr → Option Entry) (xs : Cells) → Stored f xs → Stored f (erase k xs)
unfolding erase keep
Stored-erase k f [] s = s
Stored-erase k f ((p, e) ∷ xs) s = ground (arith, Stored-erase k f xs)

-- A write to the entry of another node.
pub Stored-update :
    (f : Ptr → Option Entry) (p : Ptr) (v : Option Entry) (xs : Cells) (end : Ptr)
    → has p xs end ≡ false
    → Stored f xs
    → Stored (update f p v) xs
Stored-update f p v [] end out s = s
Stored-update f p v ((q, e) ∷ xs) end out s = ground (arith, Stored-update f p v xs end)

pub entries-erase : (k : String) (xs : Cells) → entries (erase k xs) ≡ forget k (entries xs)
unfolding erase forget keep
entries-erase k [] = refl
entries-erase k ((p, e) ∷ xs) = ground (arith, entries-erase k xs)

pub length-entries : (xs : Cells) → length (entries xs) ≡ length xs
length-entries [] = refl
length-entries (x ∷ xs) = ground (arith, length-entries xs)

pub seek_miss : (k : String) (xs : Cells) → find k xs ≡ none → seek k (entries xs) ≡ none
unfolding find seek
seek_miss k [] f = refl
seek_miss k ((p, e) ∷ xs) f = ground (arith, seek_miss k xs)

-- A node that the map yields holds the entry of its key.
pub seek_hit :
    (k : String) (f : Ptr → Option Entry) (xs : Cells) (n : Ptr)
    → Stored f xs
    → find k xs ≡ some n
    → (e : Entry) × (seek k (entries xs) ≡ some e) × (f n ≡ some e) × (e.key ≡ k)
unfolding find seek
seek_hit k f [] n s h = cc
seek_hit k f ((p, e) ∷ xs) n s h = elim (Bool-cases (e.key == k)) [
  | inl hit ↦ (e, ground arith, ground arith, (eq_iff e.key k).0 hit)
  | inr miss ↦
      let (d, found, kept, same) = seek_hit k f xs n s.1 (ground arith) in
      (d, ground arith, kept, same)
]
