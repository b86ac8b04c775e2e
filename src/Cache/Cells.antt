-- ===== src/Cache/Cells.antt =====
-- The nodes of a cache in their order, each with its entry, and the search for a key among them.
use advo_cache.Base.{
  ◌≡◌, refl, inl, inr, Bool, true, false, not, ◌||◌, List, [], ◌∷◌, Option, none, some, String,
  arith, ◌=?◌, ◌==◌, text_key, if◌then◌else◌, keep, length, ◌+◌, Bool-cases, eq_iff,
}
use advo_cache.Cache.{Entry, Ptr}

-- The nodes from the most to the least recently used, each with its entry.
abbrev pub Cells : Type 0
Cells = List (Ptr × Entry)

-- Whether a pointer is that of a cell, or the end.
abbrev pub has : Ptr → Cells → Ptr → Bool
has a [] end = a =? end
has a ((p, _) ∷ xs) end = (a =? p) || has a xs end

-- No node twice.
abbrev pub Apart : Ptr → Cells → Ptr → Type 0
Apart start [] end = (start =? end) ≡ false
Apart start ((p, e) ∷ xs) end = (has start ((p, e) ∷ xs) end ≡ false) × Apart p xs end

-- The node of the first cell with a key.
unfoldable pub find : String → Cells → Option Ptr
find k [] = none
find k ((p, e) ∷ xs) = if e.key == k then some p else find k xs

unfoldable pub erase : String → Cells → Cells
erase k = keep (λ cell. not (cell.1.key == k))

-- No key twice.
abbrev pub UniqueKeys : Cells → Type 0
UniqueKeys [] = Unit
UniqueKeys ((p, e) ∷ xs) = (find e.key xs ≡ none) × UniqueKeys xs

pub Apart-has :
    (start : Ptr) (xs : Cells) (end : Ptr) → Apart start xs end → has start xs end ≡ false
Apart-has start [] end h = h
Apart-has start ((p, e) ∷ xs) end h = h.0

pub has_of_find : (k : String) (xs : Cells) (end n : Ptr) → find k xs ≡ some n → has n xs end ≡ true
unfolding find
has_of_find k [] end n f = cc
has_of_find k ((p, e) ∷ xs) end n f = ground (arith, has_of_find k xs end n)

pub erase_absent : (k : String) (xs : Cells) → find k xs ≡ none → erase k xs ≡ xs
unfolding find erase keep
erase_absent k [] f = refl
erase_absent k ((p, e) ∷ xs) f = ground (arith, erase_absent k xs)

pub has-erase :
    (a : Ptr) (k : String) (xs : Cells) (end : Ptr)
    → has a xs end ≡ false
    → has a (erase k xs) end ≡ false
unfolding erase keep
has-erase a k [] end h = h
has-erase a k ((p, e) ∷ xs) end h = ground (arith, has-erase a k xs end)

pub Apart-restart :
    (p start : Ptr) (xs : Cells) (end : Ptr)
    → Apart p xs end
    → has start xs end ≡ false
    → Apart start xs end
Apart-restart p start [] end h out = out
Apart-restart p start ((q, d) ∷ xs) end h out = (out, h.1)

pub Apart-erase :
    (k : String) (start : Ptr) (xs : Cells) (end : Ptr)
    → Apart start xs end
    → Apart start (erase k xs) end
unfolding erase keep
Apart-erase k start [] end h = h
Apart-erase k start ((p, e) ∷ xs) end h = elim (Bool-cases (e.key == k)) [
  | inl hit ↦
      rw hit (Apart-erase k start xs end (Apart-restart p start xs end h.1 (ground (arith, h.0))))
  | inr miss ↦ rw miss (ground (arith, h.0, has-erase start k xs end), Apart-erase k p xs end h.1)
]

pub find-erase :
    (k j : String) (xs : Cells) → find j (erase k xs) ≡ (if k == j then none else find j xs)
unfolding find erase keep
find-erase k j [] = ground arith
find-erase k j ((p, e) ∷ xs) =
    ground (arith, eq_iff k j, eq_iff e.key k, eq_iff e.key j, find-erase k j xs)

pub UniqueKeys-erase : (k : String) (xs : Cells) → UniqueKeys xs → UniqueKeys (erase k xs)
unfolding erase keep
UniqueKeys-erase k [] u = u
UniqueKeys-erase k ((p, e) ∷ xs) u = ground (arith, UniqueKeys-erase k xs, find-erase k e.key xs)

pub length-erase :
    (k : String) (xs : Cells) (n : Ptr)
    → UniqueKeys xs
    → find k xs ≡ some n
    → length (erase k xs) + 1 ≡ length xs
unfolding find erase keep
length-erase k [] n u f = cc
length-erase k ((p, e) ∷ xs) n u f =
    ground (arith, length-erase k xs n, erase_absent k xs, eq_iff e.key k)

pub has-erase_self :
    (k : String) (start : Ptr) (xs : Cells) (end n : Ptr)
    → Apart start xs end
    → UniqueKeys xs
    → find k xs ≡ some n
    → has n (erase k xs) end ≡ false
unfolding find erase keep
has-erase_self k start [] end n h u f = cc
has-erase_self k start ((p, e) ∷ xs) end n h u f = elim (Bool-cases (e.key == k)) [
  | inl hit ↦
      rw (hit, erase_absent k xs (ground (arith, eq_iff e.key k, u.0)))
        (ground (arith, Apart-has p xs end h.1))
  | inr miss ↦ rw miss (
      ground (
        arith,
        has-erase_self k p xs end n h.1 u.1,
        has_of_find k xs end n,
        Apart-has p xs end h.1,
      ))
]
