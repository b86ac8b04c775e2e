-- ===== src/Decimal.antt =====
-- itoa, of which cache/cache.go, lock/lock.go, sheet/sheet.go, ws/handler.go and replica/client.go
-- each have a copy: an int, by its 64-bit pattern, as decimal digits. A text is the list of its bytes.
pub mod RoundTrip
mod Tests
use advo_cache.Base.{
  ℕ, zero, suc, ◌+◌, ◌/◌, ◌%◌, List, [], ◌∷◌, Option, none, some, if◌then◌else◌, ◌=?◌,
}
use advo_cache.Time.{is_positive}

-- The loop, with `b[pos:]`: at `pos` 0 the write is out of range, a panic.
unfoldable pub fill : (pos : ℕ) → ℕ → List ℕ → Option (List ℕ)
fill zero i b = if is_positive i then none else some b
fill (suc pos) i b =
    let rest = fill pos (i / 10) ((48 + i % 10) ∷ b) in if is_positive i then rest else some b

unfoldable pub itoa : ℕ → Option (List ℕ)
unfolding fill
itoa i = if i =? 0 then some (48 ∷ []) else fill 20 i []
