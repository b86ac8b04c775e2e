-- ===== src/Decimal/Tests.antt =====
-- itoa at a few ints.
use advo_cache.Base.{
  ℕ, ◌≤◌, ◌≡◌, ◌-◌, ◌^◌, refl, true, false, List, [], ◌∷◌, some, arith, ◌=?◌, length,
}
use advo_cache.Decimal.{fill, itoa}
use advo_cache.Decimal.RoundTrip.{read, head, are_digits, itoa-read}

twelve : itoa 12 ≡ some (49 ∷ 50 ∷ [])
unfolding itoa fill
twelve = refl

-- -1 is printed as the empty text.
minus_one : itoa (2 ^ 64 - 1) ≡ some []
unfolding itoa fill
minus_one = refl

itoa-read_example :
    (s : List ℕ) × (itoa 12 ≡ some s)
    × (read s 0 ≡ 12)
    × (length s ≤ 19)
    × (are_digits s ≡ true)
    × ((head s =? 48) ≡ false)
    × (1 ≤ length s)
itoa-read_example = itoa-read 12 (omega arith)
