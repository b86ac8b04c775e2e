-- ===== src/Base/Lists.antt =====
-- Lists measured by native numbers, and filtered by Boolean tests.
use Prim.Native.Nat.{ℕ, suc, ◌+◌, ◌≤◌}
use mathlib.Core.Path.{◌≡◌, refl}
use mathlib.Core.Bool.{Bool, not, ◌&&◌}
use mathlib.Core.List.{List, [], ◌∷◌}
use native.Mathlib.Omega.{arith}
use advo_cache.Base.Tests.{if◌then◌else◌}

module _ {ℓ} {A : Type ℓ} where
  abbrev pub length : List A → ℕ
  length [] = 0
  length (x ∷ xs) = suc (length xs)

  -- The items that pass the test, in order.
  unfoldable pub keep : (A → Bool) → List A → List A
  keep test [] = []
  keep test (x ∷ xs) = if test x then x ∷ keep test xs else keep test xs

  pub length-keep-le : (test : A → Bool) (xs : List A) → length (keep test xs) ≤ length xs
  unfolding keep
  length-keep-le test [] = omega arith
  length-keep-le test (x ∷ xs) = ground (arith, length-keep-le test xs)

  pub keep-keep : (f g : A → Bool) (xs : List A) → keep f (keep g xs) ≡ keep (λ x. f x && g x) xs
  unfolding keep
  keep-keep f g [] = refl
  keep-keep f g (x ∷ xs) = ground (arith, keep-keep f g xs)

  -- How many items pass the test.
  unfoldable pub count : (A → Bool) → List A → ℕ
  count test [] = 0
  count test (x ∷ xs) = if test x then suc (count test xs) else count test xs

  pub count-keep :
      (test : A → Bool) (xs : List A)
      → count test xs + length (keep (λ x. not (test x)) xs) ≡ length xs
  unfolding count keep
  count-keep test [] = omega arith
  count-keep test (x ∷ xs) = ground (arith, count-keep test xs)
