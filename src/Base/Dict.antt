-- ===== src/Base/Dict.antt =====
-- A Go map (and a `sync.Map`) as an association list. The order in which `range` visits it is left
-- open: a loop takes it as an argument, any list that `Enumerates` the map.
use mathlib.Core.Path.{◌≡◌, refl}
use mathlib.Core.Bool.{Bool, false, not, ◌&&◌, ◌||◌}
use mathlib.Core.Option.{Option, none, some}
use mathlib.Core.List.{List, [], ◌∷◌}
use native.Mathlib.Omega.{arith}
use advo_cache.Base.Tests.{MapKey, ◌==◌, eq_refl, if◌then◌else◌}

abbrev pub Dict {ℓ} : Type ℓ → Type ℓ → Type ℓ
Dict K V = List (K × V)

module _ {ℓ} {K V : Type ℓ} ⦃key : MapKey K⦄ where
  -- m[k], and whether it is there
  unfoldable pub lookup : K → Dict K V → Option V
  lookup k [] = none
  lookup k ((j, v) ∷ m) = if j == k then some v else lookup k m

  -- delete(m, k)
  unfoldable pub remove : K → Dict K V → Dict K V
  remove k [] = []
  remove k ((j, v) ∷ m) = if j == k then remove k m else (j, v) ∷ remove k m

  -- m[k] = v
  unfoldable pub insert : K → V → Dict K V → Dict K V
  insert k v m = (k, v) ∷ remove k m

  -- Whether the map has the key.
  unfoldable pub has_key : K → Dict K V → Bool
  has_key k [] = false
  has_key k ((j, v) ∷ m) = (j == k) || has_key k m

  pub lookup-remove :
      (k j : K) (m : Dict K V) → lookup j (remove k m) ≡ (if k == j then none else lookup j m)
  unfolding lookup remove
  lookup-remove k j [] = ground arith
  lookup-remove k j ((i, v) ∷ m) =
      ground (arith, key.same_iff k j, key.same_iff i k, key.same_iff i j, lookup-remove k j m)

  pub lookup-insert :
      (k j : K) (v : V) (m : Dict K V)
      → lookup j (insert k v m) ≡ (if k == j then some v else lookup j m)
  unfolding lookup insert
  lookup-insert k j v m = ground (arith, lookup-remove k j m)

  pub lookup-insert_self : (k : K) (v : V) (m : Dict K V) → lookup k (insert k v m) ≡ some v
  lookup-insert_self k v m = ground (arith, lookup-insert k k v m, eq_refl k)

  -- No key twice: what makes an association list a map.
  abbrev pub DistinctKeys : Dict K V → Type 0
  DistinctKeys [] = Unit
  DistinctKeys ((k, v) ∷ m) = (has_key k m ≡ false) × DistinctKeys m

  pub lookup-none_of_has_key : (k : K) (m : Dict K V) → has_key k m ≡ false → lookup k m ≡ none
  unfolding lookup has_key
  lookup-none_of_has_key k [] h = refl
  lookup-none_of_has_key k ((j, v) ∷ m) h = ground (arith, lookup-none_of_has_key k m)

  pub has_key_of_lookup-none : (k : K) (m : Dict K V) → lookup k m ≡ none → has_key k m ≡ false
  unfolding lookup has_key
  has_key_of_lookup-none k [] h = refl
  has_key_of_lookup-none k ((j, v) ∷ m) h = ground (arith, has_key_of_lookup-none k m)

  pub has_key-remove :
      (k j : K) (m : Dict K V) → has_key j m ≡ false → has_key j (remove k m) ≡ false
  unfolding has_key remove
  has_key-remove k j [] h = refl
  has_key-remove k j ((i, v) ∷ m) h = ground (arith, has_key-remove k j m)

  pub has_key-remove_self : (k : K) (m : Dict K V) → has_key k (remove k m) ≡ false
  unfolding has_key remove
  has_key-remove_self k [] = refl
  has_key-remove_self k ((i, v) ∷ m) = ground (arith, has_key-remove_self k m)

  pub has_key-remove_if :
      (k j : K) (m : Dict K V) → has_key j (remove k m) ≡ (not (k == j) && has_key j m)
  unfolding has_key remove
  has_key-remove_if k j [] = ground arith
  has_key-remove_if k j ((i, v) ∷ m) =
      ground (arith, key.same_iff k j, key.same_iff i k, key.same_iff i j, has_key-remove_if k j m)

  pub has_key-insert :
      (k j : K) (v : V) (m : Dict K V) → has_key j (insert k v m) ≡ ((k == j) || has_key j m)
  unfolding has_key insert
  has_key-insert k j v m = ground (arith, has_key-remove_if k j m)

  pub remove-DistinctKeys : (k : K) (m : Dict K V) → DistinctKeys m → DistinctKeys (remove k m)
  unfolding remove
  remove-DistinctKeys k [] d = d
  remove-DistinctKeys k ((i, v) ∷ m) d =
      ground (arith, remove-DistinctKeys k m, has_key-remove k i m)

  pub insert-DistinctKeys :
      (k : K) (v : V) (m : Dict K V) → DistinctKeys m → DistinctKeys (insert k v m)
  unfolding insert
  insert-DistinctKeys k v m d = (has_key-remove_self k m, remove-DistinctKeys k m d)

  -- One order in which `range` may visit the map: each of its entries once.
  pub record Enumerates (order m : Dict K V) : Type ℓ where
    pub once : DistinctKeys order
    pub same : (k : K) → lookup k order ≡ lookup k m

  -- The order in which the model keeps the map is one of them.
  pub Enumerates-self : (m : Dict K V) → DistinctKeys m → Enumerates m m
  Enumerates-self m d = record { once = d; same = λ k. refl }

abbrev pub values {ℓ} : {K V : Type ℓ} → Dict K V → List V
values [] = []
values ((k, v) ∷ m) = v ∷ values m
