-- ===== src/Base/Tests.antt =====
-- Boolean tests, the conditional, and the chaining of fallible steps.
use Prim.Native.Nat.{ℕ, ◌≤◌, ◌<◌, compare, Ordering}
use Prim.Native.String.{String}
use mathlib.Core.Path.{◌≡◌, refl}
use mathlib.Core.Logic.{◌↔◌, ◌⊎◌, inl, inr}
use mathlib.Core.Bool.{Bool, true, false}
use mathlib.Core.Option.{Option, none, some}
use native.Mathlib.Omega.{arith}
use text.Mathlib.Text.{◌==◌ as text_eq}
use text.Mathlib.TextEquality.{eq_iff}

abbrev pub ltb : ℕ → ℕ → Bool
ltb a b = elim (compare a b) [ Ordering.lt ↦ true | _ ↦ false ]

abbrev pub leb : ℕ → ℕ → Bool
leb a b = elim (compare a b) [ Ordering.gt ↦ false | _ ↦ true ]

infix 50 ◌=?◌
abbrev pub ◌=?◌ : ℕ → ℕ → Bool
a =? b = elim (compare a b) [ Ordering.eq ↦ true | _ ↦ false ]

pub =?_iff : (a b : ℕ) → ((a =? b) ≡ true) ↔ (a ≡ b)
=?_iff a b = ground arith

-- What keys a map: texts, and connections.
pub record MapKey {ℓ} (K : Type ℓ) : Type ℓ where
  pub same : K → K → Bool
  pub same_iff : (j k : K) → (same j k ≡ true) ↔ (j ≡ k)

abbrev pub ◌==◌ {ℓ} : {K : Type ℓ} ⦃key : MapKey K⦄ → K → K → Bool
◌==◌ ⦃key⦄ j k = key.same j k

infix 50 ◌==◌
instance abbrev pub text_key : MapKey String
text_key = record { same = text_eq; same_iff = eq_iff }

instance abbrev pub conn_key : MapKey ℕ
conn_key = record { same = ◌=?◌; same_iff = =?_iff }

pub eq_refl {ℓ} : {K : Type ℓ} ⦃key : MapKey K⦄ (k : K) → (k == k) ≡ true
eq_refl ⦃key⦄ k = (key.same_iff k k).1 refl

infix 1 if◌then◌else◌
abbrev pub if◌then◌else◌ {ℓ} : {A : Type ℓ} → Bool → A → A → A
if true then x else y = x
if false then x else y = y

-- A `do` block of steps that may panic: `none` is a panic, such as the use of a nil pointer.
module _ {ℓ κ} {S : Type ℓ} {T : Type κ} where
  abbrev pub ◌>>=◌ : Option S → (S → Option T) → Option T
  step >>= rest = elim step [ some s ↦ rest s | none ↦ none ]

  infixl 8 ◌>>=◌

pub Bool-cases : (b : Bool) → (b ≡ true) ⊎ (b ≡ false)
Bool-cases true = inl refl
Bool-cases false = inr refl

pub Option-cases {ℓ} : {A : Type ℓ} (o : Option A) → (o ≡ none) ⊎ ((a : A) × (o ≡ some a))
Option-cases none = inl refl
Option-cases (some a) = inr (a, refl)

pub ltb→lt : (a b : ℕ) → ltb a b ≡ true → a < b
ltb→lt a b h = ground arith

pub ltb→le : (a b : ℕ) → ltb a b ≡ false → b ≤ a
ltb→le a b h = ground arith
