-- ===== src/Decimal/RoundTrip.antt =====
-- The digits of itoa of cache/cache.go are those of the number.
use advo_cache.Base.{
  ℕ, zero, suc, ◌+◌, ◌-◌, ◌*◌, ◌/◌, ◌%◌, ◌≤◌, ◌<◌, ◌≡◌, refl, ap, sym, ◌∙◌, inl, inr, Bool, true,
  false, ◌&&◌, List, [], ◌∷◌, some, arith, if◌then◌else◌, ◌=?◌, =?_iff, leb, length, Bool-cases,
}
use advo_cache.Time.{is_positive, half, word}
use advo_cache.Decimal.{fill, itoa}

-- The number that digits stand for, after those that stand for `n`.
abbrev pub read : List ℕ → ℕ → ℕ
read [] n = n
read (d ∷ ds) n = read ds (n * 10 + (d - 48))

abbrev pub head : List ℕ → ℕ
head [] = 0
head (d ∷ ds) = d

-- From '0' to '9'.
abbrev pub are_digits : List ℕ → Bool
are_digits [] = true
are_digits (d ∷ ds) = (leb 48 d && leb d 57) && are_digits ds

abbrev tens : ℕ → ℕ
tens zero = 1
tens (suc k) = 10 * tens k

fill_zero : (pos : ℕ) (b : List ℕ) → fill pos 0 b ≡ some b
unfolding fill
fill_zero zero b = refl
fill_zero (suc pos) b = refl

-- What is promised of the bytes: they read as the number after the digits `b`, there are at most `k`
-- more of them, and the first of these is not '0'.
abbrev Prints : ℕ → ℕ → List ℕ → List ℕ → Type 0
Prints k i b s =
    (read s 0 ≡ read b i)
    × (length s ≤ k + length b)
    × (are_digits s ≡ true)
    × (if i =? 0 then s ≡ b else ((head s =? 48) ≡ false))

fill_step :
    (pos i : ℕ) (b : List ℕ)
    → is_positive i ≡ true
    → fill (suc pos) i b ≡ fill pos (i / 10) ((48 + i % 10) ∷ b)
unfolding fill
fill_step pos i b h = rw h refl

last_digit : (i : ℕ) → i / 10 * 10 + (48 + i % 10 - 48) ≡ i
last_digit i = omega arith

fill_stop : (pos i : ℕ) (b : List ℕ) → is_positive i ≡ false → fill (suc pos) i b ≡ some b
unfolding fill
fill_stop pos i b h = rw h refl

-- The first byte, if it is the only one, or by the bytes before it.
leads :
    (i : ℕ) (b s : List ℕ)
    → (i =? 0) ≡ false
    → (if i / 10 =? 0 then s ≡ (48 + i % 10) ∷ b else ((head s =? 48) ≡ false))
    → (head s =? 48) ≡ false
leads i b s some_left first = elim (Bool-cases (i / 10 =? 0)) [
  | inl short ↦
      let e : s ≡ (48 + i % 10) ∷ b = rw short at first in ap (λ x. head x =? 48) e ∙ ground arith
  | inr long ↦ rw long at first
]

-- With room for `k` digits and more, a number of `k` digits is written whole.
fill-Prints :
    (k pos i : ℕ) (b : List ℕ)
    → k ≤ pos
    → i < tens k
    → i < half
    → are_digits b ≡ true
    → (s : List ℕ) × (fill pos i b ≡ some s) × Prints k i b s
fill-Prints zero pos i b room small fits digits =
    let none_left : i ≡ 0 = omega arith in
    (b, rw none_left (fill_zero pos b), (ground arith, omega arith, digits, rw none_left refl))
fill-Prints (suc k) zero i b room small fits digits = absurd (omega arith)
fill-Prints (suc k) (suc pos) i b room small fits digits = elim (Bool-cases (i =? 0)) [
  | inl none_left ↦
      let e = (=?_iff i 0).0 none_left in
      (b, rw e (fill_zero (suc pos) b), (ground arith, omega arith, digits, rw e refl))
  | inr some_left ↦
      let (s, run, (same, short, all, first)) =
        fill-Prints k pos (i / 10) ((48 + i % 10) ∷ b) (omega arith) (omega arith) (omega arith)
          (ground arith) in
      (
        s,
        fill_step pos i b (ground arith) ∙ run,
        (
          same ∙ ap (read b) (last_digit i),
          omega arith,
          all,
          rw some_left (leads i b s some_left first),
        ),
      )
]

not_empty : (s : List ℕ) (i : ℕ) → (i =? 0) ≡ false → read s 0 ≡ i → 1 ≤ length s
not_empty [] i something same = absurd (ground arith)
not_empty (d ∷ ds) i something same = omega arith

-- For every int, itoa ends without a panic, before its buffer of 20 bytes is full. A positive
-- number is printed by its decimal digits, at least one and at most 19, without a leading '0'; 0 is
-- printed as the one digit '0', and a negative number as the empty text.
pub itoa-read :
    (i : ℕ)
    → i < word
    → (s : List ℕ) × (itoa i ≡ some s)
      × (read s 0 ≡ (if is_positive i then i else 0))
      × (length s ≤ 19)
      × (are_digits s ≡ true)
      × ((head s =? 48) ≡ (i =? 0))
      × (if is_positive i then 1 ≤ length s else (s ≡ (if i =? 0 then 48 ∷ [] else [])))
unfolding itoa
itoa-read i fits = elim (Bool-cases (i =? 0)) [
  | inl nothing ↦
      let e = (=?_iff i 0).0 nothing in
      (48 ∷ [], rw nothing refl, rw e refl, omega arith, refl, rw e refl, rw e refl)
  | inr something ↦ elim (Bool-cases (is_positive i)) [
    | inl positive ↦
        let (s, run, (same, short, all, first)) =
          fill-Prints 19 20 i [] (omega arith) (ground arith) (ground arith) refl in
        (
          s,
          rw something run,
          rw positive same,
          omega arith,
          all,
          (rw something at first) ∙ sym something,
          rw positive (not_empty s i something same),
        )
    | inr negative ↦ (
      [],
      rw something (fill_stop 19 i [] negative),
      rw negative refl,
      omega arith,
      refl,
      sym something,
      rw negative (rw something refl),
    )
  ]
]
