-- ===== src/Sheet/Entry.antt =====
-- What GetOrCreateSheet of sheet/manager.go leaves behind, on every branch.
use advo_cache.Base.{
  ℕ, ◌+◌, ◌≡◌, refl, ◌⊎◌, inl, inr, ◌||◌, [], none, some, String, arith, ◌==◌, text_key, conn_key,
  ◌=?◌, =?_iff, Bool-cases, Option-cases,
}
use mathlib.Core.Path.{subst}
use advo_cache.Base.Dict.{lookup, insert}
use advo_cache.Cache.{update}
use advo_cache.Cache.Rep.{Holds}
use advo_cache.Sheet.{
  Bcrypt, Sheet, Sheets, Result, ok, err, input_required, hash_failed, validate_password, enter,
  get_or_create_sheet, allocate, add_sheet,
}
use advo_cache.Sheet.Tenancy.{new_lem}

-- The same sheet, but for its password hash.
abbrev pub SameSheet : Sheet → Sheet → Type 0
SameSheet s s' = (s'.id ≡ s.id) × (s'.collaborators ≡ s.collaborators) × (s'.cache ≡ s.cache)

-- A sheet that is returned stands under the ID.
abbrev pub Found : String → Sheets → Result ℕ → Type 0
Found id m (ok p) = lookup id m.by_id ≡ some p
Found id m (err e) = Unit

-- No sheet was made.
abbrev pub Kept : String → Sheets → Sheets → Result ℕ → Type 0
Kept id m m' found =
    ((q : ℕ) → SameSheet (m.cells q) (m'.cells q))
    × (m'.by_id ≡ m.by_id)
    × (m'.fresh ≡ m.fresh)
    × Found id m found

-- An empty sheet was made at the next address, under an ID that had none.
abbrev pub Made : String → Sheets → Sheets → Result ℕ → Type 0
Made id m m' found =
    (s : Sheet) × (found ≡ ok m.fresh)
    × (m' ≡ record m {
      cells = update m.cells m.fresh s;
      fresh = m.fresh + 1;
      by_id = insert id m.fresh m.by_id;
    })
    × (lookup id m.by_id ≡ none)
    × (s.id ≡ id)
    × (s.collaborators ≡ [])
    × Holds s.cache []

-- A write of a sheet that differs in its hash alone.
SameSheet-update :
    (m : Sheets) (p : ℕ) (s : Sheet)
    → SameSheet (m.cells p) s
    → (q : ℕ) → SameSheet (m.cells q) (update m.cells p s q)
SameSheet-update m p s same q = elim (Bool-cases (p =? q)) [
  | inl here ↦ rw here (subst (λ k. SameSheet (m.cells k) s) ((=?_iff p q).0 here) same)
  | inr other ↦ rw other (refl, refl, refl)
]

module _ (b : Bcrypt) (m : Sheets) (id pw : String) (salt : ℕ) where
  validate_password-SameSheet : (s : Sheet) → SameSheet s (validate_password b pw salt s).0
  unfolding validate_password
  validate_password-SameSheet s = elim (Option-cases s.password_hash) [
    | inr (hash, set) ↦ ground arith
    | inl unset ↦ elim (Option-cases (b.generate salt pw)) [
      | inl failed ↦ ground arith
      | inr (hash, made) ↦ ground arith
    ]
  ]

  enter-Kept :
      (p : ℕ)
      → lookup id m.by_id ≡ some p
      → Kept id m (enter b p pw salt m).0 (enter b p pw salt m).1
  unfolding enter
  enter-Kept p found =
      let same =
        SameSheet-update m p (validate_password b pw salt (m.cells p)).0
          (validate_password-SameSheet (m.cells p)) in
      elim (Bool-cases (validate_password b pw salt (m.cells p)).1) [
        | inl valid ↦ rw valid (same, refl, refl, found)
        | inr refused ↦ rw refused (same, refl, refl, tt)
      ]

  -- The call never panics. Either no sheet is made, none changes but for its hash, and a sheet that is
  -- returned stands under the ID; or the ID was free, and an empty sheet stands under it and is
  -- returned.
  pub get_or_create_sheet_cases :
      (m' : Sheets) × (found : Result ℕ) × (get_or_create_sheet b id pw salt m ≡ some (m', found))
      × (Kept id m m' found ⊎ Made id m m' found)
  unfolding get_or_create_sheet
  get_or_create_sheet_cases = elim (Bool-cases (id == "" || pw == "")) [
    | inl missing ↦ (m, err input_required, rw missing refl, inl unchanged)
    | inr given ↦ elim (Option-cases (lookup id m.by_id)) [
      | inr (p, found) ↦ (
        (enter b p pw salt m).0,
        (enter b p pw salt m).1,
        rw (given, found) refl,
        inl (enter-Kept p found),
      )
      | inl absent ↦ elim (Option-cases (b.generate salt pw)) [
        | inl failed ↦ (m, err hash_failed, ground arith, inl unchanged)
        | inr (hash, made) ↦
            let (c, run, holds, cap') = new_lem in
            let s : Sheet = record {
              id = id;
              password_hash = some hash;
              cache = c;
              collaborators = [];
            } in
            (
              add_sheet id m.fresh (allocate s m),
              ok m.fresh,
              ground (arith, run),
              inr (s, refl, refl, absent, refl, refl, holds),
            )
      ]
    ]
  ]
    where
      unchanged :
          ((q : ℕ) → SameSheet (m.cells q) (m.cells q))
          × (m.by_id ≡ m.by_id)
          × (m.fresh ≡ m.fresh)
          × Unit {0}
      unchanged = (λ q. (refl, refl, refl), refl, refl, tt)
