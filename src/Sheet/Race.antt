-- ===== src/Sheet/Race.antt =====
-- GetOrCreateSheet of sheet/manager.go with its goroutines interleaved: the Load and the LoadOrStore of
-- the `sync.Map` are atomic steps, and so is each part of ValidatePassword, which looks at the hash and
-- may store one. All clients here open one ID, each with a password of its own, and neither is empty.
pub mod Sharing
use mathlib.Core.Path.{subst}
use advo_cache.Base.{
  ℕ, ◌≡◌, refl, sym, ap, ◌∙◌, ◌⊎◌, inl, inr, List, [], ◌∷◌, Option, none, some, String, arith, ◌==◌,
  text_key, if◌then◌else◌, ◌=?◌, =?_iff, eq_iff, Bool-cases, Option-cases,
}
use advo_cache.Base.Dict.{lookup-insert_self}
use advo_cache.Cache.{update}
use advo_cache.Sheet.{
  Bcrypt, Sheet, Sheets, Result, ok, err, invalid_password, hash_failed, get_sheet, allocate,
  add_sheet, new_sheet,
}
use advo_cache.Sheet.Tenancy.{Verifies, new_lem}

-- Where a call stands: it has made a sheet, it has seen that a sheet has no hash, or it has returned.
pub data Stage : Type 0 where
  start panicked : Stage
  created : Sheet → Stage
  hashing : ℕ → Stage
  done : Result ℕ → Stage

pub record System : Type 0 where
  pub sheets : Sheets
  pub stages : ℕ → Stage

-- Who is at turn, and the salt that bcrypt draws.
pub record Turn : Type 0 where
  pub client : ℕ
  pub salt : ℕ

module _ (b : Bcrypt) (id : String) (password : ℕ → String) where
  unfoldable pub check : ℕ → String → Sheets → Stage
  check p pw m = elim (m.cells p).password_hash [
    | none ↦ hashing p
    | some hash ↦ done (if b.compare hash pw then ok p else err invalid_password)
  ]

  abbrev pub made : Option (Result Sheet) → Stage
  made none = panicked
  made (some (err e)) = done (err e)
  made (some (ok s)) = created s

  unfoldable pub step : String → ℕ → Stage → Sheets → Sheets × Stage
  unfolding check
  step pw salt start m = elim (get_sheet id m) [
    | some p ↦ (m, check p pw m)
    | none ↦ (m, made (new_sheet b id pw salt))
  ]
  step pw salt (created s) m = elim (get_sheet id m) [
    | some p ↦ (m, check p pw m)
    | none ↦ (add_sheet id m.fresh (allocate s m), done (ok m.fresh))
  ]
  step pw salt (hashing p) m = elim (b.generate salt pw) [
    | none ↦ (m, done (err invalid_password))
    | some hash ↦ (
      record m { cells = update m.cells p (record (m.cells p) { password_hash = some hash }) },
      done (ok p),
    )
  ]
  step pw salt panicked m = (m, panicked)
  step pw salt (done r) m = (m, done r)

  unfoldable pub move : Turn → System → System
  unfolding step
  move turn sys =
      let i = turn.client in
      let (m, stage) = step (password i) turn.salt (sys.stages i) sys.sheets in
      record { sheets = m; stages = update sys.stages i stage }

  unfoldable pub run : List Turn → System → System
  unfolding move
  run [] sys = sys
  run (turn ∷ turns) sys = run turns (move turn sys)
