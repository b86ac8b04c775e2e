-- ===== src/Sheet/Race/Sharing.antt =====
-- Who is let in when many open one ID at once, in sheet/manager.go.
use mathlib.Core.Path.{subst}
use advo_cache.Base.{
  ℕ, ◌≡◌, refl, sym, ap, ◌∙◌, ◌⊎◌, inl, inr, List, [], ◌∷◌, none, some, String, arith, ◌==◌,
  text_key, if◌then◌else◌, ◌=?◌, =?_iff, eq_iff, Bool-cases, Option-cases,
}
use advo_cache.Base.Dict.{lookup-insert_self}
use advo_cache.Cache.{update}
use advo_cache.Sheet.{
  Bcrypt, Sheet, Sheets, ok, err, invalid_password, hash_failed, get_sheet, allocate, add_sheet,
  new_sheet,
}
use advo_cache.Sheet.Tenancy.{Verifies, new_lem}
use advo_cache.Sheet.Race.{
  Stage, start, panicked, created, hashing, done, System, Turn, check, made, move, run,
}

module _ (b : Bcrypt) (id : String) (password : ℕ → String) where
  -- Not let in yet; a sheet that was made has the hash of the client's password.
  abbrev pub Waiting : ℕ → Stage → Type 0
  Waiting i start = Unit
  Waiting i (created s) =
      (salt : ℕ) × (hash : String) × (s.password_hash ≡ some hash)
      × (b.generate salt (password i) ≡ some hash)
  Waiting i (done (err e)) = Unit
  Waiting i _ = ⊥

  -- Nobody has opened the ID.
  abbrev pub Fresh : System → Type 0
  Fresh sys = (get_sheet id sys.sheets ≡ none) × ((i : ℕ) → Waiting i (sys.stages i))

  -- Let in, with this password, or not.
  abbrev pub Entered : ℕ → String → ℕ → Stage → Type 0
  Entered p pw i (done (ok q)) = (q ≡ p) × (password i ≡ pw)
  Entered p pw i stage = Waiting i stage

  -- One sheet stands under the ID, with the hash of one password.
  pub record Opened (sys : System) : Type 0 where
    pub cell : ℕ
    pub hash : String
    pub salt : ℕ
    pub shared : String
    pub found : get_sheet id sys.sheets ≡ some cell
    pub hashed : (sys.sheets.cells cell).password_hash ≡ some hash
    pub drawn : b.generate salt shared ≡ some hash
    pub entered : (i : ℕ) → Entered cell shared i (sys.stages i)

  update_all :
      (P : ℕ → Stage → Type 0) (stages : ℕ → Stage) (i : ℕ) (v : Stage)
      → P i v
      → ((j : ℕ) → P j (stages j))
      → (j : ℕ) → P j (update stages i v j)
  update_all P stages i v w rest j = elim (Bool-cases (i =? j)) [
    | inl same ↦ rw same (subst (λ k. P k v) ((=?_iff i j).0 same) w)
    | inr other ↦ rw other (rest j)
  ]

  abbrev moved : System → ℕ → Stage → System
  moved sys i stage = record sys { stages = update sys.stages i stage }

  made_failed :
      (i salt : ℕ)
      → b.generate salt (password i) ≡ none
      → made b id password (new_sheet b id (password i) salt) ≡ done (err hash_failed)
  unfolding new_sheet
  made_failed i salt failed = ground arith

  made_sheet :
      (i salt : ℕ) (hash : String)
      → b.generate salt (password i) ≡ some hash
      → made b id password (new_sheet b id (password i) salt)
        ≡ created
            (record { id = id; password_hash = some hash; cache = new_lem.0; collaborators = [] })
  unfolding new_sheet
  made_sheet i salt hash drawn = ground (arith, new_lem.1)

  made-Waiting : (i salt : ℕ) → Waiting i (made b id password (new_sheet b id (password i) salt))
  made-Waiting i salt = elim (Option-cases (b.generate salt (password i))) [
    | inl failed ↦ subst (Waiting i) (sym (made_failed i salt failed)) tt
    | inr (hash, drawn) ↦
        subst (Waiting i) (sym (made_sheet i salt hash drawn)) (salt, hash, refl, drawn)
  ]

  -- A client alone with the ID makes the sheet.
  abbrev stored : System → ℕ → Sheet → System
  stored sys i s = record {
    sheets = add_sheet id sys.sheets.fresh (allocate s sys.sheets);
    stages = update sys.stages i (done (ok sys.sheets.fresh));
  }

  Waiting-Entered :
      (p : ℕ) (pw : String) (i : ℕ) (stage : Stage) → Waiting i stage → Entered p pw i stage
  Waiting-Entered p pw i start w = w
  Waiting-Entered p pw i panicked w = w
  Waiting-Entered p pw i (created s) w = w
  Waiting-Entered p pw i (hashing q) w = w
  Waiting-Entered p pw i (done (err e)) w = w
  Waiting-Entered p pw i (done (ok q)) w = absurd w

  stored-Opened :
      (sys : System) (i : ℕ) (s : Sheet)
      → ((j : ℕ) → Waiting j (sys.stages j))
      → Waiting i (created s)
      → Opened (stored sys i s)
  stored-Opened sys i s waiting (salt, hash, hashed, drawn) = record {
    cell = sys.sheets.fresh;
    hash = hash;
    salt = salt;
    shared = password i;
    found = lookup-insert_self id sys.sheets.fresh sys.sheets.by_id;
    hashed = rw ((=?_iff sys.sheets.fresh sys.sheets.fresh).1 refl) hashed;
    drawn = drawn;
    entered =
        update_all (Entered sys.sheets.fresh (password i)) sys.stages i (done (ok sys.sheets.fresh))
          (refl, refl)
          (λ j. Waiting-Entered sys.sheets.fresh (password i) j (sys.stages j) (waiting j));
  }

  abbrev pub Kept : System → Type 0
  Kept sys = Fresh sys ⊎ Opened sys

  move-Fresh :
      (turn : Turn) (sys : System) (stage : Stage)
      → Fresh sys
      → sys.stages turn.client ≡ stage
      → Kept (move b id password turn sys)
  unfolding move
  move-Fresh turn sys start (absent, waiting) at =
      let i = turn.client in
      let stage = made b id password (new_sheet b id (password i) turn.salt) in
      let next : move b id password turn sys ≡ moved sys i stage = ground arith in
      subst Kept (sym next)
        (inl (absent, update_all Waiting sys.stages i stage (made-Waiting i turn.salt) waiting))
  move-Fresh turn sys (created s) (absent, waiting) at =
      let next : move b id password turn sys ≡ stored sys turn.client s = ground arith in
      subst Kept (sym next)
        (inr (stored-Opened sys turn.client s waiting (rw at at (waiting turn.client))))
  move-Fresh turn sys (done r) (absent, waiting) at =
      let next : move b id password turn sys ≡ moved sys turn.client (done r) = ground arith in
      subst Kept (sym next) (
        inl (
          absent,
          update_all Waiting sys.stages turn.client (done r) (rw at at (waiting turn.client))
              waiting,
        ))
  move-Fresh turn sys (hashing p) (absent, waiting) at = absurd (rw at at (waiting turn.client))
  move-Fresh turn sys panicked (absent, waiting) at = absurd (rw at at (waiting turn.client))

  module _ (verifies : Verifies b) where
    check_lem :
        (p : ℕ) (pw hash : String) (m : Sheets)
        → (m.cells p).password_hash ≡ some hash
        → check b id password p pw m
          ≡ done (if b.compare hash pw then ok p else err invalid_password)
    unfolding check
    check_lem p pw hash m hashed = ground arith

    checked-Entered :
        (sys : System) (o : Opened sys) (i : ℕ)
        → Entered o.cell o.shared i (check b id password o.cell (password i) sys.sheets)
    checked-Entered sys o i =
        let tested = verifies o.salt o.shared (password i) o.hash o.drawn in
        let e = check_lem o.cell (password i) o.hash sys.sheets o.hashed in
        subst (Entered o.cell o.shared i) (sym e) (elim (Bool-cases (o.shared == password i)) [
          | inl right ↦ rw (tested, right) (refl, sym ((eq_iff o.shared (password i)).0 right))
          | inr wrong ↦ rw (tested, wrong) tt
        ])

    moved-Opened :
        (sys : System) (o : Opened sys) (i : ℕ) (stage : Stage)
        → Entered o.cell o.shared i stage
        → Opened (moved sys i stage)
    moved-Opened sys o i stage there = record {
      cell = o.cell;
      hash = o.hash;
      salt = o.salt;
      shared = o.shared;
      found = o.found;
      hashed = o.hashed;
      drawn = o.drawn;
      entered = update_all (Entered o.cell o.shared) sys.stages i stage there o.entered;
    }

    move-Opened :
        (turn : Turn) (sys : System) (stage : Stage)
        → (o : Opened sys) → sys.stages turn.client ≡ stage
        → Opened (move b id password turn sys)
    unfolding move
    move-Opened turn sys start o at =
        let i = turn.client in
        let next : move b id password turn sys
            ≡ moved sys i (check b id password o.cell (password i) sys.sheets) =
          ground (arith, o.found) in
        subst Opened (sym next) (moved-Opened sys o i _ (checked-Entered sys o i))
    move-Opened turn sys (created s) o at =
        let i = turn.client in
        let next : move b id password turn sys
            ≡ moved sys i (check b id password o.cell (password i) sys.sheets) =
          ground (arith, o.found) in
        subst Opened (sym next) (moved-Opened sys o i _ (checked-Entered sys o i))
    move-Opened turn sys (done r) o at =
        let next : move b id password turn sys ≡ moved sys turn.client (done r) = ground arith in
        subst Opened (sym next)
          (moved-Opened sys o turn.client (done r) (rw at at (o.entered turn.client)))
    move-Opened turn sys (hashing p) o at = absurd (rw at at (o.entered turn.client))
    move-Opened turn sys panicked o at = absurd (rw at at (o.entered turn.client))

    run-Kept : (turns : List Turn) (sys : System) → Kept sys → Kept (run b id password turns sys)
    unfolding run
    run-Kept [] sys kept = kept
    run-Kept (turn ∷ turns) sys (inl fresh) =
        run-Kept turns (move b id password turn sys)
          (move-Fresh turn sys (sys.stages turn.client) fresh refl)
    run-Kept (turn ∷ turns) sys (inr o) =
        run-Kept turns (move b id password turn sys)
          (inr (move-Opened turn sys (sys.stages turn.client) o refl))

    -- Of clients that open an ID without a sheet, with passwords that are not empty, however their
    -- steps interleave: any two that are let in are in one sheet, which stands under the ID, and
    -- gave the same password. bcrypt is taken to match a hash with the password that it was made
    -- of, and with no other, as it does for passwords of at most 72 bytes.
    pub run-shares :
        (turns : List Turn) (sys : System) (i j p q : ℕ)
        → Fresh sys
        → (run b id password turns sys).stages i ≡ done (ok p)
        → (run b id password turns sys).stages j ≡ done (ok q)
        → (p ≡ q)
          × (password i ≡ password j)
          × (get_sheet id (run b id password turns sys).sheets ≡ some p)
    run-shares turns sys i j p q fresh wi wj = elim (run-Kept turns sys (inl fresh)) [
      | inl still ↦ absurd (rw wi at (still.1 i))
      | inr o ↦
          let (pi, wi') = rw wi at (o.entered i) in
          let (pj, wj') = rw wj at (o.entered j) in
          (pi ∙ sym pj, wi' ∙ sym wj', o.found ∙ ap some (sym pi))
    ]
