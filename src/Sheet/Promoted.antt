-- ===== src/Sheet/Promoted.antt =====
-- Two clients that open a sheet of a replica at once, in sheet/sheet.go and sheet/manager.go.
use advo_cache.Base.{
  ℕ, ◌≡◌, ◌≢◌, ◌∙◌, false, List, [], ◌∷◌, none, some, String, arith, text_key, ◌=?◌, eq_iff,
}
use advo_cache.Cache.{update}
use advo_cache.Sheet.{Bcrypt, ok, get_sheet}
use advo_cache.Sheet.Race.{start, hashing, done, check, System, Turn, step, move, run}
use advo_cache.Sheet.Tenancy.{Verifies}

abbrev pub turn : ℕ → ℕ → Turn
turn i salt = record { client = i; salt = salt }

-- Each looks at the hash, and then each stores one.
abbrev pub schedule : ℕ → ℕ → ℕ → ℕ → List Turn
schedule i j salt salt' = turn i salt ∷ turn j salt' ∷ turn i salt ∷ turn j salt' ∷ []

module _ (b : Bcrypt) (id : String) (password : ℕ → String) (i salt p : ℕ) (sys : System) where
  abbrev seen : System
  seen = record sys { stages = update sys.stages i (hashing p) }

  abbrev set : String → System
  set hash = record {
    sheets = record sys.sheets {
      cells = update sys.sheets.cells p (record (sys.sheets.cells p) { password_hash = some hash });
    };
    stages = update sys.stages i (done (ok p));
  }

  move-seen :
      sys.stages i ≡ start
      → get_sheet id sys.sheets ≡ some p
      → (sys.sheets.cells p).password_hash ≡ none
      → move b id password (turn i salt) sys ≡ seen
  unfolding move step check
  move-seen at found bare = ground arith

  move-set :
      (hash : String)
      → sys.stages i ≡ hashing p
      → b.generate salt (password i) ≡ some hash
      → move b id password (turn i salt) sys ≡ set hash
  unfolding move step
  move-set hash at drawn = ground arith

module _ (b : Bcrypt) (id : String) (password : ℕ → String) where
  -- Two clients with different passwords open a sheet without a password, such as a promoted
  -- replica has, and bcrypt makes a hash of either. There is a schedule in which both are let in,
  -- and the password of the first then fails against the hash of the sheet. bcrypt is taken to
  -- match a hash with the password that it was made of, and with no other, as it does for passwords
  -- of at most 72 bytes.
  pub both_entered :
      (sys : System) (i j salt salt' p : ℕ) (hash hash' : String)
      → Verifies b
      → (i =? j) ≡ false
      → password i ≢ password j
      → sys.stages i ≡ start
      → sys.stages j ≡ start
      → get_sheet id sys.sheets ≡ some p
      → (sys.sheets.cells p).password_hash ≡ none
      → b.generate salt (password i) ≡ some hash
      → b.generate salt' (password j) ≡ some hash'
      → (end : System) × (run b id password (schedule i j salt salt') sys ≡ end)
        × (end.stages i ≡ done (ok p))
        × (end.stages j ≡ done (ok p))
        × ((end.sheets.cells p).password_hash ≡ some hash')
        × (b.compare hash' (password i) ≡ false)
  unfolding run
  both_entered sys i j salt salt' p hash hash' verifies ne differ si sj found bare drawn drawn' =
      let s₁ = seen b id password i salt p sys in
      let s₂ = seen b id password j salt' p s₁ in
      let s₃ = set b id password i salt p s₂ hash in
      let s₄ = set b id password j salt' p s₃ hash' in
      let whole : run b id password (schedule i j salt salt') sys ≡ s₄ = cc (
        move-seen b id password i salt p sys si found bare,
        move-seen b id password j salt' p s₁ (ground arith) found bare,
        move-set b id password i salt p s₂ hash (ground arith) drawn,
        move-set b id password j salt' p s₃ hash' (ground arith) drawn',
      ) in
      (
        s₄,
        whole,
        ground arith,
        ground arith,
        ground arith,
        verifies salt' (password j) (password i) hash' drawn'
            ∙ ground (arith, eq_iff (password j) (password i)),
      )
