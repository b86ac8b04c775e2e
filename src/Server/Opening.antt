-- ===== src/Server/Opening.antt =====
-- The branches of handleOpen in ws/handler.go.
use Prim.Native.String.{◌++◌ as append}
use advo_cache.Base.{
  ℕ, ◌≡◌, true, false, ◌||◌, [], ◌∷◌, Option, none, some, String, arith, ◌==◌, text_key, ◌>>=◌, ◌⊎◌,
  inl, inr, Bool-cases, Option-cases,
}
use advo_cache.Config.{Config}
use advo_cache.Cache
use advo_cache.Cache.{update}
use advo_cache.Message.{Request, response, success_response, sheet_state}
use advo_cache.Sheet
use advo_cache.Sheet.{
  Conn, Sheet, Sheets, SheetError, ok, err, add_collaborator, get_or_create_sheet,
}
use advo_cache.Sheet.Entry.{Kept, Made, get_or_create_sheet_cases}
use advo_cache.Server.{Outside, Reads, Handler, handle_open, write, send_error}

module _ (cfg : Config) (out : Outside) (r : Reads) (conn : Conn) (req : Request)
    (h : Handler) where
  -- The state once the client is in the sheet at `p`, with the first response written.
  abbrev pub admitted : Sheets → ℕ → Handler
  admitted m p =
      let s = add_collaborator conn (m.cells p) in
      let m' = record m { cells = update m.cells p s } in
      let h₂ = record h { sheets = m'; joined = update h.joined conn (some p) } in
      write conn (response (record success_response { sheet = req.sheet })) h₂

  -- What is done with a sheet.
  abbrev pub let_in : Sheets → ℕ → Option Handler
  let_in m p = do
    state ← Cache.dump (r.order p) (add_collaborator conn (m.cells p)).cache []
    some (write conn (sheet_state state) (admitted m p))

  abbrev pub turned_away : Sheets → Handler
  turned_away m =
      let h₂ = send_error conn "invalid password" (record h { sheets = m }) in
      record h₂ { closed = conn ∷ h₂.closed }

  module _ (free : h.joined conn ≡ none) (given : (req.sheet == "" || req.password == "") ≡ false)
      (m : Sheets) where
    pub handle_open-let_in :
        (p : ℕ)
        → get_or_create_sheet out.bcrypt req.sheet req.password r.salt h.sheets ≡ some (m, ok p)
        → handle_open cfg out r conn req h ≡ let_in m p
    unfolding handle_open
    handle_open-let_in p run = cc

    pub handle_open-turned_away :
        (e : SheetError)
        → get_or_create_sheet out.bcrypt req.sheet req.password r.salt h.sheets ≡ some (m, err e)
        → handle_open cfg out r conn req h ≡ some (turned_away m)
    unfolding handle_open
    handle_open-turned_away e run = cc

  handle_open_again :
      (p : ℕ)
      → h.joined conn ≡ some p
      → handle_open cfg out r conn req h
        ≡ some (send_error conn (append "already in sheet: " (h.sheets.cells p).id) h)
  unfolding handle_open
  handle_open_again p at = cc

  handle_open_missing :
      h.joined conn ≡ none
      → (req.sheet == "" || req.password == "") ≡ true
      → handle_open cfg out r conn req h ≡ some (send_error conn "sheet and password required" h)
  unfolding handle_open
  handle_open_missing free missing = cc

  -- Every outcome: a message to the client and no more; a client that is turned away; or one that is
  -- let into a sheet.
  pub data Opens : Type 0 where
    only_answers :
        (msg : String) → handle_open cfg out r conn req h ≡ some (send_error conn msg h) → Opens
    turns_away :
        (m : Sheets) (e : SheetError)
        → Kept req.sheet h.sheets m (err e)
        → handle_open cfg out r conn req h ≡ some (turned_away m)
        → Opens
    lets_in :
        (m : Sheets) (p : ℕ)
        → h.joined conn ≡ none
        → (Kept req.sheet h.sheets m (ok p)) ⊎ (Made req.sheet h.sheets m (ok p))
        → handle_open cfg out r conn req h ≡ let_in m p
        → Opens

  pub handle_open-Opens : Opens
  handle_open-Opens = elim (Option-cases (h.joined conn)) [
    | inr (p, at) ↦
        only_answers (append "already in sheet: " (h.sheets.cells p).id) (handle_open_again p at)
    | inl free ↦ elim (Bool-cases (req.sheet == "" || req.password == "")) [
      | inl missing ↦ only_answers "sheet and password required" (handle_open_missing free missing)
      | inr given ↦
          let (m, found, run, kind) =
            get_or_create_sheet_cases out.bcrypt h.sheets req.sheet req.password r.salt in
          decide free given m found run kind
    ]
  ]
    where
      decide :
          h.joined conn ≡ none
          → (req.sheet == "" || req.password == "") ≡ false
          → (m : Sheets) (found : Sheet.Result ℕ)
          → get_or_create_sheet out.bcrypt req.sheet req.password r.salt h.sheets ≡ some (m, found)
          → Kept req.sheet h.sheets m found ⊎ Made req.sheet h.sheets m found
          → Opens
      decide free given m (ok p) run kind =
          lets_in m p free kind (handle_open-let_in free given m p run)
      decide free given m (err e) run (inl kept) =
          turns_away m e kept (handle_open-turned_away free given m e run)
      decide free given m (err e) run (inr made) = let same = made.1 in absurd (ground arith)
