-- ===== src/Server/Race.antt =====
-- handleOpen of ws/handler.go in the two steps between which other goroutines run: it finds its sheet,
-- and it joins it.
use advo_cache.Base.{
  ℕ, ◌≡◌, refl, ap, ◌∙◌, inl, inr, true, false, not, ◌||◌, List, [], ◌∷◌, Option, none, some,
  String, arith, ◌==◌, text_key, conn_key, if◌then◌else◌, ◌=?◌, =?_iff, ◌>>=◌, keep, length,
  Bool-cases, eq_iff,
}
use advo_cache.Base.Dict.{lookup, remove, Enumerates, lookup-remove}
use advo_cache.Config.{Config}
use advo_cache.Cache
use advo_cache.Cache.{Entry, update}
use advo_cache.Cache.Dump.{dump-Shows}
use advo_cache.Cache.Rep.{Holds}
use advo_cache.Lock
use advo_cache.Message.{Request, response, success_response, sheet_state}
use advo_cache.Sheet.{
  Conn, Sheets, Result, ok, add_collaborator, get_or_create_sheet, enter, validate_password,
  remove_collaborator, delete_sheet,
}
use advo_cache.Server.{Outside, Reads, Handler, write, leave_sheet, on_disconnect, handle_open}
use advo_cache.Server.Opening.{handle_open-let_in}
use advo_cache.Server.System.Leaving.{staying, departed}
use advo_cache.Server.System.Members.{is_member}

module _ (cfg : Config) (out : Outside) (r : Reads) (conn : Conn) (req : Request) where
  unfoldable pub find_sheet : Handler → Option (Handler × Result ℕ)
  find_sheet h = do
    (m, found) ← get_or_create_sheet out.bcrypt req.sheet req.password r.salt h.sheets
    some (record h { sheets = m }, found)

  unfoldable pub join_sheet : ℕ → Handler → Option Handler
  join_sheet p h = do
    let s = add_collaborator conn (h.sheets.cells p)
    let m = record h.sheets { cells = update h.sheets.cells p s }
    let h₂ = record h { sheets = m; joined = update h.joined conn (some p) }
    let h₃ = write conn (response (record success_response { sheet = req.sheet })) h₂
    state ← Cache.dump (r.order p) s.cache []
    some (write conn (sheet_state state) h₃)

  -- With nothing in between, the two steps are handleOpen.
  find_sheet-join_sheet :
      (h : Handler) (m : Sheets) (p : ℕ)
      → h.joined conn ≡ none
      → (req.sheet == "" || req.password == "") ≡ false
      → get_or_create_sheet out.bcrypt req.sheet req.password r.salt h.sheets ≡ some (m, ok p)
      → (find_sheet h ≡ some (record h { sheets = m }, ok p))
        × (handle_open cfg out r conn req h ≡ join_sheet p (record h { sheets = m }))
  unfolding find_sheet join_sheet
  find_sheet-join_sheet h m p free given found =
      (rw found refl, handle_open-let_in cfg out r conn req h free given m p found)

  module _ (h : Handler) (leaver : Conn) (p : ℕ) (hash : String) (last : Reads) (es : List Entry)
      (given : (req.sheet == "" || req.password == "") ≡ false)
      (there : lookup req.sheet h.sheets.by_id ≡ some p) (named : (h.sheets.cells p).id ≡ req.sheet)
      (locked : (h.sheets.cells p).password_hash ≡ some hash)
      (valid : out.bcrypt.compare hash req.password ≡ true)
      (alone : (h.sheets.cells p).collaborators ≡ leaver ∷ []) (inside : h.joined leaver ≡ some p)
      (client : lookup leaver h.replicas ≡ none) where
    -- The password is right and nothing is written.
    same_cells : (q : ℕ) → update h.sheets.cells p (h.sheets.cells p) q ≡ h.sheets.cells q
    same_cells q = elim (Bool-cases (p =? q)) [
      | inl here ↦ rw here (ap h.sheets.cells ((=?_iff p q).0 here))
      | inr other ↦ rw other refl
    ]

    finds : find_sheet h ≡ some (h, ok p)
    unfolding find_sheet get_or_create_sheet enter validate_password
    finds =
        let e : find_sheet h
            ≡ some (
              record h {
                sheets = record h.sheets { cells = update h.sheets.cells p (h.sheets.cells p) };
              },
              ok p,
            ) =
          ground (arith, given, there, locked, valid) in
        e
        ∙ ap (λ f. some (record h { sheets = record h.sheets { cells = f } }, ok p))
            (λ i q. same_cells q i)

    abbrev unlocked : Handler
    unlocked = record h {
      locks = (Lock.release_all_by_owner (out.format_pointer leaver) last.lock_order h.locks).0;
      clients = remove leaver h.clients;
    }

    goes : on_disconnect cfg out last leaver h ≡ record (leave_sheet leaver unlocked) {
      closed = leaver ∷ (leave_sheet leaver unlocked).closed;
    }
    unfolding on_disconnect
    goes = cc

    leaves : leave_sheet leaver unlocked ≡ record unlocked { sheets = departed h.sheets leaver p }
    unfolding leave_sheet remove_collaborator
    leaves = cc

    -- The sheets once the last collaborator has gone.
    abbrev emptied : Sheets
    emptied = delete_sheet (h.sheets.cells p).id (record h.sheets {
      cells = update h.sheets.cells p (record (h.sheets.cells p) { collaborators = [] });
    })

    nobody : staying h.sheets leaver p ≡ []
    unfolding keep
    nobody = ap (keep (λ c. not (c =? leaver))) alone ∙ rw ((=?_iff leaver leaver).1 refl) refl

    deletes : departed h.sheets leaver p ≡ emptied
    deletes =
        ap
          (λ ds.
            let left = record h.sheets {
              cells = update h.sheets.cells p (record (h.sheets.cells p) { collaborators = ds });
            } in
            if length ds =? 0 then delete_sheet (h.sheets.cells p).id left else left)
          nobody

    abbrev gone : Handler
    gone = record unlocked { sheets = emptied; closed = leaver ∷ h.closed }

    leaver_gone : on_disconnect cfg out last leaver h ≡ gone
    leaver_gone =
        goes
        ∙ ap {A = Handler} (λ h'. record h' { closed = leaver ∷ h'.closed }) leaves
        ∙ ap (λ m. record unlocked { sheets = m; closed = leaver ∷ h.closed }) deletes

    -- While a client opens a sheet with the right password, the last collaborator goes, after the sheet
    -- is found and before it is joined: the client is let into the sheet and is a collaborator of it,
    -- but its ID leads to no sheet any more, so that the next to open the ID makes another one.
    pub orphaned :
        Holds (h.sheets.cells p).cache es
        → Enumerates (r.order p) (h.sheets.cells p).cache.nodes
        → (h' : Handler) × (find_sheet h ≡ some (h, ok p))
          × (join_sheet p (on_disconnect cfg out last leaver h) ≡ some h')
          × (h'.joined conn ≡ some p)
          × (is_member conn (h'.sheets.cells p).collaborators ≡ true)
          × (lookup req.sheet h'.sheets.by_id ≡ none)
    unfolding join_sheet delete_sheet add_collaborator
    orphaned holds visit =
        let (d, run, shows) = dump-Shows (r.order p) (h.sheets.cells p).cache es visit holds in
        let here = (=?_iff p p).1 refl in
        let s = add_collaborator conn (gone.sheets.cells p) in
        let joined = record gone {
          sheets = record gone.sheets { cells = update gone.sheets.cells p s };
          joined = update gone.joined conn (some p);
        } in
        (
          write conn (sheet_state d)
              (write conn (response (record success_response { sheet = req.sheet })) joined),
          finds,
          ap (join_sheet p) leaver_gone ∙ rw (here, run) refl,
          rw ((=?_iff conn conn).1 refl) refl,
          rw (here, (=?_iff conn conn).1 refl) refl,
          ground (
            arith,
            lookup-remove (h.sheets.cells p).id req.sheet h.sheets.by_id,
            eq_iff (h.sheets.cells p).id req.sheet,
          ),
        )
