-- ===== src/Server/System/Reach.antt =====
-- The states that a leader of main.go can come to, from its start, if each handler and each tick runs
-- alone.
use mathlib.Core.Path.{subst}
use advo_cache.Base.{ℕ, arith, sym, ◌≡◌, true, some, text_key, conn_key}
use advo_cache.Base.Dict.{lookup, has_key}
use advo_cache.Time.{is_positive}
use advo_cache.Config.{Config, cache_ttl}
use advo_cache.Cache.{jitter_bound}
use advo_cache.Sheet.{Sheet, Conn, new_manager}
use advo_cache.Server.Isolation.{Safely}
use advo_cache.Server.{Outside, Handler, new_handler}
use advo_cache.Server.System.{Event, perform, is_live}
use advo_cache.Server.System.Caches.{Healthy}
use advo_cache.Server.System.Consistency.{IsConsistent, joined-Attends, lookup-Named}
use advo_cache.Server.System.Progress.{IsGiven, IsGiven-IsEvent, perform_total}
use advo_cache.Server.System.Distinct.{AreSingle, perform-AreSingle}
use advo_cache.Server.System.Members.{occurrences, occurrences-pos_of_is_member}

-- NewManager and NewHandler, as main calls them.
abbrev pub started : (ℕ → Sheet) → Handler
started memory = new_handler (new_manager memory)

-- One event of a leader after the other, in any order.
pub data Reach (cfg : Config) (out : Outside) : Handler → Type 0 where
  begins : (memory : ℕ → Sheet) → Reach cfg out (started memory)
  goes_on :
      (e : Event) {h h' : Handler}
      → Reach cfg out h
      → IsGiven e h
      → perform cfg out e h ≡ some h'
      → Reach cfg out h'

started-IsConsistent : (memory : ℕ → Sheet) → IsConsistent (started memory)
unfolding lookup has_key
started-IsConsistent memory = record { sheets = λ id. tt; clients = λ c. tt }

started-Healthy : (memory : ℕ → Sheet) → Healthy (started memory)
started-Healthy memory q below = absurd (omega arith)

started-AreSingle : (memory : ℕ → Sheet) → AreSingle (started memory).sheets
started-AreSingle memory q below = absurd (omega arith)

-- What every reachable state of a leader is, when each handler runs alone.
abbrev pub IsSane : Handler → Type 0
IsSane h = IsConsistent h × Healthy h × AreSingle h.sheets

module _ (cfg : Config) (out : Outside)
    (jitter : is_positive (jitter_bound (cache_ttl cfg) cfg.jitter_percent) ≡ true) where
  -- A leader, not a replica, whose handlers and ticks each run alone, as one step. If the bound of the
  -- configured jitter is above zero in int64, then in every state that such steps reach from the start:
  -- a sheet stands under its own ID and has a collaborator; a live client that joined a sheet is a
  -- collaborator of it, and the sheet stands under its ID; every sheet's cache stands for a list of
  -- entries; and no connection is twice among the collaborators of a sheet.
  pub Reach-IsSane : {h : Handler} → Reach cfg out h → IsSane h
  Reach-IsSane (begins memory) =
      (started-IsConsistent memory, started-Healthy memory, started-AreSingle memory)
  Reach-IsSane (goes_on e {h} before given run) =
      let (v, s, single) = Reach-IsSane before in
      let (h₁, ran, (v₁, s₁)) = perform_total cfg out jitter e h given (v, s) in
      let single₁ =
        subst (Safely (λ h'. AreSingle h'.sheets)) ran
          (perform-AreSingle cfg out e h (IsGiven-IsEvent cfg out jitter e h given) v single) in
      let sane : IsSane h₁ = (v₁, s₁, single₁) in
      subst (Safely IsSane) run (subst (Safely IsSane) (sym ran) sane)

  -- A live client that joined a sheet is among its collaborators exactly once.
  Reach-occurrences :
      {h : Handler}
      → Reach cfg out h
      → (c : Conn) (p : ℕ) → is_live c h ≡ true
      → h.joined c ≡ some p
      → occurrences c (h.sheets.cells p).collaborators ≡ 1
  Reach-occurrences {h} reached c p live at =
      let (v, s, single) = Reach-IsSane reached in
      let (member, there) = joined-Attends h.sheets c p (v.clients c) live at in
      let (below, names, any) =
        lookup-Named h.sheets (h.sheets.cells p).id p (v.sheets (h.sheets.cells p).id) there in
      let least = occurrences-pos_of_is_member c (h.sheets.cells p).collaborators member in
      let most = single p below c in omega arith

  -- A leader, not a replica, whose handlers and ticks each run alone, as one step. If the bound of the
  -- configured jitter is above zero in int64: whatever events came before, an event that is given a live connection and orders of the maps ends without a panic, in a state that
  -- is reachable too.
  pub Reach-total :
      {h : Handler}
      → Reach cfg out h
      → (e : Event) → IsGiven e h
      → (h' : Handler) × (perform cfg out e h ≡ some h') × Reach cfg out h'
  Reach-total {h} reached e given =
      let (v, s, single) = Reach-IsSane reached in
      let (h', run, good) = perform_total cfg out jitter e h given (v, s) in
      (h', run, goes_on e reached given run)
