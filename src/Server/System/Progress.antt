-- ===== src/Server/System/Progress.antt =====
-- No event of ws/handler.go makes a server panic that is consistent and has sound caches.
use mathlib.Core.Path.{subst}
use advo_cache.Base.{
  ℕ, ◌+◌, ◌<◌, ◌≡◌, refl, sym, inl, inr, true, [], some, arith, ◌==◌, text_key, conn_key, ◌=?◌,
  =?_iff, Bool-cases, Option-cases,
}
use advo_cache.Base.Dict.{insert, remove, Enumerates}
use advo_cache.Time.{is_positive}
use advo_cache.Config.{Config, cache_ttl}
use advo_cache.Cache.{Cache, Entry, Ptr, update, jitter_bound}
use advo_cache.Cache
use advo_cache.Cache.Dump.{dump-Shows}
use advo_cache.Cache.Sweep.{cleanup_expired-Implements}
use advo_cache.Message.{Request}
use advo_cache.Sheet.{Conn, Sheet, Sheets, ok, add_collaborator}
use advo_cache.Sheet.Entry.{Kept, Made}
use advo_cache.Server.{
  Outside, Reads, Replica, Handler, dump_sheets, handle_open, handle_register_replica,
  handle_action, dispatch, connect, broadcast_heartbeat,
}
use advo_cache.Server.Isolation.{Safely, dispatch-SameBut, cached, put_cache-SameBut}
use advo_cache.Server.Opening.{only_answers, turns_away, lets_in, handle_open-Opens, let_in}
use advo_cache.Server.Session.{malformed, request, handle_frame}
use advo_cache.Server.System.{
  Event, accepted, received, lost, heartbeat_tick, lock_tick, cache_tick, is_live, perform,
}
use advo_cache.Server.System.Caches.{
  IsSolid, AreSound, Healthy, IsReading, caches_kept, cell_Ends, empty_Enumerates, same_cache,
  disconnect-Healthy, full_state_total,
}
use advo_cache.Server.System.Consistency.{lookup-Named, joined-Attends, IsConsistent}
use advo_cache.Server.System.Health.{Ends, read_Ends, either_Ends, dispatch-Ends, cached_Ends}
use advo_cache.Server.System.Invariant.{IsEvent, perform-IsConsistent}

module _ (cfg : Config) (out : Outside) (r : Reads) (conn : Conn) (h : Handler) (v : IsConsistent h)
    (s : Healthy h) where
  module _ (req : Request) (given : IsReading r h.sheets) where
    -- A client that may enter.
    let_in-Ends :
        (m : Sheets) (p : ℕ)
        → AreSound m
        → IsSolid (m.cells p).cache
        → Enumerates (r.order p) (m.cells p).cache.nodes
        → Ends Healthy (let_in cfg out r conn req h m p)
    unfolding add_collaborator
    let_in-Ends m p sound (es, holds) visit =
        let (d, run, shows) = dump-Shows (r.order p) (m.cells p).cache es visit holds in
        let kept : AreSound
            (record m { cells = update m.cells p (add_collaborator conn (m.cells p)) }) =
          caches_kept m (record m { cells = update m.cells p (add_collaborator conn (m.cells p)) })
            (same_cache m conn p (add_collaborator conn (m.cells p)) refl) refl sound in
        read_Ends _ _ d run kept

    enter_same :
        (m : Sheets) (p : ℕ)
        → Kept req.sheet h.sheets m (ok p)
        → Ends Healthy (let_in cfg out r conn req h m p)
    enter_same m p (same, by_id, fresh, found) =
        let (below, names, any) = lookup-Named h.sheets req.sheet p (v.sheets req.sheet) found in
        let cell = (same p).2 in
        let_in-Ends m p (caches_kept h.sheets m (λ q. (same q).2) fresh s)
          (subst IsSolid (sym cell) (s p below))
          (subst (λ (c : Cache). Enumerates (r.order p) c.nodes) (sym cell) (given.caches p below))

    abbrev with_new : Sheet → Sheets
    with_new e = record h.sheets {
      cells = update h.sheets.cells h.sheets.fresh e;
      fresh = h.sheets.fresh + 1;
      by_id = insert req.sheet h.sheets.fresh h.sheets.by_id;
    }

    new_cell : (e : Sheet) → ((with_new e).cells h.sheets.fresh).cache ≡ e.cache
    new_cell e = ground arith

    with_new-AreSound : (e : Sheet) → IsSolid e.cache → AreSound (with_new e)
    with_new-AreSound e solid q below = elim (Bool-cases (h.sheets.fresh =? q)) [
      | inl here ↦ rw here solid
      | inr other ↦ rw other (s q (let apart = =?_iff h.sheets.fresh q in ground (arith)))
    ]

    enter_new :
        (m : Sheets) (p : ℕ)
        → Made req.sheet h.sheets m (ok p)
        → Ends Healthy (let_in cfg out r conn req h m p)
    enter_new m p (e, same, whole, absent, is_id, none_in, holds) =
        let at : h.sheets.fresh ≡ p = ground arith in
        subst (λ x. Ends Healthy (let_in cfg out r conn req h x p)) (sym whole)
          (subst (λ k. Ends Healthy (let_in cfg out r conn req h (with_new e) k)) at
            (let_in-Ends (with_new e) h.sheets.fresh (with_new-AreSound e (([], holds)))
              (subst IsSolid (sym (new_cell e)) ([], holds))
              (subst (λ o. Enumerates o ((with_new e).cells h.sheets.fresh).cache.nodes)
                (sym given.unmade)
                (subst (λ (c : Cache). Enumerates [] c.nodes) (sym (new_cell e))
                  (empty_Enumerates e.cache holds)))))

    open_Ends : Ends Healthy (handle_open cfg out r conn req h)
    open_Ends = elim (handle_open-Opens cfg out r conn req h) [
      | only_answers msg run ↦ (_, run, s)
      | turns_away m e (same, by_id, fresh, found) run ↦
          (_, run, caches_kept h.sheets m (λ q. (same q).2) fresh s)
      | lets_in m p free (inl kept) run ↦ subst (Ends Healthy) (sym run) (enter_same m p kept)
      | lets_in m p free (inr made) run ↦ subst (Ends Healthy) (sym run) (enter_new m p made)
    ]

    register_Ends : Ends Healthy (handle_register_replica cfg out r conn req h)
    unfolding handle_register_replica
    register_Ends = elim (Option-cases (out.parse_time req.started_at)) [
      | inl f ↦ rw (f, handle_register_replica) (_, refl, s)
      | inr (at, f) ↦
          let rep : Replica = record { instance_id = req.instance_id; started_at = at } in
          let h₁ = record h {
            replicas = insert conn rep h.replicas;
            clients = remove conn h.clients;
          } in
          let (ds, run) = full_state_total r h₁ v.sheets s given in
          rw (f, handle_register_replica)
            (either_Ends Healthy _ _ (req.instance_id == "") (_, refl, s)
              (read_Ends (dump_sheets r r.visit h₁) _ ds run s))
    ]

    joined_Ends :
        (p : ℕ)
        → is_live conn h ≡ true
        → h.joined conn ≡ some p
        → is_positive (jitter_bound (cache_ttl cfg) cfg.jitter_percent) ≡ true
        → Ends Healthy (dispatch cfg out r conn p req h)
    joined_Ends p live at jitter =
        let (member, there) = joined-Attends h.sheets conn p (v.clients conn) live at in
        let (below, names, any) =
          lookup-Named h.sheets (h.sheets.cells p).id p (v.sheets (h.sheets.cells p).id) there in
        cell_Ends p h _ s (dispatch-SameBut cfg out r conn p req h)
          (dispatch-Ends cfg out r conn p req h (s p below) (given.caches p below) jitter)

    action_Ends :
        is_live conn h ≡ true
        → is_positive (jitter_bound (cache_ttl cfg) cfg.jitter_percent) ≡ true
        → Ends Healthy (handle_action cfg out r conn req h)
    unfolding handle_action
    action_Ends live jitter = either_Ends Healthy _ _ (req.action == "open") open_Ends (
        either_Ends Healthy _ _ (req.action == "register_replica") register_Ends
          (elim (Option-cases (h.joined conn)) [
            | inl free ↦ rw free (_, refl, s)
            | inr (p, at) ↦ rw at (joined_Ends p live at jitter)
          ]))

-- What an event is given: a live connection, and orders in which `range` may visit the maps.
abbrev pub IsGiven : Event → Handler → Type 0
IsGiven (received conn r frame) h = (is_live conn h ≡ true) × IsReading r h.sheets
IsGiven (lost conn r) h = is_live conn h ≡ true
IsGiven (cache_tick p now order) h =
    (p < h.sheets.fresh) × Enumerates order (h.sheets.cells p).cache.nodes
IsGiven _ h = Unit

module _ (cfg : Config) (out : Outside)
    (jitter : is_positive (jitter_bound (cache_ttl cfg) cfg.jitter_percent) ≡ true) where
  -- The event ends, and leaves the caches sound.
  perform-Ends :
      (e : Event) (h : Handler)
      → IsGiven e h
      → IsConsistent h
      → Healthy h
      → Ends Healthy (perform cfg out e h)
  unfolding perform handle_frame broadcast_heartbeat connect
  perform-Ends (accepted conn) h given v s = (_, refl, s)
  perform-Ends (received conn r malformed) h given v s = (_, refl, s)
  perform-Ends (received conn r (request req)) h (live, reading) v s =
      action_Ends cfg out r conn h v s req reading live jitter
  perform-Ends (lost conn r) h live v s = (_, refl, disconnect-Healthy conn h live v cfg out r s)
  perform-Ends heartbeat_tick h given v s = (_, refl, s)
  perform-Ends (lock_tick clock order) h given v s = (_, refl, s)
  perform-Ends (cache_tick p now order) h (below, visit) v s =
      let (es, holds) = s p below in
      let (c, run, holds', bound) =
        cleanup_expired-Implements now order (h.sheets.cells p).cache es visit holds in
      cell_Ends p h _ s
        (cached 0 p h (Cache.cleanup_expired now order (h.sheets.cells p).cache) _
          (λ c removed. put_cache-SameBut 0 p h c))
        (cached_Ends 0 p h _ _ c _ _ run holds' refl)

  pub IsGiven-IsEvent : (e : Event) (h : Handler) → IsGiven e h → IsEvent cfg out e h
  IsGiven-IsEvent (accepted conn) h given = tt
  IsGiven-IsEvent (received conn r frame) h given = given.0
  IsGiven-IsEvent (lost conn r) h given = given
  IsGiven-IsEvent heartbeat_tick h given = tt
  IsGiven-IsEvent (lock_tick clock order) h given = tt
  IsGiven-IsEvent (cache_tick p now order) h given = tt

  -- No event panics on a consistent server with sound caches, if the configured jitter is not out of
  -- the range of int64, and the server stays so.
  pub perform_total :
      (e : Event) (h : Handler)
      → IsGiven e h
      → IsConsistent h × Healthy h
      → Ends (λ h'. IsConsistent h' × Healthy h') (perform cfg out e h)
  perform_total e h given (v, s) =
      let (h', run, s') = perform-Ends e h given v s in
      (
        h',
        run,
        (
          subst (Safely IsConsistent) run
              (perform-IsConsistent cfg out e h (IsGiven-IsEvent e h given) v),
          s',
        ),
      )
