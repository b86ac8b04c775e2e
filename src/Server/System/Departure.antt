-- ===== src/Server/System/Departure.antt =====
-- A connection that goes leaves the server of ws/handler.go consistent.
use mathlib.Core.Path.{subst}
use advo_cache.Base.{
  ℕ, ◌≡◌, refl, sym, ap, inl, inr, true, false, ◌∷◌, none, some, arith, text_key, conn_key, ◌=?◌,
  =?_iff, Bool-cases, Option-cases,
}
use advo_cache.Base.Dict.{lookup, remove, has_key, has_key-remove_if, has_key_of_lookup-none}
use advo_cache.Config.{Config}
use advo_cache.Lock
use advo_cache.Sheet
use advo_cache.Sheet.{Conn, Sheet, SheetError, Sheets, Result, ok, err, add_collaborator}
use advo_cache.Server.{Outside, Reads, Replica, Handler, on_disconnect, leave_sheet}
use advo_cache.Server.System.{is_live}
use advo_cache.Server.System.Consistency.{
  joined-Attends, attending, IsConsistent, written, Alike-IsConsistent,
}
use advo_cache.Server.System.Leaving.{departed, departed-Named, departed-Attends}

module _ (conn : Conn) (h : Handler) (live : is_live conn h ≡ true) (v : IsConsistent h) where
  module _ (cfg : Config) (out : Outside) (r : Reads) where
    -- A replica that goes.
    pub replica_gone :
        (rep : Replica)
        → lookup conn h.replicas ≡ some rep
        → on_disconnect cfg out r conn h
          ≡ record h { replicas = remove conn h.replicas; closed = conn ∷ h.closed }
    unfolding on_disconnect
    replica_gone rep f = cc

    abbrev pub after_locks : Handler
    after_locks = record h {
      locks = (Lock.release_all_by_owner (out.format_pointer conn) r.lock_order h.locks).0;
      clients = remove conn h.clients;
    }

    pub client_gone :
        lookup conn h.replicas ≡ none
        → on_disconnect cfg out r conn h ≡ record (leave_sheet conn after_locks) {
          closed = conn ∷ (leave_sheet conn after_locks).closed;
        }
    unfolding on_disconnect
    client_gone f = cc

    pub leave_none : h.joined conn ≡ none → leave_sheet conn after_locks ≡ after_locks
    unfolding leave_sheet
    leave_none free = cc

    pub leave_some :
        (p : ℕ)
        → h.joined conn ≡ some p
        → leave_sheet conn after_locks ≡ record after_locks { sheets = departed h.sheets conn p }
    unfolding leave_sheet Sheet.remove_collaborator
    leave_some p at = cc

    -- Whoever is live after a client has gone was live before, and is another.
    still_live :
        (c : Conn)
        → lookup conn h.replicas ≡ none
        → is_live c after_locks ≡ true
        → (is_live c h ≡ true) × ((conn =? c) ≡ false)
    still_live c f alive =
        let gone = has_key-remove_if conn c h.clients in
        elim (Bool-cases (conn =? c)) [
          | inl same ↦ absurd (
              ground (
                arith,
                gone,
                (=?_iff conn c).0 same,
                has_key_of_lookup-none conn h.replicas f,
                ap (λ k. has_key k h.replicas) ((=?_iff conn c).0 same),
              ))
          | inr other ↦ (ground (arith, gone), other)
        ]

    -- A client that goes takes an empty sheet along.
    left-IsConsistent : lookup conn h.replicas ≡ none → IsConsistent (leave_sheet conn after_locks)
    left-IsConsistent f = elim (Option-cases (h.joined conn)) [
      | inl free ↦ subst IsConsistent (sym (leave_none free)) (
          Alike-IsConsistent h after_locks
            (record {
              ids = λ q. refl;
              collaborators = λ q. refl;
              by_id = refl;
              fresh = refl;
              joined = refl;
              live = λ c alive. (still_live c f alive).0;
            })
            v)
      | inr (p, at) ↦
          let (member, there) = joined-Attends h.sheets conn p (v.clients conn) live at in
          subst IsConsistent (sym (leave_some p at)) (record {
            sheets = departed-Named h.sheets conn p v.sheets member there;
            clients = λ c.
                attending (departed h.sheets conn p) c (is_live c after_locks) (h.joined c)
                  λ q alive there'.
                    let (before, other) = still_live c f alive in
                    departed-Attends h.sheets conn p v.sheets member there c q other
                      (joined-Attends h.sheets c q (v.clients c) before there');
          })
    ]

    pub disconnect-IsConsistent : IsConsistent (on_disconnect cfg out r conn h)
    disconnect-IsConsistent = elim (Option-cases (lookup conn h.replicas)) [
      | inr (rep, f) ↦
          let h' : Handler = record h {
            replicas = remove conn h.replicas;
            closed = conn ∷ h.closed;
          } in
          subst IsConsistent (sym (replica_gone rep f)) (
            Alike-IsConsistent h h'
              (record {
                ids = λ q. refl;
                collaborators = λ q. refl;
                by_id = refl;
                fresh = refl;
                joined = refl;
                live = λ c alive. ground (arith, has_key-remove_if conn c h.replicas);
              })
              v)
      | inl f ↦ subst IsConsistent (sym (client_gone f)) (
          written (leave_sheet conn after_locks) (leave_sheet conn after_locks).outbox _
            (left-IsConsistent f))
    ]
