-- ===== src/Server/System/Arrival.antt =====
-- A message that is read from a connection keeps the server of ws/handler.go consistent.
use mathlib.Core.Path.{subst}
use advo_cache.Base.{
  ℕ, ◌≡◌, refl, sym, inl, inr, true, ◌||◌, [], none, some, String, arith, ◌==◌, text_key, conn_key,
  ◌=?◌, =?_iff, Bool-cases, Option-cases,
}
use advo_cache.Base.Dict.{insert, remove, has_key, has_key-insert, has_key-remove_if}
use advo_cache.Config.{Config}
use advo_cache.Cache
use advo_cache.Cache.{update}
use advo_cache.Message.{Request}
use advo_cache.Sheet.{Conn, Sheets, add_collaborator}
use advo_cache.Server.{
  Outside, Reads, Replica, Handler, handle_open, handle_register_replica, handle_action, dispatch,
  send_error, dump_sheets,
}
use advo_cache.Server.Isolation.{SameBut, Safely, Safely-map, either, dispatch-SameBut}
use advo_cache.Server.Opening.{
  Opens, only_answers, turns_away, lets_in, handle_open-Opens, admitted, let_in, turned_away,
}
use advo_cache.Server.System.{is_live}
use advo_cache.Server.System.Consistency.{
  Attends, joined-Attends, attending, IsConsistent, written, Alike-IsConsistent, SameBut-Alike,
}
use advo_cache.Server.System.Joining.{
  IsEntered, lookup-NamedBut, Kept-IsEntered, Made-IsEntered, joined_by, joined_by-Named,
  joined_by-Attends, joined_by_self-Attends,
}

module _ (conn : Conn) (h : Handler) (live : is_live conn h ≡ true) (v : IsConsistent h) where
  -- A client that has been let in.
  entered-IsConsistent :
      (id : String) (m' : Sheets) (p : ℕ)
      → IsEntered h.sheets m' id p
      → IsConsistent
          (record h { sheets = joined_by m' conn p; joined = update h.joined conn (some p) })
  entered-IsConsistent id m' p e = record {
    sheets = λ j. joined_by-Named m' conn p j (e.named j);
    clients = λ c.
        attending (joined_by m' conn p) c (is_live c h) (update h.joined conn (some p) c)
          λ q alive at. elim (Bool-cases (conn =? c)) [
            | inl same ↦
                let names = (lookup-NamedBut p m' id p (e.named id) e.there).1 in
                subst (λ k. Attends (joined_by m' conn p) k true (some q)) ((=?_iff conn c).0 same)
                  (subst (λ k. Attends (joined_by m' conn p) conn true (some k)) (ground arith)
                    (joined_by_self-Attends m' conn p id names e.there))
            | inr other ↦
                joined_by-Attends m' conn p c q
                  (e.stay c q (joined-Attends h.sheets c q (v.clients c) alive (ground arith)))
          ];
  }

  module _ (cfg : Config) (out : Outside) (r : Reads) (req : Request) where
    dumped_IsConsistent :
        (m : Sheets) (p : ℕ)
        → IsConsistent (admitted cfg out r conn req h m p)
        → Safely IsConsistent (let_in cfg out r conn req h m p)
    dumped_IsConsistent m p w =
        elim (Option-cases (Cache.dump (r.order p) (add_collaborator conn (m.cells p)).cache [])) [
          | inl f ↦ rw f tt
          | inr (d, f) ↦ rw f (written (admitted cfg out r conn req h m p) _ h.closed w)
        ]

    admitted-IsConsistent :
        (m : Sheets) (p : ℕ)
        → IsEntered h.sheets m req.sheet p
        → IsConsistent (admitted cfg out r conn req h m p)
    admitted-IsConsistent m p e =
        let w = entered-IsConsistent req.sheet m p e in
        record { sheets = w.sheets; clients = w.clients }

    open-IsConsistent : Safely IsConsistent (handle_open cfg out r conn req h)
    open-IsConsistent = go (handle_open-Opens cfg out r conn req h)
      where
        go : Opens cfg out r conn req h → Safely IsConsistent (handle_open cfg out r conn req h)
        go (only_answers msg run) = subst (Safely IsConsistent) (sym run) (written h _ h.closed v)
        go (turns_away m e (same, by_id, fresh, found) run) =
            subst (Safely IsConsistent) (sym run) (
              Alike-IsConsistent h (turned_away cfg out r conn req h m)
                (record {
                  ids = λ q. (same q).0;
                  collaborators = λ q. (same q).1;
                  by_id = by_id;
                  fresh = fresh;
                  joined = refl;
                  live = λ c l. l;
                })
                v)
        go (lets_in m p free (inl kept) run) = subst (Safely IsConsistent) (sym run) (
            dumped_IsConsistent m p
              (admitted-IsConsistent m p (Kept-IsEntered h.sheets m req.sheet p v.sheets kept)))
        go (lets_in m p free (inr made) run) = subst (Safely IsConsistent) (sym run) (
            dumped_IsConsistent m p
              (admitted-IsConsistent m p (Made-IsEntered h.sheets m req.sheet p v.sheets made)))

    registered :
        (rep : Replica) (c : Conn)
        → (has_key c (remove conn h.clients) || has_key c (insert conn rep h.replicas)) ≡ true
        → is_live c h ≡ true
    registered rep c alive = elim (Bool-cases (conn =? c)) [
      | inl same ↦ subst (λ k. (is_live k h ≡ true)) ((=?_iff conn c).0 same) live
      | inr other ↦
          ground (arith, has_key-remove_if conn c h.clients, has_key-insert conn c rep h.replicas)
    ]

    -- A replica is still a live connection.
    register-IsConsistent : Safely IsConsistent (handle_register_replica cfg out r conn req h)
    unfolding handle_register_replica
    register-IsConsistent = elim (Option-cases (out.parse_time req.started_at)) [
      | inl f ↦ rw (f, handle_register_replica) (written h _ h.closed v)
      | inr (at, f) ↦
          let rep : Replica = record { instance_id = req.instance_id; started_at = at } in
          let h₁ = record h {
            replicas = insert conn rep h.replicas;
            clients = remove conn h.clients;
          } in
          let w : IsConsistent h₁ =
            Alike-IsConsistent h h₁
              (record {
                ids = λ q. refl;
                collaborators = λ q. refl;
                by_id = refl;
                fresh = refl;
                joined = refl;
                live = registered rep;
              })
              v in
          rw (f, handle_register_replica)
            (either IsConsistent _ _ (req.instance_id == "") (written h _ h.closed v)
              (elim (Option-cases (dump_sheets r r.visit h₁)) [
                | inl g ↦ rw g tt
                | inr (ds, g) ↦ rw g (written h₁ _ h.closed w)
              ]))
    ]

    pub action-IsConsistent : Safely IsConsistent (handle_action cfg out r conn req h)
    unfolding handle_action
    action-IsConsistent =
        either IsConsistent _ _ (req.action == "open") open-IsConsistent
          (either IsConsistent _ _ (req.action == "register_replica") register-IsConsistent rest)
      where
        rest : Safely IsConsistent (elim (h.joined conn) [
          | none ↦ some (send_error conn "must open sheet first" h)
          | some p ↦ dispatch cfg out r conn p req h
        ])
        rest = elim (Option-cases (h.joined conn)) [
          | inl free ↦ rw free (written h _ h.closed v)
          | inr (p, at) ↦ rw at (
              Safely-map (SameBut p h) IsConsistent _
                (λ h' same. Alike-IsConsistent h h' (SameBut-Alike p h h' same) v)
                (dispatch-SameBut cfg out r conn p req h))
        ]
