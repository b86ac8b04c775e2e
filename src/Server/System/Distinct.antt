-- ===== src/Server/System/Distinct.antt =====
-- In every sheet of sheet/sheet.go, a connection is among the collaborators once at most.
use mathlib.Core.Path.{subst}
use advo_cache.Base.{
  ℕ, ◌+◌, ◌≤◌, ◌<◌, ◌≡◌, sym, inl, inr, true, not, [], String, arith, ◌==◌, text_key, conn_key,
  ◌=?◌, =?_iff, keep, length, Bool-cases, Option-cases,
}
use advo_cache.Base.Dict.{lookup, insert, remove}
use advo_cache.Config.{Config}
use advo_cache.Cache
use advo_cache.Cache.{update}
use advo_cache.Message.{Request}
use advo_cache.Sheet.{Conn, Sheet, Sheets, ok, add_collaborator, delete_sheet}
use advo_cache.Sheet.Entry.{Kept, Made}
use advo_cache.Server.{
  Outside, Reads, Replica, Handler, handle_open, handle_register_replica, handle_action,
  dump_sheets, connect, on_disconnect, broadcast_heartbeat,
}
use advo_cache.Server.Isolation.{
  SameBut, Safely, Safely-map, either, cached, put_cache-SameBut, dispatch-SameBut,
}
use advo_cache.Server.Opening.{
  only_answers, turns_away, lets_in, handle_open-Opens, admitted, let_in,
}
use advo_cache.Server.Session.{malformed, request, handle_frame}
use advo_cache.Server.System.{
  Event, accepted, received, lost, heartbeat_tick, lock_tick, cache_tick, is_live, perform,
}
use advo_cache.Server.System.Consistency.{IsConsistent, SameBut-Alike}
use advo_cache.Server.System.Departure.{replica_gone, client_gone, leave_none, leave_some}
use advo_cache.Server.System.Invariant.{IsEvent}
use advo_cache.Server.System.Leaving.{staying, left, departed}
use advo_cache.Server.System.Members.{occurrences, occurrences-keep, occurrences-keep_self}

abbrev IsSingle : Sheet → Type 0
IsSingle s = (c : Conn) → occurrences c s.collaborators ≤ 1

abbrev pub AreSingle : Sheets → Type 0
AreSingle m = (q : ℕ) → q < m.fresh → IsSingle (m.cells q)

AreSingle-like :
    (m m' : Sheets)
    → ((q : ℕ) → (m'.cells q).collaborators ≡ (m.cells q).collaborators)
    → m'.fresh ≡ m.fresh
    → AreSingle m
    → AreSingle m'
AreSingle-like m m' same fresh s q below c =
    subst (λ ds. occurrences c ds ≤ 1) (sym (same q)) (s q (subst (λ n. q < n) fresh below) c)

-- One sheet is changed.
AreSingle-update :
    (m : Sheets) (p : ℕ) (s : Sheet)
    → AreSingle m
    → (p < m.fresh → IsSingle s)
    → AreSingle (record m { cells = update m.cells p s })
AreSingle-update m p s given one q below c = elim (Bool-cases (p =? q)) [
  | inl here ↦ rw here (one (subst (λ k. k < m.fresh) (sym ((=?_iff p q).0 here)) below) c)
  | inr other ↦ rw other (given q below c)
]

keep-le :
    (c d : Conn) (s : Sheet)
    → IsSingle s
    → occurrences c (keep (λ e. not (e =? d)) s.collaborators) ≤ 1
keep-le c d s one = elim (Bool-cases (d =? c)) [
  | inl same ↦
      subst (λ k. occurrences c (keep (λ e. not (e =? k)) s.collaborators) ≤ 1)
        (sym ((=?_iff d c).0 same)) (rw (occurrences-keep_self c s.collaborators) (omega arith))
  | inr other ↦ rw (occurrences-keep c d s.collaborators other) (one c)
]

add_collaborator-IsSingle :
    (conn : Conn) (s : Sheet) → IsSingle s → IsSingle (add_collaborator conn s)
unfolding add_collaborator
add_collaborator-IsSingle conn s one c = elim (Bool-cases (conn =? c)) [
  | inl same ↦ rw same (
      subst (λ k. 1 + occurrences c (keep (λ e. not (e =? k)) s.collaborators) ≤ 1)
        (sym ((=?_iff conn c).0 same)) (rw (occurrences-keep_self c s.collaborators) (omega arith)))
  | inr other ↦ rw other (keep-le c conn s one)
]

Kept-AreSingle :
    (id : String) (m m' : Sheets) (p : ℕ) → Kept id m m' (ok p) → AreSingle m → AreSingle m'
Kept-AreSingle id m m' p (same, by_id, fresh, found) s =
    AreSingle-like m m' (λ q. (same q).1) fresh s

Made-AreSingle :
    (id : String) (m m' : Sheets) (p : ℕ) → Made id m m' (ok p) → AreSingle m → AreSingle m'
Made-AreSingle id m m' p (e, same, whole, absent, is_id, none_in, holds) s =
    subst AreSingle (sym whole) (λ q below c. elim (Bool-cases (m.fresh =? q)) [
      | inl here ↦ rw (here, none_in) (omega arith)
      | inr other ↦ rw other (s q (let apart = =?_iff m.fresh q in ground arith) c)
    ])

abbrev Single : Handler → Type 0
Single h = AreSingle h.sheets

module _ (cfg : Config) (out : Outside) (r : Reads) (conn : Conn) (req : Request) (h : Handler)
    (s : Single h) where
  let_in-Single :
      (m : Sheets) (p : ℕ) → AreSingle m → Safely Single (let_in cfg out r conn req h m p)
  let_in-Single m p given =
      let joined : AreSingle (admitted cfg out r conn req h m p).sheets =
        AreSingle-update m p (add_collaborator conn (m.cells p)) given
          (λ below. add_collaborator-IsSingle conn (m.cells p) (given p below)) in
      elim (Option-cases (Cache.dump (r.order p) (add_collaborator conn (m.cells p)).cache [])) [
        | inl f ↦ rw f tt
        | inr (d, f) ↦ rw f joined
      ]

  open-Single : Safely Single (handle_open cfg out r conn req h)
  open-Single = elim (handle_open-Opens cfg out r conn req h) [
    | only_answers msg run ↦ subst (Safely Single) (sym run) s
    | turns_away m e (same, by_id, fresh, found) run ↦
        subst (Safely Single) (sym run) (AreSingle-like h.sheets m (λ q. (same q).1) fresh s)
    | lets_in m p free (inl kept) run ↦
        subst (Safely Single) (sym run)
          (let_in-Single m p (Kept-AreSingle req.sheet h.sheets m p kept s))
    | lets_in m p free (inr made) run ↦
        subst (Safely Single) (sym run)
          (let_in-Single m p (Made-AreSingle req.sheet h.sheets m p made s))
  ]

  register-Single : Safely Single (handle_register_replica cfg out r conn req h)
  unfolding handle_register_replica
  register-Single = elim (Option-cases (out.parse_time req.started_at)) [
    | inl f ↦ rw (f, handle_register_replica) s
    | inr (at, f) ↦
        let rep : Replica = record { instance_id = req.instance_id; started_at = at } in
        let h₁ = record h {
          replicas = insert conn rep h.replicas;
          clients = remove conn h.clients;
        } in
        rw (f, handle_register_replica)
          (either Single _ _ (req.instance_id == "") s
            (elim (Option-cases (dump_sheets r r.visit h₁)) [
              | inl g ↦ rw g tt
              | inr (ds, g) ↦ rw g s
            ]))
  ]

  SameBut-Single : (p : ℕ) (h' : Handler) → SameBut p h h' → Single h'
  SameBut-Single p h' same =
      let alike = SameBut-Alike p h h' same in
      AreSingle-like h.sheets h'.sheets alike.collaborators alike.fresh s

  action-Single : Safely Single (handle_action cfg out r conn req h)
  unfolding handle_action
  action-Single = either Single _ _ (req.action == "open") open-Single (
      either Single _ _ (req.action == "register_replica") register-Single
        (elim (Option-cases (h.joined conn)) [
          | inl free ↦ rw free s
          | inr (p, at) ↦ rw at (
              Safely-map (SameBut p h) Single _ (SameBut-Single p)
                (dispatch-SameBut cfg out r conn p req h))
        ]))

departed-AreSingle :
    (m : Sheets) (conn : Conn) (p : ℕ) → AreSingle m → AreSingle (departed m conn p)
unfolding delete_sheet
departed-AreSingle m conn p s =
    let kept : AreSingle (left m conn p) =
      AreSingle-update m p (record (m.cells p) { collaborators = staying m conn p }) s
        (λ below c. keep-le c conn (m.cells p) (s p below)) in
    elim (Bool-cases (length (staying m conn p) =? 0)) [
      | inl empty ↦ rw empty kept
      | inr some_one ↦ rw some_one kept
    ]

disconnect-Single :
    (conn : Conn) (h : Handler) (live : is_live conn h ≡ true) (v : IsConsistent h) (cfg : Config)
    (out : Outside) (r : Reads)
    → Single h
    → Single (on_disconnect cfg out r conn h)
disconnect-Single conn h live v cfg out r s = elim (Option-cases (lookup conn h.replicas)) [
  | inr (rep, f) ↦ subst Single (sym (replica_gone conn h live v cfg out r rep f)) s
  | inl f ↦
      subst Single (sym (client_gone conn h live v cfg out r f))
        (elim (Option-cases (h.joined conn)) [
          | inl free ↦ subst Single (sym (leave_none conn h live v cfg out r free)) s
          | inr (p, at) ↦
              subst Single (sym (leave_some conn h live v cfg out r p at))
                (departed-AreSingle h.sheets conn p s)
        ])
]

-- An event that does not panic leaves every connection at most once in a sheet.
pub perform-AreSingle :
    (cfg : Config) (out : Outside) (e : Event) (h : Handler)
    → IsEvent cfg out e h
    → IsConsistent h
    → AreSingle h.sheets
    → Safely (λ h'. AreSingle h'.sheets) (perform cfg out e h)
unfolding perform handle_frame broadcast_heartbeat connect
perform-AreSingle cfg out (accepted conn) h given v s = s
perform-AreSingle cfg out (received conn r malformed) h live v s = s
perform-AreSingle cfg out (received conn r (request req)) h live v s =
    action-Single cfg out r conn req h s
perform-AreSingle cfg out (lost conn r) h live v s = disconnect-Single conn h live v cfg out r s
perform-AreSingle cfg out heartbeat_tick h given v s = s
perform-AreSingle cfg out (lock_tick clock order) h given v s = s
perform-AreSingle cfg out (cache_tick p now order) h given v s =
    Safely-map (SameBut p h) Single _
      (λ h' same.
        let alike = SameBut-Alike p h h' same in
        AreSingle-like h.sheets h'.sheets alike.collaborators alike.fresh s)
      (cached 0 p h (Cache.cleanup_expired now order (h.sheets.cells p).cache) _
        (λ c removed. put_cache-SameBut 0 p h c))
