-- ===== src/Server/System/Consistency.antt =====
-- The invariant that ties the connections of ws/handler.go to the sheets of sheet/manager.go.
use mathlib.Core.Path.{subst}
use advo_cache.Base.{
  ℕ, ◌<◌, ◌≡◌, refl, sym, ap, ◌∙◌, inl, inr, Bool, true, false, List, Option, none, some, String,
  arith, text_key, conn_key, ◌=?◌, =?_iff, length, Bool-cases,
}
use advo_cache.Base.Dict.{lookup, has_key-insert}
use advo_cache.Cache.{update}
use advo_cache.Message.{Message}
use advo_cache.Sheet.{Conn, Sheet, Sheets}
use advo_cache.Server.{Handler, connect}
use advo_cache.Server.Isolation.{SameBut}
use advo_cache.Server.System.{is_live}
use advo_cache.Server.System.Members.{is_member}

-- What stands under an ID: a sheet in memory of that ID, with a collaborator.
abbrev pub Named : Sheets → String → Option ℕ → Type 0
Named m id none = Unit
Named m id (some p) =
    (p < m.fresh) × ((m.cells p).id ≡ id) × ((length (m.cells p).collaborators =? 0) ≡ false)

-- Where a live connection is: among the collaborators of its sheet, which stands under its ID.
abbrev pub Attends : Sheets → Conn → Bool → Option ℕ → Type 0
Attends m c true (some p) =
    (is_member c (m.cells p).collaborators ≡ true) × (lookup (m.cells p).id m.by_id ≡ some p)
Attends m c _ _ = Unit

pub record IsConsistent (h : Handler) : Type 0 where
  pub sheets : (id : String) → Named h.sheets id (lookup id h.sheets.by_id)
  pub clients : (c : Conn) → Attends h.sheets c (is_live c h) (h.joined c)

pub lookup-Named :
    (m : Sheets) (id : String) (p : ℕ) {o : Option ℕ}
    → Named m id o
    → o ≡ some p
    → Named m id (some p)
lookup-Named m id p n e = subst (Named m id) e n

pub joined-Attends :
    (m : Sheets) (c : Conn) (p : ℕ) {b : Bool} {o : Option ℕ}
    → Attends m c b o
    → b ≡ true
    → o ≡ some p
    → Attends m c true (some p)
joined-Attends m c p {b} {o} a e f = ground arith

-- From what holds of a live, joined connection.
pub attending :
    (m : Sheets) (c : Conn) (b : Bool) (o : Option ℕ)
    → ((p : ℕ) → b ≡ true → o ≡ some p → Attends m c true (some p))
    → Attends m c b o
attending m c false o f = tt
attending m c true none f = tt
attending m c true (some p) f = f p refl refl

pub naming :
    (m : Sheets) (id : String) (o : Option ℕ)
    → ((p : ℕ) → o ≡ some p → Named m id (some p))
    → Named m id o
naming m id none f = tt
naming m id (some p) f = f p refl

-- What no step but an opening and a leaving changes.
pub record Alike (h h' : Handler) : Type 0 where
  pub ids : (q : ℕ) → (h'.sheets.cells q).id ≡ (h.sheets.cells q).id
  pub collaborators : (q : ℕ) → (h'.sheets.cells q).collaborators ≡ (h.sheets.cells q).collaborators
  pub by_id : h'.sheets.by_id ≡ h.sheets.by_id
  pub fresh : h'.sheets.fresh ≡ h.sheets.fresh
  pub joined : h'.joined ≡ h.joined
  pub live : (c : Conn) → is_live c h' ≡ true → is_live c h ≡ true

pub Alike-IsConsistent : (h h' : Handler) → Alike h h' → IsConsistent h → IsConsistent h'
Alike-IsConsistent h h' a v = record {
  sheets = λ id. naming h'.sheets id (lookup id h'.sheets.by_id) λ p at.
      let (below, same, some_one) = lookup-Named h.sheets id p (v.sheets id) (rw (← a.by_id) at) in
      (rw a.fresh below, a.ids p ∙ same, rw (a.collaborators p) some_one);
  clients = λ c. attending h'.sheets c (is_live c h') (h'.joined c) λ p live at.
      let (member, there) =
        joined-Attends h.sheets c p (v.clients c) (a.live c live) (rw (← a.joined) at) in
      (rw (a.collaborators p) member, rw (a.ids p, a.by_id) there);
}

pub SameBut-Alike : (p : ℕ) (h h' : Handler) → SameBut p h h' → Alike h h'
SameBut-Alike p h h' (others, id, hash, members, by_id, fresh, joined, clients, replicas, closed) =
    record {
      ids = λ q. at q (λ s. s.id) id;
      collaborators = λ q. at q (λ s. s.collaborators) members;
      by_id = by_id;
      fresh = fresh;
      joined = joined;
      live = λ c live. rw (clients, replicas) at live;
    }
  where
    at :
        {A : Type 0} (q : ℕ) (f : Sheet → A)
        → f (h'.sheets.cells p) ≡ f (h.sheets.cells p)
        → f (h'.sheets.cells q) ≡ f (h.sheets.cells q)
    at q f same = elim (Bool-cases (q =? p)) [
      | inl here ↦
          subst (λ k. (f (h'.sheets.cells k) ≡ f (h.sheets.cells k))) (sym ((=?_iff q p).0 here))
            same
      | inr other ↦ ap f (rw other at (others q))
    ]

-- A new connection is in no sheet.
pub connect-IsConsistent :
    (conn : Conn) (h : Handler) → IsConsistent h → IsConsistent (connect conn h)
unfolding connect
connect-IsConsistent conn h v = record {
  sheets = v.sheets;
  clients = λ c.
      attending h.sheets c (is_live c (connect conn h)) (update h.joined conn none c) λ p live at.
        let other : (conn =? c) ≡ false = ground arith in
        joined-Attends h.sheets c p (v.clients c)
          (ground (arith, has_key-insert conn c conn h.clients)) (ground arith);
}

-- A state of the same sheets and connections.
pub written :
    (h : Handler) (outbox : List (Conn × Message)) (closed : List Conn)
    → IsConsistent h
    → IsConsistent (record h { outbox = outbox; closed = closed })
written h outbox closed v = record { sheets = v.sheets; clients = v.clients }
