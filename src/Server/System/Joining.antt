-- ===== src/Server/System/Joining.antt =====
-- What the sheets of sheet/manager.go are when a client has opened one.
use mathlib.Core.Path.{subst}
use advo_cache.Base.{
  ℕ, ◌+◌, ◌<◌, ◌≡◌, refl, sym, ap, ◌∙◌, inl, inr, true, not, ◌||◌, Option, none, some, String,
  arith, ◌==◌, text_key, ◌=?◌, =?_iff, eq_iff, length, Bool-cases,
}
use advo_cache.Base.Dict.{lookup, insert, lookup-insert}
use advo_cache.Cache.{update}
use advo_cache.Sheet.{Conn, Sheet, Sheets, ok, add_collaborator}
use advo_cache.Sheet.Entry.{Kept, Made}
use advo_cache.Server.System.Consistency.{Named, lookup-Named, naming, Attends}
use advo_cache.Server.System.Members.{is_member-keep}

-- Like `Named`, but the sheet at `p` may be empty.
abbrev pub NamedBut : ℕ → Sheets → String → Option ℕ → Type 0
NamedBut p m id none = Unit
NamedBut p m id (some q) =
    (q < m.fresh)
    × ((m.cells q).id ≡ id)
    × (((p =? q) || not (length (m.cells q).collaborators =? 0)) ≡ true)

pub lookup-NamedBut :
    (p : ℕ) (m : Sheets) (id : String) (q : ℕ) {o : Option ℕ}
    → NamedBut p m id o
    → o ≡ some q
    → NamedBut p m id (some q)
lookup-NamedBut p m id q n e = subst (NamedBut p m id) e n

naming_but :
    (p : ℕ) (m : Sheets) (id : String) (o : Option ℕ)
    → ((q : ℕ) → o ≡ some q → NamedBut p m id (some q))
    → NamedBut p m id o
naming_but p m id none f = tt
naming_but p m id (some q) f = f q refl

-- The state in which the client is let in: its sheet stands under the ID, and whoever was in a sheet
-- still is.
pub record IsEntered (m m' : Sheets) (id : String) (p : ℕ) : Type 0 where
  pub named : (j : String) → NamedBut p m' j (lookup j m'.by_id)
  pub there : lookup id m'.by_id ≡ some p
  pub stay : (c : Conn) (q : ℕ) → Attends m c true (some q) → Attends m' c true (some q)

pub Kept-IsEntered :
    (m m' : Sheets) (id : String) (p : ℕ)
    → ((j : String) → Named m j (lookup j m.by_id))
    → Kept id m m' (ok p)
    → IsEntered m m' id p
Kept-IsEntered m m' id p named (same, by_id, fresh, found) = record {
  named = λ j. naming_but p m' j (lookup j m'.by_id) λ q at.
      let (below, is_id, any) = lookup-Named m j q (named j) (rw (← by_id) at) in
      (rw fresh below, (same q).0 ∙ is_id, ground (arith, (same q).1));
  there = rw by_id found;
  stay = λ c q (member, stands). (rw ((same q).1) member, rw ((same q).0, by_id) stands);
}

abbrev made : Sheets → String → Sheet → Sheets
made m id s = record m {
  cells = update m.cells m.fresh s;
  fresh = m.fresh + 1;
  by_id = insert id m.fresh m.by_id;
}

made-IsEntered :
    (m : Sheets) (id : String) (s : Sheet)
    → ((j : String) → Named m j (lookup j m.by_id))
    → lookup id m.by_id ≡ none
    → s.id ≡ id
    → IsEntered m (made m id s) id m.fresh
made-IsEntered m id s named absent is_id = record {
  named = λ j. naming_but m.fresh (made m id s) j (lookup j (insert id m.fresh m.by_id)) λ q at.
      let new = lookup-insert id j m.fresh m.by_id in
      elim (Bool-cases (id == j)) [
        | inl same ↦
            let e : m.fresh ≡ q = ground (arith, new) in
            subst (λ k. NamedBut m.fresh (made m id s) j (some k)) e
              (omega arith, ground (arith, eq_iff id j), ground arith)
        | inr other ↦
            let (below, names, any) = lookup-Named m j q (named j) (ground (arith, new)) in
            (omega arith, ground arith, ground arith)
      ];
  there = ground (arith, lookup-insert id id m.fresh m.by_id, eq_iff id id);
  stay = λ c q (member, stands).
      let (below, names, any) = lookup-Named m (m.cells q).id q (named (m.cells q).id) stands in
      (
        ground arith,
        ground (arith, lookup-insert id (m.cells q).id m.fresh m.by_id, eq_iff id (m.cells q).id),
      );
}

pub Made-IsEntered :
    (m m' : Sheets) (id : String) (p : ℕ)
    → ((j : String) → Named m j (lookup j m.by_id))
    → Made id m m' (ok p)
    → IsEntered m m' id p
Made-IsEntered m m' id p named (s, same, whole, absent, is_id, empty, holds) =
    let e : m.fresh ≡ p = ground arith in
    subst (λ x. IsEntered m x id p) (sym whole)
      (subst (λ k. IsEntered m (made m id s) id k) e (made-IsEntered m id s named absent is_id))

module _ (m : Sheets) (conn : Conn) (p : ℕ) where
  -- The sheets with one more collaborator.
  abbrev pub joined_by : Sheets
  joined_by = record m { cells = update m.cells p (add_collaborator conn (m.cells p)) }

  pub joined_by-Named :
      (j : String)
      → NamedBut p m j (lookup j m.by_id)
      → Named joined_by j (lookup j joined_by.by_id)
  unfolding add_collaborator
  joined_by-Named j n = naming joined_by j (lookup j m.by_id) λ q at.
      let (below, names, any) = lookup-NamedBut p m j q n at in
      elim (Bool-cases (p =? q)) [
        | inl here ↦ (below, ground (arith, ap m.cells ((=?_iff p q).0 here)), ground arith)
        | inr other ↦ (below, ground arith, ground arith)
      ]

  pub joined_by-Attends :
      (c : Conn) (q : ℕ) → Attends m c true (some q) → Attends joined_by c true (some q)
  unfolding add_collaborator
  joined_by-Attends c q (member, stands) =
      let there = is_member-keep c conn (m.cells p).collaborators in
      elim (Bool-cases (p =? q)) [
        | inl here ↦
            let e = ap m.cells ((=?_iff p q).0 here) in
            (ground (arith, e, there), ground (arith, e))
        | inr other ↦ (ground arith, ground arith)
      ]

  -- The one who joined.
  pub joined_by_self-Attends :
      (id : String)
      → (m.cells p).id ≡ id
      → lookup id m.by_id ≡ some p
      → Attends joined_by conn true (some p)
  unfolding add_collaborator
  joined_by_self-Attends id is_id there = (ground arith, ground arith)
