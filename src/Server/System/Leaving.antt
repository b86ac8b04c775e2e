-- ===== src/Server/System/Leaving.antt =====
-- What the sheets of sheet/manager.go are when a collaborator has left.
use advo_cache.Base.{
  ℕ, ◌≡◌, ap, inl, inr, true, false, not, List, some, String, arith, text_key, if◌then◌else◌, ◌=?◌,
  =?_iff, eq_iff, length, keep, Bool-cases,
}
use advo_cache.Base.Dict.{lookup, lookup-remove}
use advo_cache.Cache.{update}
use advo_cache.Sheet.{Conn, Sheets, delete_sheet}
use advo_cache.Server.System.Consistency.{Named, lookup-Named, naming, Attends}
use advo_cache.Server.System.Members.{is_member, is_member-keep, length-pos_of_is_member}

module _ (m : Sheets) (conn : Conn) (p : ℕ) where
  abbrev pub staying : List Conn
  staying = keep (λ c. not (c =? conn)) (m.cells p).collaborators

  abbrev pub left : Sheets
  left = record m { cells = update m.cells p (record (m.cells p) { collaborators = staying }) }

  -- The sheets that leave_sheet leaves.
  abbrev pub departed : Sheets
  departed = if length staying =? 0 then delete_sheet (m.cells p).id left else left

  module _ (named : (id : String) → Named m id (lookup id m.by_id))
      (member : is_member conn (m.cells p).collaborators ≡ true)
      (there : lookup (m.cells p).id m.by_id ≡ some p) where
    deleted : Sheets
    deleted = delete_sheet (m.cells p).id left

    emptied :
        (id : String) → (length staying =? 0) ≡ true → Named deleted id (lookup id deleted.by_id)
    unfolding delete_sheet deleted
    emptied id empty = naming deleted id (lookup id deleted.by_id) λ q at.
        let gone = lookup-remove (m.cells p).id id m.by_id in
        let (below, same, some_one) = lookup-Named m id q (named id) (ground (arith, gone)) in
        elim (Bool-cases (p =? q)) [
          | inl here ↦
              absurd
                (ground (arith, gone, eq_iff (m.cells p).id id, ap m.cells ((=?_iff p q).0 here)))
          | inr other ↦ (below, ground arith, ground arith)
        ]

    kept : (id : String) → (length staying =? 0) ≡ false → Named left id (lookup id left.by_id)
    kept id some_one = naming left id (lookup id m.by_id) λ q at.
        let (below, same, any) = lookup-Named m id q (named id) at in
        elim (Bool-cases (p =? q)) [
          | inl here ↦ (below, ground (arith, ap m.cells ((=?_iff p q).0 here)), ground arith)
          | inr other ↦ (below, ground arith, ground arith)
        ]

    pub departed-Named : (id : String) → Named departed id (lookup id departed.by_id)
    unfolding delete_sheet deleted
    departed-Named id = elim (Bool-cases (length staying =? 0)) [
      | inl empty ↦ rw empty (emptied id empty)
      | inr some_one ↦ rw some_one (kept id some_one)
    ]

    pub departed-Attends :
        (c : Conn) (q : ℕ)
        → (conn =? c) ≡ false
        → Attends m c true (some q)
        → Attends departed c true (some q)
    unfolding delete_sheet
    departed-Attends c q other (here, stands) =
        let stays = is_member-keep c conn (m.cells p).collaborators in
        elim (Bool-cases (p =? q)) [
          | inl same ↦
              let e = ap m.cells ((=?_iff p q).0 same) in
              let still : is_member c staying ≡ true = ground (arith, e, stays) in
              let some_one = length-pos_of_is_member c staying still in
              rw some_one (ground arith, ground (arith, e))
          | inr apart ↦ elim (Bool-cases (length staying =? 0)) [
            | inl empty ↦ rw empty (
              ground arith,
              ground (
                arith,
                lookup-remove (m.cells p).id (m.cells q).id m.by_id,
                eq_iff (m.cells p).id (m.cells q).id,
              ),
            )
            | inr some_one ↦ rw some_one (ground arith, ground arith)
          ]
        ]
