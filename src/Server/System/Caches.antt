-- ===== src/Server/System/Caches.antt =====
-- The caches of all the sheets, and what a step of ws/handler.go does to them.
use mathlib.Core.Path.{subst}
use advo_cache.Base.{
  ℕ, ◌<◌, ◌≡◌, refl, sym, ap, ◌∙◌, inl, inr, true, List, [], ◌∷◌, Option, some, String, arith,
  text_key, conn_key, ◌=?◌, =?_iff, eq_iff, Bool-cases, Option-cases, length,
}
use advo_cache.Base.Dict.{Dict, lookup, Enumerates, DistinctKeys, lookup-none_of_has_key}
use advo_cache.Value.{Value}
use advo_cache.Config.{Config}
use advo_cache.Cache.{Cache, Entry, update}
use advo_cache.Cache.Cells.{Cells, find}
use advo_cache.Cache.Dump.{dump-Shows}
use advo_cache.Cache.Rep.{Rep, Holds, entries}
use advo_cache.Sheet.{Conn, Sheet, Sheets, delete_sheet}
use advo_cache.Server.{Outside, Reads, Handler, dump_sheets, on_disconnect}
use advo_cache.Server.Isolation.{SameBut, Safely}
use advo_cache.Server.System.Consistency.{Named, lookup-Named, IsConsistent}
use advo_cache.Server.System.Departure.{replica_gone, client_gone, leave_none, leave_some}
use advo_cache.Server.System.Leaving.{staying, left, departed}
use advo_cache.Server.System.{is_live}
use advo_cache.Server.System.Health.{IsSound, Ends}

abbrev pub IsSolid : Cache → Type 0
IsSolid c = (es : List Entry) × Holds c es

-- Every sheet that was made has a sound cache.
abbrev pub AreSound : Sheets → Type 0
AreSound m = (q : ℕ) → q < m.fresh → IsSolid (m.cells q).cache

abbrev pub Healthy : Handler → Type 0
Healthy h = AreSound h.sheets

-- The orders in which `range` visits the maps, and that of the sheet to be made next, which is empty.
pub record IsReading (r : Reads) (m : Sheets) : Type 0 where
  pub caches : (q : ℕ) → q < m.fresh → Enumerates (r.order q) (m.cells q).cache.nodes
  pub unmade : r.order m.fresh ≡ []
  pub sheets : Enumerates r.visit m.by_id

pub caches_kept :
    (m m' : Sheets)
    → ((q : ℕ) → (m'.cells q).cache ≡ (m.cells q).cache)
    → m'.fresh ≡ m.fresh
    → AreSound m
    → AreSound m'
caches_kept m m' same fresh s q below =
    subst IsSolid (sym (same q)) (s q (subst (λ n. q < n) fresh below))

-- A step that changes the cache of one sheet at most.
pub cell_Ends :
    (p : ℕ) (h : Handler) (run : Option Handler)
    → Healthy h
    → Safely (SameBut p h) run
    → Ends (IsSound p) run
    → Ends Healthy run
cell_Ends p h run s safe (h', e, sound) =
    let (same, is_id, hash, members, by_id, fresh, at, conns, reps, closed) =
      subst (Safely (SameBut p h)) e safe in
    (
      h',
      e,
      λ q below. elim (Bool-cases (q =? p)) [
        | inl here ↦ subst (λ k. IsSound k h') (sym ((=?_iff q p).0 here)) sound
        | inr other ↦
            let kept : (h'.sheets.cells q) ≡ h.sheets.cells q = ground (arith, same q) in
            subst (λ c. IsSolid c.cache) (sym kept) (s q (subst (λ n. q < n) fresh below))
      ],
    )

-- No order visits anything in an empty cache.
empty_order : (c : Cache) (xs : Cells) → Rep c xs → entries xs ≡ [] → Enumerates [] c.nodes
unfolding find lookup
empty_order c [] r e = record { once = tt; same = λ k. sym (r.index k) }
empty_order c (x ∷ xs) r e = absurd (ground arith)

pub empty_Enumerates : (c : Cache) → Holds c [] → Enumerates [] c.nodes
empty_Enumerates c (xs, r, e) = empty_order c xs r e

-- sendFullState: every sheet is dumped.
dumps :
    (r : Reads) (h : Handler) (order : Dict String ℕ)
    → DistinctKeys order
    → ((id : String) (p : ℕ)
        → lookup id order ≡ some p
        → IsSound p h × Enumerates (r.order p) (h.sheets.cells p).cache.nodes)
    → (ds : Dict String (Dict String Value)) × (dump_sheets r order h ≡ some ds)
unfolding dump_sheets lookup
dumps r h [] d f = ([], refl)
dumps r h ((id, p) ∷ rest) d f =
    let ((es, holds), visit) = f id p (ground (arith, eq_iff id id)) in
    let (state, ran, shows) = dump-Shows (r.order p) (h.sheets.cells p).cache es visit holds in
    let (states, ran') =
      dumps r h rest d.1
        (λ j q at. f j q (ground (arith, eq_iff id j, lookup-none_of_has_key id rest d.0))) in
    ((id, state) ∷ states, rw (ran, ran') refl)

-- A full state can be built on a consistent server.
pub full_state_total :
    (r : Reads) (h : Handler)
    → ((id : String) → Named h.sheets id (lookup id h.sheets.by_id))
    → Healthy h
    → IsReading r h.sheets
    → (ds : Dict String (Dict String Value)) × (dump_sheets r r.visit h ≡ some ds)
full_state_total r h named s given = dumps r h r.visit given.sheets.once λ id p at.
    let (below, names, any) =
      lookup-Named h.sheets id p (named id) (sym (given.sheets.same id) ∙ at) in
    (s p below, given.caches p below)

module _ (m : Sheets) (conn : Conn) (p : ℕ) where
  -- A write to the collaborators keeps the caches.
  pub same_cache :
      (s : Sheet)
      → s.cache ≡ (m.cells p).cache
      → (q : ℕ) → (update m.cells p s q).cache ≡ (m.cells q).cache
  same_cache s same q = elim (Bool-cases (p =? q)) [
    | inl here ↦ rw here (same ∙ ap (λ k. (m.cells k).cache) ((=?_iff p q).0 here))
    | inr other ↦ rw other refl
  ]

  departed-AreSound : AreSound m → AreSound (departed m conn p)
  unfolding delete_sheet
  departed-AreSound s = elim (Bool-cases (length (staying m conn p) =? 0)) [
    | inl empty ↦ rw empty (
        caches_kept m (delete_sheet (m.cells p).id (left m conn p))
          (same_cache (record (m.cells p) { collaborators = staying m conn p }) refl) refl s)
    | inr some_one ↦ rw some_one (
        caches_kept m (left m conn p)
          (same_cache (record (m.cells p) { collaborators = staying m conn p }) refl) refl s)
  ]

-- Nor does a connection that goes touch a cache.
pub disconnect-Healthy :
    (conn : Conn) (h : Handler) (live : is_live conn h ≡ true) (v : IsConsistent h) (cfg : Config)
    (out : Outside) (r : Reads)
    → Healthy h
    → Healthy (on_disconnect cfg out r conn h)
disconnect-Healthy conn h live v cfg out r s = elim (Option-cases (lookup conn h.replicas)) [
  | inr (rep, f) ↦ subst Healthy (sym (replica_gone conn h live v cfg out r rep f)) s
  | inl f ↦
      subst Healthy (sym (client_gone conn h live v cfg out r f))
        (elim (Option-cases (h.joined conn)) [
          | inl free ↦ subst Healthy (sym (leave_none conn h live v cfg out r free)) s
          | inr (p, at) ↦
              subst Healthy (sym (leave_some conn h live v cfg out r p at))
                (departed-AreSound h.sheets conn p s)
        ])
]
