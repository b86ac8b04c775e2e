-- ===== src/Tandem/CatchUp.antt =====
-- A replica of replica/client.go registers with the leader of ws/handler.go, and catches up.
use mathlib.Core.Path.{subst}
use mathlib.Core.List.{append_assoc}
use advo_cache.Base.{
  ℕ, ◌+◌, ◌≤◌, ◌≡◌, refl, sym, ◌∙◌, inl, inr, true, false, List, [], ◌∷◌, ◌++◌, none, some, String,
  arith, ◌==◌, text_key, conn_key, =?_iff, eq_iff, length, Bool-cases, Option-cases,
}
use advo_cache.Base.Dict.{
  Dict, lookup, insert, remove, has_key, DistinctKeys, Enumerates, lookup-none_of_has_key,
}
use advo_cache.Value.{Value}
use advo_cache.Config.{Config}
use advo_cache.Cache.{Cache, Entry, Ptr, default_capacity, dump, read_entry}
use advo_cache.Cache.Dump.{Shows, dump-Shows}
use advo_cache.Cache.Lru.{seek, value_of}
use advo_cache.Message.{Request, Message, response, success_response, full_state}
use advo_cache.Sheet.{Conn, get_sheet}
use advo_cache.Server.System.Members.{occurrences}
use advo_cache.Server.{
  keys, Outside, Reads, Replica, Handler, dump_sheets, handle_register_replica, write,
}
use advo_cache.Server.Writes.{Stores}
use advo_cache.Replica
use advo_cache.Replica.{Client, hear, handle_message, apply_full_state}
use advo_cache.Replica.Follow.{Follows}
use advo_cache.Replica.Load.{AllFit, apply_full_state_new}
use advo_cache.Tandem.{inbox}

length-remove-le : (k : String) (d : Dict String Value) → length (remove k d) ≤ length d
unfolding remove
length-remove-le k [] = omega arith
length-remove-le k ((j, v) ∷ d) = ground (arith, length-remove-le k d)

length-insert-le :
    (k : String) (v : Value) (d : Dict String Value) → length (insert k v d) ≤ length d + 1
unfolding insert
length-insert-le k v d = omega (arith, length-remove-le k d)

-- A dump has no more entries than `range` visits.
length-dump-le :
    (order : Dict String Ptr) (c : Cache) (result d : Dict String Value)
    → dump order c result ≡ some d
    → length d ≤ length result + length order
unfolding dump
length-dump-le [] c result d ran = ground arith
length-dump-le ((k, p) ∷ rest) c result d ran = elim (Option-cases (read_entry p c)) [
  | inl nil ↦ absurd (ground arith)
  | inr (e, read) ↦
      let more = length-dump-le rest c (insert k e.value result) d (ground arith) in
      omega (arith, more, length-insert-le k e.value result)
]

module _ (r : Reads) (h : Handler) where
  -- What the dump of the sheet at an address rests on.
  abbrev pub IsReady : ℕ → Type 0
  IsReady p =
      ((es : List Entry) × Stores p es h)
      × Enumerates (r.order p) (h.sheets.cells p).cache.nodes
      × (length (r.order p) ≤ default_capacity)

  abbrev pub AreReady : Dict String ℕ → Type 0
  AreReady order = (id : String) (p : ℕ) → lookup id order ≡ some p → IsReady p

  pub dump_sheets_lem :
      (order : Dict String ℕ)
      → DistinctKeys order
      → AreReady order
      → (ds : Dict String (Dict String Value)) × (dump_sheets r order h ≡ some ds)
        × DistinctKeys ds
        × AllFit ds
        × ((id : String) → has_key id ds ≡ has_key id order)
        × ((id : String) (p : ℕ) (es : List Entry)
            → lookup id order ≡ some p
            → Stores p es h
            → (d : Dict String Value) × (lookup id ds ≡ some d)
              × Shows es d
              × (length d ≤ length (r.order p)))
  unfolding dump_sheets lookup has_key
  dump_sheets_lem [] once ready =
      ([], refl, tt, tt, λ id. refl, λ id p es at holds. absurd (ground arith))
  dump_sheets_lem ((j, q) ∷ order) (new, once) ready =
      let ((fs, stores), visit, room) = ready j q (ground (arith, eq_iff j j)) in
      let (d, ran, shows) = dump-Shows (r.order q) (h.sheets.cells q).cache fs visit stores in
      let (ds, ran', once', fit, keys, shown) =
        dump_sheets_lem order once (λ id p at.
          ready id p (ground (arith, eq_iff j id, lookup-none_of_has_key j order new))) in
      let small = length-dump-le (r.order q) (h.sheets.cells q).cache [] d ran in
      (
        (j, d) ∷ ds,
        rw (ran, ran') refl,
        (keys j ∙ new, once'),
        (shows.1, omega (arith, small, room), fit),
        λ id. ground (arith, keys id),
        λ id p es at holds. elim (Bool-cases (j == id)) [
          | inl same ↦
              let here : p ≡ q = ground arith in
              let (d', ran₁, shows') =
                dump-Shows (r.order q) (h.sheets.cells q).cache es visit
                  (subst (λ n. Stores n es h) here holds) in
              let both : d' ≡ d = ground arith in
              (
                d,
                ground arith,
                subst (Shows es) both shows',
                subst (λ x. length d ≤ length (r.order x)) (sym here) (omega (arith, small)),
              )
          | inr other ↦
              let (d', found, shows', few) = shown id p es (ground arith) holds in
              (d', ground arith, shows', few)
        ],
      )

module _ (cfg : Config) (reads : ℕ → Replica.Reads) (n : ℕ) (c : Client) where
  -- A connected replica hears a full state, and the answer to its registration.
  hear_registered :
      (ds : Dict String (Dict String Value)) (c' : Client)
      → c.has_conn ≡ true
      → c'.has_conn ≡ c.has_conn
      → apply_full_state cfg (reads n) ds c ≡ some c'
      → hear cfg reads n (full_state ds ∷ response success_response ∷ []) c ≡ some c'
  unfolding hear handle_message
  hear_registered ds c' online same ran = rw (ran, online, same ∙ online) refl

-- The same value, if any, at every key.
abbrev pub SameValues : List Entry → List Entry → Type 0
SameValues es es' = (k : String) → value_of (seek k es') ≡ value_of (seek k es)

once_more : (conn : Conn) (m : Dict Conn Replica) → occurrences conn (keys (remove conn m)) ≡ 0
unfolding remove
once_more conn [] = refl
once_more conn ((d, rep) ∷ m) = ground (arith, once_more conn m)

in_replicas :
    (conn : Conn) (rep : Replica) (m : Dict Conn Replica)
    → occurrences conn (keys (insert conn rep m)) ≡ 1
unfolding insert
in_replicas conn rep m = ground (arith, once_more conn m)

module _ (cfg : Config) (out : Outside) (given : Reads) (conn : Conn) (req : Request)
    (h : Handler) where
  abbrev registered : Replica → Handler
  registered rep = record h {
    replicas = insert conn rep h.replicas;
    clients = remove conn h.clients;
  }

  registered_lem :
      (ds : Dict String (Dict String Value)) (at : ℕ)
      → out.parse_time req.started_at ≡ some at
      → (req.instance_id == "") ≡ false
      → dump_sheets given given.visit
          (registered (record { instance_id = req.instance_id; started_at = at }))
        ≡ some ds
      → handle_register_replica cfg out given conn req h
        ≡ some (
            write conn (response success_response) (
              write conn
                (full_state ds)
                (registered (record { instance_id = req.instance_id; started_at = at }))))
  unfolding handle_register_replica
  registered_lem ds at parsed named ran = ground arith

  -- A replica registers, with a start time that can be read and an instance ID: the handler ends, and
  -- the connection is once among the replicas. A connected replica that has no sheet yet, once it has heard what was
  -- written to its connection, has every sheet of the leader, with the same value at every key. The leader's
  -- caches stand for lists of entries, `range` visits the maps as they are, and no cache has more than
  -- 10000 entries, the capacity of the replica's caches.
  pub handle_register_replica-SameValues :
      (at : ℕ) (rcfg : Config) (reads : ℕ → Replica.Reads) (n : ℕ) (c : Client) (id : String)
      (p : ℕ) (es : List Entry)
      → out.parse_time req.started_at ≡ some at
      → (req.instance_id == "") ≡ false
      → Enumerates given.visit h.sheets.by_id
      → AreReady given h h.sheets.by_id
      → c.has_conn ≡ true
      → ((j : String) → get_sheet j c.sheets ≡ none)
      → lookup id h.sheets.by_id ≡ some p
      → Stores p es h
      → (h' : Handler) × (sent : List (Conn × Message)) × (c' : Client) × (es' : List Entry)
        × (handle_register_replica cfg out given conn req h ≡ some h')
        × (h'.outbox ≡ h.outbox ++ sent)
        × (h'.sheets ≡ h.sheets)
        × (occurrences conn (keys h'.replicas) ≡ 1)
        × (hear rcfg reads n (inbox conn sent) c ≡ some c')
        × (c'.has_conn ≡ true)
        × Follows id es' c'
        × SameValues es es'
        × (length es' ≤ length (given.order p))
  unfolding inbox has_key
  handle_register_replica-SameValues at rcfg reads n c id p es parsed named visit ready online empty
        there holds =
      let h₁ = registered (record { instance_id = req.instance_id; started_at = at }) in
      let (ds, ran, once, fit, held, shown) =
        dump_sheets_lem given h₁ given.visit visit.once
          (λ j q found. ready j q (sym (visit.same j) ∙ found)) in
      let (c', loaded, same, others, follows) =
        apply_full_state_new rcfg (reads n) ds c once
          (λ j q found. absurd (ground (arith, empty j))) fit (λ j has. empty j) in
      let (d, found, shows, few) = shown id p es (visit.same id ∙ there) holds in
      let (es', follow, shows', fewer) = follows id d found in
      let mine = (=?_iff conn conn).1 refl in
      (
        write conn (response success_response) (write conn (full_state ds) h₁),
        (conn, full_state ds) ∷ (conn, response success_response) ∷ [],
        c',
        es',
        registered_lem ds at parsed named ran,
        append_assoc h.outbox _ _,
        refl,
        in_replicas conn _ h.replicas,
        rw mine (hear_registered rcfg reads n c ds c' online same loaded),
        same ∙ online,
        follow,
        (λ k. sym (shows'.0 k) ∙ shows.0 k),
        omega (arith, few, fewer),
      )
