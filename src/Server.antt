-- ===== src/Server.antt =====
-- ws/handler.go: the connections, and a handler for each action of a client. Each handler runs alone
-- here, as one step; `none` is a panic. What a call writes to the sockets is appended to `outbox`, in
-- order; a write that fails is not noticed by the code, nor here.
mod State
unfoldable pub use State.*
pub mod Isolation
pub mod Writes
pub mod Depart
pub mod Contention
pub mod Opening
pub mod Race
pub mod Session
pub mod System
mod Tests
use Prim.Native.String
use Prim.Native.String.{◌++◌ as append}
use advo_cache.Base.{
  ℕ, ◌+◌, Bool, true, false, not, ◌||◌, List, [], ◌∷◌, ◌++◌, Option, none, some, String, ◌==◌,
  text_key, conn_key, if◌then◌else◌, ◌>>=◌, length, keep, ◌=?◌, map, ltb, ◌&&◌,
}
use advo_cache.Base.Dict.{Dict, lookup, insert, remove}
use advo_cache.Value.{Value, text, object, members, null_placeholder}
use advo_cache.Time.{Time, Duration, second, times, is_positive, half}
use advo_cache.Config.{Config, cache_ttl, lock_ttl}
use advo_cache.Cache
use advo_cache.Cache.{Cache, Ptr, update}
use advo_cache.Lock
use advo_cache.Lock.{Lock}
use advo_cache.Sheet
use advo_cache.Sheet.{Bcrypt, Conn, Sheet, Sheets, ok, err}
use advo_cache.Message.{
  Request, Response, Message, success_response, error_response, response, sheet_state, full_state,
  broadcast_set, invalidate,
}

module _ (cfg : Config) (out : Outside) where
  unfoldable pub on_disconnect : Reads → Conn → Handler → Handler
  on_disconnect r conn h = elim (lookup conn h.replicas) [
    | some _ ↦ record h { replicas = remove conn h.replicas; closed = conn ∷ h.closed }
    | none ↦
        let locks = (Lock.release_all_by_owner (out.format_pointer conn) r.lock_order h.locks).0 in
        let h₁ = record h { locks = locks; clients = remove conn h.clients } in
        let h₂ = leave_sheet conn h₁ in record h₂ { closed = conn ∷ h₂.closed }
  ]

  unfoldable pub handle_open : Reads → Conn → Request → Handler → Option Handler
  handle_open r conn req h = elim (h.joined conn) [
    | some p ↦ some (send_error conn (append "already in sheet: " (h.sheets.cells p).id) h)
    | none ↦
        if req.sheet == "" || req.password == ""
        then some (send_error conn "sheet and password required" h)
        else do
          (m, found) ← Sheet.get_or_create_sheet out.bcrypt req.sheet req.password r.salt h.sheets
          let h₁ = record h { sheets = m }
          elim found [
            | err _ ↦
                let h₂ = send_error conn "invalid password" h₁ in
                some (record h₂ { closed = conn ∷ h₂.closed })
            | ok p ↦ do
              let s = Sheet.add_collaborator conn (m.cells p)
              let m' = record m { cells = update m.cells p s }
              let h₂ = record h₁ { sheets = m'; joined = update h.joined conn (some p) }
              let h₃ = write conn (response (record success_response { sheet = req.sheet })) h₂
              state ← Cache.dump (r.order p) s.cache []
              some (write conn (sheet_state state) h₃)
          ]
  ]

  -- The handlers below are for a client of the sheet at `p`.
  unfoldable pub handle_get : Reads → Conn → ℕ → Request → Handler → Option Handler
  handle_get r conn p req h = do
    (c, found) ← Cache.get req.key r.now (h.sheets.cells p).cache
    let h₁ = put_cache p c h
    some (elim found [
      | none ↦ send_error conn "key not found" h₁
      | some v ↦ write conn (response (record success_response { key = req.key; value = v })) h₁
    ])

  unfoldable pub handle_set : Reads → Conn → ℕ → Request → Handler → Option Handler
  handle_set r conn p req h = do
    let cache = (h.sheets.cells p).cache
    (c, evicted_key) ←
        (if req.jitter
          then Cache.set_with_jitter r.int63n req.key req.value (cache_ttl cfg) cfg.jitter_percent
              r.now cache
          else Cache.set req.key req.value (cache_ttl cfg) r.now cache)
    let h₁ = put_cache p c h
    let h₂ = write conn (response (record success_response { key = req.key })) h₁
    let h₃ = broadcast conn p (broadcast_set req.key req.value) h₂
    let h₄ = replicate_set (h₃.sheets.cells p).id req.key req.value req.jitter h₃
    some (announce_eviction conn p evicted_key h₄)

  unfoldable pub handle_delete : Conn → ℕ → Request → Handler → Option Handler
  handle_delete conn p req h = do
    c ← Cache.delete req.key (h.sheets.cells p).cache
    let h₁ = put_cache p c h
    let h₂ = write conn (response (record success_response { key = req.key; deleted = 1 })) h₁
    let h₃ = broadcast conn p (invalidate req.key "" "") h₂
    some (replicate_delete (h₃.sheets.cells p).id req.key h₃)

  unfoldable pub handle_delete_prefix : Reads → Conn → ℕ → Request → Handler → Option Handler
  handle_delete_prefix r conn p req h = do
    (c, count) ← Cache.delete_prefix req.prefix (r.order p) (h.sheets.cells p).cache
    let h₁ = put_cache p c h
    let h₂ = write conn (response (record success_response { deleted = count })) h₁
    let h₃ = broadcast conn p (invalidate "" req.prefix "") h₂
    some (replicate_delete_prefix (h₃.sheets.cells p).id req.prefix h₃)

  unfoldable pub handle_delete_suffix : Reads → Conn → ℕ → Request → Handler → Option Handler
  handle_delete_suffix r conn p req h = do
    (c, count) ← Cache.delete_suffix req.suffix (r.order p) (h.sheets.cells p).cache
    let h₁ = put_cache p c h
    let h₂ = write conn (response (record success_response { deleted = count })) h₁
    let h₃ = broadcast conn p (invalidate "" "" req.suffix) h₂
    some (replicate_delete_suffix (h₃.sheets.cells p).id req.suffix h₃)

  unfoldable pub handle_dump : Reads → Conn → ℕ → Handler → Option Handler
  handle_dump r conn p h = do
    d ← Cache.dump (r.order p) (h.sheets.cells p).cache []
    some (
        write conn
          (response (record success_response { value = object (members d); count = length d })) h)

  -- The time to live of a lock: the request's, if it is above zero.
  abbrev pub requested_ttl : Request → Duration
  requested_ttl req = if is_positive req.lock_ttl then times req.lock_ttl second else lock_ttl cfg

  -- The text of an error of the lock manager.
  abbrev pub error_text : Lock.LockError → String
  error_text Lock.lock_held = "lock held by another client"
  error_text Lock.not_owner = "not lock owner"
  error_text Lock.lock_not_found = "lock not found"

  unfoldable pub handle_lock : Reads → Conn → ℕ → Request → Handler → Option Handler
  handle_lock r conn p req h =
      let owner_id = out.format_pointer conn in
      let id = (h.sheets.cells p).id in
      let (locks, acquired) =
        Lock.try_acquire id req.key owner_id (requested_ttl req) r.now r.seen r.again h.locks in
      let h₁ = record h { locks = locks } in
      some (elim acquired [
        | Lock.err e ↦ elim (Lock.is_locked id req.key r.later locks) [
          | some _ ↦
              write conn
                (response (record (error_response "lock held by another client") { key = req.key }))
                h₁
          | none ↦ send_error conn (error_text e) h₁
        ]
        | Lock.ok lock ↦
            replicate_lock out id req.key owner_id lock.expires_at
              (write conn (response (record success_response { key = req.key })) h₁)
      ])

  unfoldable pub handle_unlock : Conn → ℕ → Request → Handler → Option Handler
  handle_unlock conn p req h =
      let id = (h.sheets.cells p).id in
      let (locks, failed) = Lock.release id req.key (out.format_pointer conn) h.locks in
      let h₁ = record h { locks = locks } in
      some (elim failed [
        | some e ↦ send_error conn (error_text e) h₁
        | none ↦
            replicate_unlock id req.key
              (write conn (response (record success_response { key = req.key })) h₁)
      ])

  unfoldable pub handle_set_null : Reads → Conn → ℕ → Request → Handler → Option Handler
  handle_set_null r conn p req h = do
    (c, evicted_key) ← Cache.set_null req.key (cache_ttl cfg) r.now (h.sheets.cells p).cache
    let h₁ = put_cache p c h
    let h₂ = write conn (response (record success_response { key = req.key })) h₁
    let h₃ = replicate_set (h₂.sheets.cells p).id req.key (text null_placeholder) false h₂
    some (announce_eviction conn p evicted_key h₃)

  unfoldable pub handle_register_replica : Reads → Conn → Request → Handler → Option Handler
  handle_register_replica r conn req h = elim (out.parse_time req.started_at) [
    | none ↦ some (send_error conn "invalid started_at timestamp (use RFC3339)" h)
    | some started_at ↦
        if req.instance_id == "" then some (send_error conn "instance_id required" h) else do
          let rep : Replica = record { instance_id = req.instance_id; started_at = started_at }
          let h₁ = record h {
            replicas = insert conn rep h.replicas;
            clients = remove conn h.clients;
          }
          sheets ← dump_sheets r r.visit h₁
          some (write conn (response success_response) (write conn (full_state sheets) h₁))
  ]

  -- The switch over the actions of a client in a sheet.
  unfoldable pub dispatch : Reads → Conn → ℕ → Request → Handler → Option Handler
  dispatch r conn p req h =
      if req.action == "get"
      then handle_get r conn p req h
      else if req.action == "set"
      then handle_set r conn p req h
      else if req.action == "delete"
      then handle_delete conn p req h
      else if req.action == "delete_prefix"
      then handle_delete_prefix r conn p req h
      else if req.action == "delete_suffix"
      then handle_delete_suffix r conn p req h
      else if req.action == "dump"
      then handle_dump r conn p h
      else if req.action == "lock"
      then handle_lock r conn p req h
      else if req.action == "unlock"
      then handle_unlock conn p req h
      else if req.action == "set_null"
      then handle_set_null r conn p req h
      else some (send_error conn (append "unknown action: " req.action) h)

  unfoldable pub handle_action : Reads → Conn → Request → Handler → Option Handler
  handle_action r conn req h =
      if req.action == "open"
      then handle_open r conn req h
      else if req.action == "register_replica"
      then handle_register_replica r conn req h
      else elim (h.joined conn) [
        | none ↦ some (send_error conn "must open sheet first" h)
        | some p ↦ dispatch r conn p req h
      ]
