-- ===== src/Server/Depart.antt =====
-- What onDisconnect of ws/handler.go leaves behind.
use advo_cache.Base.{
  ℕ, ◌≡◌, not, ◌&&◌, none, some, String, arith, ◌==◌, text_key, conn_key, ◌=?◌, if◌then◌else◌,
  length, keep,
}
use advo_cache.Base.Dict.{lookup, lookup-remove, Enumerates}
use advo_cache.Config.{Config}
use advo_cache.Lock.Cleanup.{picked, release_all_by_owner_lem}
use advo_cache.Sheet.{remove_collaborator, delete_sheet}
use advo_cache.Server.{Outside, Reads, Handler, Replica, on_disconnect, leave_sheet}

module _ (cfg : Config) (out : Outside) (r : Reads) (conn p : ℕ) (h : Handler) where
  -- A client of a sheet, no replica, that goes: its locks are gone and no other lock is, it is no
  -- longer a collaborator, and the sheet is gone from the manager exactly if it was the last one.
  pub on_disconnect-leaves :
      (k id : String)
      → lookup conn h.replicas ≡ none
      → h.joined conn ≡ some p
      → Enumerates r.lock_order h.locks
      → (lookup k (on_disconnect cfg out r conn h).locks ≡ (
          if picked (λ _ l. l.owner == out.format_pointer conn) k (lookup k h.locks)
          then none
          else lookup k h.locks))
        × (((on_disconnect cfg out r conn h).sheets.cells p).collaborators
            ≡ keep (λ c. not (c =? conn)) (h.sheets.cells p).collaborators)
        × (lookup id (on_disconnect cfg out r conn h).sheets.by_id ≡ (
            if (length (keep (λ c. not (c =? conn)) (h.sheets.cells p).collaborators) =? 0)
              && ((h.sheets.cells p).id == id)
            then none
            else lookup id h.sheets.by_id))
        × (lookup conn (on_disconnect cfg out r conn h).clients ≡ none)
  unfolding on_disconnect leave_sheet remove_collaborator delete_sheet
  on_disconnect-leaves k id no_replica joined visit = (
    ground (arith, release_all_by_owner_lem (out.format_pointer conn) r.lock_order h.locks k visit),
    ground arith,
    ground (arith, lookup-remove (h.sheets.cells p).id id h.sheets.by_id),
    ground (arith, lookup-remove conn conn h.clients),
  )

  -- A connection that is registered as a replica and goes leaves everything else as it is: its place
  -- among the collaborators of a sheet that it had opened, that sheet, and the locks that it holds.
  on_disconnect_replica :
      (rep : Replica)
      → lookup conn h.replicas ≡ some rep
      → ((on_disconnect cfg out r conn h).sheets ≡ h.sheets)
        × ((on_disconnect cfg out r conn h).locks ≡ h.locks)
  unfolding on_disconnect
  on_disconnect_replica rep found = (ground arith, ground arith)
