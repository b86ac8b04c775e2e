-- ===== src/Tandem/Deleting.antt =====
-- A reader stays in sync with its server while another client deletes.
use advo_cache.Base.{ℕ, ◌≡◌, ◌≢◌, refl, false, List, text_key, conn_key, ◌=?◌}
use advo_cache.Base.Dict.{has_key, Enumerates}
use advo_cache.Cache.Sweep.{delete_prefix-Implements, delete_suffix-Implements}
use advo_cache.Config.{Config}
use advo_cache.Cache.{Entry, has_prefix, has_suffix}
use advo_cache.Cache.Lru
use advo_cache.Cache.Lru.{seek, forget}
use advo_cache.Cache.Methods.{delete-forget}
use advo_cache.Message.{Request, Message, response, success_response, invalidate}
use advo_cache.Server.{
  Outside, Reads, Handler, handle_delete, handle_delete_prefix, handle_delete_suffix, put_cache,
}
use advo_cache.Server.System.Members.{occurrences}
use advo_cache.Server.Writes.{Stores}
use advo_cache.Reader.{Reader}
use advo_cache.Reader.Sync.{
  InSync, invalidate_key-InSync, invalidate_prefix-InSync, invalidate_suffix-InSync,
}
use advo_cache.Tandem.Inbox.{IsOpen}
use advo_cache.Tandem.Writing.{Follows, told_Follows}

module _ (conn c p : ℕ) (h : Handler) (r : Reader) (other : (conn =? c) ≡ false)
    (once : occurrences c (h.sheets.cells p).collaborators ≡ 1)
    (client : has_key c h.replicas ≡ false) (open' : IsOpen r) (es : List Entry)
    (sync : InSync es r) (cfg : Config) (out : Outside) (given : Reads) (req : Request)
    (holds : Stores p es h) where
  -- While a client deletes a key that is not empty, the handler ends and exactly that key goes. The
  -- open reader of another client, who is once among the collaborators, no replica, and was in
  -- sync, is in sync again once it has heard what was written to its connection.
  pub handle_delete-Follows :
      req.key ≢ "" → Follows p c (forget req.key es) r h (handle_delete cfg out conn p req h)
  unfolding handle_delete
  handle_delete-Follows named =
      let (cache, run, there, bound) = delete-forget (h.sheets.cells p).cache es req.key holds in
      told_Follows conn c p h r other once client open' es sync cache (forget req.key es)
        (response (record success_response { key = req.key; deleted = 1 }))
        (invalidate req.key "" "")
        (Message.replicate_delete ((put_cache p cache h).sheets.cells p).id req.key) _ there
        (rw run refl) (invalidate_key-InSync es r sync req.key named)

  -- And after a bulk deletion by a prefix that is not empty, in any order of the map.
  pub handle_delete_prefix-Follows :
      req.prefix ≢ ""
      → Enumerates (given.order p) (h.sheets.cells p).cache.nodes
      → Follows p c
          (Lru.sweep (λ e. has_prefix req.prefix e.key) es).0
          r
          h
          (handle_delete_prefix cfg out given conn p req h)
  unfolding handle_delete_prefix
  handle_delete_prefix-Follows named visit =
      let (cache, run, there, bound) =
        delete_prefix-Implements req.prefix (given.order p) (h.sheets.cells p).cache es visit
          holds in
      told_Follows conn c p h r other once client open' es sync cache
        (Lru.sweep (λ e. has_prefix req.prefix e.key) es).0
        (response (record success_response {
          deleted = (Lru.sweep (λ e. has_prefix req.prefix e.key) es).1;
        }))
        (invalidate "" req.prefix "")
        (Message.replicate_delete_prefix ((put_cache p cache h).sheets.cells p).id req.prefix) _
        there (rw run refl) (invalidate_prefix-InSync es r sync req.prefix named)

  pub handle_delete_suffix-Follows :
      req.suffix ≢ ""
      → Enumerates (given.order p) (h.sheets.cells p).cache.nodes
      → Follows p c
          (Lru.sweep (λ e. has_suffix req.suffix e.key) es).0
          r
          h
          (handle_delete_suffix cfg out given conn p req h)
  unfolding handle_delete_suffix
  handle_delete_suffix-Follows named visit =
      let (cache, run, there, bound) =
        delete_suffix-Implements req.suffix (given.order p) (h.sheets.cells p).cache es visit
          holds in
      told_Follows conn c p h r other once client open' es sync cache
        (Lru.sweep (λ e. has_suffix req.suffix e.key) es).0
        (response (record success_response {
          deleted = (Lru.sweep (λ e. has_suffix req.suffix e.key) es).1;
        }))
        (invalidate "" "" req.suffix)
        (Message.replicate_delete_suffix ((put_cache p cache h).sheets.cells p).id req.suffix) _
        there (rw run refl) (invalidate_suffix-InSync es r sync req.suffix named)
