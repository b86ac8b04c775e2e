-- ===== src/Tandem/Erasing.antt =====
-- A replica of replica/client.go keeps the values of a sheet while a client of the leader deletes keys
-- in ws/handler.go.
use advo_cache.Base.{
  ℕ, ◌+◌, ◌≤◌, ◌≡◌, refl, true, false, not, List, none, arith, text_key, conn_key, ◌=?◌, length,
  length-keep-le,
}
use advo_cache.Base.Dict.{Enumerates}
use advo_cache.Config.{Config}
use advo_cache.Cache.{Entry, default_capacity, has_prefix, has_suffix}
use advo_cache.Cache.Lru
use advo_cache.Cache.Lru.{seek, forget}
use advo_cache.Cache.Lru.Laws.{seek-forget, length-forget-le}
use advo_cache.Cache.Methods.{delete-forget}
use advo_cache.Cache.Sweep.{delete_prefix-Implements, delete_suffix-Implements}
use advo_cache.Message.{Request, Message, response, success_response, invalidate}
use advo_cache.Server.{
  Outside, Handler, handle_set, handle_set_null, handle_delete, handle_delete_prefix,
  handle_delete_suffix, put_cache, broadcast, broadcast_to_replicas, write, announce_eviction,
}
use advo_cache.Server
use advo_cache.Server.System.Members.{occurrences}
use advo_cache.Server.Writes.{Stores, others, followers, stored, audience-stored}
use advo_cache.Reader.Sync.{seek-keep}
use advo_cache.Replica
use advo_cache.Replica.{Client, hear, handle_message}
use advo_cache.Replica.Follow.{Follows}
use advo_cache.Replica.Apply.{delete-Applied, delete_prefix-Applied, delete_suffix-Applied}
use advo_cache.Tandem.Alike.{forget-SameValues, keep-SameValues}
use advo_cache.Tandem.CatchUp.{SameValues}
use advo_cache.Tandem.Followers.{round, told}
use advo_cache.Tandem.Standby.{Backed, one_Backed}
use advo_cache.Tandem.Writing.{regroup_three}

module _ (rcfg : Config) (reads : ℕ → Replica.Reads) (n conn rep p : ℕ) (h : Handler) (c : Client)
    (other : (conn =? rep) ≡ false) (apart : occurrences rep (others conn p h) ≡ 0)
    (once : occurrences rep (followers conn p h) ≡ 1) (online : c.has_conn ≡ true)
    (es es' : List Entry) (holds : Stores p es h) (follows : Follows (h.sheets.cells p).id es' c)
    (same : SameValues es es') (named : seek "" es ≡ none)
    (room : length es' + (n + 1) ≤ default_capacity) (cfg : Config) (out : Outside)
    (given : Server.Reads) (req : Request) where
  pub handle_delete-Backed :
      Backed rcfg reads rep n p (h.sheets.cells p).id h c (handle_delete cfg out conn p req h)
  unfolding handle_delete
  handle_delete-Backed =
      let (cache, run, there, bound) = delete-forget (h.sheets.cells p).cache es req.key holds in
      let answer = response (record success_response { key = req.key; deleted = 1 }) in
      let m = invalidate req.key "" "" in
      let m' = Message.replicate_delete (h.sheets.cells p).id req.key in
      one_Backed rcfg reads n conn rep p h c other apart once online
        (handle_delete cfg out conn p req h)
        (broadcast_to_replicas m' (broadcast conn p m (write conn answer (put_cache p cache h))))
        (round conn p h answer m m') m' (forget req.key es) (forget req.key es')
        (rw (run, stored conn p h cache) refl)
        (rw (audience-stored conn p h cache) (regroup_three h.outbox _ _ _))
        (told conn rep p h other apart once answer m m') (rw (stored conn p h cache) there)
        (delete-Applied rcfg (reads 0) (h.sheets.cells p).id c es' follows req.key).0
        (forget-SameValues es es' same req.key) (ground (arith, seek-forget req.key "" es))
        (omega (arith, length-forget-le req.key es'))

  module _ (visit : Enumerates (given.order p) (h.sheets.cells p).cache.nodes)
      (visit' : Enumerates ((reads 0).order follows.0) (c.sheets.cells follows.0).cache.nodes) where
    pub handle_delete_prefix-Backed :
        Backed rcfg reads rep n p
          (h.sheets.cells p).id
          h
          c
          (handle_delete_prefix cfg out given conn p req h)
    unfolding handle_delete_prefix Lru.sweep
    handle_delete_prefix-Backed =
        let (cache, run, there, bound) =
          delete_prefix-Implements req.prefix (given.order p) (h.sheets.cells p).cache es visit
            holds in
        let hit = Lru.sweep (λ e. has_prefix req.prefix e.key) es in
        let answer = response (record success_response { deleted = hit.1 }) in
        let m = invalidate "" req.prefix "" in
        let m' = Message.replicate_delete_prefix (h.sheets.cells p).id req.prefix in
        one_Backed rcfg reads n conn rep p h c other apart once online
          (handle_delete_prefix cfg out given conn p req h)
          (broadcast_to_replicas m' (broadcast conn p m (write conn answer (put_cache p cache h))))
          (round conn p h answer m m') m' hit.0 (Lru.sweep (λ e. has_prefix req.prefix e.key) es').0
          (rw (run, stored conn p h cache) refl)
          (rw (audience-stored conn p h cache) (regroup_three h.outbox _ _ _))
          (told conn rep p h other apart once answer m m') (rw (stored conn p h cache) there)
          (delete_prefix-Applied rcfg (reads 0) (h.sheets.cells p).id c es' follows req.prefix
            visit')
          (keep-SameValues es es' same (has_prefix req.prefix))
          (ground (arith, seek-keep (has_prefix req.prefix) "" es))
          (omega (arith, length-keep-le (λ e. not (has_prefix req.prefix e.key)) es'))

    pub handle_delete_suffix-Backed :
        Backed rcfg reads rep n p
          (h.sheets.cells p).id
          h
          c
          (handle_delete_suffix cfg out given conn p req h)
    unfolding handle_delete_suffix Lru.sweep
    handle_delete_suffix-Backed =
        let (cache, run, there, bound) =
          delete_suffix-Implements req.suffix (given.order p) (h.sheets.cells p).cache es visit
            holds in
        let hit = Lru.sweep (λ e. has_suffix req.suffix e.key) es in
        let answer = response (record success_response { deleted = hit.1 }) in
        let m = invalidate "" "" req.suffix in
        let m' = Message.replicate_delete_suffix (h.sheets.cells p).id req.suffix in
        one_Backed rcfg reads n conn rep p h c other apart once online
          (handle_delete_suffix cfg out given conn p req h)
          (broadcast_to_replicas m' (broadcast conn p m (write conn answer (put_cache p cache h))))
          (round conn p h answer m m') m' hit.0 (Lru.sweep (λ e. has_suffix req.suffix e.key) es').0
          (rw (run, stored conn p h cache) refl)
          (rw (audience-stored conn p h cache) (regroup_three h.outbox _ _ _))
          (told conn rep p h other apart once answer m m') (rw (stored conn p h cache) there)
          (delete_suffix-Applied rcfg (reads 0) (h.sheets.cells p).id c es' follows req.suffix
            visit')
          (keep-SameValues es es' same (has_suffix req.suffix))
          (ground (arith, seek-keep (has_suffix req.suffix) "" es))
          (omega (arith, length-keep-le (λ e. not (has_suffix req.suffix e.key)) es'))
