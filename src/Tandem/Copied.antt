-- ===== src/Tandem/Copied.antt =====
-- A replica of replica/client.go keeps the values of a sheet while the clients of its leader take any
-- actions of the switch in ws/handler.go.
use Prim.Native.String.{◌++◌ as append}
use advo_cache.Base.{
  ℕ, ◌+◌, ◌≤◌, ◌≡◌, refl, Bool, true, false, not, List, none, ◌==◌, text_key, conn_key,
  if◌then◌else◌, ◌=?◌, length,
}
use advo_cache.Base.Dict.{Enumerates}
use advo_cache.Time.{Time, is_positive}
use advo_cache.Config.{Config, cache_ttl}
use advo_cache.Cache.{Entry, default_capacity, jitter_bound}
use advo_cache.Cache.Lru.{seek}
use advo_cache.Message.{Request}
use advo_cache.Server.{Outside, Handler, dispatch, send_error}
use advo_cache.Server
use advo_cache.Server.System.Members.{occurrences}
use advo_cache.Server.Writes.{Stores, others, followers}
use advo_cache.Replica
use advo_cache.Replica.{Client, hear}
use advo_cache.Replica.Follow.{Follows}
use advo_cache.Tandem.Backup.{
  get-Backed, dump-Backed, lock-Backed, unlock-Backed, set_null-Backed, answered_Backed,
}
use advo_cache.Tandem.CatchUp.{SameValues}
use advo_cache.Tandem.Reading.{is_current}
use advo_cache.Tandem.Standby.{Backed, handle_set-Backed}
use advo_cache.Tandem.Erasing.{
  handle_delete-Backed, handle_delete_prefix-Backed, handle_delete_suffix-Backed,
}
use advo_cache.Tandem.Told.{step_if, given_text}

-- The actions that the replicas are told of, if they change a value: not a Get that removes an
-- expired entry, and no empty key.
abbrev pub is_copied : Time → List Entry → Request → Bool
is_copied now es req =
    if req.action == "get"
    then is_current now (seek req.key es)
    else if req.action == "set"
    then not (req.key == "")
    else if req.action == "delete"
    then true
    else if req.action == "delete_prefix"
    then true
    else if req.action == "delete_suffix"
    then true
    else if req.action == "dump"
    then true
    else if req.action == "lock"
    then true
    else if req.action == "unlock"
    then true
    else if req.action == "set_null"
    then not (req.key == "")
    else true

module _ (rcfg : Config) (reads : ℕ → Replica.Reads) (n conn rep p : ℕ) (h : Handler) (c : Client)
    (other : (conn =? rep) ≡ false) (apart : occurrences rep (others conn p h) ≡ 0)
    (once : occurrences rep (followers conn p h) ≡ 1) (online : c.has_conn ≡ true)
    (es es' : List Entry) (holds : Stores p es h) (follows : Follows (h.sheets.cells p).id es' c)
    (same : SameValues es es') (named : seek "" es ≡ none)
    (room : length es' + (n + 1) ≤ default_capacity) (cfg : Config) (out : Outside)
    (given : Server.Reads) (req : Request)
    (bounded : is_positive (jitter_bound (cache_ttl cfg) cfg.jitter_percent) ≡ true)
    (bounded' : is_positive (jitter_bound (cache_ttl rcfg) rcfg.jitter_percent) ≡ true)
    (visit : Enumerates (given.order p) (h.sheets.cells p).cache.nodes)
    (visit' : Enumerates ((reads 0).order follows.0) (c.sheets.cells follows.0).cache.nodes) where
  pub dispatch-Backed :
      is_copied given.now es req ≡ true
      → Backed rcfg reads rep n p (h.sheets.cells p).id h c (dispatch cfg out given conn p req h)
  unfolding dispatch
  dispatch-Backed =
      let Q = Backed rcfg reads rep n p (h.sheets.cells p).id h c in
      step_if Q _ _ (req.action == "get") _ _
        (get-Backed rcfg reads n conn rep p h c other apart once online es es' holds follows same
          named room cfg out given req)
        (step_if Q _ _ (req.action == "set") _ _
          (λ t.
            handle_set-Backed rcfg reads n conn rep p h c other apart once online es es' holds
              follows same named room cfg out given req bounded bounded' (given_text req.key t))
          (step_if Q _ _ (req.action == "delete") _ _
            (λ t.
              handle_delete-Backed rcfg reads n conn rep p h c other apart once online es es' holds
                follows same named room cfg out given req)
            (step_if Q _ _ (req.action == "delete_prefix") _ _
              (λ t.
                handle_delete_prefix-Backed rcfg reads n conn rep p h c other apart once online es
                  es' holds follows same named room cfg out given req visit visit')
              (step_if Q _ _ (req.action == "delete_suffix") _ _
                (λ t.
                  handle_delete_suffix-Backed rcfg reads n conn rep p h c other apart once online es
                    es' holds follows same named room cfg out given req visit visit')
                (step_if Q _ _ (req.action == "dump") _ _
                  (λ t.
                    dump-Backed rcfg reads n conn rep p h c other apart once online es es' holds
                      follows same named room cfg out given req visit)
                  (step_if Q _ _ (req.action == "lock") _ _
                    (λ t.
                      lock-Backed rcfg reads n conn rep p h c other apart once online es es' holds
                        follows same named room cfg out given req)
                    (step_if Q _ _ (req.action == "unlock") _ _
                      (λ t.
                        unlock-Backed rcfg reads n conn rep p h c other apart once online es es'
                          holds follows same named room cfg out given req)
                      (step_if Q _ _ (req.action == "set_null") _ _
                        (λ t.
                          set_null-Backed rcfg reads n conn rep p h c other apart once online es es'
                            holds follows same named room cfg out given req bounded'
                            (given_text req.key t))
                        (λ t.
                          answered_Backed rcfg reads n conn rep p h c other apart once online es es'
                            holds follows same named room _
                            (send_error conn (append "unknown action: " req.action) h) _ refl refl
                            refl)))))))))
