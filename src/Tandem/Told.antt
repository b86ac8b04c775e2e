-- ===== src/Tandem/Told.antt =====
-- A reader stays in sync while another client takes any action of the switch in ws/handler.go that the
-- readers are told of.
use Prim.Native.String.{◌++◌ as append}
use advo_cache.Base.{
  ℕ, ◌≡◌, ◌≢◌, refl, sym, ◌∙◌, Bool, true, false, not, List, Option, none, String, arith, ◌==◌,
  text_key, conn_key, if◌then◌else◌, ◌=?◌, eq_iff,
}
use advo_cache.Base.Dict.{has_key, Enumerates}
use advo_cache.Time.{Time, is_positive}
use advo_cache.Config.{Config, cache_ttl}
use advo_cache.Cache.{Entry, jitter_bound, has_prefix, has_suffix}
use advo_cache.Cache.Lru
use advo_cache.Cache.Lru.{seek, forget}
use advo_cache.Cache.Lru.Laws.{seek-forget}
use advo_cache.Message.{Request}
use advo_cache.Sheet.{Conn}
use advo_cache.Server.{Outside, Reads, Handler, dispatch, handle_set, handle_delete, send_error}
use advo_cache.Server.System.Members.{occurrences}
use advo_cache.Server.Writes.{Stores, set-IsTtl, promised}
use advo_cache.Reader.{Reader}
use advo_cache.Reader.Sync.{InSync, set-seek_absent, seek-keep}
use advo_cache.Tandem.Inbox.{IsOpen}
use advo_cache.Tandem.Writing.{Follows, handle_set_any-Follows}
use advo_cache.Tandem.Deleting.{
  handle_delete-Follows, handle_delete_prefix-Follows, handle_delete_suffix-Follows,
}
use advo_cache.Tandem.Reading.{
  is_current, seek-get, handle_get-Follows, handle_dump-Follows, handle_lock-Follows,
  handle_unlock-Follows, answered-Follows,
}

-- The actions that the other readers are told of, if they change what is read: not a Get that
-- removes an expired entry, no empty key, prefix or suffix, and no set_null.
abbrev pub is_told : Time → List Entry → Request → Bool
is_told now es req =
    if req.action == "get"
    then is_current now (seek req.key es)
    else if req.action == "set"
    then not (req.key == "")
    else if req.action == "delete"
    then not (req.key == "")
    else if req.action == "delete_prefix"
    then not (req.prefix == "")
    else if req.action == "delete_suffix"
    then not (req.suffix == "")
    else if req.action == "dump"
    then true
    else if req.action == "lock"
    then true
    else if req.action == "unlock"
    then true
    else if req.action == "set_null"
    then false
    else true

pub step_if :
    {A : Type 0} (P : A → Type 0) (x y : A) (b s t : Bool)
    → (s ≡ true → P x)
    → (t ≡ true → P y)
    → (if b then s else t) ≡ true
    → P (if b then x else y)
step_if P x y true s t f g h = f h
step_if P x y false s t f g h = g h

pub given_text : (x : String) → not (x == "") ≡ true → x ≢ ""
given_text x h = λ e. absurd (ground (arith, eq_iff x ""))

-- The handler ends, and the reader is in sync with a sheet that has no empty key.
abbrev pub Kept : ℕ → Conn → Reader → Handler → Option Handler → Type 0
Kept p c r h run = (es : List Entry) × (seek "" es ≡ none) × Follows p c es r h run

module _ (conn c p : ℕ) (h : Handler) (r : Reader) (other : (conn =? c) ≡ false)
    (once : occurrences c (h.sheets.cells p).collaborators ≡ 1)
    (client : has_key c h.replicas ≡ false) (open' : IsOpen r) (es : List Entry)
    (sync : InSync es r) (named : seek "" es ≡ none) (cfg : Config) (out : Outside) (given : Reads)
    (req : Request) (holds : Stores p es h)
    (visit : Enumerates (given.order p) (h.sheets.cells p).cache.nodes)
    (jitter : is_positive (jitter_bound (cache_ttl cfg) cfg.jitter_percent) ≡ true) where
  set-Kept : req.key ≢ "" → Kept p c r h (handle_set cfg out given conn p req h)
  set-Kept filled =
      let (ttl, same) = set-IsTtl cfg out given conn p req h es (ground arith) in
      (
        (promised cfg out given conn p req h es ttl).0,
        set-seek_absent (h.sheets.cells p).cache.capacity "" req.key req.value ttl given.now es
            named (λ e. filled (sym e)),
        handle_set_any-Follows conn c p h r other once client open' es sync cfg out given req holds
            ttl same named,
      )

  delete-Kept : req.key ≢ "" → Kept p c r h (handle_delete cfg out conn p req h)
  delete-Kept filled = (
    forget req.key es,
    ground (arith, seek-forget req.key "" es),
    handle_delete-Follows conn c p h r other once client open' es sync cfg out given req holds
        filled,
  )

  -- Another client of the sheet takes an action that the other readers are told of: the handler ends,
  -- and the reader is in sync.
  pub dispatch-Follows :
      is_told given.now es req ≡ true → Kept p c r h (dispatch cfg out given conn p req h)
  unfolding dispatch Lru.sweep
  dispatch-Follows =
      let Q = Kept p c r h in
      step_if Q _ _ (req.action == "get") _ _
        (λ current. (
          (Lru.get req.key given.now es).0,
          seek-get req.key "" given.now es current ∙ named,
          handle_get-Follows conn c p h r other client cfg out given req es holds sync current,
        ))
        (step_if Q _ _ (req.action == "set") _ _ (λ t. set-Kept (given_text req.key t))
          (step_if Q _ _ (req.action == "delete") _ _ (λ t. delete-Kept (given_text req.key t))
            (step_if Q _ _ (req.action == "delete_prefix") _ _
              (λ t. (
                (Lru.sweep (λ e. has_prefix req.prefix e.key) es).0,
                ground (arith, seek-keep (has_prefix req.prefix) "" es),
                handle_delete_prefix-Follows conn c p h r other once client open' es sync cfg out
                    given req holds (given_text req.prefix t) visit,
              ))
              (step_if Q _ _ (req.action == "delete_suffix") _ _
                (λ t. (
                  (Lru.sweep (λ e. has_suffix req.suffix e.key) es).0,
                  ground (arith, seek-keep (has_suffix req.suffix) "" es),
                  handle_delete_suffix-Follows conn c p h r other once client open' es sync cfg out
                      given req holds (given_text req.suffix t) visit,
                ))
                (step_if Q _ _ (req.action == "dump") _ _
                  (λ t. (
                    es,
                    named,
                    handle_dump-Follows conn c p h r other client cfg out given req es holds sync
                        visit,
                  ))
                  (step_if Q _ _ (req.action == "lock") _ _
                    (λ t. (
                      es,
                      named,
                      handle_lock-Follows conn c p h r other client cfg out given req es holds sync,
                    ))
                    (step_if Q _ _ (req.action == "unlock") _ _
                      (λ t. (
                        es,
                        named,
                        handle_unlock-Follows conn c p h r other client cfg out given req es holds
                            sync,
                      ))
                      (step_if Q _ _ (req.action == "set_null") _ _ (λ t. absurd (ground arith))
                        (λ t. (
                          es,
                          named,
                          answered-Follows conn c p h r other client cfg out given req es holds sync
                              _ _ (send_error conn (append "unknown action: " req.action) h) refl
                              refl refl,
                        ))))))))))
