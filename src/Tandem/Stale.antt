-- ===== src/Tandem/Stale.antt =====
-- What the other readers miss of handleSetNull in ws/handler.go.
use mathlib.Core.List.{append_assoc}
use advo_cache.Base.{
  ℕ, ◌≡◌, refl, ap, ◌∙◌, false, List, [], ◌∷◌, ◌++◌, some, String, arith, text_key, conn_key, ◌=?◌,
  eq_iff,
}
use advo_cache.Base.Dict.{has_key}
use advo_cache.Value.{Value, text, null_placeholder}
use advo_cache.Config.{Config, cache_ttl}
use advo_cache.Cache.{Entry, set_null}
use advo_cache.Cache.Lru
use advo_cache.Cache.Lru.{seek, value_of}
use advo_cache.Cache.Methods.{set-Implements}
use advo_cache.Message.{Request, Message, response, success_response, replicate}
use advo_cache.Sheet.{Conn}
use advo_cache.Server.{
  Outside, Reads, Handler, handle_set_null, announce_eviction, put_cache, write, replicate_set,
}
use advo_cache.Server.Writes.{Stores, to_all, followers, stored}
use advo_cache.Reader.{Reader, get, hear}
use advo_cache.Reader.Sync.{InSync, set-seek_self}
use advo_cache.Tandem.{inbox}
use advo_cache.Tandem.Inbox.{inbox-to_all_none, occurrences-keys}

-- A key that is there is replaced, and nothing is evicted.
replaced :
    (capacity : ℕ) (k : String) (v : Value) (ttl now : ℕ) (es : List Entry) (e : Entry)
    → seek k es ≡ some e
    → (Lru.set capacity k v ttl now es).1 ≡ ""
unfolding Lru.set
replaced capacity k v ttl now es e found = ground arith

nothing_announced : (conn p : ℕ) (h : Handler) → announce_eviction conn p "" h ≡ h
unfolding announce_eviction
nothing_announced conn p h = ground (arith, eq_iff "" "")

not_told :
    (conn c : Conn) (h : Handler) (p : ℕ) (answer m : Message)
    → (conn =? c) ≡ false
    → has_key c h.replicas ≡ false
    → inbox c (((conn, answer) ∷ []) ++ to_all (followers conn p h) m) ≡ []
unfolding inbox
not_told conn c h p answer m other client =
    rw other (inbox-to_all_none c (followers conn p h) m (occurrences-keys c h.replicas client))

hear_nothing : (r : Reader) → hear [] r ≡ r
unfolding hear
hear_nothing r = refl

module _ (cfg : Config) (out : Outside) (given : Reads) (conn c p : ℕ) (req : Request) (h : Handler)
    (r : Reader) (es : List Entry) (e : Entry) where
  abbrev promised : List Entry
  promised =
      (Lru.set (h.sheets.cells p).cache.capacity req.key (text null_placeholder) (cache_ttl cfg)
        given.now es).0

  -- A client stores the placeholder at a key that the sheet has. Another client, who is no replica, gets
  -- no message: its reader, if it was in sync, goes on to read the old value, while the sheet holds the
  -- placeholder.
  pub handle_set_null-unheard :
      Stores p es h
      → seek req.key es ≡ some e
      → (conn =? c) ≡ false
      → has_key c h.replicas ≡ false
      → InSync es r
      → (h' : Handler) × (sent : List (Conn × Message)) × (handle_set_null cfg out given conn p req
            h
          ≡ some h')
        × (h'.outbox ≡ h.outbox ++ sent)
        × Stores p promised h'
        × (value_of (seek req.key promised) ≡ some (text null_placeholder))
        × (get req.key (hear (inbox c sent) r) ≡ some e.value)
  unfolding handle_set_null set_null
  handle_set_null-unheard holds found other client sync =
      let cap = (h.sheets.cells p).cache.capacity in
      let v = text null_placeholder in
      let (cache, run, holds', bound) =
        set-Implements (h.sheets.cells p).cache es req.key v (cache_ttl cfg) given.now holds in
      let quiet = replaced cap req.key v (cache_ttl cfg) given.now es e found in
      let answer = response (record success_response { key = req.key }) in
      let m = replicate (h.sheets.cells p).id req.key v false in
      let sent = ((conn, answer) ∷ []) ++ to_all (followers conn p h) m in
      let h' =
        replicate_set (h.sheets.cells p).id req.key v false
          (write conn answer (put_cache p cache h)) in
      (
        h',
        sent,
        rw (run, quiet, nothing_announced, stored conn p h cache) refl,
        append_assoc h.outbox _ _,
        rw (stored conn p h cache) holds',
        set-seek_self cap req.key v (cache_ttl cfg) given.now es,
        ap (λ ms. get req.key (hear ms r)) (not_told conn c h p answer m other client)
            ∙ ap (get req.key) (hear_nothing r)
            ∙ sync req.key
            ∙ ap value_of found,
      )
