-- ===== src/Tandem/Writing.antt =====
-- A reader stays in sync with its server while another client writes.
use mathlib.Core.Path.{subst}
use advo_cache.Base.{
  ℕ, ◌≡◌, refl, sym, ap, ◌∙◌, inl, inr, false, List, [], ◌∷◌, ◌++◌, Option, none, some, String,
  arith, ◌==◌, text_key, conn_key, if◌then◌else◌, ◌=?◌, Bool-cases,
}
use mathlib.Core.List.{append_assoc}
use advo_cache.Base.Dict.{has_key}
use advo_cache.Cache.Rep.{Holds}
use advo_cache.Value.{Value}
use advo_cache.Time.{Duration}
use advo_cache.Config.{Config}
use advo_cache.Cache.{Cache, Entry}
use advo_cache.Cache.Lru.{seek}
use advo_cache.Message.{
  Request, Message, response, success_response, broadcast_set, replicate, replicate_evict,
  invalidate,
}
use advo_cache.Sheet.{Conn, audience}
use advo_cache.Server.{
  Outside, Reads, Handler, handle_set, put_cache, broadcast, broadcast_to_replicas, write,
}
use advo_cache.Server.System.Members.{occurrences, occurrences-keep}
use advo_cache.Server.Writes.{
  Stores, to_all, others, followers, eviction_notices, handle_set_any, IsTtl, promised, stored,
  audience-stored,
}
use advo_cache.Reader.{Reader, handle_message, hear}
use advo_cache.Reader.Sync.{InSync, hear_set, hear_set-InSync}
use advo_cache.Tandem.{inbox}
use advo_cache.Tandem.Inbox.{
  inbox-append, inbox-to_all_none, inbox-to_all_once, occurrences-keys, IsOpen, hear_next,
}

-- The handler ends, its sheet then holds the entries, and the reader of the connection is in sync
-- with them once it has heard what was written to it.
abbrev pub Follows : ℕ → Conn → List Entry → Reader → Handler → Option Handler → Type 0
Follows p c es r h run =
    (h' : Handler) × (sent : List (Conn × Message)) × (run ≡ some h')
    × (h'.outbox ≡ h.outbox ++ sent)
    × Stores p es h'
    × InSync es (hear (inbox c sent) r)

pub regroup_four :
    (o a b c d : List (Conn × Message)) → (((o ++ a) ++ b) ++ c) ++ d ≡ o ++ (((a ++ b) ++ c) ++ d)
regroup_four o a b c d =
    ap (λ x. (x ++ c) ++ d) (append_assoc o a b)
    ∙ ap (λ x. x ++ d) (append_assoc o (a ++ b) c)
    ∙ append_assoc o ((a ++ b) ++ c) d

pub regroup_three : (o a b c : List (Conn × Message)) → ((o ++ a) ++ b) ++ c ≡ o ++ ((a ++ b) ++ c)
regroup_three o a b c = ap (λ x. x ++ c) (append_assoc o a b) ∙ append_assoc o (a ++ b) c

module _ (conn c p : ℕ) (h : Handler) (r : Reader) (other : (conn =? c) ≡ false)
    (once : occurrences c (h.sheets.cells p).collaborators ≡ 1)
    (client : has_key c h.replicas ≡ false) where
  -- What a handler writes: the answer, and one message to the collaborators and to the replicas.
  abbrev pub round : Message → Message → Message → List (Conn × Message)
  round answer m m' =
      (((conn, answer) ∷ []) ++ to_all (others conn p h) m) ++ to_all (followers conn p h) m'

  abbrev announced : Cache → Message → Message → Message → Handler
  announced cache answer m m' =
      broadcast_to_replicas m' (broadcast conn p m (write conn answer (put_cache p cache h)))

  heard_by_others : (m : Message) → inbox c (to_all (others conn p h) m) ≡ m ∷ []
  unfolding audience
  heard_by_others m =
      inbox-to_all_once c (others conn p h) m
        (occurrences-keep c conn (h.sheets.cells p).collaborators other ∙ once)

  heard_by_followers : (m : Message) → inbox c (to_all (followers conn p h) m) ≡ []
  heard_by_followers m =
      inbox-to_all_none c (followers conn p h) m (occurrences-keys c h.replicas client)

  -- What is told to the collaborators is for the reader; the answer is not, nor what the replicas get.
  pub told : (answer m m' : Message) → inbox c (round answer m m') ≡ m ∷ []
  unfolding inbox
  told answer m m' =
      inbox-append c (((conn, answer) ∷ []) ++ to_all (others conn p h) m)
        (to_all (followers conn p h) m')
      ∙ rw
          (
            inbox-append c ((conn, answer) ∷ []) (to_all (others conn p h) m),
            heard_by_others m,
            heard_by_followers m',
            other,
          )
          refl

  pub heard_of_eviction :
      (key : String)
      → inbox c (eviction_notices conn p h key)
        ≡ (if key == "" then [] else invalidate key "" "" ∷ [])
  unfolding inbox
  heard_of_eviction key = elim (Bool-cases (key == "")) [
    | inl quiet ↦ rw quiet refl
    | inr loud ↦
        rw
          (
            loud,
            inbox-append c (to_all (others conn p h) (invalidate key "" ""))
                (to_all (followers conn p h) (replicate_evict (h.sheets.cells p).id key)),
            heard_by_others (invalidate key "" ""),
            heard_by_followers (replicate_evict (h.sheets.cells p).id key),
          )
          refl
  ]

  module _ (open' : IsOpen r) (es : List Entry) (sync : InSync es r) where
    -- An open reader hears a Set, and of the eviction.
    hear_set_lem :
        (key : String) (v : Value) (evicted : String)
        → hear
            (broadcast_set key v ∷ (if evicted == "" then [] else invalidate evicted "" "" ∷ []))
            r
          ≡ hear_set es r sync key v evicted
    unfolding hear handle_message
    hear_set_lem key v evicted = ground arith

    hear_one : (m : Message) → hear (m ∷ []) r ≡ handle_message m r
    unfolding hear
    hear_one m = hear_next m [] r open'

    -- A change to the cache that is told to the collaborators and the replicas.
    pub told_Follows :
        (cache : Cache) (es' : List Entry) (answer m m' : Message) (run : Option Handler)
        → Holds cache es'
        → run ≡ some (announced cache answer m m')
        → InSync es' (handle_message m r)
        → Follows p c es' r h run
    told_Follows cache es' answer m m' run holds ran synced = (
      announced cache answer m m',
      round answer m m',
      ran,
      rw (audience-stored conn p h cache) (regroup_three h.outbox _ _ _),
      rw (stored conn p h cache) holds,
      subst (InSync es') (sym (ap (λ ms. hear ms r) (told answer m m') ∙ hear_one m)) synced,
    )

    module _ (cfg : Config) (out : Outside) (given : Reads) (req : Request)
        (holds : Stores p es h) where
      -- A set, whatever its time to live: the reader hears the value, and of the eviction.
      pub handle_set_any-Follows :
          (ttl : Duration)
          → IsTtl cfg out given conn p req h es ttl
          → seek "" es ≡ none
          → Follows p c
              (promised cfg out given conn p req h es ttl).0
              r
              h
              (handle_set cfg out given conn p req h)
      handle_set_any-Follows ttl same named =
          let cap = (h.sheets.cells p).cache.capacity in
          let evicted = (promised cfg out given conn p req h es ttl).1 in
          let (h', run, there, wrote) =
            handle_set_any cfg out given conn p req h es ttl same holds in
          let answer = response (record success_response { key = req.key }) in
          let m = broadcast_set req.key req.value in
          let m' = replicate (h.sheets.cells p).id req.key req.value req.jitter in
          let heard : inbox c (round answer m m' ++ eviction_notices conn p h evicted)
              ≡ m ∷ (if evicted == "" then [] else invalidate evicted "" "" ∷ []) =
            rw
              (
                inbox-append c (round answer m m') (eviction_notices conn p h evicted),
                told answer m m',
                heard_of_eviction evicted,
              )
              refl in
          (
            h',
            round answer m m' ++ eviction_notices conn p h evicted,
            run,
            wrote ∙ regroup_four h.outbox _ _ _ _,
            there,
            subst (InSync (promised cfg out given conn p req h es ttl).0)
                (sym (ap (λ ms. hear ms r) heard ∙ hear_set_lem req.key req.value evicted))
                (hear_set-InSync es r sync cap req.key req.value ttl given.now named),
          )
