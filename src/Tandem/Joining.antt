-- ===== src/Tandem/Joining.antt =====
-- A replica of replica/client.go that registers with its leader, and then stays beside it while the
-- clients of ws/handler.go go on.
use advo_cache.Base.{
  ℕ, ◌+◌, ◌≤◌, ◌≡◌, sym, ap, false, true, List, ◌++◌, none, some, String, arith, ◌==◌, text_key,
  conn_key, length,
}
use mathlib.Core.Path.{subst}
use advo_cache.Base.Dict.{lookup, Enumerates}
use advo_cache.Cache.Rep.{Holds}
use advo_cache.Time.{is_positive}
use advo_cache.Config.{Config, cache_ttl}
use advo_cache.Cache.{Entry, default_capacity, jitter_bound}
use advo_cache.Cache.Lru.{seek}
use advo_cache.Message.{Request, Message}
use advo_cache.Sheet.{Conn, get_sheet}
use advo_cache.Server.{Outside, Reads, Handler, handle_register_replica}
use advo_cache.Server.System.Members.{occurrences}
use advo_cache.Server.Writes.{Stores}
use advo_cache.Replica
use advo_cache.Replica.{Client, hear}
use advo_cache.Tandem.{inbox}
use advo_cache.Tandem.CatchUp.{AreReady, handle_register_replica-SameValues}
use advo_cache.Tandem.Copying.{Exchange, AreCopied, Standing, copy, copy-Standing}

module _ (cfg : Config) (out : Outside) (given : Reads) (rep : Conn) (req : Request) (h : Handler)
    (rcfg : Config) (reads : ℕ → Replica.Reads) (c : Client) (id : String) (p : ℕ)
    (es : List Entry) where
  -- The handler of the registration, and what the replica makes of the messages.
  abbrev pub Registers : Handler → Client → Type 0
  Registers h' c' =
      (sent : List (Conn × Message)) × (handle_register_replica cfg out given rep req h ≡ some h')
      × (h'.outbox ≡ h.outbox ++ sent)
      × (hear rcfg reads 0 (inbox rep sent) c ≡ some c')

  module _ (at : ℕ) (parsed : out.parse_time req.started_at ≡ some at)
      (named : (req.instance_id == "") ≡ false) (visit : Enumerates given.visit h.sheets.by_id)
      (ready : AreReady given h h.sheets.by_id) (online : c.has_conn ≡ true)
      (empty : (j : String) → get_sheet j c.sheets ≡ none)
      (there : lookup id h.sheets.by_id ≡ some p) (holds : Stores p es h)
      (filled : seek "" es ≡ none) (ident : (h.sheets.cells p).id ≡ id)
      (apart : occurrences rep (h.sheets.cells p).collaborators ≡ 0) where
    registration_Standing :
        (n : ℕ)
        → length (given.order p) + n ≤ default_capacity
        → (h' : Handler) × (c' : Client) × Registers h' c' × Standing cfg out rcfg p id rep n h' c'
    registration_Standing n room =
        let (h', sent, c', es', ran, wrote, same, once, heard, online', follows, alike, few) =
          handle_register_replica-SameValues cfg out given rep req h at rcfg reads 0 c id p es
            parsed named visit ready online empty there holds in
        let cell = sym (ap (λ m. m.cells p) same) in
        (
          h',
          c',
          (sent, ran, wrote, heard),
          (
            (
              es,
              es',
              subst (λ s. Holds s.cache es) cell holds,
              follows,
              alike,
              filled,
              omega (arith, few, room),
            ),
            subst (λ s. s.id ≡ id) cell ident,
            subst (λ s. occurrences rep s.collaborators ≡ 0) cell apart,
            once,
            online',
          ),
        )

    -- A connected replica without sheets registers, with a readable start time and an instance ID,
    -- and then clients of a sheet, other than its connection, make any calls, one after the other,
    -- that the replicas are told of if they change a value, with maps that are visited as they are:
    -- all but a set or a set_null of the empty key, and a get that finds an expired entry. If the
    -- bounds of the configured jitters are above zero in int64, every handler ends, and after it
    -- has heard what was written to its connection the replica has the same value at every key of
    -- the sheet. The sheet stands under its ID and has no empty key, the replica is no collaborator
    -- of it, each cache of the leader stands for a list of entries, at most 10000, and there is
    -- room for one more entry per call.
    pub handle_register_replica-Standing :
        (xs : List Exchange)
        → is_positive (jitter_bound (cache_ttl cfg) cfg.jitter_percent) ≡ true
        → is_positive (jitter_bound (cache_ttl rcfg) rcfg.jitter_percent) ≡ true
        → length (given.order p) + length xs ≤ default_capacity
        → ((h' : Handler) (c' : Client)
            → Registers h' c'
            → AreCopied cfg out rcfg p id rep xs h' c')
        → (h₁ h₂ : Handler) × (c₁ c₂ : Client) × Registers h₁ c₁
          × (copy cfg out rcfg p id rep xs h₁ c₁ ≡ some (h₂, c₂))
          × Standing cfg out rcfg p id rep 0 h₂ c₂
    handle_register_replica-Standing xs bounded bounded' room given' =
        let (h₁, c₁, registers, standing) = registration_Standing (length xs) room in
        let (h₂, c₂, ran, standing') =
          copy-Standing cfg out rcfg p id rep bounded bounded' xs h₁ c₁ standing
            (given' h₁ c₁ registers) in
        (h₁, h₂, c₁, c₂, registers, ran, standing')
