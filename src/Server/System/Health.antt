-- ===== src/Server/System/Health.antt =====
-- The actions of a client in a sheet, in ws/handler.go, do not panic, and keep its cache sound.
use mathlib.Core.Path.{subst}
use advo_cache.Base.{
  arith, ℕ, ◌≡◌, refl, sym, ◌∙◌, inl, inr, Bool, true, false, List, Option, some, ◌==◌, text_key,
  if◌then◌else◌, ◌>>=◌, Option-cases,
}
use advo_cache.Base.Dict.{Enumerates}
use advo_cache.Value.{text, null_placeholder}
use advo_cache.Time.{is_positive}
use advo_cache.Config.{Config, cache_ttl}
use advo_cache.Cache
use advo_cache.Cache.{Cache, Entry, Ptr, update, set_with_jitter, jitter_bound, set_null}
use advo_cache.Cache.Dump.{dump-Shows}
use advo_cache.Cache.Lru
use advo_cache.Cache.Methods.{get-Implements, set-Implements, delete-forget}
use advo_cache.Cache.Rep.{Holds}
use advo_cache.Cache.Sweep.{delete_prefix-Implements, delete_suffix-Implements}
use advo_cache.Message.{Request}
use advo_cache.Server.{
  Outside, Reads, Handler, put_cache, dispatch, handle_get, handle_set, handle_delete,
  handle_delete_prefix, handle_delete_suffix, handle_dump, handle_lock, handle_unlock,
  handle_set_null,
}
use advo_cache.Lock
use advo_cache.Server.{requested_ttl}
use advo_cache.Server.Isolation.{Result-cases}
use advo_cache.Server.Writes.{set-IsTtl, stored, announce_eviction-sheets}

-- The cache of the sheet at `p` is sound: it stands for some list of entries.
abbrev pub IsSound : ℕ → Handler → Type 0
IsSound p h = (es : List Entry) × Holds (h.sheets.cells p).cache es

-- A handler ends without a panic, in a state of which the predicate holds.
abbrev pub Ends : (Handler → Type 0) → Option Handler → Type 0
Ends P run = (h : Handler) × (run ≡ some h) × P h

module _ (conn p : ℕ) (h : Handler) where
  put_cache-IsSound :
      (c : Cache) (es : List Entry) (h' : Handler)
      → Holds c es
      → h'.sheets ≡ (put_cache p c h).sheets
      → IsSound p h'
  put_cache-IsSound c es h' holds same =
      (es, subst (λ m. Holds (m.cells p).cache es) (sym same) (rw (stored conn p h c) holds))

  pub cached_Ends :
      {A : Type 0} (run : Option (Cache × A)) (rest : Cache × A → Handler) (c : Cache) (a : A)
      (es : List Entry)
      → run ≡ some (c, a)
      → Holds c es
      → (rest (c, a)).sheets ≡ (put_cache p c h).sheets
      → Ends (IsSound p) (run >>= λ x. some (rest x))
  cached_Ends run rest c a es e holds same =
      (rest (c, a), rw e refl, put_cache-IsSound c es (rest (c, a)) holds same)

  deleted_Ends :
      (run : Option Cache) (rest : Cache → Handler) (c : Cache) (es : List Entry)
      → run ≡ some c
      → Holds c es
      → (rest c).sheets ≡ (put_cache p c h).sheets
      → Ends (IsSound p) (run >>= λ x. some (rest x))
  deleted_Ends run rest c es e holds same =
      (rest c, rw e refl, put_cache-IsSound c es (rest c) holds same)

pub either_Ends :
    (P : Handler → Type 0) (x y : Option Handler) (b : Bool)
    → Ends P x
    → Ends P y
    → Ends P (if b then x else y)
either_Ends P x y true s t = s
either_Ends P x y false s t = t

pub read_Ends :
    {A : Type 0} {P : Handler → Type 0} (run : Option A) (rest : A → Handler) (a : A)
    → run ≡ some a
    → P (rest a)
    → Ends P (run >>= λ x. some (rest x))
read_Ends run rest a e holds = (rest a, rw e refl, holds)

module _ (cfg : Config) (out : Outside) (r : Reads) (conn p : ℕ) (req : Request) (h : Handler)
    (sound : IsSound p h) (visit : Enumerates (r.order p) (h.sheets.cells p).cache.nodes)
    (jitter : is_positive (jitter_bound (cache_ttl cfg) cfg.jitter_percent) ≡ true) where
  get-Ends : Ends (IsSound p) (handle_get cfg out r conn p req h)
  unfolding handle_get
  get-Ends =
      let (c, run, holds, bound) =
        get-Implements (h.sheets.cells p).cache sound.0 req.key r.now sound.1 in
      cached_Ends conn p h (Cache.get req.key r.now (h.sheets.cells p).cache) _ c _ _ run holds
        (elim (Option-cases (Lru.get req.key r.now sound.0).1) [
          | inl missing ↦ rw missing refl
          | inr (v, hit) ↦ rw hit refl
        ])

  set-Ends : Ends (IsSound p) (handle_set cfg out r conn p req h)
  unfolding handle_set
  set-Ends =
      let (ttl, same) = set-IsTtl cfg out r conn p req h sound.0 (ground arith) in
      let (c, ran, holds, bound) =
        set-Implements (h.sheets.cells p).cache sound.0 req.key req.value ttl r.now sound.1 in
      cached_Ends conn p h _ _ c _ _ (same ∙ ran) holds (announce_eviction-sheets conn p h _ _)

  set_null-Ends : Ends (IsSound p) (handle_set_null cfg out r conn p req h)
  unfolding handle_set_null set_null
  set_null-Ends =
      let (c, run, holds, bound) =
        set-Implements (h.sheets.cells p).cache sound.0 req.key (text null_placeholder)
          (cache_ttl cfg) r.now sound.1 in
      cached_Ends conn p h _ _ c _ _ run holds (announce_eviction-sheets conn p h _ _)

  delete_prefix-Ends : Ends (IsSound p) (handle_delete_prefix cfg out r conn p req h)
  unfolding handle_delete_prefix
  delete_prefix-Ends =
      let (c, run, holds, bound) =
        delete_prefix-Implements req.prefix (r.order p) (h.sheets.cells p).cache sound.0 visit
          sound.1 in
      cached_Ends conn p h _ _ c _ _ run holds refl

  delete_suffix-Ends : Ends (IsSound p) (handle_delete_suffix cfg out r conn p req h)
  unfolding handle_delete_suffix
  delete_suffix-Ends =
      let (c, run, holds, bound) =
        delete_suffix-Implements req.suffix (r.order p) (h.sheets.cells p).cache sound.0 visit
          sound.1 in
      cached_Ends conn p h _ _ c _ _ run holds refl

  delete-Ends : Ends (IsSound p) (handle_delete cfg out conn p req h)
  unfolding handle_delete
  delete-Ends =
      let (c, run, holds, bound) = delete-forget (h.sheets.cells p).cache sound.0 req.key sound.1 in
      deleted_Ends conn p h _ _ c _ run holds refl

  dump-Ends : Ends (IsSound p) (handle_dump cfg out r conn p h)
  unfolding handle_dump
  dump-Ends =
      let (d, run, shows) = dump-Shows (r.order p) (h.sheets.cells p).cache sound.0 visit sound.1 in
      read_Ends _ _ d run sound

  -- The locks and the messages do not touch a cache.
  kept_Ends : (h' : Handler) → h'.sheets ≡ h.sheets → Ends (IsSound p) (some h')
  kept_Ends h' same =
      (h', refl, (sound.0, subst (λ m. Holds (m.cells p).cache sound.0) (sym same) sound.1))

  lock-Ends : Ends (IsSound p) (handle_lock cfg out r conn p req h)
  unfolding handle_lock
  lock-Ends =
      let id = (h.sheets.cells p).id in
      let asked =
        Lock.try_acquire id req.key (out.format_pointer conn) (requested_ttl cfg out req) r.now
          r.seen r.again h.locks in
      kept_Ends _ (elim (Result-cases asked.1) [
        | inl (l, f) ↦ rw f refl
        | inr (e, f) ↦ elim (Option-cases (Lock.is_locked id req.key r.later asked.0)) [
          | inl g ↦ rw (f, g) refl
          | inr (l, g) ↦ rw (f, g) refl
        ]
      ])

  unlock-Ends : Ends (IsSound p) (handle_unlock cfg out conn p req h)
  unfolding handle_unlock
  unlock-Ends =
      kept_Ends _
        (elim (Option-cases
          (Lock.release (h.sheets.cells p).id req.key (out.format_pointer conn) h.locks).1) [
            | inl f ↦ rw f refl
            | inr (e, f) ↦ rw f refl
          ])

  -- A client of a sheet with a sound cache never makes the server panic, and leaves the cache sound.
  pub dispatch-Ends : Ends (IsSound p) (dispatch cfg out r conn p req h)
  unfolding dispatch
  dispatch-Ends = either_Ends (IsSound p) _ _ (req.action == "get") get-Ends (
      either_Ends _ _ _ (req.action == "set") set-Ends (
        either_Ends _ _ _ (req.action == "delete") delete-Ends (
          either_Ends _ _ _ (req.action == "delete_prefix") delete_prefix-Ends (
            either_Ends _ _ _ (req.action == "delete_suffix") delete_suffix-Ends (
              either_Ends _ _ _ (req.action == "dump") dump-Ends (
                either_Ends _ _ _ (req.action == "lock") lock-Ends (
                  either_Ends _ _ _ (req.action == "unlock") unlock-Ends (
                    either_Ends _ _ _ (req.action == "set_null") set_null-Ends
                      (kept_Ends _ refl)))))))))
