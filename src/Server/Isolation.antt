-- ===== src/Server/Isolation.antt =====
-- What the actions of a client of one sheet in ws/handler.go leave alone.
use advo_cache.Base.{
  ℕ, ◌≡◌, refl, Bool, true, false, ◌⊎◌, inl, inr, [], Option, none, some, String, arith, ◌==◌,
  text_key, ◌=?◌, if◌then◌else◌, ◌>>=◌, Bool-cases, Option-cases,
}
use advo_cache.Config.{Config}
use advo_cache.Cache
use advo_cache.Cache.{Cache, update}
use advo_cache.Lock
use advo_cache.Message.{Request}
use advo_cache.Server.{
  Outside, Reads, Handler, put_cache, dispatch, handle_get, handle_set, handle_delete,
  handle_delete_prefix, handle_delete_suffix, handle_dump, handle_lock, handle_unlock,
  handle_set_null, announce_eviction, requested_ttl,
}

-- The same connections and sheets, but for the cache of the sheet at `p`.
abbrev pub SameBut : ℕ → Handler → Handler → Type 0
SameBut p h h' =
    ((q : ℕ) → (if q =? p then h.sheets.cells q else h'.sheets.cells q) ≡ h.sheets.cells q)
    × ((h'.sheets.cells p).id ≡ (h.sheets.cells p).id)
    × ((h'.sheets.cells p).password_hash ≡ (h.sheets.cells p).password_hash)
    × ((h'.sheets.cells p).collaborators ≡ (h.sheets.cells p).collaborators)
    × (h'.sheets.by_id ≡ h.sheets.by_id)
    × (h'.sheets.fresh ≡ h.sheets.fresh)
    × (h'.joined ≡ h.joined)
    × (h'.clients ≡ h.clients)
    × (h'.replicas ≡ h.replicas)
    × (h'.closed ≡ h.closed)

-- Of a result, if the handler does not panic.
abbrev pub Safely : (Handler → Type 0) → Option Handler → Type 0
Safely P none = Unit
Safely P (some h) = P h

pub Safely-map :
    (P Q : Handler → Type 0) (run : Option Handler)
    → ((h : Handler) → P h → Q h)
    → Safely P run
    → Safely Q run
Safely-map P Q none f p = tt
Safely-map P Q (some h) f p = f h p

pub either :
    (P : Handler → Type 0) (x y : Option Handler) (b : Bool)
    → Safely P x
    → Safely P y
    → Safely P (if b then x else y)
either P x y true s t = s
either P x y false s t = t

pub Result-cases :
    (x : Lock.Result Lock.Lock)
    → ((l : Lock.Lock) × (x ≡ Lock.ok l)) ⊎ ((e : Lock.LockError) × (x ≡ Lock.err e))
Result-cases (Lock.ok l) = inl (l, refl)
Result-cases (Lock.err e) = inr (e, refl)

module _ (conn : ℕ) (p : ℕ) (h : Handler) where
  pub put_cache-SameBut : (c : Cache) → SameBut p h (put_cache p c h)
  put_cache-SameBut c = (
    λ q. ground arith,
    ground arith,
    ground arith,
    ground arith,
    refl,
    refl,
    refl,
    refl,
    refl,
    refl,
  )

  announce_eviction-SameBut :
      (key : String) (h' : Handler) → SameBut p h h' → SameBut p h (announce_eviction conn p key h')
  unfolding announce_eviction
  announce_eviction-SameBut key h' same = elim (Bool-cases (key == "")) [
    | inl e ↦ rw e same
    | inr e ↦ rw e same
  ]

  -- A change to the cache, and then whatever keeps the rest.
  pub cached :
      {A : Type 0} (run : Option (Cache × A)) (rest : Cache × A → Handler)
      → ((c : Cache) (a : A) → SameBut p h (rest (c, a)))
      → Safely (SameBut p h) (run >>= λ x. some (rest x))
  cached none rest same = tt
  cached (some (c, a)) rest same = same c a

  cached_delete :
      (run : Option Cache) (rest : Cache → Handler)
      → ((c : Cache) → SameBut p h (rest c))
      → Safely (SameBut p h) (run >>= λ x. some (rest x))
  cached_delete none rest same = tt
  cached_delete (some c) rest same = same c

module _ (cfg : Config) (out : Outside) (r : Reads) (conn : ℕ) (p : ℕ) (req : Request)
    (h : Handler) where
  get-SameBut : Safely (SameBut p h) (handle_get cfg out r conn p req h)
  unfolding handle_get
  get-SameBut = cached conn p h (Cache.get req.key r.now (h.sheets.cells p).cache) _ (λ c found.
      elim (Option-cases found) [
        | inl f ↦ rw f (put_cache-SameBut conn p h c)
        | inr (v, f) ↦ rw f (put_cache-SameBut conn p h c)
      ])

  pub set-SameBut : Safely (SameBut p h) (handle_set cfg out r conn p req h)
  unfolding handle_set
  set-SameBut =
      cached conn p h _ _
        (λ c key. announce_eviction-SameBut conn p h key _ (put_cache-SameBut conn p h c))

  set_null-SameBut : Safely (SameBut p h) (handle_set_null cfg out r conn p req h)
  unfolding handle_set_null
  set_null-SameBut =
      cached conn p h _ _
        (λ c key. announce_eviction-SameBut conn p h key _ (put_cache-SameBut conn p h c))

  delete-SameBut : Safely (SameBut p h) (handle_delete cfg out conn p req h)
  unfolding handle_delete
  delete-SameBut = cached_delete conn p h _ _ (put_cache-SameBut conn p h)

  delete_prefix-SameBut : Safely (SameBut p h) (handle_delete_prefix cfg out r conn p req h)
  unfolding handle_delete_prefix
  delete_prefix-SameBut = cached conn p h _ _ (λ c n. put_cache-SameBut conn p h c)

  delete_suffix-SameBut : Safely (SameBut p h) (handle_delete_suffix cfg out r conn p req h)
  unfolding handle_delete_suffix
  delete_suffix-SameBut = cached conn p h _ _ (λ c n. put_cache-SameBut conn p h c)

  untouched : SameBut p h h
  untouched = (λ q. ground arith, refl, refl, refl, refl, refl, refl, refl, refl, refl)

  dump-SameBut : Safely (SameBut p h) (handle_dump cfg out r conn p h)
  unfolding handle_dump
  dump-SameBut = elim (Option-cases (Cache.dump (r.order p) (h.sheets.cells p).cache [])) [
    | inl f ↦ rw f tt
    | inr (d, f) ↦ rw f untouched
  ]

  lock-SameBut : Safely (SameBut p h) (handle_lock cfg out r conn p req h)
  unfolding handle_lock
  lock-SameBut =
      let id = (h.sheets.cells p).id in
      let asked =
        Lock.try_acquire id req.key (out.format_pointer conn) (requested_ttl cfg out req) r.now
          r.seen r.again h.locks in
      elim (Result-cases asked.1) [
        | inl (l, f) ↦ rw f untouched
        | inr (e, f) ↦ elim (Option-cases (Lock.is_locked id req.key r.later asked.0)) [
          | inl g ↦ rw (f, g) untouched
          | inr (l, g) ↦ rw (f, g) untouched
        ]
      ]

  unlock-SameBut : Safely (SameBut p h) (handle_unlock cfg out conn p req h)
  unfolding handle_unlock
  unlock-SameBut =
      elim (Option-cases
        (Lock.release (h.sheets.cells p).id req.key (out.format_pointer conn) h.locks).1) [
          | inl f ↦ rw f untouched
          | inr (e, f) ↦ rw f untouched
        ]

  -- Whatever a client of one sheet asks for, unless the handler panics: every other sheet is as it
  -- was, its cache included, no sheet gets another name, password or collaborator, no sheet or
  -- connection comes or goes, and none is closed.
  pub dispatch-SameBut : Safely (SameBut p h) (dispatch cfg out r conn p req h)
  unfolding dispatch
  dispatch-SameBut = either (SameBut p h) _ _ (req.action == "get") get-SameBut (
      either _ _ _ (req.action == "set") set-SameBut (
        either _ _ _ (req.action == "delete") delete-SameBut (
          either _ _ _ (req.action == "delete_prefix") delete_prefix-SameBut (
            either _ _ _ (req.action == "delete_suffix") delete_suffix-SameBut (
              either _ _ _ (req.action == "dump") dump-SameBut (
                either _ _ _ (req.action == "lock") lock-SameBut (
                  either _ _ _ (req.action == "unlock") unlock-SameBut
                    (either _ _ _ (req.action == "set_null") set_null-SameBut untouched))))))))
