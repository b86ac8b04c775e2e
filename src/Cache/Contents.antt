-- ===== src/Cache/Contents.antt =====
-- The keys and values of a cache of cache.go, in the order of their use: what does not depend on the
-- clock.
use advo_cache.Base.{
  ℕ, ◌≡◌, refl, ap, ◌∙◌, sym, inl, inr, ◌&&◌, List, [], ◌∷◌, Option, none, some, String, arith, ltb,
  leb, text_key, if◌then◌else◌, keep, length, Option-cases,
}
use advo_cache.Base.Dict.{Dict, lookup, remove}
use advo_cache.Value.{Value}
use advo_cache.Time.{Time, Duration}
use advo_cache.Cache.{Entry}
use advo_cache.Cache.Lru
use advo_cache.Cache.Lru.{seek, forget, oldest, value_of}

abbrev pub contents : List Entry → Dict String Value
contents [] = []
contents (e ∷ es) = (e.key, e.value) ∷ contents es

contents-forget : (k : String) (es : List Entry) → contents (forget k es) ≡ remove k (contents es)
unfolding forget keep remove
contents-forget k [] = refl
contents-forget k (e ∷ es) = ground (arith, contents-forget k es)

pub contents-forget_same :
    (k : String) (es es' : List Entry)
    → contents es ≡ contents es'
    → contents (forget k es) ≡ contents (forget k es')
contents-forget_same k es es' same =
    contents-forget k es ∙ ap (remove k) same ∙ sym (contents-forget k es')

length-contents : (es : List Entry) → length (contents es) ≡ length es
length-contents [] = refl
length-contents (e ∷ es) = ground (arith, length-contents es)

lookup-contents : (k : String) (es : List Entry) → lookup k (contents es) ≡ value_of (seek k es)
unfolding lookup seek
lookup-contents k [] = refl
lookup-contents k (e ∷ es) = ground (arith, lookup-contents k es)

abbrev key_of : Option Entry → Option String
key_of none = none
key_of (some e) = some e.key

abbrev last_key : Dict String Value → Option String
last_key [] = none
last_key ((k, v) ∷ []) = some k
last_key ((k, v) ∷ x ∷ d) = last_key (x ∷ d)

last_key-contents : (es : List Entry) → last_key (contents es) ≡ key_of (oldest es)
unfolding oldest
last_key-contents [] = refl
last_key-contents (e ∷ []) = refl
last_key-contents (e ∷ d ∷ es) = last_key-contents (d ∷ es)

-- Set, on keys and values.
abbrev room : ℕ → Dict String Value → Dict String Value × String
room capacity d =
    if ltb 0 capacity && leb capacity (length d)
    then elim (last_key d) [ none ↦ (d, "") | some k ↦ (remove k d, k) ]
    else (d, "")

abbrev put : ℕ → String → Value → Dict String Value → Dict String Value × String
put capacity k v d = elim (lookup k d) [
  | some _ ↦ ((k, v) ∷ remove k d, "")
  | none ↦ ((k, v) ∷ (room capacity d).0, (room capacity d).1)
]

contents-make_room :
    (capacity : ℕ) (es : List Entry)
    → (contents (Lru.make_room capacity es).0, (Lru.make_room capacity es).1)
      ≡ room capacity (contents es)
unfolding Lru.make_room Lru.evict
contents-make_room capacity es = elim (Option-cases (oldest es)) [
  | inl nobody ↦ ground (arith, length-contents es, last_key-contents es)
  | inr (e, last) ↦
      ground (arith, length-contents es, last_key-contents es, contents-forget e.key es)
]

contents-set :
    (capacity : ℕ) (k : String) (v : Value) (ttl : Duration) (now : Time) (es : List Entry)
    → (contents (Lru.set capacity k v ttl now es).0, (Lru.set capacity k v ttl now es).1)
      ≡ put capacity k v (contents es)
unfolding Lru.set
contents-set capacity k v ttl now es = elim (Option-cases (seek k es)) [
  | inl absent ↦ ground (arith, lookup-contents k es, contents-make_room capacity es)
  | inr (e, found) ↦ ground (arith, lookup-contents k es, contents-forget k es)
]

-- Two caches of equal contents, of which one may be ahead in time, do the same at a Set.
pub contents-set_same :
    (capacity : ℕ) (k : String) (v : Value) (ttl ttl' : Duration) (now now' : Time)
    (es es' : List Entry)
    → contents es ≡ contents es'
    → (contents (Lru.set capacity k v ttl now es).0
        ≡ contents (Lru.set capacity k v ttl' now' es').0)
      × ((Lru.set capacity k v ttl now es).1 ≡ (Lru.set capacity k v ttl' now' es').1)
contents-set_same capacity k v ttl ttl' now now' es es' same =
    let e =
      contents-set capacity k v ttl now es
      ∙ ap (put capacity k v) same
      ∙ sym (contents-set capacity k v ttl' now' es') in
    (ap (λ x. x.0) e, ap (λ x. x.1) e)
