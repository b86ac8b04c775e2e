-- ===== src/Cache/Sweep.antt =====
-- The loops of DeletePrefix, DeleteSuffix and cleanupExpired, whatever the order in which `range`
-- visits the map.
use advo_cache.Base.{
  ◌≡◌, ap, ◌⊎◌, inl, inr, Bool, true, not, List, Option, none, some, String, arith, text_key,
  length, keep, count, count-keep, ◌>>=◌, Option-cases,
}
use advo_cache.Base.Dict.{Dict, has_key, Enumerates}
use advo_cache.Cache.{
  Entry, Ptr, Cache, sweep, delete_prefix, delete_suffix, cleanup_expired, has_prefix, has_suffix,
  read_entry,
}
use advo_cache.Time.{Time, after}
use advo_cache.Cache.Cells.{find}
use advo_cache.Cache.Lru
use advo_cache.Cache.Lru.{seek}
use advo_cache.Cache.Refine.{Implements}
use advo_cache.Cache.Visit.{SelectsBy, sweep_loop, left_all, Pending-visit, has_key_of_lookup, left}
use advo_cache.Cache.Rep.{Holds, entries, length-entries}

-- The loops remove exactly the entries that are selected, count them, and leave the others in their
-- order, however the map is visited.
pub sweep-Implements :
    (select : Cache → String → Ptr → Option Bool) (hit : Entry → Bool) (order : Dict String Ptr)
    (c : Cache) (es : List Entry)
    → SelectsBy select hit
    → Enumerates order c.nodes
    → Holds c es
    → Implements c.capacity (sweep select order c 0) (Lru.sweep hit es)
unfolding Lru.sweep
sweep-Implements select hit order c es answers visit (xs, r, e) =
    let pending =
      Pending-visit order xs visit.once (λ k p at. ground (arith, visit.same k, r.index k)) in
    let (c', m, run, r', sum, cap) =
      sweep_loop select hit answers order c xs 0 r visit.once pending in
    let seen : (k : String) → (find k xs ≡ none) ⊎ (has_key k order ≡ true) = λ k.
      elim (Option-cases (find k xs)) [
        | inl f ↦ inl f
        | inr (p, f) ↦ inr (has_key_of_lookup k p order (ground (arith, visit.same k, r.index k)))
      ] in
    let whole : entries (left hit order xs) ≡ keep (λ e. not (hit e)) es =
      rw (← e) (left_all hit order xs seen) in
    let tally : m ≡ count hit es = rw (← e) (
      omega (
        arith,
        sum,
        ap length (left_all hit order xs seen),
        length-entries (left hit order xs),
        length-entries xs,
        count-keep hit (entries xs),
      )) in
    (c', rw (← tally) run, (left hit order xs, r', whole), cap)

-- DeletePrefix removes and counts exactly the entries whose key has the prefix.
pub delete_prefix-Implements :
    (prefix : String) (order : Dict String Ptr) (c : Cache) (es : List Entry)
    → Enumerates order c.nodes
    → Holds c es
    → Implements c.capacity
        (delete_prefix prefix order c)
        (Lru.sweep (λ e. has_prefix prefix e.key) es)
unfolding delete_prefix
delete_prefix-Implements prefix order c es =
    sweep-Implements (λ _ key _. some (has_prefix prefix key)) (λ e. has_prefix prefix e.key) order
      c es (λ c k p e live held same. rw same)

-- DeleteSuffix removes and counts exactly the entries whose key has the suffix.
pub delete_suffix-Implements :
    (suffix : String) (order : Dict String Ptr) (c : Cache) (es : List Entry)
    → Enumerates order c.nodes
    → Holds c es
    → Implements c.capacity
        (delete_suffix suffix order c)
        (Lru.sweep (λ e. has_suffix suffix e.key) es)
unfolding delete_suffix
delete_suffix-Implements suffix order c es =
    sweep-Implements (λ _ key _. some (has_suffix suffix key)) (λ e. has_suffix suffix e.key) order
      c es (λ c k p e live held same. rw same)

-- cleanupExpired removes and counts exactly the entries that have expired.
pub cleanup_expired-Implements :
    (now : Time) (order : Dict String Ptr) (c : Cache) (es : List Entry)
    → Enumerates order c.nodes
    → Holds c es
    → Implements c.capacity
        (cleanup_expired now order c)
        (Lru.sweep (λ e. after now e.expires_at) es)
unfolding cleanup_expired
cleanup_expired-Implements now order c es =
    sweep-Implements (λ c' _ node. do e ← read_entry node c'; some (after now e.expires_at))
      (λ e. after now e.expires_at) order c es (λ c k p e live held same. ground arith)
