-- ===== src/Cache/History.antt =====
-- Every cache that a program can reach: `New`, and then any calls in any order, with any clock
-- readings and any order of `range`. A call of another goroutine or of the cleaner is a step like
-- any other, since each method runs under the mutex.
use advo_cache.Base.{
  ℕ, ◌≤◌, ◌<◌, ◌≡◌, refl, sym, ◌∙◌, inr, Bool, List, [], Option, some, String, arith, text_key,
  length, keep, length-keep-le, ◌>>=◌, true, ◌+◌, ◌%◌,
}
use mathlib.Core.Path.{subst}
use mathlib.Core.Option.{some-injective}
use advo_cache.Base.Dict.{Dict, Enumerates}
use advo_cache.Value.{Value, text, null_placeholder}
use advo_cache.Time.{Time, Duration, is_positive, word}
use advo_cache.Cache.{Entry, Ptr, Cache, jitter_bound}
use advo_cache.Cache.Dump.{dump-Shows}
use advo_cache.Cache
use advo_cache.Cache.Lru
use advo_cache.Cache.Lru.{forget}
use advo_cache.Cache.Lru.Laws.{Fits, set-Fits, get-Fits}
use advo_cache.Cache.Methods.{new_with_capacity_lem, get-Implements, set-Implements, delete-forget}
use advo_cache.Cache.Refine.{Implements}
use advo_cache.Cache.Rep.{Holds, length-entries}
use advo_cache.Cache.Sweep.{
  delete_prefix-Implements, delete_suffix-Implements, cleanup_expired-Implements,
}

-- A call of a method, with what it reads of its surroundings.
pub data Call : Type 0 where
  get : String → Time → Call
  set : String → Value → Duration → Time → Call
  set_null : String → Duration → Time → Call
  set_with_jitter : (int63n : ℕ → ℕ) → String → Value → Duration → ℕ → Time → Call
  delete : String → Call
  delete_prefix delete_suffix : String → Dict String Ptr → Call
  cleanup_expired : Time → Dict String Ptr → Call
  dump : Dict String Ptr → Call

-- A loop visits the whole map, each entry once; the bound of a jitter is above zero, as an int64.
abbrev pub IsCall : Call → Cache → Type 0
IsCall (delete_prefix _ order) c = Enumerates order c.nodes
IsCall (delete_suffix _ order) c = Enumerates order c.nodes
IsCall (cleanup_expired _ order) c = Enumerates order c.nodes
IsCall (dump order) c = Enumerates order c.nodes
IsCall (set_with_jitter _ _ _ base percent _) c = is_positive (jitter_bound base percent) ≡ true
IsCall _ c = Unit

abbrev state {ℓ} : {A : Type ℓ} → Option (Cache × A) → Option Cache
state r = r >>= λ (c, _). some c

unfoldable pub perform : Call → Cache → Option Cache
perform (get k now) c = state (Cache.get k now c)
perform (set k v ttl now) c = state (Cache.set k v ttl now c)
perform (set_null k ttl now) c = state (Cache.set_null k ttl now c)
perform (set_with_jitter int63n k v base percent now) c =
    state (Cache.set_with_jitter int63n k v base percent now c)
perform (delete k) c = Cache.delete k c
perform (delete_prefix p order) c = state (Cache.delete_prefix p order c)
perform (delete_suffix s order) c = state (Cache.delete_suffix s order c)
perform (cleanup_expired now order) c = state (Cache.cleanup_expired now order c)
perform (dump order) c = Cache.dump order c [] >>= λ _. some c

pub data Reach (capacity : ℕ) : Cache → Type 0 where
  start : {c : Cache} → Cache.new_with_capacity capacity ≡ some c → Reach capacity c
  next :
      {c d : Cache} (call : Call)
      → Reach capacity c
      → IsCall call c
      → perform call c ≡ some d
      → Reach capacity d

-- The invariant: the structure is sound, and holds no more entries than the capacity.
pub record IsSound (capacity : ℕ) (c : Cache) : Type 0 where
  pub es : List Entry
  pub holds : Holds c es
  pub capacity_kept : c.capacity ≡ capacity
  pub fits : Fits capacity es

-- One call from a sound cache ends without a panic, in a sound cache.
abbrev SoundAfter : ℕ → Option Cache → Type 0
SoundAfter capacity r = (d : Cache) × (r ≡ some d) × IsSound capacity d

module _ {ℓ} {A : Type ℓ} where
  of_Implements :
      (capacity : ℕ) (c : Cache) (r : Option (Cache × A)) (spec : List Entry × A)
      → c.capacity ≡ capacity
      → Implements c.capacity r spec
      → Fits capacity spec.0
      → SoundAfter capacity (state r)
  of_Implements capacity c r (es, a) same (d, run, holds, cap) fits =
      (d, rw run refl, record { es = es; holds = holds; capacity_kept = cap ∙ same; fits = fits })

keep-Fits :
    (capacity : ℕ) (f : Entry → Bool) (es : List Entry)
    → Fits capacity es
    → Fits capacity (keep f es)
keep-Fits capacity f es h = ground (arith, length-keep-le f es)

set-IsSound :
    (capacity : ℕ) (k : String) (v : Value) (ttl : Duration) (now : Time) (c : Cache)
    → IsSound capacity c
    → SoundAfter capacity (state (Cache.set k v ttl now c))
set-IsSound capacity k v ttl now c s =
    of_Implements capacity c _ _ s.capacity_kept (set-Implements c s.es k v ttl now s.holds)
      (rw s.capacity_kept (set-Fits capacity k v ttl now s.es s.fits))

set_with_jitter-set :
    (int63n : ℕ → ℕ) (k : String) (v : Value) (base : Duration) (percent : ℕ) (now : Time)
    (c : Cache)
    → is_positive (jitter_bound base percent) ≡ true
    → Cache.set_with_jitter int63n k v base percent now c
      ≡ Cache.set k v ((base + int63n (jitter_bound base percent)) % word) now c
unfolding Cache.set_with_jitter
set_with_jitter-set int63n k v base percent now c positive = rw positive refl

perform-IsSound :
    (capacity : ℕ) (call : Call) (c : Cache)
    → IsSound capacity c
    → IsCall call c
    → SoundAfter capacity (perform call c)
unfolding perform
perform-IsSound capacity (get k now) c s ok =
    of_Implements capacity c _ _ s.capacity_kept (get-Implements c s.es k now s.holds)
      (get-Fits capacity k now s.es s.fits)
perform-IsSound capacity (set k v ttl now) c s ok = set-IsSound capacity k v ttl now c s
perform-IsSound capacity (set_null k ttl now) c s ok =
    unfold Cache.set_null in set-IsSound capacity k (text null_placeholder) ttl now c s
perform-IsSound capacity (set_with_jitter int63n k v base percent now) c s ok =
    rw (set_with_jitter-set int63n k v base percent now c ok) (set-IsSound capacity k v _ now c s)
perform-IsSound capacity (delete k) c s ok =
    let (d, run, holds, cap) = delete-forget c s.es k s.holds in
    (
      d,
      run,
      record {
        es = forget k s.es;
        holds = holds;
        capacity_kept = cap ∙ s.capacity_kept;
        fits = unfold forget in keep-Fits capacity _ s.es s.fits;
      },
    )
perform-IsSound capacity (delete_prefix p order) c s ok =
    of_Implements capacity c _ _ s.capacity_kept
      (delete_prefix-Implements p order c s.es ok s.holds)
      (unfold Lru.sweep in keep-Fits capacity _ s.es s.fits)
perform-IsSound capacity (delete_suffix p order) c s ok =
    of_Implements capacity c _ _ s.capacity_kept
      (delete_suffix-Implements p order c s.es ok s.holds)
      (unfold Lru.sweep in keep-Fits capacity _ s.es s.fits)
perform-IsSound capacity (cleanup_expired now order) c s ok =
    of_Implements capacity c _ _ s.capacity_kept
      (cleanup_expired-Implements now order c s.es ok s.holds)
      (unfold Lru.sweep in keep-Fits capacity _ s.es s.fits)
perform-IsSound capacity (dump order) c s ok =
    let (d, run, shows) = dump-Shows order c s.es ok s.holds in (c, rw run refl, s)

Reach-IsSound : (capacity : ℕ) {c : Cache} → Reach capacity c → IsSound capacity c
Reach-IsSound capacity {c} (start e) =
    let (d, made, holds, cap) = new_with_capacity_lem capacity in
    subst (IsSound capacity) (cc (sym made ∙ e))
      (record { es = []; holds = holds; capacity_kept = cap; fits = inr (omega arith) })
Reach-IsSound capacity {c} (next {c = b} call r ok e) =
    let (d, run, sound) = perform-IsSound capacity call b (Reach-IsSound capacity r) ok in
    subst (IsSound capacity) (some-injective _ _ (sym run ∙ e)) sound

-- A cache reached from a new one of capacity above 0 by any calls that end (Get, Set, SetNull,
-- SetWithJitter with a bound above zero in int64, Delete, DeletePrefix, DeleteSuffix,
-- CleanupExpired and Dump, the last four with the map visited as it is) counts as many entries as
-- its list has, and no more than its capacity.
pub Reach-length-le :
    (capacity : ℕ) (c : Cache)
    → 0 < capacity
    → Reach capacity c
    → (es : List Entry) × Holds c es × (c.length ≡ length es) × (c.length ≤ capacity)
Reach-length-le capacity c pos r =
    let s = Reach-IsSound capacity r in
    let (xs, rep, e) = s.holds in
    let counted : c.length ≡ length s.es =
      rw (← e) (omega (arith, rep.counted, length-entries xs)) in
    (s.es, s.holds, counted, ground (arith, s.fits))

-- On every reachable cache, Get, Set, SetNull, SetWithJitter, Delete, DeletePrefix, DeleteSuffix,
-- CleanupExpired and Dump end without a panic, in a reachable cache: SetWithJitter if the bound of
-- its jitter is above zero in int64 (it panics otherwise), and the last four with the map visited
-- as it is.
pub Reach-perform :
    (capacity : ℕ) (c : Cache) (call : Call)
    → Reach capacity c
    → IsCall call c
    → (d : Cache) × (perform call c ≡ some d) × Reach capacity d
Reach-perform capacity c call r ok =
    let (d, run, sound) = perform-IsSound capacity call c (Reach-IsSound capacity r) ok in
    (d, run, next call r ok run)
