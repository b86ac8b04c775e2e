-- ===== src/Cache/Tests.antt =====
-- Runs of the cache, and its theorems at one cache.
use advo_cache.Base.{
  ℕ, ◌+◌, ◌*◌, ◌/◌, ◌≤◌, ◌≡◌, refl, List, [], ◌∷◌, Option, none, some, String, arith, length, ◌>>=◌,
  text_key,
}
use advo_cache.Base.Dict.{lookup, remove, insert, Enumerates, Enumerates-self, has_key}
use advo_cache.Value.{Value, text}
use advo_cache.Time.{Duration}
use advo_cache.Cache.{
  Entry, Cache, update, new_with_capacity, get, set, delete, delete_prefix, delete_suffix,
  cleanup_expired, dump, drop, remove_node, add_to_front, move_to_front, evict_oldest, make_room,
  sweep, has_prefix, has_suffix, set_null, set_with_jitter, jitter_bound,
}
use advo_cache.Cache.Cells.{Cells, find}
use advo_cache.Cache.History.{Call, Reach, start, perform, Reach-length-le, Reach-perform}
use advo_cache.Cache.{dump}
use advo_cache.Cache.Dump.{Shows, dump-Shows}
use advo_cache.Base.Dict.{Dict}
use advo_cache.Value.{Value}
use advo_cache.Cache.Lru
use advo_cache.Cache.Lru.{seek, forget}
use advo_cache.Cache.Methods.{new_with_capacity_lem, get-Implements, set-Implements}
use advo_cache.Cache.Reads.{get-set_in_time, set-evicts_oldest, set_with_jitter_bounds}
use advo_cache.Cache.Refine.{Implements}
use advo_cache.Cache.Rep.{Holds}

program : Unit {0}
unfolding new_with_capacity get set delete delete_prefix delete_suffix cleanup_expired dump drop
    remove_node add_to_front move_to_front evict_oldest make_room sweep has_prefix has_suffix
    set_null set_with_jitter jitter_bound lookup remove insert
program = tt

abbrev first : Entry
first = record { key = "user:1"; value = text "x"; expires_at = 110 }

abbrev second_entry : Entry
second_entry = record { key = "user:2"; value = text "y"; expires_at = 120 }

-- The cache of capacity 2 after two calls of Set.
abbrev full : Cache
full = record {
  next = update (update (update (λ _. 0) 1 4) 4 3) 3 2;
  prev = update (update (update (λ _. 0) 4 1) 3 4) 2 3;
  entry = update (update (λ _. none) 3 (some first)) 4 (some second_entry);
  fresh = 5;
  nodes = ("user:2", 4) ∷ ("user:1", 3) ∷ [];
  head = 1;
  tail = 2;
  length = 2;
  capacity = 2;
}

abbrev cells : Cells
cells = (4, second_entry) ∷ (3, first) ∷ []

abbrev held : List Entry
held = second_entry ∷ first ∷ []

full-Holds : Holds full held
unfolding find lookup has_key
full-Holds = (
  cells,
  record {
    chain = (refl, refl, (refl, refl, (refl, refl)));
    apart = (refl, (refl, refl));
    head_live = refl;
    cells_live = refl;
    head_below = omega arith;
    cells_below = omega arith;
    stored = (refl, (refl, tt));
    unique = (refl, (refl, tt));
    index = λ k. refl;
    keys = (refl, (refl, tt));
    counted = refl;
  },
  refl,
)

full_visit : Enumerates full.nodes full.nodes
unfolding has_key
full_visit = Enumerates-self full.nodes (refl, (refl, tt))

-- Three calls of Set at capacity 2, the last of which evicts; what is left, and its order.
scenario : Option (String × ℕ × Option Value × Option Value)
unfolding program
scenario = do
  c ← new_with_capacity 2
  (c₁, _) ← set "a" (text "1") 10 100 c
  (c₂, _) ← set "b" (text "2") 10 100 c₁
  (c₃, _) ← get "a" 105 c₂
  (c₄, key) ← set "c" (text "3") 10 100 c₃
  d ← dump c₄.nodes c₄ []
  some (key, c₄.length, lookup "a" d, lookup "b" d)

scenario_result : scenario ≡ some ("b", 2, some (text "1"), none)
unfolding scenario
scenario_result = refl

empty_made : (c : Cache) × (new_with_capacity 2 ≡ some c) × Holds c [] × (c.capacity ≡ 2)
empty_made = new_with_capacity_lem 2

get-Implements_example : Implements 2 (get "user:1" 105 full) (Lru.get "user:1" 105 held)
get-Implements_example = get-Implements full held "user:1" 105 full-Holds

set-Implements_example :
    Implements 2 (set "user:3" (text "z") 10 105 full) (Lru.set 2 "user:3" (text "z") 10 105 held)
set-Implements_example = set-Implements full held "user:3" (text "z") 10 105 full-Holds

get-set_in_time_example :
    (c' : Cache) × (evicted : String) × (c'' : Cache) × (set "user:3" (text "z") 10 105 full
      ≡ some (c', evicted))
    × (get "user:3" 112 c' ≡ some (c'', some (text "z")))
get-set_in_time_example = get-set_in_time full held "user:3" (text "z") 10 105 full-Holds 112 refl

set-evicts_oldest_example :
    (c' : Cache) × (set "user:3" (text "z") 10 105 full ≡ some (c', "user:1"))
    × Holds c' (record { key = "user:3"; value = text "z"; expires_at = 115 } ∷ second_entry ∷ [])
unfolding seek
set-evicts_oldest_example =
    set-evicts_oldest full (second_entry ∷ []) first "user:3" (text "z") 10 105 full-Holds
      (omega arith) (omega arith) (refl, (refl, tt)) refl

set_with_jitter_bounds_example :
    (ttl : Duration) × (set_with_jitter (λ n. n / 2) "k" (text "v") 900 20 105 full
      ≡ set "k" (text "v") ttl 105 full)
    × (900 ≤ ttl)
    × (ttl ≤ 900 + 900 * 20 / 100)
set_with_jitter_bounds_example =
    set_with_jitter_bounds (λ n. n / 2) full "k" (text "v") 900 20 105 (λ n h. omega arith)
      (omega arith) (omega arith)

abbrev empty : Cache
empty = empty_made.0

Reach-perform_example :
    (d : Cache) × (perform (Call.set "a" (text "1") 10 100) empty ≡ some d) × Reach 2 d
Reach-perform_example =
    Reach-perform 2 empty (Call.set "a" (text "1") 10 100) (start empty_made.1) tt

Reach-length-le_example :
    (es : List Entry) × Holds Reach-perform_example.0 es
    × (Reach-perform_example.0.length ≡ length es)
    × (Reach-perform_example.0.length ≤ 2)
Reach-length-le_example =
    Reach-length-le 2 Reach-perform_example.0 (omega arith) Reach-perform_example.2

dump-Shows_example : (d : Dict String Value) × (dump full.nodes full [] ≡ some d) × Shows held d
dump-Shows_example = dump-Shows full.nodes full held full_visit full-Holds
