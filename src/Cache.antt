-- ===== src/Cache.antt =====
-- cache/cache.go: the LRU cache with its doubly linked list. Nodes live in a memory with one map
-- from addresses for each field of `lruNode`; a statement that reads or writes a field of a node is
-- a step of its own, and `none` is a panic. What a call reads of the clock, of `math/rand` and of
-- the order in which `range` visits a map is an argument. Every method runs under the mutex, so it
-- is one atomic step; logging is left out.
pub mod Cells
pub mod Chain
pub mod Contents
pub mod Dump
pub mod Front
pub mod History
pub mod Links
pub mod Lru
pub mod Methods
pub mod Reads
pub mod Refine
pub mod Rep
pub mod Sweep
pub mod Visit
mod Tests
use Prim.Native.String.{len, slice}
use advo_cache.Base.{
  ℕ, ◌+◌, ◌-◌, ◌*◌, ◌/◌, ◌%◌, ◌≡◌, Bool, true, false, ◌&&◌, List, [], ◌∷◌, Option, none, some,
  String, leb, ltb, ◌=?◌, ◌==◌, text_key, if◌then◌else◌, ◌>>=◌,
}
use advo_cache.Base.Dict.{Dict, lookup, remove, insert}
use advo_cache.Value.{Value, text, null_placeholder}
use advo_cache.Time.{Time, Duration, word, half, is_positive, add, after}

pub record Entry : Type 0 where
  pub key : String
  pub value : Value
  pub expires_at : Time

abbrev pub Ptr : Type 0
Ptr = ℕ

abbrev pub null : Ptr
null = 0

-- `next`, `prev` and `entry` are the fields of the nodes, `fresh` the next address that `&lruNode{}`
-- yields, and `nodes` the field `data`.
pub record Cache : Type 0 where
  pub next : Ptr → Ptr
  pub prev : Ptr → Ptr
  pub entry : Ptr → Option Entry
  pub fresh : Ptr
  pub nodes : Dict String Ptr
  pub head : Ptr
  pub tail : Ptr
  pub length : ℕ
  pub capacity : ℕ

abbrev pub default_capacity : ℕ
default_capacity = 10000

abbrev pub update {ℓ} : {A : Type ℓ} → (Ptr → A) → Ptr → A → Ptr → A
update f p a q = if p =? q then a else f q

-- Reads and writes through a pointer.
abbrev pub read_next : Ptr → Cache → Option Ptr
read_next p c = if p =? null then none else some (c.next p)

abbrev pub read_prev : Ptr → Cache → Option Ptr
read_prev p c = if p =? null then none else some (c.prev p)

-- The entry of a node, dereferenced too: a sentinel has none.
abbrev pub read_entry : Ptr → Cache → Option Entry
read_entry p c = if p =? null then none else c.entry p

abbrev pub write_next : Ptr → Ptr → Cache → Option Cache
write_next p q c = if p =? null then none else some (record c { next = update c.next p q })

abbrev pub write_prev : Ptr → Ptr → Cache → Option Cache
write_prev p q c = if p =? null then none else some (record c { prev = update c.prev p q })

abbrev pub write_entry : Ptr → Entry → Cache → Option Cache
write_entry p e c =
    if p =? null then none else some (record c { entry = update c.entry p (some e) })

-- &lruNode{entry: entry}
abbrev pub new_node : Option Entry → Cache → Cache
new_node e c = record c {
  next = update c.next c.fresh null;
  prev = update c.prev c.fresh null;
  entry = update c.entry c.fresh e;
  fresh = c.fresh + 1;
}

-- The two sentinels are the first two nodes. The goroutine that `StartTTLCleaner` starts is a
-- client of `cleanup_expired`.
unfoldable pub new_with_capacity : ℕ → Option Cache
new_with_capacity capacity =
    let blank : Cache = record {
      next = λ _. null;
      prev = λ _. null;
      entry = λ _. none;
      fresh = 1;
      nodes = [];
      head = null;
      tail = null;
      length = 0;
      capacity = capacity;
    } in
    do
      let c = record (new_node none blank) { head = 1 }
      let c = record (new_node none c) { tail = 2 }
      c ← write_next c.head c.tail c
      write_prev c.tail c.head c

unfoldable pub new : Option Cache
unfolding new_with_capacity
new = new_with_capacity default_capacity

unfoldable pub add_to_front : Ptr → Cache → Option Cache
add_to_front node c = do
  c₁ ← write_prev node c.head c
  first ← read_next c₁.head c₁
  c₂ ← write_next node first c₁
  first' ← read_next c₂.head c₂
  c₃ ← write_prev first' node c₂
  c₄ ← write_next c₃.head node c₃
  some (record c₄ { length = c₄.length + 1 })

-- A length that would fall below zero is no natural number, and stops the model as a panic does.
unfoldable pub remove_node : Ptr → Cache → Option Cache
remove_node node c = do
  before ← read_prev node c
  behind ← read_next node c
  c₁ ← write_next before behind c
  behind' ← read_next node c₁
  before' ← read_prev node c₁
  c₂ ← write_prev behind' before' c₁
  if c₂.length =? 0 then none else some (record c₂ { length = c₂.length - 1 })

unfoldable pub move_to_front : Ptr → Cache → Option Cache
move_to_front node c = do
  before ← read_prev node c
  behind ← read_next node c
  c₁ ← write_next before behind c
  behind' ← read_next node c₁
  before' ← read_prev node c₁
  c₂ ← write_prev behind' before' c₁
  c₃ ← write_prev node c₂.head c₂
  first ← read_next c₃.head c₃
  c₄ ← write_next node first c₃
  first' ← read_next c₄.head c₄
  c₅ ← write_prev first' node c₄
  write_next c₅.head node c₅

-- removeNode(node); delete(c.data, key)
unfoldable pub drop : String → Ptr → Cache → Option Cache
drop key node c = do c₁ ← remove_node node c; some (record c₁ { nodes = remove key c₁.nodes })

unfoldable pub evict_oldest : Cache → Option (Cache × String)
evict_oldest c = do
  oldest ← read_prev c.tail c
  if oldest =? c.head
      then some (c, "")
      else do e ← read_entry oldest c; c₁ ← drop e.key oldest c; some (c₁, e.key)

unfoldable pub get : String → Time → Cache → Option (Cache × Option Value)
get key now c = elim (lookup key c.nodes) [
  | none ↦ some (c, none)
  | some node ↦ do
    e ← read_entry node c
    if after now e.expires_at
        then (do c₁ ← drop key node c; some (c₁, none))
        else (do c₁ ← move_to_front node c; e' ← read_entry node c₁; some (c₁, some e'.value))
]

-- `if c.capacity > 0 && c.length >= c.capacity { evictedKey = c.evictOldest() }`
unfoldable pub make_room : Cache → Option (Cache × String)
make_room c = if ltb 0 c.capacity && leb c.capacity c.length then evict_oldest c else some (c, "")

unfoldable pub set : String → Value → Duration → Time → Cache → Option (Cache × String)
set key value ttl now c =
    let e : Entry = record { key = key; value = value; expires_at = add now ttl } in
    elim (lookup key c.nodes) [
      | some node ↦ do c₁ ← write_entry node e c; c₂ ← move_to_front node c₁; some (c₂, "")
      | none ↦ do
        (c₁, evicted_key) ← make_room c
        c₂ ← add_to_front c₁.fresh (new_node (some e) c₁)
        some (record c₂ { nodes = insert key c₁.fresh c₂.nodes }, evicted_key)
    ]

unfoldable pub delete : String → Cache → Option Cache
delete key c = elim (lookup key c.nodes) [ none ↦ some c | some node ↦ drop key node c ]

-- len(key) >= len(prefix) && key[:len(prefix)] == prefix
unfoldable pub has_prefix : String → String → Bool
has_prefix prefix key = leb (len prefix) (len key) && slice key 0 (len prefix) == prefix

-- len(key) >= len(suffix) && key[len(key)-len(suffix):] == suffix
unfoldable pub has_suffix : String → String → Bool
has_suffix suffix key =
    leb (len suffix) (len key) && slice key (len key - len suffix) (len key) == suffix

-- The loops of `DeletePrefix`, `DeleteSuffix` and `cleanupExpired`: for each key and node of the map
-- in turn, a node that is selected is removed and counted.
unfoldable pub sweep :
    (Cache → String → Ptr → Option Bool) → Dict String Ptr → Cache → ℕ → Option (Cache × ℕ)
sweep select [] c count = some (c, count)
sweep select ((key, node) ∷ rest) c count = do
  hit ← select c key node
  (c₁, count₁) ← (if hit then (do c' ← drop key node c; some (c', count + 1)) else some (c, count))
  sweep select rest c₁ count₁

unfoldable pub delete_prefix : String → Dict String Ptr → Cache → Option (Cache × ℕ)
delete_prefix prefix order c = sweep (λ _ key _. some (has_prefix prefix key)) order c 0

unfoldable pub delete_suffix : String → Dict String Ptr → Cache → Option (Cache × ℕ)
delete_suffix suffix order c = sweep (λ _ key _. some (has_suffix suffix key)) order c 0

unfoldable pub cleanup_expired : Time → Dict String Ptr → Cache → Option (Cache × ℕ)
cleanup_expired now order c =
    sweep (λ c' _ node. do e ← read_entry node c'; some (after now e.expires_at)) order c 0

-- The map that `Dump` builds.
unfoldable pub dump : Dict String Ptr → Cache → Dict String Value → Option (Dict String Value)
dump [] c result = some result
dump ((key, node) ∷ rest) c result = do
  e ← read_entry node c
  dump rest c (insert key e.value result)

abbrev pub count : Cache → ℕ
count c = c.length

unfoldable pub set_null : String → Duration → Time → Cache → Option (Cache × String)
unfolding set
set_null key = set key (text null_placeholder)

-- int64(baseTTL) * int64(jitterPercent) / 100 + 1: the product wraps, the quotient is cut off
-- towards zero.
unfoldable pub jitter_bound : Duration → ℕ → ℕ
jitter_bound base percent =
    let product : ℕ = (base * percent) % word in
    (if ltb product half then product / 100 + 1 else word - (word - product) / 100 + 1) % word

-- rand.Int63n panics at an argument that is not positive.
unfoldable pub set_with_jitter :
    (int63n : ℕ → ℕ) → String → Value → Duration → ℕ → Time → Cache → Option (Cache × String)
set_with_jitter int63n key value base percent now c =
    let bound = jitter_bound base percent in
    if is_positive bound then set key value ((base + int63n bound) % word) now c else none
