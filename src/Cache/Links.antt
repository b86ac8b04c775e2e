-- ===== src/Cache/Links.antt =====
-- The internal operations of cache.go on a cache that meets the invariant: no nil pointer is
-- followed, and the invariant is kept.
use advo_cache.Base.{◌-◌, ◌≡◌, false, Option, some, String, arith, ◌=?◌, text_key}
use advo_cache.Base.Dict.{remove, lookup-remove, remove-DistinctKeys}
use advo_cache.Cache.{Entry, Ptr, null, Cache, update, drop, remove_node, move_to_front}
use advo_cache.Cache.Cells.{
  Cells, Apart-has, Apart-erase, find, find-erase, erase, has-erase, has_of_find, UniqueKeys-erase,
  length-erase,
}
use advo_cache.Cache.Chain.{Chain, has-first, Chain-unlink, has-next, has-prev}
use advo_cache.Cache.Rep.{Rep, Below-erase, Stored-erase}

-- The state after the two writes that unlink a node.
abbrev pub unlinked : Ptr → Cache → Cache
unlinked n c = record c {
  next = update c.next (c.prev n) (c.next n);
  prev = update c.prev (c.next n) (c.prev n);
}

-- The state after the four writes that put a node in front.
abbrev pub pushed : Ptr → Cache → Cache
pushed n c = record c {
  next = update (update c.next n (c.next c.head)) c.head n;
  prev = update (update c.prev n c.head) (c.next c.head) n;
}

abbrev pub moved : Ptr → Cache → Cache
moved n c = pushed n (unlinked n c)

abbrev pub dropped : String → Ptr → Cache → Cache
dropped k n c = record (unlinked n c) { length = c.length - 1; nodes = remove k c.nodes }

module _ {c : Cache} {xs : Cells} (r : Rep c xs) (k : String) (n : Ptr)
    (f : find k xs ≡ some n) where
  pub node_live : (n =? null) ≡ false
  node_live = ground (arith, r.cells_live, has_of_find k xs c.tail n f)

  prev_live : (c.prev n =? null) ≡ false
  prev_live =
      ground
        (arith, r.cells_live, r.head_live, has-prev c.next c.prev k c.head xs c.tail n r.chain f)

  next_live : (c.next n =? null) ≡ false
  next_live = ground (arith, r.cells_live, has-next c.next c.prev k c.head xs c.tail n r.chain f)

  length_pos : (c.length =? 0) ≡ false
  length_pos = ground (arith, r.counted, length-erase k xs n r.unique f)

  pub drop_lem : drop k n c ≡ some (dropped k n c)
  unfolding remove_node drop
  drop_lem = ground (arith, node_live, prev_live, next_live, length_pos)

  pub Rep-dropped : Rep (dropped k n c) (erase k xs)
  Rep-dropped = record {
    chain = Chain-unlink c.next c.prev k c.head xs c.tail n r.chain r.apart r.unique f;
    apart = Apart-erase k c.head xs c.tail r.apart;
    head_live = r.head_live;
    cells_live = has-erase null k xs c.tail r.cells_live;
    head_below = r.head_below;
    cells_below = Below-erase k c.fresh xs c.tail r.cells_below;
    stored = Stored-erase k c.entry xs r.stored;
    unique = UniqueKeys-erase k xs r.unique;
    index = λ j. ground (arith, lookup-remove k j c.nodes, find-erase k j xs, r.index j);
    keys = remove-DistinctKeys k c.nodes r.keys;
    counted = omega (arith, r.counted, length-erase k xs n r.unique f);
  }

  pub node-ne-head : (n =? c.head) ≡ false
  node-ne-head = ground (arith, has_of_find k xs c.tail n f, Apart-has c.head xs c.tail r.apart)

  pub unlinked-Chain : Chain (unlinked n c).next (unlinked n c).prev c.head (erase k xs) c.tail
  unlinked-Chain = Chain-unlink c.next c.prev k c.head xs c.tail n r.chain r.apart r.unique f

  first_live : ((unlinked n c).next c.head =? null) ≡ false
  first_live = ground (
    arith,
    has-erase null k xs c.tail r.cells_live,
    has-first (unlinked n c).next (unlinked n c).prev c.head (erase k xs) c.tail unlinked-Chain,
  )

  -- Whatever entries the nodes hold by then.
  pub move_to_front_lem :
      (entry : Ptr → Option Entry)
      → move_to_front n (record c { entry = entry }) ≡ some (record (moved n c) { entry = entry })
  unfolding move_to_front
  move_to_front_lem entry =
      ground (arith, node_live, prev_live, next_live, node-ne-head, first_live, r.head_live)
