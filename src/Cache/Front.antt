-- ===== src/Cache/Front.antt =====
-- A node at the front keeps the invariant of cache.go: one that was moved, and one that is new.
use advo_cache.Base.{
  ◌+◌, ◌≡◌, false, ◌∷◌, Option, none, some, String, arith, ◌=?◌, text_key, eq_iff,
}
use advo_cache.Base.Dict.{insert, lookup-insert, remove-DistinctKeys, has_key-remove_self}
use advo_cache.Cache.{Entry, Ptr, null, Cache, update, add_to_front, new_node}
use advo_cache.Cache.Cells.{
  Cells, has, Apart-has, Apart-erase, Apart-restart, find, find-erase, erase, has-erase,
  has-erase_self, has_of_find, UniqueKeys-erase, length-erase,
}
use advo_cache.Cache.Chain.{Chain, Chain-push, Chain-update_next, Chain-update_prev, has-first}
use advo_cache.Cache.Links.{unlinked, pushed, moved, node-ne-head, unlinked-Chain}
use advo_cache.Cache.Rep.{
  Rep, Below-erase, Below-mono, Below-of_has, Stored, Stored-update, has-fresh,
}

module _ {c : Cache} {xs : Cells} (r : Rep c xs) where
  -- The node of a key moves to the front, with whatever entry of that key it now holds.
  pub Rep-moved :
      (k : String) (n : Ptr)
      → find k xs ≡ some n
      → (e : Entry) (entry : Ptr → Option Entry) → e.key ≡ k
      → entry n ≡ some e
      → Stored entry (erase k xs)
      → Rep (record (moved n c) { entry = entry }) ((n, e) ∷ erase k xs)
  unfolding find
  Rep-moved k n f e entry same here rest = record {
    chain =
        Chain-push (unlinked n c).next (unlinked n c).prev n e c.head (erase k xs) c.tail
          (unlinked-Chain r k n f) (Apart-erase k c.head xs c.tail r.apart) (node-ne-head r k n f)
          away;
    apart = (
      ground (
        arith,
        node-ne-head r k n f,
        has-erase c.head k xs c.tail,
        Apart-has c.head xs c.tail r.apart,
      ),
      Apart-restart c.head n (erase k xs) c.tail (Apart-erase k c.head xs c.tail r.apart) away,
    );
    head_live = r.head_live;
    cells_live =
        ground (
          arith,
          has-erase null k xs c.tail r.cells_live,
          r.cells_live,
          has_of_find k xs c.tail n f,
        );
    head_below = r.head_below;
    cells_below = (
      Below-of_has n c.fresh xs c.tail r.cells_below (has_of_find k xs c.tail n f),
      Below-erase k c.fresh xs c.tail r.cells_below,
    );
    stored = (here, rest);
    unique =
        (ground (arith, find-erase k e.key xs, eq_iff k e.key), UniqueKeys-erase k xs r.unique);
    index = λ j. ground (arith, find-erase k j xs, r.index j, eq_iff e.key j, eq_iff k j);
    keys = r.keys;
    counted = omega (arith, r.counted, length-erase k xs n r.unique f);
  }
    where
      away : has n (erase k xs) c.tail ≡ false
      away = has-erase_self k c.head xs c.tail n r.apart r.unique f

-- The cache once a new node is in front and in the map.
abbrev pub added : Entry → Cache → Cache
added e c =
    let c₁ = pushed c.fresh (new_node (some e) c) in
    record c₁ { length = c.length + 1; nodes = insert e.key c.fresh c.nodes }

module _ {c : Cache} {xs : Cells} (r : Rep c xs) (e : Entry) where
  fresh-ne-head : (c.fresh =? c.head) ≡ false
  fresh-ne-head = ground (arith, r.head_below)

  blank-Chain : Chain (update c.next c.fresh null) (update c.prev c.fresh null) c.head xs c.tail
  blank-Chain =
      let out = has-fresh c.fresh xs c.tail r.cells_below in
      Chain-update_next c.next (update c.prev c.fresh null) c.fresh null c.head xs c.tail
        (Chain-update_prev c.next c.prev c.fresh null c.head xs c.tail r.chain out) fresh-ne-head
        out

  pub add_to_front_lem :
      add_to_front c.fresh (new_node (some e) c)
      ≡ some (record (pushed c.fresh (new_node (some e) c)) { length = c.length + 1 })
  unfolding add_to_front
  add_to_front_lem = ground (
    arith,
    fresh-ne-head,
    r.head_live,
    r.head_below,
    r.cells_live,
    has-first c.next c.prev c.head xs c.tail r.chain,
  )

  pub Rep-added : find e.key xs ≡ none → Rep (added e c) ((c.fresh, e) ∷ xs)
  unfolding insert find
  Rep-added miss = record {
    chain =
        Chain-push (update c.next c.fresh null) (update c.prev c.fresh null) c.fresh e c.head xs
          c.tail blank-Chain r.apart fresh-ne-head out;
    apart = (
      ground (arith, fresh-ne-head, Apart-has c.head xs c.tail r.apart),
      Apart-restart c.head c.fresh xs c.tail r.apart out,
    );
    head_live = r.head_live;
    cells_live = ground (arith, r.cells_live, r.head_below);
    head_below = omega (arith, r.head_below);
    cells_below =
        (omega arith, Below-mono c.fresh (c.fresh + 1) xs c.tail (omega arith) r.cells_below);
    stored = (ground arith, Stored-update c.entry c.fresh (some e) xs c.tail out r.stored);
    unique = (miss, r.unique);
    index = λ j. ground (arith, lookup-insert e.key j c.fresh c.nodes, r.index j);
    keys = (has_key-remove_self e.key c.nodes, remove-DistinctKeys e.key c.nodes r.keys);
    counted = omega (arith, r.counted);
  }
    where
      out : has c.fresh xs c.tail ≡ false
      out = has-fresh c.fresh xs c.tail r.cells_below
