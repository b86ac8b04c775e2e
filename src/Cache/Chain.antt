-- ===== src/Cache/Chain.antt =====
-- Doubly linked list segments between two sentinels, over the maps `next` and `prev` of cache.go's
-- nodes: what the writes of addToFront and of the unlinking do to a segment.
use advo_cache.Base.{
  ◌≡◌, inl, inr, true, false, ◌||◌, [], ◌∷◌, some, String, arith, ◌=?◌, ◌==◌, text_key, keep,
  Bool-cases, eq_iff,
}
use advo_cache.Cache.{Entry, Ptr, update}
use advo_cache.Cache.Cells.{Cells, has, Apart, Apart-has, find, erase, erase_absent, UniqueKeys}

-- From `start` the `next` pointers lead through the cells to `end`, and the `prev` pointers back.
abbrev pub Chain : (next prev : Ptr → Ptr) → Ptr → Cells → Ptr → Type 0
Chain next prev start [] end = (next start ≡ end) × (prev end ≡ start)
Chain next prev start ((p, _) ∷ xs) end =
    (next start ≡ p) × (prev p ≡ start) × Chain next prev p xs end

module _ (next prev : Ptr → Ptr) where
  pub Chain-update_next :
      (a v start : Ptr) (xs : Cells) (end : Ptr)
      → Chain next prev start xs end
      → (a =? start) ≡ false
      → has a xs end ≡ false
      → Chain (update next a v) prev start xs end
  Chain-update_next a v start [] end h out ne = ground arith
  Chain-update_next a v start ((p, e) ∷ xs) end h out ne =
      (ground arith, h.1, Chain-update_next a v p xs end h.2 (ground arith) (ground arith))

  pub Chain-update_prev :
      (b v start : Ptr) (xs : Cells) (end : Ptr)
      → Chain next prev start xs end
      → has b xs end ≡ false
      → Chain next (update prev b v) start xs end
  Chain-update_prev b v start [] end h out = ground arith
  Chain-update_prev b v start ((p, e) ∷ xs) end h out =
      (h.0, ground arith, Chain-update_prev b v p xs end h.2 (ground arith))

  pub has-first :
      (start : Ptr) (xs : Cells) (end : Ptr)
      → Chain next prev start xs end
      → has (next start) xs end ≡ true
  has-first start [] end h = ground arith
  has-first start ((p, e) ∷ xs) end h = ground arith

  -- The neighbours of a linked node lie on the chain.
  pub has-prev :
      (k : String) (start : Ptr) (xs : Cells) (end n : Ptr)
      → Chain next prev start xs end
      → find k xs ≡ some n
      → ((prev n =? start) || has (prev n) xs end) ≡ true
  unfolding find
  has-prev k start [] end n h f = cc
  has-prev k start ((p, e) ∷ xs) end n h f = ground (arith, has-prev k p xs end n h.2)

  pub has-next :
      (k : String) (start : Ptr) (xs : Cells) (end n : Ptr)
      → Chain next prev start xs end
      → find k xs ≡ some n
      → has (next n) xs end ≡ true
  unfolding find
  has-next k start [] end n h f = cc
  has-next k start ((p, e) ∷ []) end n h f = ground arith
  has-next k start ((p, e) ∷ (q, d) ∷ xs) end n h f =
      ground (arith, has-next k p ((q, d) ∷ xs) end n h.2)

module _ (next prev : Ptr → Ptr) where
  Chain-unlink_first :
      (p : Ptr) (e : Entry) (start : Ptr) (xs : Cells) (end : Ptr)
      → Chain next prev start ((p, e) ∷ xs) end
      → Apart start ((p, e) ∷ xs) end
      → Chain (update next (prev p) (next p)) (update prev (next p) (prev p)) start xs end
  Chain-unlink_first p e start [] end h apart = ground arith
  Chain-unlink_first p e start ((q, d) ∷ xs) end h apart =
      let fresh = Apart-has q xs end apart.1.1 in
      let spared : has (next p) xs end ≡ false = ground arith in
      (
        ground arith,
        ground arith,
        Chain-update_next next (update prev (next p) (prev p)) (prev p) (next p) q xs end
            (Chain-update_prev next prev (next p) (prev p) q xs end h.2.2 spared) (ground arith)
            (ground arith),
      )

  -- `node.prev.next = node.next; node.next.prev = node.prev` takes the node of `k` out of the chain.
  pub Chain-unlink :
      (k : String) (start : Ptr) (xs : Cells) (end n : Ptr)
      → Chain next prev start xs end
      → Apart start xs end
      → UniqueKeys xs
      → find k xs ≡ some n
      → Chain (update next (prev n) (next n)) (update prev (next n) (prev n)) start (erase k xs) end
  unfolding find erase keep
  Chain-unlink k start [] end n h ap u f = cc
  Chain-unlink k start ((p, e) ∷ xs) end n h apart u f = elim (Bool-cases (e.key == k)) [
    | inl hit ↦
        rw (hit, erase_absent k xs (ground (arith, eq_iff e.key k, u.0)))
          (ground (arith, Chain-unlink_first p e start xs end h apart))
    | inr miss ↦ rw miss (
        let up = has-prev next prev k p xs end n h.2 (ground arith) in
        let down = has-next next prev k p xs end n h.2 (ground arith) in
        let fresh = Apart-has p xs end apart.1 in
        (ground arith, ground arith, Chain-unlink k p xs end n h.2 apart.1 u.1 (ground arith)))
  ]

module _ (next prev : Ptr → Ptr) where
  -- The writes of addToFront link a node in after `start`.
  pub Chain-push :
      (node : Ptr) (e : Entry) (start : Ptr) (xs : Cells) (end : Ptr)
      → Chain next prev start xs end
      → Apart start xs end
      → (node =? start) ≡ false
      → has node xs end ≡ false
      → Chain
          (update (update next node (next start)) start node)
          (update (update prev node start) (next start) node)
          start
          ((node, e) ∷ xs)
          end
  Chain-push node e start [] end h apart ne out = ground arith
  Chain-push node e start ((q, d) ∷ xs) end h apart ne out =
      let spared : has (next start) xs end ≡ false = ground (arith, Apart-has q xs end apart.1) in
      let next' = update next node (next start) in
      let prev' = update prev node start in
      (
        ground arith,
        ground arith,
        (
          ground arith,
          ground arith,
          Chain-update_next next' (update prev' (next start) node) start node q xs end
              (Chain-update_prev next' prev' (next start) node q xs end
                (Chain-update_next next prev' node (next start) q xs end
                  (Chain-update_prev next prev node start q xs end h.2 (ground arith))
                  (ground arith) (ground arith))
                spared)
              (ground arith) (ground arith),
        ),
      )
