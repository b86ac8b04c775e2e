-- ===== src/Tandem/Followers.antt =====
-- What comes in at a replica of replica/client.go that is among the replicas of ws/handler.go, and no
-- collaborator.
use advo_cache.Base.{
  ℕ, ◌≡◌, refl, ◌∙◌, inl, inr, false, List, [], ◌∷◌, ◌++◌, String, ◌==◌, text_key, conn_key,
  if◌then◌else◌, ◌=?◌, Bool-cases,
}
use advo_cache.Message.{Message, replicate_evict, invalidate}
use advo_cache.Sheet.{Conn}
use advo_cache.Server.{Handler}
use advo_cache.Server.System.Members.{occurrences}
use advo_cache.Server.Writes.{to_all, others, followers, eviction_notices}
use advo_cache.Tandem.{inbox}
use advo_cache.Tandem.Inbox.{inbox-append, inbox-to_all_none, inbox-to_all_once}

module _ (conn p : ℕ) (h : Handler) where
  -- The answer, and one message to the collaborators and to the replicas.
  abbrev pub round : Message → Message → Message → List (Conn × Message)
  round answer m m' =
      (((conn, answer) ∷ []) ++ to_all (others conn p h) m) ++ to_all (followers conn p h) m'

module _ (conn rep p : ℕ) (h : Handler) (other : (conn =? rep) ≡ false)
    (apart : occurrences rep (others conn p h) ≡ 0)
    (once : occurrences rep (followers conn p h) ≡ 1) where
  pub not_for_it : (m : Message) → inbox rep (to_all (others conn p h) m) ≡ []
  not_for_it m = inbox-to_all_none rep (others conn p h) m apart

  pub for_it : (m : Message) → inbox rep (to_all (followers conn p h) m) ≡ m ∷ []
  for_it m = inbox-to_all_once rep (followers conn p h) m once

  pub told : (answer m m' : Message) → inbox rep (round conn p h answer m m') ≡ m' ∷ []
  unfolding inbox
  told answer m m' =
      inbox-append rep (((conn, answer) ∷ []) ++ to_all (others conn p h) m)
        (to_all (followers conn p h) m')
      ∙ rw
          (
            inbox-append rep ((conn, answer) ∷ []) (to_all (others conn p h) m),
            not_for_it m,
            for_it m',
            other,
          )
          refl

  pub told_eviction :
      (key : String)
      → inbox rep (eviction_notices conn p h key)
        ≡ (if key == "" then [] else replicate_evict (h.sheets.cells p).id key ∷ [])
  unfolding inbox
  told_eviction key = elim (Bool-cases (key == "")) [
    | inl quiet ↦ rw quiet refl
    | inr loud ↦
        rw
          (
            loud,
            inbox-append rep (to_all (others conn p h) (invalidate key "" ""))
                (to_all (followers conn p h) (replicate_evict (h.sheets.cells p).id key)),
            not_for_it (invalidate key "" ""),
            for_it (replicate_evict (h.sheets.cells p).id key),
          )
          refl
  ]
