-- ===== src/Reader/Local.antt =====
-- The writes of reader/reader.go: what they send, and what they do to the local copy.
use advo_cache.Base.{
  ◌≡◌, ◌↔◌, Bool, true, not, ◌&&◌, [], ◌∷◌, ◌++◌, none, some, String, arith, ◌==◌, text_key,
  if◌then◌else◌,
}
use advo_cache.Base.Dict.{lookup-insert, lookup-remove}
use advo_cache.Value.{Value}
use advo_cache.Reader.{Reader, set, delete, set_value, delete_key, get}

module _ (key : String) (v : Value) (wrote : Bool) (r : Reader) where
  -- Set returns no error exactly if the reader is open, connected and the write succeeds; then, and
  -- only then, the message is sent. An open, connected reader reads the value in either case, so also
  -- after a write that failed; otherwise no key reads differently.
  pub set_value_lem :
      (j : String)
      → (((set_value key v wrote r).1 ≡ none)
          ↔ ((not r.closed && (r.connected && (r.has_conn && wrote))) ≡ true))
        × (get j (set_value key v wrote r).0 ≡ (
            if not r.closed && r.connected then if key == j then some v else get j r else get j r))
        × ((set_value key v wrote r).0.sent ≡ (
            if not r.closed && (r.connected && (r.has_conn && wrote))
            then r.sent ++ set key v ∷ []
            else r.sent))
  unfolding set_value get
  set_value_lem j = (ground arith, ground (arith, lookup-insert key j v r.cache), ground arith)

  -- The same for Delete.
  delete_key_lem :
      (j : String)
      → (((delete_key key wrote r).1 ≡ none)
          ↔ ((not r.closed && (r.connected && (r.has_conn && wrote))) ≡ true))
        × (get j (delete_key key wrote r).0
            ≡ (if (not r.closed && r.connected) && (key == j) then none else get j r))
        × ((delete_key key wrote r).0.sent ≡ (
            if not r.closed && (r.connected && (r.has_conn && wrote))
            then r.sent ++ delete key ∷ []
            else r.sent))
  unfolding delete_key get
  delete_key_lem j = (ground arith, ground (arith, lookup-remove key j r.cache), ground arith)
