-- ===== src/Reader/Connect.antt =====
-- How a reader of reader/reader.go gets a connection.
use mathlib.Core.Path.{subst}
use advo_cache.Base.{
  ◌≡◌, refl, true, false, ◌⊎◌, inl, inr, List, [], ◌∷◌, Option, none, some, String, arith, ◌==◌,
  text_key, sym, Bool-cases, Option-cases,
}
use advo_cache.Base.Dict.{Dict}
use advo_cache.Value.{Value}
use advo_cache.Message.{Message}
use advo_cache.Reader.{
  Reader, ReaderError, Attempt, await, connect_to, connected_to, success_of, error_of, state_of,
  auth_failed, load_state,
}

-- A sheet state is among the messages.
abbrev pub Arrives : Dict String Value → List Message → Type 0
Arrives state [] = ⊥
Arrives state (m ∷ ms) = (state_of m ≡ some state) ⊎ Arrives state ms

-- A sheet state is among the messages that follow a response of success.
abbrev pub Accepted : Dict String Value → List Message → Type 0
Accepted state [] = ⊥
Accepted state (m ∷ ms) = ((success_of m ≡ true) × Arrives state ms) ⊎ Accepted state ms

-- What an attempt leaves: either an error, and the reader as it was; or no error, and the reader
-- with a sheet state of which the predicate holds.
abbrev Loaded : (Dict String Value → Type 0) → Reader → Reader × Option ReaderError → Type 0
Loaded P r (r', none) = (state : Dict String Value) × P state × (r' ≡ load_state state r)
Loaded P r (r', some e) = r' ≡ r

Loaded-weaken :
    (P Q : Dict String Value → Type 0) (r : Reader) (run : Reader × Option ReaderError)
    → ((state : Dict String Value) → P state → Q state)
    → Loaded P r run
    → Loaded Q r run
Loaded-weaken P Q r (r', none) f (state, holds, same) = (state, f state holds, same)
Loaded-weaken P Q r (r', some e) f same = same

await-Arrives : (ms : List Message) (r : Reader) → Loaded (λ s. Arrives s ms) r (await true ms r)
unfolding await
await-Arrives [] r = refl
await-Arrives (m ∷ ms) r = elim (Option-cases (state_of m)) [
  | inl other ↦ subst (Loaded (λ s. Arrives s (m ∷ ms)) r) (sym (skips other)) (
      Loaded-weaken (λ s. Arrives s ms) (λ s. Arrives s (m ∷ ms)) r (await true ms r) (λ s h. inr h)
        (await-Arrives ms r))
  | inr (state, found) ↦
      subst (Loaded (λ s. Arrives s (m ∷ ms)) r) (sym (loads state found)) (state, inl found, refl)
]
  where
    skips : state_of m ≡ none → await true (m ∷ ms) r ≡ await true ms r
    skips other = ground arith

    loads :
        (state : Dict String Value)
        → state_of m ≡ some state
        → await true (m ∷ ms) r ≡ (load_state state r, none)
    loads state found = ground arith

await-Accepted : (ms : List Message) (r : Reader) → Loaded (λ s. Accepted s ms) r (await false ms r)
unfolding await
await-Accepted [] r = refl
await-Accepted (m ∷ ms) r = elim (Bool-cases (success_of m)) [
  | inl welcome ↦ subst (Loaded (λ s. Accepted s (m ∷ ms)) r) (sym (goes_in welcome)) (
      Loaded-weaken (λ s. Arrives s ms) (λ s. Accepted s (m ∷ ms)) r (await true ms r)
        (λ s h. inl (welcome, h)) (await-Arrives ms r))
  | inr waits ↦ elim (Bool-cases (error_of m == "")) [
    | inr refused ↦ subst (Loaded (λ s. Accepted s (m ∷ ms)) r) (sym (refuses waits refused)) refl
    | inl goes ↦ subst (Loaded (λ s. Accepted s (m ∷ ms)) r) (sym (goes_on waits goes)) (
        Loaded-weaken (λ s. Accepted s ms) (λ s. Accepted s (m ∷ ms)) r (await false ms r)
          (λ s h. inr h) (await-Accepted ms r))
  ]
]
  where
    goes_in : success_of m ≡ true → await false (m ∷ ms) r ≡ await true ms r
    goes_in welcome = ground arith

    refuses :
        success_of m ≡ false
        → (error_of m == "") ≡ false
        → await false (m ∷ ms) r ≡ (r, some auth_failed)
    refuses waits refused = ground arith

    goes_on :
        success_of m ≡ false → (error_of m == "") ≡ true → await false (m ∷ ms) r ≡ await false ms r
    goes_on waits goes = ground arith

-- A reader with a connection to the address and a sheet state of which the predicate holds as its local
-- copy; or, with an error, the reader as it was.
abbrev pub Settled :
    (Dict String Value → Type 0) → String → Reader → Reader × Option ReaderError → Type 0
Settled P addr r (r', none) =
    (state : Dict String Value) × P state
    × (r' ≡ record (load_state state r) { has_conn = true; connected = true; current_addr = addr })
Settled P addr r (r', some e) = r' ≡ r

connected_to-Settled :
    (P : Dict String Value → Type 0) (addr : String) (r : Reader)
    (run : Reader × Option ReaderError)
    → Loaded P r run
    → Settled P addr r (connected_to addr run)
connected_to-Settled P addr r (r', none) (state, holds, same) = (state, holds, ground arith)
connected_to-Settled P addr r (r', some e) same = same

-- An attempt to connect either fails, with an error, and leaves the reader as it was; or it returns no
-- error, and the reader is connected to that address, with a sheet state as its local copy that came
-- in after a response of success.
pub connect_to-Settled :
    (addr : String) (a : Attempt) (r : Reader)
    → Settled (λ s. Accepted s a.incoming) addr r (connect_to addr a r)
unfolding connect_to
connect_to-Settled addr a r = elim (Bool-cases a.dialed) [
  | inr failed ↦ rw failed refl
  | inl dialed ↦ elim (Bool-cases a.wrote) [
    | inr failed ↦ rw (dialed, failed) refl
    | inl wrote ↦
        rw (dialed, wrote)
          (connected_to-Settled (λ s. Accepted s a.incoming) addr r (await false a.incoming r)
            (await-Accepted a.incoming r))
  ]
]
