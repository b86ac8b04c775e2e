-- ===== src/Reader/Schedule.antt =====
-- The attempts of handleDisconnect of reader/reader.go, one after the other.
use mathlib.Core.Path.{subst}
use advo_cache.Base.{
  ℕ, zero, suc, ◌+◌, ◌≡◌, refl, Bool, true, false, not, ◌&&◌, ◌⊎◌, inl, inr, List, [], ◌∷◌, ◌++◌,
  none, some, String, arith, ◌==◌, text_key, if◌then◌else◌, sym, ap, ◌∙◌, length,
}
use advo_cache.Reader.{
  rounds, Reader, ReaderError, Attempt, Try, Outcome, connect_to, reconnected, gave_up, exhausted,
  stopped, tried,
}
use advo_cache.Reader.Connect.{Accepted, Settled}

-- So many attempts at one address.
abbrev pub attempts : ℕ → String → List String
attempts zero addr = []
attempts (suc n) addr = addr ∷ attempts n addr

-- An address that is configured, and that the reader was not connected to.
abbrev pub is_other : String → Reader → Bool
is_other addr r = not (addr == "") && not (r.current_addr == addr)

abbrev pub if_other : String → Reader → List String
if_other addr r = if is_other addr r then attempts (rounds r.config) addr else []

-- The addresses of all attempts, in order: the current one, the backup, the leader.
abbrev pub schedule : Reader → List String
schedule r =
    attempts (rounds r.config) r.current_addr
    ++ (if_other r.config.backup_addr r ++ if_other r.config.leader_addr r)

-- An attempt that succeeds: the reader is connected to the address, with a state that came in during
-- it.
abbrev pub Succeeds : Reader → String → Attempt → Reader × Outcome → Type 0
Succeeds r addr a (r', o) =
    ((connect_to addr a r).1 ≡ none)
    × (o ≡ reconnected)
    × Settled (λ state. Accepted state a.incoming) addr r (r', none)

abbrev pub Fails : Reader → String → Attempt → Type 0
Fails r addr a = (e : ReaderError) × ((connect_to addr a r).1 ≡ some e)

-- How the attempts at these addresses end, from a round on. None is left: the reader is as it was.
-- The reader is closed before the next one: it is as it was, too. The next one succeeds. Or it fails,
-- and the rest follow, by the same reader.
abbrev pub Ends : (ℕ → Try) → Reader → ℕ → List String → Reader × Outcome → Type 0
Ends tries r round [] run = run ≡ (r, exhausted)
Ends tries r round (addr ∷ rest) run =
    ((tries round ≡ stopped) × (run ≡ (r, gave_up)))
    ⊎ ((a : Attempt) × (tries round ≡ tried a)
        × (Succeeds r addr a run ⊎ (Fails r addr a × Ends tries r (suc round) rest run)))

abbrev pub is_over : Outcome → Bool
is_over exhausted = false
is_over _ = true

abbrev join : Reader × Outcome → Reader × Outcome → Reader × Outcome
join (r, exhausted) next = next
join run next = run

join-over : (run next : Reader × Outcome) → is_over run.1 ≡ true → join run next ≡ run
join-over (r, reconnected) next over = refl
join-over (r, gave_up) next over = refl
join-over (r, exhausted) next over = absurd (ground arith)

-- The attempts of one loop, and those of the next if the first ends without success.
Ends-join :
    (tries : ℕ → Try) (r : Reader) (xs ys : List String) (round end : ℕ)
    (run next : Reader × Outcome)
    → round + length xs ≡ end
    → Ends tries r round xs run
    → Ends tries r end ys next
    → Ends tries r round (xs ++ ys) (join run next)
Ends-join tries r [] ys round end run next at ended later =
    let e : end ≡ round = omega arith in rw ended (subst (λ n. Ends tries r n ys next) e later)
Ends-join tries r (addr ∷ xs) ys round end run next at (inl (halt, ended)) later =
    inl (halt, rw ended refl)
Ends-join tries r (addr ∷ xs) ys round end run next at (inr (a, this, inl success)) later = inr (
  a,
  this,
  inl (subst (Succeeds r addr a) (sym (join-over run next (ap is_over success.1))) success),
)
Ends-join tries r (addr ∷ xs) ys round end run next at (inr (a, this, inr (failed, more))) later =
    inr (
      a,
      this,
      inr (failed, Ends-join tries r xs ys (suc round) end run next (omega arith) more later),
    )

-- If none succeeded, the reader is the one that it was.
Ends-exhausted :
    (tries : ℕ → Try) (r : Reader) (xs : List String) (round : ℕ) (run : Reader × Outcome)
    → Ends tries r round xs run
    → (run ≡ (r, exhausted)) ⊎ (is_over run.1 ≡ true)
Ends-exhausted tries r [] round run ended = inl ended
Ends-exhausted tries r (addr ∷ xs) round run (inl (halt, ended)) = inr (rw ended refl)
Ends-exhausted tries r (addr ∷ xs) round run (inr (a, at, inl success)) = inr (ap is_over success.1)
Ends-exhausted tries r (addr ∷ xs) round run (inr (a, at, inr (failed, more))) =
    Ends-exhausted tries r xs (suc round) run more

-- What follows a loop, if it keeps an outcome that is final.
pub Ends-through :
    (tries : ℕ → Try) (r : Reader) (xs ys : List String) (round end : ℕ) (run : Reader × Outcome)
    (next : Reader × Outcome → Reader × Outcome)
    → round + length xs ≡ end
    → Ends tries r round xs run
    → ((o : Reader × Outcome) → is_over o.1 ≡ true → next o ≡ o)
    → Ends tries r end ys (next (r, exhausted))
    → Ends tries r round (xs ++ ys) (next run)
Ends-through tries r xs ys round end run next at ended keeps later =
    let joined = Ends-join tries r xs ys round end run (next (r, exhausted)) at ended later in
    elim (Ends-exhausted tries r xs round run ended) [
      | inl e ↦
          subst (Ends tries r round (xs ++ ys))
            (ap (λ o. join o (next (r, exhausted))) e ∙ ap next (sym e)) joined
      | inr over ↦
          subst (Ends tries r round (xs ++ ys)) (join-over run _ over ∙ sym (keeps run over)) joined
    ]

pub length-attempts : (n : ℕ) (addr : String) → length (attempts n addr) ≡ n
length-attempts zero addr = refl
length-attempts (suc n) addr = omega (arith, length-attempts n addr)
