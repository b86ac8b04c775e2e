-- ===== src/Reader/Recovery.antt =====
-- What a reader of reader/reader.go does when it loses its connection.
use mathlib.Core.Path.{subst}
use advo_cache.Base.{
  ℕ, zero, suc, ◌+◌, ◌≡◌, refl, Bool, true, false, ◌⊎◌, inl, inr, List, [], ◌∷◌, ◌++◌, Option, none,
  some, String, arith, text_key, if◌then◌else◌, sym, ap, length,
}
use advo_cache.Reader.{
  rounds, Config, Reader, ReaderError, Attempt, Try, Outcome, connect_to, reconnected, gave_up,
  exhausted, retry, fail_over, handle_disconnect, stopped, tried,
}
use advo_cache.Reader.Connect.{Accepted, Settled, connect_to-Settled}
use advo_cache.Reader.Schedule.{
  Ends, Ends-through, attempts, if_other, is_other, is_over, length-attempts, schedule,
}

Try-cases : (t : Try) → (t ≡ stopped) ⊎ ((a : Attempt) × (t ≡ tried a))
Try-cases stopped = inl refl
Try-cases (tried a) = inr (a, refl)

after_attempt :
    (tries : ℕ → Try) (round : ℕ) (a : Attempt) (addr : String) (addrs : List String) (r : Reader)
    (run : Reader × Option ReaderError) (rest : Reader → Reader × Outcome)
    → tries round ≡ tried a
    → connect_to addr a r ≡ run
    → Settled (λ s. Accepted s a.incoming) addr r run
    → Ends tries r (suc round) addrs (rest r)
    → Ends tries r round
        (addr ∷ addrs)
        (elim run.1 [ none ↦ (run.0, reconnected) | some _ ↦ rest run.0 ])
after_attempt tries round a addr addrs r (r', none) rest at made (state, accepted, same) later =
    inr (a, at, inl (ap (λ x. x.1) made, refl, (state, accepted, same)))
after_attempt tries round a addr addrs r (r', some e) rest at made settled later =
    subst (λ x. Ends tries r round (addr ∷ addrs) (rest x)) (sym settled)
      (inr (a, at, inr ((e, ap (λ x. x.1) made), later)))

retry-Ends :
    (addr : String) (left round : ℕ) (tries : ℕ → Try) (r : Reader)
    → Ends tries r round (attempts left addr) (retry addr left round tries r)
unfolding retry
retry-Ends addr zero round tries r = refl
retry-Ends addr (suc left) round tries r = elim (Try-cases (tries round)) [
  | inl e ↦ inl (e, stops e)
  | inr (a, e) ↦ subst (Ends tries r round (attempts (suc left) addr)) (sym (goes a e)) (
      after_attempt tries round a addr (attempts left addr) r (connect_to addr a r)
        (retry addr left (suc round) tries) e refl (connect_to-Settled addr a r)
        (retry-Ends addr left (suc round) tries r))
]
  where
    stops : tries round ≡ stopped → retry addr (suc left) round tries r ≡ (r, gave_up)
    stops e = ground arith

    goes :
        (a : Attempt)
        → tries round ≡ tried a
        → retry addr (suc left) round tries r ≡ elim (connect_to addr a r).1 [
          | none ↦ ((connect_to addr a r).0, reconnected)
          | some _ ↦ retry addr left (suc round) tries (connect_to addr a r).0
        ]
    goes a e = ground arith

fail_over-over :
    (b : Bool) (addr : String) (round : ℕ) (tries : ℕ → Try) (run : Reader × Outcome)
    → is_over run.1 ≡ true
    → fail_over b addr round tries run ≡ run
unfolding fail_over
fail_over-over true addr round tries (r, reconnected) over = refl
fail_over-over true addr round tries (r, gave_up) over = refl
fail_over-over true addr round tries (r, exhausted) over = absurd (ground arith)
fail_over-over false addr round tries run over = refl

-- A loop with its condition, entered when the one before it made all its attempts.
fail_over-Ends :
    (b : Bool) (addr : String) (round : ℕ) (tries : ℕ → Try) (r : Reader)
    → Ends tries r round
        (if b then attempts (rounds r.config) addr else [])
        (fail_over b addr round tries (r, exhausted))
unfolding fail_over
fail_over-Ends true addr round tries r = retry-Ends addr (rounds r.config) round tries r
fail_over-Ends false addr round tries r = refl

-- The reader that has lost its connection.
abbrev pub disconnected : Reader → Reader
disconnected r = record r { connected = false; has_conn = false }

-- The loops for the backup and for the leader, after the first one.
abbrev rest : ℕ → Config → (ℕ → Try) → Reader × Outcome → Reader × Outcome
rest n cfg tries (r₁, o₁) =
    let (r₂, o₂) = fail_over (is_other cfg.backup_addr r₁) cfg.backup_addr n tries (r₁, o₁) in
    fail_over (is_other cfg.leader_addr r₂) cfg.leader_addr
      (if is_other cfg.backup_addr r₁ then n + n else n) tries (r₂, o₂)

rest-over :
    (n : ℕ) (cfg : Config) (tries : ℕ → Try) (o : Reader × Outcome)
    → is_over o.1 ≡ true
    → rest n cfg tries o ≡ o
rest-over n cfg tries o over =
    rw (fail_over-over (is_other cfg.backup_addr o.0) cfg.backup_addr n tries o over)
      (fail_over-over (is_other cfg.leader_addr o.0) cfg.leader_addr _ tries o over)

length-if :
    (b : Bool) (n : ℕ) (addr : String)
    → n + length (if b then attempts n addr else []) ≡ (if b then n + n else n)
length-if true n addr = omega (arith, length-attempts n addr)
length-if false n addr = omega arith

rest-Ends :
    (tries : ℕ → Try) (r : Reader)
    → Ends tries r
        (rounds r.config)
        (if_other r.config.backup_addr r ++ if_other r.config.leader_addr r)
        (rest (rounds r.config) r.config tries (r, exhausted))
rest-Ends tries r =
    let cfg = r.config in
    let n = rounds cfg in
    let spent = if is_other cfg.backup_addr r then n + n else n in
    Ends-through tries r (if_other cfg.backup_addr r) (if_other cfg.leader_addr r) n spent
      (fail_over (is_other cfg.backup_addr r) cfg.backup_addr n tries (r, exhausted))
      (λ o. fail_over (is_other cfg.leader_addr o.0) cfg.leader_addr spent tries o)
      (length-if (is_other cfg.backup_addr r) n cfg.backup_addr)
      (fail_over-Ends (is_other cfg.backup_addr r) cfg.backup_addr n tries r)
      (λ o over. fail_over-over (is_other cfg.leader_addr o.0) cfg.leader_addr spent tries o over)
      (fail_over-Ends (is_other cfg.leader_addr r) cfg.leader_addr spent tries r)

unless_closed :
    (b : Bool) (tries : ℕ → Try) (r : Reader) (addrs : List String) (o run : Reader × Outcome)
    → b ≡ false
    → Ends tries r 0 addrs run
    → Ends tries r 0 addrs (if b then o else run)
unless_closed b tries r addrs o run e h = rw e h

-- An open reader that loses its connection makes attempts one after the other, as many as
-- configured at its current address, then at the backup and then at the leader, each of these two
-- if it is configured and not the current address. The first attempt that succeeds ends this: the
-- reader is connected to its address, with a sheet state that came in during it. If the reader is
-- closed before an attempt, or every attempt fails, it is unconnected and keeps its local copy.
pub handle_disconnect-Ends :
    (tries : ℕ → Try) (r : Reader)
    → r.closed ≡ false
    → Ends tries (disconnected r) 0 (schedule r) (handle_disconnect tries r)
unfolding handle_disconnect
handle_disconnect-Ends tries r live =
    let cfg = r.config in
    let n = rounds cfg in
    let first = retry r.current_addr n 0 tries (disconnected r) in
    unless_closed r.closed tries (disconnected r) (schedule r) _ (rest n cfg tries first) live (
      Ends-through tries (disconnected r) (attempts n r.current_addr) _ 0 n first (rest n cfg tries)
        (omega (arith, length-attempts n r.current_addr))
        (retry-Ends r.current_addr n 0 tries (disconnected r)) (rest-over n cfg tries)
        (rest-Ends tries (disconnected r)))
