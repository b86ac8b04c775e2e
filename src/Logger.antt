-- ===== src/Logger.antt =====
-- logger/logger.go: the messages that pass the level. `written` is what the three loggers of the log
-- package print, in order; their colours and dates are left out. A level is
-- an int that no caller sets below 0.
use advo_cache.Base.{
  ℕ, ◌≡◌, refl, ◌∙◌, sym, ap, List, [], ◌∷◌, ◌++◌, String, leb, if◌then◌else◌, keep, inl, inr,
  Bool-cases,
}
use mathlib.Core.List.{append-nil, append_assoc}

-- InfoLevel, WarningLevel and ErrorLevel.
pub data Level : Type 0 where
  info_level warning_level error_level : Level

-- iota
abbrev number : Level → ℕ
number info_level = 0
number warning_level = 1
number error_level = 2

pub record Logger : Type 0 where
  pub level : ℕ
  pub written : List (Level × String)

-- The logger that `init` makes.
abbrev initial : Logger
initial = record { level = 0; written = [] }

unfoldable set_level : ℕ → Logger → Logger
set_level level l = record l { level = level }

-- The three functions differ in their level and in where they print.
abbrev log : Level → String → Logger → Logger
log at message l =
    if leb l.level (number at) then record l { written = l.written ++ (at, message) ∷ [] } else l

unfoldable info : String → Logger → Logger
info = log info_level

unfoldable warning : String → Logger → Logger
warning = log warning_level

unfoldable error : String → Logger → Logger
error = log error_level

unfoldable call : Level → String → Logger → Logger
unfolding info warning error
call info_level = info
call warning_level = warning
call error_level = error

-- Some calls, one after the other.
unfoldable run_calls : List (Level × String) → Logger → Logger
unfolding call
run_calls [] l = l
run_calls ((at, message) ∷ calls) l = run_calls calls (call at message l)

call_lem : (at : Level) (message : String) (l : Logger) → call at message l ≡ log at message l
unfolding call info warning error
call_lem info_level message l = refl
call_lem warning_level message l = refl
call_lem error_level message l = refl

-- At a fixed level, what is printed is the calls at that level and above, in order.
run_calls-keep :
    (calls : List (Level × String)) (l : Logger)
    → run_calls calls l
      ≡ record l { written = l.written ++ keep (λ c. leb l.level (number c.0)) calls }
unfolding run_calls keep
run_calls-keep [] l = ap (λ w. record l { written = w }) (sym (append-nil l.written))
run_calls-keep ((at, message) ∷ calls) l =
    ap (run_calls calls) (call_lem at message l) ∙ (elim (Bool-cases (leb l.level (number at))) [
      | inl passes ↦ rw passes (
          run_calls-keep calls (record l { written = l.written ++ (at, message) ∷ [] })
          ∙ ap (λ w. record l { written = w }) (append_assoc l.written _ _))
      | inr dropped ↦ rw dropped (run_calls-keep calls l)
    ])
