-- ===== src/Sheet/Tests.antt =====
-- The theorems on sheets, with a hash that is the password after a mark.
use Prim.Native.String.{◌++◌}
use text.Mathlib.TextLemmas.{append_cancel_left}
use advo_cache.Base.{
  ◌≡◌, refl, [], none, some, String, arith, ◌==◌, text_key, eq_iff, if◌then◌else◌,
}
use advo_cache.Base.Dict.{lookup, insert, remove}
use advo_cache.Sheet.{Bcrypt, Sheet, Sheets, ok, err, invalid_password, get_or_create_sheet}
use advo_cache.Sheet.Tenancy.{Verifies, new_lem, open-open}
use advo_cache.Base.{ℕ, zero, suc, ◌∷◌, false}
use advo_cache.Sheet.{get_sheet}
use advo_cache.Sheet.Race.{System, start, created, done, step, move, run, check}
use advo_cache.Sheet.Race.Sharing.{run-shares}
use advo_cache.Sheet.Promoted.{turn, schedule, both_entered}

abbrev marked : Bcrypt
marked = record { generate = λ _ p. some ("$" ++ p); compare = λ hash q. hash == ("$" ++ q) }

marked-Verifies : Verifies marked
marked-Verifies salt p q hash e =
    ground (arith, eq_iff hash ("$" ++ q), eq_iff p q, append_cancel_left "$" p q, e)

abbrev pw : String
pw = "pw"

abbrev bar : String
bar = "bar"

abbrev promoted : Sheet
promoted = record { id = "shop"; password_hash = none; cache = new_lem.0; collaborators = [] }

abbrev none_yet : Sheets
none_yet = record { cells = λ _. promoted; fresh = 1; by_id = [] }

open-open_example :
    (m₁ m₂ : Sheets) × (get_or_create_sheet marked "bar" "pw" 0 none_yet ≡ some (m₁, ok 1))
    × (get_or_create_sheet marked "bar" "no" 0 m₁
        ≡ some (m₂, if pw == "no" then ok 1 else err invalid_password))
    × (m₂.by_id ≡ m₁.by_id)
unfolding lookup
open-open_example =
    open-open marked none_yet "bar" "pw" "no" 0 0 "$pw" marked-Verifies
      (ground (arith, eq_iff "bar" "")) (ground (arith, eq_iff "pw" ""))
      (ground (arith, eq_iff "no" "")) refl refl

-- Two clients have both made a sheet, for the same password.
abbrev fresh_sheet : Sheet
fresh_sheet = record promoted { password_hash = some "$pw" }

abbrev same_password : ℕ → String
same_password _ = "pw"

abbrev racing : System
racing = record { sheets = none_yet; stages = λ _. created fresh_sheet }

abbrev first : ℕ
first = 1

run-shares_example :
    (first ≡ first)
    × (same_password 0 ≡ same_password 1)
    × (get_sheet "shop" (run marked "shop" same_password (turn 0 5 ∷ turn 1 6 ∷ []) racing).sheets
        ≡ some 1)
unfolding lookup insert remove run move step check
run-shares_example =
    run-shares marked "shop" same_password marked-Verifies (turn 0 5 ∷ turn 1 6 ∷ []) racing 0 1 1 1
      (refl, λ i. (0, "$pw", refl, refl)) refl refl

abbrev passwords : ℕ → String
passwords zero = "pw"
passwords (suc n) = "bar"

abbrev standby : System
standby = record {
  sheets = record { cells = λ _. promoted; fresh = 1; by_id = ("shop", 0) ∷ [] };
  stages = λ _. start;
}

both_entered_example :
    (end : System) × (run marked "shop" passwords (schedule 0 1 5 6) standby ≡ end)
    × (end.stages 0 ≡ done (ok 0))
    × (end.stages 1 ≡ done (ok 0))
    × ((end.sheets.cells 0).password_hash ≡ some "$bar")
    × (marked.compare "$bar" "pw" ≡ false)
unfolding lookup
both_entered_example =
    both_entered marked "shop" passwords standby 0 1 5 6 0 "$pw" "$bar" marked-Verifies refl
      (λ e. ground (arith, eq_iff "pw" "bar")) refl refl refl refl refl refl
