-- ===== src/Server/System/Members.antt =====
-- Who is in a sheet of sheet/sheet.go.
use advo_cache.Base.{
  ℕ, ◌+◌, ◌≤◌, refl, if◌then◌else◌, ◌≡◌, Bool, true, false, not, ◌&&◌, ◌||◌, List, [], ◌∷◌, arith,
  ◌=?◌, keep, length,
}
use advo_cache.Sheet.{Conn}

abbrev pub is_member : Conn → List Conn → Bool
is_member c [] = false
is_member c (d ∷ ds) = (d =? c) || is_member c ds

pub is_member-keep :
    (c d : Conn) (ds : List Conn)
    → is_member c (keep (λ e. not (e =? d)) ds) ≡ (not (d =? c) && is_member c ds)
unfolding keep
is_member-keep c d [] = ground arith
is_member-keep c d (e ∷ ds) = ground (arith, is_member-keep c d ds)

-- A list without members is empty, so its length is 0.
pub length-pos_of_is_member :
    (c : Conn) (ds : List Conn) → is_member c ds ≡ true → (length ds =? 0) ≡ false
length-pos_of_is_member c [] h = ground arith
length-pos_of_is_member c (d ∷ ds) h = ground arith

-- How often a connection is in a list.
abbrev pub occurrences : Conn → List Conn → ℕ
occurrences c [] = 0
occurrences c (d ∷ ds) = if d =? c then 1 + occurrences c ds else occurrences c ds

pub occurrences-keep :
    (c d : Conn) (ds : List Conn)
    → (d =? c) ≡ false
    → occurrences c (keep (λ e. not (e =? d)) ds) ≡ occurrences c ds
unfolding keep
occurrences-keep c d [] h = refl
occurrences-keep c d (e ∷ ds) h = ground (arith, occurrences-keep c d ds h)

pub occurrences-keep_self :
    (c : Conn) (ds : List Conn) → occurrences c (keep (λ e. not (e =? c)) ds) ≡ 0
unfolding keep
occurrences-keep_self c [] = refl
occurrences-keep_self c (e ∷ ds) = ground (arith, occurrences-keep_self c ds)

pub occurrences-pos_of_is_member :
    (c : Conn) (ds : List Conn) → is_member c ds ≡ true → 1 ≤ occurrences c ds
occurrences-pos_of_is_member c [] h = ground arith
occurrences-pos_of_is_member c (d ∷ ds) h = ground (arith, occurrences-pos_of_is_member c ds)
