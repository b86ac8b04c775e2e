-- ===== src/Time.antt =====
-- Instants and durations of Go's time package. An instant is the number of nanoseconds since Go's
-- zero time (the year 1); a duration is an int64, kept as its 64-bit pattern, so that the products
-- of config/config.go and ws/handler.go wrap as they do there.
use advo_cache.Base.{ℕ, ◌+◌, ◌-◌, ◌*◌, ◌%◌, ◌^◌, Bool, not, ◌&&◌, ◌||◌, ltb, if◌then◌else◌}

abbrev pub Time : Type 0
Time = ℕ

abbrev pub Duration : Type 0
Duration = ℕ

abbrev pub word : ℕ
word = 2 ^ 64

abbrev pub half : ℕ
half = 2 ^ 63

-- Whether a pattern stands for a number above zero.
abbrev pub is_positive : ℕ → Bool
is_positive w = ltb 0 w && ltb w half

-- t.Add(d)
abbrev pub add : Time → Duration → Time
add t d = if ltb d half then t + d else t + d - word

-- t.After(u)
abbrev pub after : Time → Time → Bool
after t u = ltb u t

abbrev pub second : Duration
second = 1000000000

abbrev pub minute : Duration
minute = 60 * second

-- time.Duration(n) * unit
abbrev pub times : ℕ → Duration → Duration
times n unit = (n * unit) % word

-- elapsed > limit, for a duration that is not negative
abbrev pub exceeds : Duration → Duration → Bool
exceeds elapsed limit = not (ltb limit half) || ltb limit elapsed
