-- ===== src/Time.antt =====
-- Instants and durations of Go's package time, as whole nanoseconds. An instant counts from the
-- zero time, 1 January of the year 1 UTC; a location plays no part, since every use is in UTC.
use Prim.Native.Nat.{◌/◌}
use nebula_mnemosina.Prelude.{ℕ, ◌*◌, ◌+◌, ◌-◌, ◌^◌, Bool, leb, ltb, if◌then◌else◌}
use nebula_mnemosina.Prelude.Int.{ℤ, pos, negsuc, ◌-ℤ◌, ltb_ℤ, pos_part, neg_part}

abbrev pub Time : Type 0
Time = ℤ

abbrev pub Duration : Type 0
Duration = ℤ

abbrev pub zero_time : Time
zero_time = pos 0

-- t.IsZero()
abbrev pub is_zero : Time → Bool
is_zero (pos n) = leb n 0
is_zero (negsuc n) = Bool.false

abbrev pub max_int64 : ℕ
max_int64 = 2 ^ 63 - 1

-- The nearest int64.
abbrev pub clamp_int64 : ℤ → ℤ
clamp_int64 (pos n) = if ltb max_int64 n then pos max_int64 else pos n
clamp_int64 (negsuc n) = if ltb max_int64 n then negsuc max_int64 else negsuc n

-- t.Sub(u), which saturates.
unfoldable pub sub : Time → Time → Duration
unfolding ◌-ℤ◌
sub t u = clamp_int64 (t -ℤ u)

-- t.Add(-d)
unfoldable pub before_by : Time → Duration → Time
unfolding ◌-ℤ◌
before_by t d = t -ℤ d

-- t.Before(u)
abbrev pub earlier : Time → Time → Bool
earlier = ltb_ℤ

-- int64(d / time.Millisecond): Go's division drops the fraction on either side of zero.
unfoldable pub whole_millis : Duration → ℤ
unfolding ◌-ℤ◌
whole_millis d = pos (pos_part d / 1_000_000) -ℤ pos (neg_part d / 1_000_000)

-- The instant in whole microseconds, rounded down: what a timestamptz of PostgreSQL keeps.
unfoldable pub micros : Time → Time
micros (pos n) = pos (n / 1_000 * 1_000)
micros (negsuc n) = negsuc (n / 1_000 * 1_000 + 999)
