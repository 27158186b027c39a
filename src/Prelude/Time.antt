-- ===== src/Prelude/Time.antt =====
-- `time.Time` as nanoseconds since Go's zero time, `time.Duration` as an integer of nanoseconds.
use Prim.Native.Nat.{ℕ, ◌+◌}
use mathlib.Core.Bool.{Bool}
use statixagent.Prelude.Tests.{ltb}
use statixagent.Prelude.Int.{ℤ, pos_part, neg_part}

abbrev pub Time : Type 0
Time = ℕ

abbrev pub Duration : Type 0
Duration = ℤ

-- `a.Before(b)`
abbrev pub before : Time → Time → Bool
before a b = ltb a b

-- `a.Sub(b) < d`, and so `b.After(a.Add(-d))`: a - b < d, with no term moved below 0.
abbrev pub sub_lt : Time → Time → Duration → Bool
sub_lt a b d = ltb (a + neg_part d) (b + pos_part d)
