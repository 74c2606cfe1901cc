-- ===== src/Prelude/Clock.antt =====
-- Go's `time.Time` as nanoseconds since its zero value, and durations as nanoseconds. `t.IsZero()`
-- is `t == 0`; a difference that the source clamps by `max(0, …)` is the truncated `-`.
use Prim.Native.Nat.{ℕ}
use mathlib.Core.Bool.{Bool}
use heos_control.Prelude.Tests.{ltb, nat_beq, if◌then◌else◌}

abbrev pub Time : Type 0
Time = ℕ

abbrev pub second : ℕ
second = 1000000000

abbrev pub is_zero : Time → Bool
is_zero t = nat_beq t 0

abbrev pub before : Time → Time → Bool
before a b = ltb a b

-- `minTime` of internal/control/observation.go.
abbrev pub min_time : Time → Time → Time
min_time a b = if before a b then a else b
