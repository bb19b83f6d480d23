-- ===== src/Prelude/Score.antt =====
-- Scores and signals. A float of the program stands here as a whole number of millionths: the
-- scores that the models bound by 0 and 1 as a ℕ of at most `one`, a signed signal as a ℤ.
use Prim.Native.Nat.{ℕ, zero, suc, ◌*◌}
use mathlib.Core.Option.{Option, none, some}
use scam2marke.Prelude.Int.{ℤ, pos}

abbrev pub one : ℕ
one = 1_000_000

-- n hundredths
abbrev pub cent : ℕ → ℕ
cent n = n * 10_000

-- Python's `x or d` on an optional float: both `None` and 0.0 fall through to `d`.
abbrev pub or_score : Option ℕ → ℕ → ℕ
or_score none d = d
or_score (some zero) d = d
or_score (some (suc n)) d = suc n

-- `x or 0.0` on a signed signal.
abbrev pub or_zero : Option ℤ → ℤ
or_zero none = pos 0
or_zero (some x) = x
