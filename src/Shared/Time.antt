-- ===== src/Shared/Time.antt =====
-- Instants and durations: microseconds, the resolution of Python's `datetime` and `timedelta`.
use Prim.Native.Nat.{ℕ, ◌*◌}

-- timedelta(seconds=n)
abbrev pub seconds : ℕ → ℕ
seconds n = n * 1_000_000

abbrev pub hours : ℕ → ℕ
hours n = n * 3_600_000_000
