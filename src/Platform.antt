-- ===== src/Platform.antt =====
-- What the simulator takes from the C and C++ libraries, as parameters with their documented
-- behaviour: the constant EINVAL of <errno.h>, and `log2` of <cmath> cut to a `uint64_t`.
use ece375_project.Base.{ℕ, ◌^◌, ◌<◌, ◌≡◌}

pub record Platform : Type 0 where
  -- POSIX: an error number is positive.
  pub einval : ℕ
  pub einval_pos : 0 < einval
  -- The base-2 logarithm of a power of two in range of a `double` is exact.
  pub log2 : ℕ → ℕ
  pub log2_pow : (k : ℕ) → k < 64 → log2 (2 ^ k) ≡ k
