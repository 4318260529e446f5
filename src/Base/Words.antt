-- ===== src/Base/Words.antt =====
-- Arithmetic on `uint64_t`, which wraps.
use Prim.Native.Nat.{ℕ, ◌+◌, ◌-◌, ◌%◌, ◌^◌, ◌≤◌, ◌<◌}
use mathlib.Core.Path.{◌≡◌}
use native.Mathlib.Omega.{arith}

abbrev pub u64_mod : ℕ
u64_mod = 2 ^ 64

-- ++n
unfoldable pub inc64 : ℕ → ℕ
inc64 n = (n + 1) % u64_mod

-- --n: at 0 it wraps to the greatest value.
unfoldable pub dec64 : ℕ → ℕ
dec64 n = (n + u64_mod - 1) % u64_mod

-- n - k
unfoldable pub sub64 : ℕ → ℕ → ℕ
sub64 n k = (n + u64_mod - k) % u64_mod

pub inc64-lt : (n : ℕ) → inc64 n < u64_mod
unfolding inc64
inc64-lt n = omega arith

pub inc64_exact : (n : ℕ) → n + 1 < u64_mod → inc64 n ≡ n + 1
unfolding inc64
inc64_exact n h = omega arith

pub dec64_exact : (n : ℕ) → n < u64_mod → 0 < n → dec64 n ≡ n - 1
unfolding dec64
dec64_exact n h p = omega arith

pub sub64_exact : (n k : ℕ) → n < u64_mod → k ≤ n → sub64 n k ≡ n - k
unfolding sub64
sub64_exact n k h p = omega arith
