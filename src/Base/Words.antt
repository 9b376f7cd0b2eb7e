-- ===== src/Base/Words.antt =====
-- uint64 arithmetic, with its wrap-around.
use Prim.Native.Nat.{ℕ, ◌+◌, ◌-◌, ◌%◌, ◌^◌, ◌≤◌, ◌<◌}
use mathlib.Core.Path.{◌≡◌}
use native.Mathlib.Omega.{arith}

abbrev pub u64_mod : ℕ
u64_mod = 2 ^ 64

-- x++
unfoldable pub inc64 : ℕ → ℕ
inc64 a = (a + 1) % u64_mod

-- x--
unfoldable pub dec64 : ℕ → ℕ
dec64 a = (a + u64_mod - 1) % u64_mod

-- x - y
unfoldable pub sub64 : ℕ → ℕ → ℕ
sub64 a b = (a + u64_mod - b % u64_mod) % u64_mod

pub inc64-eq : (a : ℕ) → a + 1 < u64_mod → inc64 a ≡ a + 1
unfolding inc64
inc64-eq a h = omega arith

pub dec64-inc64 : (a : ℕ) → a < u64_mod → dec64 (inc64 a) ≡ a
unfolding inc64 dec64
dec64-inc64 a h = omega arith

pub sub64-eq : (a b : ℕ) → a < u64_mod → b ≤ a → sub64 a b ≡ a - b
unfolding sub64
sub64-eq a b h k = omega arith
