-- ===== src/Prelude/Words.antt =====
-- Fixed-width unsigned integers as native numbers with the wrap-around written out.
use Prim.Native.Nat.{ℕ, ◌+◌, ◌-◌, ◌%◌, ◌<◌}
use mathlib.Core.Path.{◌≡◌}
use native.Mathlib.Omega.{arith}

abbrev pub u8 : ℕ → ℕ
u8 n = n % 256

abbrev pub u16 : ℕ → ℕ
u16 n = n % 65536

abbrev pub u32 : ℕ → ℕ
u32 n = n % 4294967296

-- `a - b` on `uint32_t`: the modulus is added first, since `-` on ℕ stops at 0.
abbrev pub sub32 : ℕ → ℕ → ℕ
sub32 a b = (a + 4294967296 - b) % 4294967296

-- A time difference is right across a wrap of the clock.
pub sub32-elapsed : (t d : ℕ) → d < 4294967296 → sub32 (u32 (t + d)) (u32 t) ≡ d
sub32-elapsed t d h = omega arith
