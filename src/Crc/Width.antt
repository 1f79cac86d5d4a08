-- ===== src/Crc/Width.antt =====
-- The checksum of src/config_store.c and src/statistics.c fits its `uint32_t`.
use epi_pico2w_seringue.Prelude.{
  ℕ, zero, suc, ◌/◌, ◌%◌, ◌^◌, ◌≤◌, ◌<◌, List, [], ◌∷◌, All, arith, bit_and, bit_xor, sub32, min,
}
use Prim.Native.Nat.{digits, differ, bit_and-bitwise, bit_xor-bitwise}
use native.Mathlib.Nat.{pow-suc}
use epi_pico2w_seringue.Crc.{shift, shifts, crc_from, crc32}

differ-digit : (a b : ℕ) → a < 2 → b < 2 → differ a b < 2
differ-digit zero b ha hb = hb
differ-digit (suc zero) zero ha hb = omega arith
differ-digit (suc zero) (suc zero) ha hb = omega arith
differ-digit (suc zero) (suc (suc b)) ha hb = absurd (omega arith)
differ-digit (suc (suc a)) b ha hb = absurd (omega arith)

xor_digits-lt : (n w a b : ℕ) → a < 2 ^ w → b < 2 ^ w → digits (λ d. d) differ n a b < 2 ^ w
xor_digits-lt zero w a b ha hb = hb
xor_digits-lt (suc n) w zero b ha hb = hb
xor_digits-lt (suc n) zero (suc a) b ha hb = absurd (omega arith)
xor_digits-lt (suc n) (suc w) (suc a) b ha hb = omega (
  arith,
  pow-suc 2 w,
  differ-digit (suc a % 2) (b % 2) (omega arith) (omega arith),
  xor_digits-lt n w (suc a / 2) (b / 2) (omega (arith, pow-suc 2 w)) (omega (arith, pow-suc 2 w)),
)

-- `a^b` fits where both do.
pub bit_xor-lt : (w a b : ℕ) → a < 2 ^ w → b < 2 ^ w → bit_xor a b < 2 ^ w
bit_xor-lt w a b ha hb = rw (bit_xor-bitwise a b) (xor_digits-lt a w a b ha hb)

and_digits-le : (n a b : ℕ) → digits (λ d. zero) min n a b ≤ a
and_digits-le zero a b = omega arith
and_digits-le (suc n) zero b = omega arith
and_digits-le (suc n) (suc a) b = omega (arith, and_digits-le n (suc a / 2) (b / 2))

bit_and-le : (a b : ℕ) → bit_and a b ≤ a
bit_and-le a b = rw (bit_and-bitwise a b) (and_digits-le a a b)

shift-lt : (c : ℕ) → c < 2 ^ 32 → shift c < 2 ^ 32
unfolding shift
shift-lt c h =
    bit_xor-lt 32 (c / 2) (bit_and 0xedb88320 (sub32 0 (c % 2))) (omega arith)
      (omega (arith, bit_and-le 0xedb88320 (sub32 0 (c % 2))))

shifts-lt : (i c : ℕ) → c < 2 ^ 32 → shifts i c < 2 ^ 32
unfolding shifts
shifts-lt zero c h = h
shifts-lt (suc i) c h = shifts-lt i (shift c) (shift-lt c h)

crc_from-lt :
    (c : ℕ) (bytes : List ℕ) → c < 2 ^ 32 → All (λ p. p < 256) bytes → crc_from c bytes < 2 ^ 32
unfolding crc_from
crc_from-lt c [] h small = h
crc_from-lt c (p ∷ ps) h small =
    crc_from-lt (shifts 8 (bit_xor c p)) ps
      (shifts-lt 8 (bit_xor c p) (bit_xor-lt 32 c p h (omega (arith, small.0)))) small.1

pub crc32-lt : (bytes : List ℕ) → All (λ p. p < 256) bytes → crc32 bytes < 2 ^ 32
unfolding crc32
crc32-lt bytes small =
    bit_xor-lt 32 (crc_from 0xffffffff bytes) 0xffffffff
      (crc_from-lt 0xffffffff bytes (omega arith) small) (omega arith)
