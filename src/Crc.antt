-- ===== src/Crc.antt =====
-- The `crc32` of src/config_store.c and src/statistics.c, which are the same function.
pub mod Width
use epi_pico2w_seringue.Prelude.{ℕ, zero, suc, ◌/◌, ◌%◌, List, [], ◌∷◌, bit_and, bit_xor, sub32}

-- `c=(c>>1)^(0xedb88320u&(0u-(c&1u)))`
unfoldable pub shift : ℕ → ℕ
shift c = bit_xor (c / 2) (bit_and 0xedb88320 (sub32 0 (c % 2)))

-- the inner loop
unfoldable pub shifts : ℕ → ℕ → ℕ
unfolding shift
shifts zero c = c
shifts (suc i) c = shifts i (shift c)

-- the outer loop
unfoldable pub crc_from : ℕ → List ℕ → ℕ
unfolding shifts
crc_from c [] = c
crc_from c (p ∷ ps) = crc_from (shifts 8 (bit_xor c p)) ps

-- `~c` on 32 bits
unfoldable pub crc32 : List ℕ → ℕ
unfolding crc_from
crc32 bytes = bit_xor (crc_from 0xffffffff bytes) 0xffffffff
