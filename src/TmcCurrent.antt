-- ===== src/TmcCurrent.antt =====
-- src/tmc_current.c and include/tmc_current.h: motor currents as settings of the driver chip.
pub mod Nearest
use epi_pico2w_seringue.Prelude.{ℕ, ◌+◌, ◌*◌, ◌/◌, ◌||◌, ltb, ◌==◌, if◌then◌else◌, u8, u16, u32}
use epi_pico2w_seringue.Float.{Float, binary32, of_ℕ, decimal, ltf, lef, add, sub, mul, div, to_u32}

-- `tmc_internal_full_scale_mA`
unfoldable pub full_scale_ma : Float → ℕ
unfolding of_ℕ decimal lef add mul div to_u32
full_scale_ma rref =
    let peak =
      div binary32 (mul binary32 (of_ℕ binary32 5000) (of_ℕ binary32 3000))
        (add binary32 rref (of_ℕ binary32 1000)) in
    let rms = div binary32 peak (decimal binary32 141421356 100000000) in
    if lef rref (of_ℕ binary32 0)
    then 0
    else u16 (to_u32 binary32 (add binary32 rms (decimal binary32 1 2)))

-- `if(raw<0)raw=0;if(raw>31)raw=31;`
unfoldable pub clamp_scale : Float → Float
unfolding of_ℕ ltf
clamp_scale raw =
    let low = if ltf raw (of_ℕ binary32 0) then of_ℕ binary32 0 else raw in
    if ltf (of_ℕ binary32 31) low then of_ℕ binary32 31 else low

-- `tmc_internal_current_scale_from_mA`
unfoldable pub current_scale_from_ma : ℕ → Float → ℕ
unfolding full_scale_ma clamp_scale sub
current_scale_from_ma ma rref =
    let full = full_scale_ma rref in
    let scaled =
      div binary32 (mul binary32 (of_ℕ binary32 ma) (of_ℕ binary32 32)) (of_ℕ binary32 full) in
    let raw = clamp_scale (sub binary32 scaled (of_ℕ binary32 1)) in
    if ma == 0 || full == 0
    then 0
    else u8 (to_u32 binary32 (add binary32 raw (decimal binary32 1 2)))

-- `tmc_internal_current_mA_from_scale`
unfoldable pub current_ma_from_scale : ℕ → Float → ℕ
unfolding full_scale_ma
current_ma_from_scale scale rref =
    let full = full_scale_ma rref in
    let cs = if ltb 31 scale then 31 else scale in
    if full == 0 then 0 else u16 (u32 ((cs + 1) * full + 16) / 32)
