-- ===== src/TmcCurrent/Nearest.antt =====
-- The current that src/tmc_current.c sets.
use epi_pico2w_seringue.Prelude.{
  ℕ, ◌+◌, ◌-◌, ◌≤◌, ◌≡◌, refl, subst, Bool, true, ◌&&◌, leb, all_below, all_below_sound, arith,
}
use epi_pico2w_seringue.Float.{of_ℕ}
use epi_pico2w_seringue.DeviceConfig.{DeviceConfig, validate}
use epi_pico2w_seringue.DeviceConfig.Valid.{validate_iff}
use epi_pico2w_seringue.Tmc5130.{internal_rref_ohm}
use epi_pico2w_seringue.TmcCurrent.{current_scale_from_ma, current_ma_from_scale}

-- The scale of a current fits in the five bits of IHOLD_IRUN, and the current that it stands for is at
-- most 20 mA from it.
abbrev pub IsNear : ℕ → Type 0
IsNear ma =
    let cs = current_scale_from_ma ma internal_rref_ohm in
    let set = current_ma_from_scale cs internal_rref_ohm in
    (cs ≤ 31) × (set ≤ ma + 20) × (ma ≤ set + 20)

is_near : ℕ → ℕ → Bool
is_near start k =
    let ma = start + k in
    let cs = current_scale_from_ma ma internal_rref_ohm in
    let set = current_ma_from_scale cs internal_rref_ohm in
    leb cs 31 && leb set (ma + 20) && leb ma (set + 20)

table : all_below 1001 (is_near 200) ≡ true
unfolding is_near current_scale_from_ma current_ma_from_scale of_ℕ
table = refl

split_tests :
    (cs set ma : ℕ)
    → (leb cs 31 && leb set (ma + 20) && leb ma (set + 20)) ≡ true
    → (cs ≤ 31) × (set ≤ ma + 20) × (ma ≤ set + 20)
split_tests cs set ma h = ground arith

near : (ma : ℕ) → 200 ≤ ma → ma ≤ 1200 → IsNear ma
unfolding is_near
near ma low high =
    let at : 200 + (ma - 200) ≡ ma = omega arith in
    let tested = all_below_sound 1001 (is_near 200) (ma - 200) table (omega arith) in
    subst IsNear at (split_tests _ _ (200 + (ma - 200)) tested)

-- For settings that the validation accepts, the scales of the run and the hold current fit in five bits,
-- and the currents that the chip is set to are at most 20 mA from those asked for.
pub validate-IsNear :
    (c : DeviceConfig)
    → validate c ≡ true
    → IsNear c.motor_run_current_ma × IsNear c.motor_hold_current_ma
validate-IsNear c h =
    let v = (validate_iff c).0 h in
    (
      near c.motor_run_current_ma v.run_current.0 v.run_current.1,
      near c.motor_hold_current_ma v.hold_current.0
          (omega (arith, v.hold_current.1, v.run_current.1)),
    )
