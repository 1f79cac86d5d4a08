-- ===== src/App/Readings.antt =====
-- What a parameter of the settings is as a number, whatever the type of its field: a description of
-- `apply_config_value` of src/app_tasks.c that its `switch` and its casts are held against.
pub mod Set
use epi_pico2w_seringue.Prelude.{
  ℕ, zero, suc, ◌+◌, ◌*◌, ◌/◌, ◌^◌, ◌≤◌, ◌<◌, ◌≡◌, ◌⊎◌, refl, inl, inr, arith, Bool, true, false,
  not, ◌||◌, ◌&&◌, some, none, Option, Bool-cases, if◌then◌else◌, u16, min,
}
use epi_pico2w_seringue.Prelude.Int.{ℤ, pos, negsuc}
use epi_pico2w_seringue.CommandApi.{ConfigParam}
use epi_pico2w_seringue.DeviceConfig.{DeviceConfig, float}
use epi_pico2w_seringue.Float.{
  Float, nan, inf, fin, binary32, is_finite, eqf, ltf, neg, trunc, to_u32, to_i32, of_ℕ, negated,
}
use epi_pico2w_seringue.App.Settings.{refused, with_value, not_whole, as_u16, as_u32}

-- a whole number, exactly
abbrev pub whole_number : ℕ → Float
whole_number n = fin false (n * 2 ^ 149)

abbrev pub whole_number_ℤ : ℤ → Float
whole_number_ℤ (pos n) = whole_number n
whole_number_ℤ (negsuc n) = fin true (suc n * 2 ^ 149)

-- the value of a parameter
unfoldable pub reading : ConfigParam → DeviceConfig → Float
reading ConfigParam.none c = nan
reading ConfigParam.screw_pitch_mm c = c.screw_pitch_mm
reading ConfigParam.motor_steps_per_rev c = whole_number c.motor_steps_per_rev
reading ConfigParam.microsteps c = whole_number c.microsteps
reading ConfigParam.run_current_ma c = whole_number c.motor_run_current_ma
reading ConfigParam.hold_current_ma c = whole_number c.motor_hold_current_ma
reading ConfigParam.manual_speed_mm_s c = c.manual_speed_mm_s
reading ConfigParam.dosing_speed_mm_s c = c.dosing_speed_mm_s
reading ConfigParam.trigger_dose_mm c = c.trigger_dose_mm
reading ConfigParam.a1_mm_s2 c = c.a1_mm_s2
reading ConfigParam.amax_mm_s2 c = c.amax_mm_s2
reading ConfigParam.dmax_mm_s2 c = c.dmax_mm_s2
reading ConfigParam.d1_mm_s2 c = c.d1_mm_s2
reading ConfigParam.retract_distance_mm c = c.retract_distance_mm
reading ConfigParam.retract_speed_mm_s c = c.retract_speed_mm_s
reading ConfigParam.retract_delay_ms c = whole_number c.retract_delay_ms
reading ConfigParam.position_min_mm c = c.position_min_mm
reading ConfigParam.position_max_mm c = c.position_max_mm
reading ConfigParam.manual_timeout_ms c = whole_number c.manual_timeout_ms
reading ConfigParam.stallguard_threshold c = whole_number_ℤ c.stallguard_threshold
reading ConfigParam.stallguard_warning c = whole_number c.stallguard_warning_level
reading ConfigParam.stallguard_critical c = whole_number c.stallguard_critical_level
reading ConfigParam.stallguard_filter_count c = whole_number c.stallguard_filter_count
reading ConfigParam.stallguard_enabled c = whole_number c.stallguard_enabled

-- `d` is `c` with the parameter `p` at the number `x`, and nothing else changed
pub record Sets (p : ConfigParam) (x : Float) (c d : DeviceConfig) : Type 0 where
  pub value : eqf (reading p d) x ≡ true
  pub others : (q : ConfigParam) → (q ≡ p) ⊎ (reading q d ≡ reading q c)
  pub version : d.version ≡ c.version
  pub baseline : d.stallguard_baseline ≡ c.stallguard_baseline
  pub calibration : d.stallguard_calibration_speed_mm_s ≡ c.stallguard_calibration_speed_mm_s

pub eqf_self : (x : Float) → is_finite x ≡ true → eqf x x ≡ true
unfolding eqf is_finite
eqf_self x h = ground arith

-- the casts lose nothing where the guards let them happen
pub as_u16-whole :
    (x : Float)
    → not_whole (float 0) (float 65535) x ≡ false
    → eqf (whole_number (as_u16 x)) x ≡ true
unfolding not_whole float of_ℕ eqf ltf trunc to_u32
as_u16-whole nan h = ground arith
as_u16-whole (inf s) h = ground arith
as_u16-whole (fin true a) h = ground arith
as_u16-whole (fin false a) h = ground arith

pub as_u32-whole :
    (x : Float)
    → not_whole (float 0) (float 4294967040) x ≡ false
    → eqf (whole_number (as_u32 x)) x ≡ true
unfolding not_whole float of_ℕ eqf ltf trunc to_u32
as_u32-whole nan h = ground arith
as_u32-whole (inf s) h = ground arith
as_u32-whole (fin true a) h = ground arith
as_u32-whole (fin false a) h = ground arith

negated-whole : (k a : ℕ) → a ≡ k * 2 ^ 149 → eqf (whole_number_ℤ (negated k)) (fin true a) ≡ true
unfolding negated eqf
negated-whole zero a h = ground arith
negated-whole (suc k) a h = ground arith

pub to_i32-whole :
    (x : Float)
    → not_whole (neg (float 64)) (float 63) x ≡ false
    → eqf (whole_number_ℤ (to_i32 binary32 x)) x ≡ true
unfolding not_whole float of_ℕ eqf ltf trunc to_i32 neg
to_i32-whole nan h = ground arith
to_i32-whole (inf s) h = ground arith
to_i32-whole (fin true a) h = negated-whole (min (a / 2 ^ 149) 2147483648) a (ground arith)
to_i32-whole (fin false a) h = ground arith

pub flag-whole :
    (x : Float)
    → (not (eqf x (float 0)) && not (eqf x (float 1))) ≡ false
    → eqf (whole_number (if eqf x (float 0) then 0 else 1)) x ≡ true
unfolding float of_ℕ eqf
flag-whole nan h = ground arith
flag-whole (inf s) h = ground arith
flag-whole (fin true a) h = ground arith
flag-whole (fin false a) h = ground arith
