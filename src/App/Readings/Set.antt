-- ===== src/App/Readings/Set.antt =====
-- The `switch` of `apply_config_value` of src/app_tasks.c sets the parameter and nothing else.
use epi_pico2w_seringue.Prelude.{ℕ, ◌≡◌, refl, arith, false, some, none, Option}
use epi_pico2w_seringue.CommandApi.{ConfigParam}
use epi_pico2w_seringue.DeviceConfig.{DeviceConfig}
use epi_pico2w_seringue.Float.{Float}
use epi_pico2w_seringue.App.Settings.{refused, with_value}
use epi_pico2w_seringue.App.Readings.{
  reading, Sets, eqf_self, as_u16-whole, as_u32-whole, to_i32-whole, flag-whole,
}

abbrev pub SetIfAny : ConfigParam → Float → DeviceConfig → Option DeviceConfig → Type 0
SetIfAny p x c none = Unit
SetIfAny p x c (some d) = Sets p x c d

-- A value that is not refused is what the parameter then reads as, and every other one reads as before.
pub with_value-Sets :
    (p : ConfigParam) (x : Float) (c : DeviceConfig)
    → refused p x ≡ false
    → SetIfAny p x c (with_value p x c)
unfolding with_value reading refused
with_value-Sets ConfigParam.none x c fine = tt
with_value-Sets ConfigParam.screw_pitch_mm x c fine = record {
  value = eqf_self x (ground arith);
  others = λ q. ground arith;
  version = refl;
  baseline = refl;
  calibration = refl;
}
with_value-Sets ConfigParam.manual_speed_mm_s x c fine = record {
  value = eqf_self x (ground arith);
  others = λ q. ground arith;
  version = refl;
  baseline = refl;
  calibration = refl;
}
with_value-Sets ConfigParam.dosing_speed_mm_s x c fine = record {
  value = eqf_self x (ground arith);
  others = λ q. ground arith;
  version = refl;
  baseline = refl;
  calibration = refl;
}
with_value-Sets ConfigParam.trigger_dose_mm x c fine = record {
  value = eqf_self x (ground arith);
  others = λ q. ground arith;
  version = refl;
  baseline = refl;
  calibration = refl;
}
with_value-Sets ConfigParam.a1_mm_s2 x c fine = record {
  value = eqf_self x (ground arith);
  others = λ q. ground arith;
  version = refl;
  baseline = refl;
  calibration = refl;
}
with_value-Sets ConfigParam.amax_mm_s2 x c fine = record {
  value = eqf_self x (ground arith);
  others = λ q. ground arith;
  version = refl;
  baseline = refl;
  calibration = refl;
}
with_value-Sets ConfigParam.dmax_mm_s2 x c fine = record {
  value = eqf_self x (ground arith);
  others = λ q. ground arith;
  version = refl;
  baseline = refl;
  calibration = refl;
}
with_value-Sets ConfigParam.d1_mm_s2 x c fine = record {
  value = eqf_self x (ground arith);
  others = λ q. ground arith;
  version = refl;
  baseline = refl;
  calibration = refl;
}
with_value-Sets ConfigParam.retract_distance_mm x c fine = record {
  value = eqf_self x (ground arith);
  others = λ q. ground arith;
  version = refl;
  baseline = refl;
  calibration = refl;
}
with_value-Sets ConfigParam.retract_speed_mm_s x c fine = record {
  value = eqf_self x (ground arith);
  others = λ q. ground arith;
  version = refl;
  baseline = refl;
  calibration = refl;
}
with_value-Sets ConfigParam.position_min_mm x c fine = record {
  value = eqf_self x (ground arith);
  others = λ q. ground arith;
  version = refl;
  baseline = refl;
  calibration = refl;
}
with_value-Sets ConfigParam.position_max_mm x c fine = record {
  value = eqf_self x (ground arith);
  others = λ q. ground arith;
  version = refl;
  baseline = refl;
  calibration = refl;
}
with_value-Sets ConfigParam.motor_steps_per_rev x c fine = record {
  value = as_u16-whole x (ground arith);
  others = λ q. ground arith;
  version = refl;
  baseline = refl;
  calibration = refl;
}
with_value-Sets ConfigParam.microsteps x c fine = record {
  value = as_u16-whole x (ground arith);
  others = λ q. ground arith;
  version = refl;
  baseline = refl;
  calibration = refl;
}
with_value-Sets ConfigParam.run_current_ma x c fine = record {
  value = as_u16-whole x (ground arith);
  others = λ q. ground arith;
  version = refl;
  baseline = refl;
  calibration = refl;
}
with_value-Sets ConfigParam.hold_current_ma x c fine = record {
  value = as_u16-whole x (ground arith);
  others = λ q. ground arith;
  version = refl;
  baseline = refl;
  calibration = refl;
}
with_value-Sets ConfigParam.stallguard_warning x c fine = record {
  value = as_u16-whole x (ground arith);
  others = λ q. ground arith;
  version = refl;
  baseline = refl;
  calibration = refl;
}
with_value-Sets ConfigParam.stallguard_critical x c fine = record {
  value = as_u16-whole x (ground arith);
  others = λ q. ground arith;
  version = refl;
  baseline = refl;
  calibration = refl;
}
with_value-Sets ConfigParam.stallguard_filter_count x c fine = record {
  value = as_u16-whole x (ground arith);
  others = λ q. ground arith;
  version = refl;
  baseline = refl;
  calibration = refl;
}
with_value-Sets ConfigParam.retract_delay_ms x c fine = record {
  value = as_u32-whole x (ground arith);
  others = λ q. ground arith;
  version = refl;
  baseline = refl;
  calibration = refl;
}
with_value-Sets ConfigParam.manual_timeout_ms x c fine = record {
  value = as_u32-whole x (ground arith);
  others = λ q. ground arith;
  version = refl;
  baseline = refl;
  calibration = refl;
}
with_value-Sets ConfigParam.stallguard_threshold x c fine = record {
  value = to_i32-whole x (ground arith);
  others = λ q. ground arith;
  version = refl;
  baseline = refl;
  calibration = refl;
}
with_value-Sets ConfigParam.stallguard_enabled x c fine = record {
  value = flag-whole x (ground arith);
  others = λ q. ground arith;
  version = refl;
  baseline = refl;
  calibration = refl;
}

pub Sets-stamp :
    (p : ConfigParam) (x : Float) (c d : DeviceConfig) (sequence crc : ℕ)
    → Sets p x c d
    → Sets p x c (record d { sequence = sequence; crc = crc })
unfolding reading
Sets-stamp p x c d sequence crc h = record {
  value = rw (same p) h.value;
  others = λ q. rw (same q) (h.others q);
  version = h.version;
  baseline = h.baseline;
  calibration = h.calibration;
}
  where
    same : (q : ConfigParam) → reading q (record d { sequence = sequence; crc = crc }) ≡ reading q d
    same q = ground arith
