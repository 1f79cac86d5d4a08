-- ===== src/App/Settings.antt =====
-- `apply_config_value` of src/app_tasks.c.
use epi_pico2w_seringue.Prelude.{
  ℕ, Bool, true, false, not, ◌&&◌, ◌||◌, Option, none, some, if◌then◌else◌, u16,
}
use epi_pico2w_seringue.Float.{Float, binary32, is_finite, ltf, eqf, neg, trunc, to_u32, to_i32}
use epi_pico2w_seringue.Board.{M, pure, ◌>>=◌}
use epi_pico2w_seringue.CommandApi.{ConfigParam}
use epi_pico2w_seringue.ConfigStore
use epi_pico2w_seringue.DeviceConfig.{DeviceConfig, float, validate}
use epi_pico2w_seringue.Flash.{Build}
use epi_pico2w_seringue.Motor.{MotorConfig, config_valid}
use epi_pico2w_seringue.App.{App}

-- the `motor_config_t` of the settings, built here and in `app_tasks_start`
unfoldable pub motor_config_of : DeviceConfig → MotorConfig
motor_config_of c = record {
  motor_steps_per_rev = c.motor_steps_per_rev;
  microsteps = c.microsteps;
  motor_run_current_ma = c.motor_run_current_ma;
  motor_hold_current_ma = c.motor_hold_current_ma;
  screw_pitch_mm = c.screw_pitch_mm;
  manual_speed_mm_s = c.manual_speed_mm_s;
  a1_mm_s2 = c.a1_mm_s2;
  amax_mm_s2 = c.amax_mm_s2;
  dmax_mm_s2 = c.dmax_mm_s2;
  d1_mm_s2 = c.d1_mm_s2;
}

-- the parameters kept in a `uint16_t`, and those in a `uint32_t`
abbrev pub is_u16 : ConfigParam → Bool
is_u16 ConfigParam.motor_steps_per_rev = true
is_u16 ConfigParam.microsteps = true
is_u16 ConfigParam.run_current_ma = true
is_u16 ConfigParam.hold_current_ma = true
is_u16 ConfigParam.stallguard_warning = true
is_u16 ConfigParam.stallguard_critical = true
is_u16 ConfigParam.stallguard_filter_count = true
is_u16 _ = false

abbrev pub is_u32 : ConfigParam → Bool
is_u32 ConfigParam.retract_delay_ms = true
is_u32 ConfigParam.manual_timeout_ms = true
is_u32 _ = false

abbrev pub is_threshold : ConfigParam → Bool
is_threshold ConfigParam.stallguard_threshold = true
is_threshold _ = false

abbrev pub is_enabled : ConfigParam → Bool
is_enabled ConfigParam.stallguard_enabled = true
is_enabled _ = false

-- `value<low||value>high||truncf(value)!=value`
unfoldable pub not_whole : Float → Float → Float → Bool
not_whole low high value = ltf value low || ltf high value || not (eqf (trunc binary32 value) value)

-- the returns before the `switch`
unfoldable pub refused : ConfigParam → Float → Bool
unfolding not_whole
refused p value =
    not (is_finite value)
    || (is_u16 p && not_whole (float 0) (float 65535) value)
    || (is_u32 p && not_whole (float 0) (float 4294967040) value)
    || (is_threshold p && not_whole (neg (float 64)) (float 63) value)
    || (is_enabled p && not (eqf value (float 0)) && not (eqf value (float 1)))

-- the casts to `uint16_t` and `uint32_t`
abbrev pub as_u16 : Float → ℕ
as_u16 value = u16 (to_u32 binary32 value)

abbrev pub as_u32 : Float → ℕ
as_u32 value = to_u32 binary32 value

-- the `switch`; `none` is its `default`
unfoldable pub with_value : ConfigParam → Float → DeviceConfig → Option DeviceConfig
with_value ConfigParam.none x c = none
with_value ConfigParam.screw_pitch_mm x c = some (record c { screw_pitch_mm = x })
with_value ConfigParam.motor_steps_per_rev x c = some (record c { motor_steps_per_rev = as_u16 x })
with_value ConfigParam.microsteps x c = some (record c { microsteps = as_u16 x })
with_value ConfigParam.run_current_ma x c = some (record c { motor_run_current_ma = as_u16 x })
with_value ConfigParam.hold_current_ma x c = some (record c { motor_hold_current_ma = as_u16 x })
with_value ConfigParam.manual_speed_mm_s x c = some (record c { manual_speed_mm_s = x })
with_value ConfigParam.dosing_speed_mm_s x c = some (record c { dosing_speed_mm_s = x })
with_value ConfigParam.trigger_dose_mm x c = some (record c { trigger_dose_mm = x })
with_value ConfigParam.a1_mm_s2 x c = some (record c { a1_mm_s2 = x })
with_value ConfigParam.amax_mm_s2 x c = some (record c { amax_mm_s2 = x })
with_value ConfigParam.dmax_mm_s2 x c = some (record c { dmax_mm_s2 = x })
with_value ConfigParam.d1_mm_s2 x c = some (record c { d1_mm_s2 = x })
with_value ConfigParam.retract_distance_mm x c = some (record c { retract_distance_mm = x })
with_value ConfigParam.retract_speed_mm_s x c = some (record c { retract_speed_mm_s = x })
with_value ConfigParam.retract_delay_ms x c = some (record c { retract_delay_ms = as_u32 x })
with_value ConfigParam.position_min_mm x c = some (record c { position_min_mm = x })
with_value ConfigParam.position_max_mm x c = some (record c { position_max_mm = x })
with_value ConfigParam.manual_timeout_ms x c = some (record c { manual_timeout_ms = as_u32 x })
with_value ConfigParam.stallguard_threshold x c =
    some (record c { stallguard_threshold = to_i32 binary32 x })
with_value ConfigParam.stallguard_warning x c =
    some (record c { stallguard_warning_level = as_u16 x })
with_value ConfigParam.stallguard_critical x c =
    some (record c { stallguard_critical_level = as_u16 x })
with_value ConfigParam.stallguard_filter_count x c =
    some (record c { stallguard_filter_count = as_u16 x })
with_value ConfigParam.stallguard_enabled x c =
    some (record c { stallguard_enabled = if eqf x (float 0) then 0 else 1 })

-- the end of `apply_config_value`, at the settings with the new value
unfoldable pub adopt : Build → App → Option DeviceConfig → M (Bool × App)
adopt build s none = pure (false, s)
adopt build s (some next) =
    if not (validate next) || not (config_valid (motor_config_of next)) then pure (false, s) else do
      (saved, stored) ← ConfigStore.save build next
      pure (saved, (if saved then record s { config = stored } else s))

-- `apply_config_value`
unfoldable pub apply_config_value : Build → App → ConfigParam → Float → M (Bool × App)
unfolding adopt
apply_config_value build s p value =
    if refused p value then pure (false, s) else adopt build s (with_value p value s.config)
