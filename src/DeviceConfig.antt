-- ===== src/DeviceConfig.antt =====
-- include/device_config.h, include/board_config.h and src/device_config.c: the persistent
-- settings, their default values and their validation.
pub mod Valid
use epi_pico2w_seringue.Prelude.{
  ℕ, ◌-◌, Bool, false, not, ◌&&◌, ◌||◌, ltb, leb, ◌==◌, if◌then◌else◌, bit_and,
}
use epi_pico2w_seringue.Prelude.Int.{ℤ, pos, negsuc, ltb_ℤ}
use epi_pico2w_seringue.Float.{Float, binary32, of_ℕ, decimal, is_finite, ltf, lef}

-- `DEVICE_CONFIG_VERSION`
abbrev pub device_config_version : ℕ
device_config_version = 6

-- `TMC_INTERNAL_CURRENT_MIN_MA` and `TMC_INTERNAL_CURRENT_MAX_MA`
abbrev pub current_min_ma : ℕ
current_min_ma = 200

abbrev pub current_max_ma : ℕ
current_max_ma = 1200

-- a `float` constant that is a whole number
unfoldable pub float : ℕ → Float
unfolding of_ℕ
float n = of_ℕ binary32 n

-- `MAX_SPEED_MM_S` and `MAX_ACCEL_MM_S2`
abbrev pub max_speed_mm_s : Float
max_speed_mm_s = float 25

abbrev pub max_accel_mm_s2 : Float
max_accel_mm_s2 = float 300

-- `device_config_t`
pub record DeviceConfig : Type 0 where
  pub version : ℕ
  pub sequence : ℕ
  pub screw_pitch_mm : Float
  pub motor_steps_per_rev : ℕ
  pub microsteps : ℕ
  pub motor_run_current_ma : ℕ
  pub motor_hold_current_ma : ℕ
  pub manual_speed_mm_s : Float
  pub dosing_speed_mm_s : Float
  pub trigger_dose_mm : Float
  pub a1_mm_s2 : Float
  pub amax_mm_s2 : Float
  pub dmax_mm_s2 : Float
  pub d1_mm_s2 : Float
  pub retract_distance_mm : Float
  pub retract_speed_mm_s : Float
  pub retract_delay_ms : ℕ
  pub position_min_mm : Float
  pub position_max_mm : Float
  pub manual_timeout_ms : ℕ
  pub stallguard_threshold : ℤ
  pub stallguard_warning_level : ℕ
  pub stallguard_filter_count : ℕ
  pub stallguard_critical_level : ℕ
  pub stallguard_baseline : ℕ
  pub stallguard_calibration_speed_mm_s : Float
  pub stallguard_enabled : ℕ
  pub crc : ℕ

-- `device_config_defaults`: every field that it does not set is 0 by the `memset`
unfoldable pub defaults : DeviceConfig
unfolding float decimal
defaults = record {
  version = device_config_version;
  sequence = 0;
  screw_pitch_mm = float 2;
  motor_steps_per_rev = 200;
  microsteps = 16;
  motor_run_current_ma = 800;
  motor_hold_current_ma = 300;
  manual_speed_mm_s = float 5;
  dosing_speed_mm_s = float 5;
  trigger_dose_mm = decimal binary32 8 10;
  a1_mm_s2 = float 100;
  amax_mm_s2 = float 100;
  dmax_mm_s2 = float 100;
  d1_mm_s2 = float 100;
  retract_distance_mm = decimal binary32 1 10;
  retract_speed_mm_s = float 3;
  retract_delay_ms = 50;
  position_min_mm = float 0;
  position_max_mm = float 120;
  manual_timeout_ms = 30000;
  stallguard_threshold = pos 0;
  stallguard_warning_level = 0;
  stallguard_filter_count = 4;
  stallguard_critical_level = 0;
  stallguard_baseline = 0;
  stallguard_calibration_speed_mm_s = float 0;
  stallguard_enabled = 0;
  crc = 0;
}

-- `microsteps>256||!microsteps||(microsteps&(microsteps-1))`
unfoldable pub bad_microsteps : ℕ → Bool
bad_microsteps m = ltb 256 m || m == 0 || not (bit_and m (m - 1) == 0)

-- the first two returns of `device_config_validate`
unfoldable pub bad_mechanics : DeviceConfig → Bool
bad_mechanics c =
    not (c.version == device_config_version)
    || c.motor_steps_per_rev == 0
    || not (is_finite c.screw_pitch_mm)
    || lef c.screw_pitch_mm (float 0)
    || bad_microsteps c.microsteps

unfoldable pub bad_threshold : ℤ → Bool
bad_threshold t = ltb_ℤ t (negsuc 63) || ltb_ℤ (pos 63) t

-- the third return
unfoldable pub bad_stallguard : DeviceConfig → Bool
bad_stallguard c =
    not (c.stallguard_enabled == 0)
    && (c.stallguard_baseline == 0
        || c.stallguard_filter_count == 0
        || leb c.stallguard_warning_level c.stallguard_critical_level
        || leb c.stallguard_baseline c.stallguard_warning_level)

-- `isfinite(x)&&x>0&&x<=top`
unfoldable pub in_range : Float → Float → Bool
in_range top x = is_finite x && ltf (float 0) x && lef x top

unfoldable pub currents_ok : DeviceConfig → Bool
currents_ok c =
    leb current_min_ma c.motor_run_current_ma
    && leb c.motor_run_current_ma current_max_ma
    && leb current_min_ma c.motor_hold_current_ma
    && leb c.motor_hold_current_ma c.motor_run_current_ma

unfoldable pub motion_ok : DeviceConfig → Bool
motion_ok c =
    in_range max_speed_mm_s c.manual_speed_mm_s
    && in_range max_speed_mm_s c.dosing_speed_mm_s
    && in_range (float 100) c.trigger_dose_mm
    && in_range max_accel_mm_s2 c.a1_mm_s2
    && in_range max_accel_mm_s2 c.amax_mm_s2
    && in_range max_accel_mm_s2 c.dmax_mm_s2
    && in_range max_accel_mm_s2 c.d1_mm_s2

unfoldable pub travel_ok : DeviceConfig → Bool
travel_ok c =
    is_finite c.retract_distance_mm
    && lef (float 0) c.retract_distance_mm
    && lef c.retract_distance_mm (float 100)
    && in_range max_speed_mm_s c.retract_speed_mm_s
    && is_finite c.position_min_mm
    && is_finite c.position_max_mm
    && ltf c.position_min_mm c.position_max_mm
    && leb 100 c.manual_timeout_ms

-- `device_config_validate` at a pointer that is not null
unfoldable pub validate : DeviceConfig → Bool
validate c =
    if bad_mechanics c
    then false
    else if bad_threshold c.stallguard_threshold
    then false
    else if bad_stallguard c
    then false
    else currents_ok c && motion_ok c && travel_ok c
