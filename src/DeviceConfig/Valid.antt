-- ===== src/DeviceConfig/Valid.antt =====
-- `device_config_validate` of src/device_config.c against a reading of its conditions.
use epi_pico2w_seringue.Prelude.{
  ℕ, ◌^◌, ◌≤◌, ◌<◌, ◌≡◌, refl, ◌≢◌, ◌↔◌, ◌||◌, Bool, true, false, not, arith, ◌==◌, all_below,
  all_below_sound, if◌then◌else◌,
}
use epi_pico2w_seringue.Prelude.Int.{negsuc, pos, ◌≤ℤ◌}
use epi_pico2w_seringue.Float.{is_finite, ltf, lef}
use epi_pico2w_seringue.DeviceConfig.{
  DeviceConfig, float, max_speed_mm_s, max_accel_mm_s2, bad_microsteps, bad_mechanics,
  bad_threshold, bad_stallguard, in_range, currents_ok, motion_ok, travel_ok, validate,
}

-- the exponent of a power of two up to 256, by comparison
unfoldable pub exponent : ℕ → ℕ
exponent m =
    if m == 1
    then 0
    else if m == 2
    then 1
    else if m == 4
    then 2
    else if m == 8
    then 3
    else if m == 16
    then 4
    else if m == 32
    then 5
    else if m == 64
    then 6
    else if m == 128
    then 7
    else 8

abbrev is_its_power : ℕ → Bool
is_its_power m = bad_microsteps m || 2 ^ exponent m == m

microsteps_table : all_below 257 is_its_power ≡ true
unfolding bad_microsteps exponent
microsteps_table = refl

exponent-le : (m : ℕ) → exponent m ≤ 8
unfolding exponent
exponent-le m = ground arith

abbrev power_passes : ℕ → Bool
power_passes k = not (bad_microsteps (2 ^ k))

powers_table : all_below 9 power_passes ≡ true
unfolding bad_microsteps
powers_table = refl

bad_microsteps-le : (m : ℕ) → bad_microsteps m ≡ false → m < 257
unfolding bad_microsteps
bad_microsteps-le m h = ground arith

-- The bit trick of the validation accepts exactly the powers of two from 1 to 256.
pub bad_microsteps_iff : (m : ℕ) → (bad_microsteps m ≡ false) ↔ ((k : ℕ) × (k ≤ 8) × (m ≡ 2 ^ k))
bad_microsteps_iff m = (there, back)
  where
    there : bad_microsteps m ≡ false → (k : ℕ) × (k ≤ 8) × (m ≡ 2 ^ k)
    there h = (
      exponent m,
      exponent-le m,
      ground (arith, all_below_sound 257 is_its_power m microsteps_table (bad_microsteps-le m h)),
    )

    back : ((k : ℕ) × (k ≤ 8) × (m ≡ 2 ^ k)) → bad_microsteps m ≡ false
    back p = rw p.2 (ground (arith, all_below_sound 9 power_passes p.0 powers_table (omega arith)))

-- what a valid configuration promises
pub record IsValid (c : DeviceConfig) : Type 0 where
  pub version : c.version ≡ 6
  pub steps : c.motor_steps_per_rev ≢ 0
  pub pitch_finite : is_finite c.screw_pitch_mm ≡ true
  pub pitch_pos : lef c.screw_pitch_mm (float 0) ≡ false
  pub microsteps : (k : ℕ) × (k ≤ 8) × (c.microsteps ≡ 2 ^ k)
  pub threshold_low : negsuc 63 ≤ℤ c.stallguard_threshold
  pub threshold_high : c.stallguard_threshold ≤ℤ pos 63
  pub stallguard :
      c.stallguard_enabled ≢ 0
      → (0 < c.stallguard_filter_count)
        × (c.stallguard_critical_level < c.stallguard_warning_level)
        × (c.stallguard_warning_level < c.stallguard_baseline)
  pub run_current : (200 ≤ c.motor_run_current_ma) × (c.motor_run_current_ma ≤ 1200)
  pub hold_current :
      (200 ≤ c.motor_hold_current_ma) × (c.motor_hold_current_ma ≤ c.motor_run_current_ma)
  pub manual_speed : in_range max_speed_mm_s c.manual_speed_mm_s ≡ true
  pub dosing_speed : in_range max_speed_mm_s c.dosing_speed_mm_s ≡ true
  pub trigger_dose : in_range (float 100) c.trigger_dose_mm ≡ true
  pub a1 : in_range max_accel_mm_s2 c.a1_mm_s2 ≡ true
  pub amax : in_range max_accel_mm_s2 c.amax_mm_s2 ≡ true
  pub dmax : in_range max_accel_mm_s2 c.dmax_mm_s2 ≡ true
  pub d1 : in_range max_accel_mm_s2 c.d1_mm_s2 ≡ true
  pub retract_finite : is_finite c.retract_distance_mm ≡ true
  pub retract_low : lef (float 0) c.retract_distance_mm ≡ true
  pub retract_high : lef c.retract_distance_mm (float 100) ≡ true
  pub retract_speed : in_range max_speed_mm_s c.retract_speed_mm_s ≡ true
  pub min_finite : is_finite c.position_min_mm ≡ true
  pub max_finite : is_finite c.position_max_mm ≡ true
  pub travel : ltf c.position_min_mm c.position_max_mm ≡ true
  pub manual_timeout : 100 ≤ c.manual_timeout_ms

mechanics : (c : DeviceConfig) → validate c ≡ true → bad_mechanics c ≡ false
unfolding validate
mechanics c h = ground arith

rest :
    (c : DeviceConfig)
    → validate c ≡ true
    → (bad_threshold c.stallguard_threshold ≡ false)
      × (bad_stallguard c ≡ false)
      × (currents_ok c ≡ true)
      × (motion_ok c ≡ true)
      × (travel_ok c ≡ true)
unfolding validate
rest c h = ground arith

pub validate-IsValid : (c : DeviceConfig) → validate c ≡ true → IsValid c
unfolding bad_mechanics bad_threshold bad_stallguard currents_ok motion_ok travel_ok
validate-IsValid c h =
    let m : bad_mechanics c ≡ false = mechanics c h in
    let r = rest c h in
    let power : bad_microsteps c.microsteps ≡ false = ground arith in
    record {
      version = ground arith;
      steps = ground arith;
      pitch_finite = ground arith;
      pitch_pos = ground arith;
      microsteps = (bad_microsteps_iff c.microsteps).0 power;
      threshold_low = ground arith;
      threshold_high = ground arith;
      stallguard = ground arith;
      run_current = ground arith;
      hold_current = ground arith;
      manual_speed = ground arith;
      dosing_speed = ground arith;
      trigger_dose = ground arith;
      a1 = ground arith;
      amax = ground arith;
      dmax = ground arith;
      d1 = ground arith;
      retract_finite = ground arith;
      retract_low = ground arith;
      retract_high = ground arith;
      retract_speed = ground arith;
      min_finite = ground arith;
      max_finite = ground arith;
      travel = ground arith;
      manual_timeout = ground arith;
    }

IsValid-validate : (c : DeviceConfig) → IsValid c → validate c ≡ true
unfolding validate bad_mechanics bad_threshold bad_stallguard currents_ok motion_ok travel_ok
IsValid-validate c v = ground (arith, (bad_microsteps_iff c.microsteps).1 v.microsteps)

-- The validation accepts exactly the configurations whose every setting is in its range: among them
-- the microsteps a power of two from 1 to 256, the hold current at most the run current, and the
-- stall thresholds in order wherever stall detection is enabled.
pub validate_iff : (c : DeviceConfig) → (validate c ≡ true) ↔ IsValid c
validate_iff c = (validate-IsValid c, IsValid-validate c)
