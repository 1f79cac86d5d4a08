-- ===== src/Tests/Host.antt =====
-- The assertions of tests/test_main.c on the arithmetic, the settings and the supervisor.
use epi_pico2w_seringue.Prelude.{◌≡◌, refl, true, ltb}
use epi_pico2w_seringue.Prelude.Int.{pos, negsuc}
use epi_pico2w_seringue.Float.{Float, binary32, of_ℕ, decimal, neg, is_finite, lef}
use epi_pico2w_seringue.DeviceConfig.{
  defaults, validate, bad_mechanics, bad_microsteps, bad_threshold, bad_stallguard, currents_ok,
  motion_ok, in_range, travel_ok,
}
use epi_pico2w_seringue.TmcCurrent.{full_scale_ma, current_scale_from_ma, current_ma_from_scale}
use epi_pico2w_seringue.Motor.{
  MotorConfig, microsteps_per_mm, mm_to_microsteps, acceleration_to_tmc, config_valid, vel,
}

abbrev pub motor : MotorConfig
motor = record {
  motor_steps_per_rev = 200;
  microsteps = 16;
  motor_run_current_ma = 800;
  motor_hold_current_ma = 300;
  screw_pitch_mm = of_ℕ binary32 2;
  manual_speed_mm_s = of_ℕ binary32 5;
  a1_mm_s2 = of_ℕ binary32 100;
  amax_mm_s2 = of_ℕ binary32 100;
  dmax_mm_s2 = of_ℕ binary32 100;
  d1_mm_s2 = of_ℕ binary32 100;
}

steps_per_mm : microsteps_per_mm motor ≡ of_ℕ binary32 1600
unfolding microsteps_per_mm
steps_per_mm = refl

dose_steps : mm_to_microsteps motor (decimal binary32 8 10) ≡ pos 1280
unfolding mm_to_microsteps
dose_steps = refl

retract_steps : mm_to_microsteps motor (neg (decimal binary32 1 10)) ≡ negsuc 159
unfolding mm_to_microsteps neg
retract_steps = refl

acceleration : acceleration_to_tmc motor (of_ℕ binary32 100) ≡ 2443
unfolding acceleration_to_tmc
acceleration = refl

motor_valid : config_valid motor ≡ true
unfolding config_valid
motor_valid = refl

abbrev rref : Float
rref = of_ℕ binary32 7500

full_scale : full_scale_ma rref ≡ 1248
unfolding full_scale_ma
full_scale = refl

scale_800 : current_scale_from_ma 800 rref ≡ 20
unfolding current_scale_from_ma
scale_800 = refl

scale_300 : current_scale_from_ma 300 rref ≡ 7
unfolding current_scale_from_ma
scale_300 = refl

back_20 : current_ma_from_scale 20 rref ≡ 819
unfolding current_ma_from_scale
back_20 = refl

back_7 : current_ma_from_scale 7 rref ≡ 312
unfolding current_ma_from_scale
back_7 = refl

pub defaults_valid : validate defaults ≡ true
unfolding validate defaults bad_mechanics is_finite lef bad_microsteps bad_threshold bad_stallguard
    currents_ok motion_ok in_range travel_ok
defaults_valid = refl

-- a speed that a dose can ask for: VMAX has 23 bits
too_fast : ltb 8388607 (vel motor (of_ℕ binary32 25000)) ≡ true
unfolding vel microsteps_per_mm
too_fast = refl
