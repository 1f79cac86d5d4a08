-- ===== src/App/Start.antt =====
-- `app_tasks_start` of src/app_tasks.c, up to the creation of the queue and of the tasks.
use epi_pico2w_seringue.Prelude.{Bool, false, not, ◌==◌, if◌then◌else◌}
use epi_pico2w_seringue.Prelude.Int.{pos}
use epi_pico2w_seringue.AppState
use epi_pico2w_seringue.Board.{M, ◌>>=◌, ◌>>◌, pure, and_then}
use epi_pico2w_seringue.Buttons
use epi_pico2w_seringue.Calibration.{Calibration}
use epi_pico2w_seringue.ConfigStore
use epi_pico2w_seringue.DeviceConfig.{DeviceConfig, float}
use epi_pico2w_seringue.Flash.{Build}
use epi_pico2w_seringue.Motor
use epi_pico2w_seringue.Motor.{MotorConfig}
use epi_pico2w_seringue.Safety
use epi_pico2w_seringue.Statistics
use epi_pico2w_seringue.StatusLed
use epi_pico2w_seringue.App.{App, TelemetrySnapshot, dispatch, set_fault}
use epi_pico2w_seringue.App.Settings.{motor_config_of}

-- the zero with which static storage begins
abbrev zero_motor : MotorConfig
zero_motor = record {
  motor_steps_per_rev = 0;
  microsteps = 0;
  motor_run_current_ma = 0;
  motor_hold_current_ma = 0;
  screw_pitch_mm = float 0;
  manual_speed_mm_s = float 0;
  a1_mm_s2 = float 0;
  amax_mm_s2 = float 0;
  dmax_mm_s2 = float 0;
  d1_mm_s2 = float 0;
}

abbrev zero_calibration : Calibration
zero_calibration = record { active = false; samples = 0; sum = 0; minimum = 0; maximum = 0 }

-- the initial `telemetry_snapshot`
abbrev pub first_snapshot : App → TelemetrySnapshot
first_snapshot s = record {
  state = s.machine.state;
  position_mm = float 0;
  remaining_mm = float 0;
  used_mm = float 0;
  trigger_dose_mm = float 0;
  activation_count = 0;
  sg_samples = 0;
  fault = s.machine.fault_code;
  sg_result = 0;
  load = Safety.load_normal;
  sg_calibrating = false;
  unload_result = "none";
}

-- the state once the settings, the statistics, the machine and the supervisor are set up
unfoldable pub loaded : Build → DeviceConfig → Statistics.Statistics → App
loaded build config statistics = record {
  config = config;
  motor_cfg = motor_config_of config;
  driver_cfg = zero_motor;
  machine = AppState.init;
  safety = Safety.init;
  sg_cal = zero_calibration;
  statistics = statistics;
  buttons = Buttons.at_start;
  telemetry_snapshot = record {
    state = AppState.boot;
    position_mm = float 0;
    remaining_mm = float 0;
    used_mm = float 0;
    trigger_dose_mm = float 0;
    activation_count = 0;
    sg_samples = 0;
    fault = 0;
    sg_result = 0;
    load = Safety.load_normal;
    sg_calibrating = false;
    unload_result = "";
  };
  motor_moving = false;
  direction = pos 0;
  phase_ms = 0;
  retract_mm = float 0;
  unload_result = "none";
}

-- the fault or the first event, at the results of the driver's setup
unfoldable pub enter : App → Bool → M App
enter s ok = if not ok then set_fault s Safety.spi else pure (dispatch s AppState.init_ok)

-- `app_tasks_start` behind the loading of the settings
unfoldable pub bring_up : Build → App → M (App × StatusLed.Led)
unfolding enter
bring_up build s = do
  (motor_ok, driver_cfg) ← Motor.init s.driver_cfg s.motor_cfg
  let s1 : App = record s { driver_cfg = driver_cfg }
  led ← StatusLed.init build.has_radio StatusLed.at_start (not build.has_radio)
  ok ← and_then (pure motor_ok) (
      Motor.configure_stallguard (not (s.config.stallguard_enabled == 0))
        s.config.stallguard_threshold)
  s2 ← enter s1 ok
  pure (record s2 { telemetry_snapshot = first_snapshot s2 }, led)

-- `app_tasks_start`
unfoldable pub start : Build → M (App × StatusLed.Led)
unfolding loaded bring_up
start build = do
  Buttons.init
  λ b.
      bring_up build
        (loaded build (ConfigStore.load build (b.flash b.log)).1
          (Statistics.init build (b.flash b.log)))
        b
