-- ===== src/App.antt =====
-- src/app_tasks.c: the state that its tasks share, and the operations of the motor task.
pub mod Settings
pub mod Readings
pub mod Accepted
pub mod Dose
pub mod Persisted
pub mod Calibrated
pub mod Execute
pub mod Motion
pub mod Tick
pub mod Start
pub mod Consistent
pub mod Quiet
pub mod Typed
use Prim.Native.String.{String}
use epi_pico2w_seringue.Prelude.{ℕ, Bool, true, false, not, ltb, if◌then◌else◌}
use epi_pico2w_seringue.Prelude.Int.{ℤ, pos, ltb_ℤ}
use epi_pico2w_seringue.Float.{Float, binary32, ltf, sub}
use epi_pico2w_seringue.AppState
use epi_pico2w_seringue.AppState.{State, Event, Machine, ready, fault, homing, is_fault}
use epi_pico2w_seringue.Board.{M, ◌>>=◌, pure}
use epi_pico2w_seringue.Buttons.{Buttons}
use epi_pico2w_seringue.Calibration.{Calibration}
use epi_pico2w_seringue.DeviceConfig.{DeviceConfig, float}
use epi_pico2w_seringue.Motor
use epi_pico2w_seringue.Motor.{MotorConfig}
use epi_pico2w_seringue.Safety
use epi_pico2w_seringue.Safety.{Safety, Fault, Load}
use epi_pico2w_seringue.Statistics
use epi_pico2w_seringue.Statistics.{Statistics}

-- `telemetry_snapshot_t`
pub record TelemetrySnapshot : Type 0 where
  pub state : State
  pub position_mm : Float
  pub remaining_mm : Float
  pub used_mm : Float
  pub trigger_dose_mm : Float
  pub activation_count : ℕ
  pub sg_samples : ℕ
  pub fault : ℕ
  pub sg_result : ℕ
  pub load : Load
  pub sg_calibrating : Bool
  pub unload_result : String

-- The static variables of app_tasks.c that the motor task uses, with those of buttons.c, statistics.c
-- and motor_control.c (`driver_cfg` is the latter's `cfg`).
pub record App : Type 0 where
  pub config : DeviceConfig
  pub motor_cfg : MotorConfig
  pub driver_cfg : MotorConfig
  pub machine : Machine
  pub safety : Safety
  pub sg_cal : Calibration
  pub statistics : Statistics
  pub buttons : Buttons
  pub telemetry_snapshot : TelemetrySnapshot
  pub motor_moving : Bool
  pub direction : ℤ
  pub phase_ms : ℕ
  pub retract_mm : Float
  pub unload_result : String

-- `app_state_dispatch(&machine,e)` with its result ignored
unfoldable pub dispatch : App → Event → App
dispatch s e = record s { machine = (AppState.dispatch s.machine e).0 }

abbrev pub is_ready : State → Bool
is_ready ready = true
is_ready _ = false

abbrev pub is_homing : State → Bool
is_homing homing = true
is_homing _ = false

-- `set_fault`
unfoldable pub set_fault : App → Fault → M App
unfolding dispatch
set_fault s f = do
  _ ← Motor.stop
  let coded : App = record s { machine = record s.machine { fault_code = Safety.code f } }
  pure (record (dispatch coded AppState.fail) { direction = pos 0 })

-- `begin_manual`
unfoldable pub begin_manual : App → ℤ → ℕ → M (Bool × App)
unfolding dispatch
begin_manual s d now =
    let pushing = ltb_ℤ (pos 0) d in
    let started : App = record s { direction = d; safety = Safety.manual_started s.safety now } in
    let entered = dispatch started (if pushing then AppState.push else AppState.pull) in
    let counted : App =
      if pushing
      then record entered { statistics = Statistics.increment entered.statistics }
      else entered in
    if not (is_ready s.machine.state)
    then pure (false, s)
    else do ok ← Motor.manual s.driver_cfg d; pure (ok, (if ok then counted else s))

-- `stop_motion`
unfoldable pub stop_motion : App → M App
unfolding dispatch
stop_motion s = do
  let told : App = if is_homing s.machine.state then record s { unload_result = "stopped" } else s
  _ ← Motor.stop
  let still : App = record told { direction = pos 0 }
  pure (if is_fault s.machine.state then still else dispatch still AppState.stop)

-- `motor_microsteps_to_mm(&motor_cfg,motor_position_steps())`
unfoldable pub position_mm : App → M Float
position_mm s = do steps ← Motor.position_steps; pure (Motor.microsteps_to_mm s.motor_cfg steps)

-- `update_telemetry`
unfoldable pub update_telemetry : App → M App
unfolding position_mm
update_telemetry s = do
  at ← position_mm s
  let remaining = sub binary32 s.config.position_max_mm at
  let used = sub binary32 at s.config.position_min_mm
  pure (record s {
    telemetry_snapshot = record {
      state = s.machine.state;
      position_mm = at;
      remaining_mm = if ltf remaining (float 0) then float 0 else remaining;
      used_mm = if ltf used (float 0) then float 0 else used;
      trigger_dose_mm = s.config.trigger_dose_mm;
      activation_count = s.statistics.count;
      sg_samples = s.sg_cal.samples;
      fault = s.machine.fault_code;
      sg_result = s.safety.sg_filtered;
      load = s.safety.load_state;
      sg_calibrating = s.sg_cal.active;
      unload_result = s.unload_result;
    };
  })
