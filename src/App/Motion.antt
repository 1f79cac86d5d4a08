-- ===== src/App/Motion.antt =====
-- The state machine of `motor_task` of src/app_tasks.c: one period with no conflict of the contacts.
use epi_pico2w_seringue.Prelude.{ℕ, Bool, true, false, not, ◌&&◌, ◌||◌, leb, if◌then◌else◌, sub32}
use epi_pico2w_seringue.Prelude.Int.{pos, negsuc, ltb_ℤ}
use epi_pico2w_seringue.Float.{Float, ltf, neg}
use epi_pico2w_seringue.AppState
use epi_pico2w_seringue.AppState.{
  State, ready, manual_push, manual_pull, dosing, retracting, homing, stopping, is_fault,
}
use epi_pico2w_seringue.Board.{M, ◌>>=◌, pure}
use epi_pico2w_seringue.Buttons.{ButtonState}
use epi_pico2w_seringue.Calibration
use epi_pico2w_seringue.CommandApi
use epi_pico2w_seringue.CommandApi.{Command, ConfigParam}
use epi_pico2w_seringue.DeviceConfig.{DeviceConfig, float}
use epi_pico2w_seringue.Flash.{Build}
use epi_pico2w_seringue.Motor
use epi_pico2w_seringue.Safety
use epi_pico2w_seringue.Safety.{Fault, Inputs, sg_result}
use epi_pico2w_seringue.App.{
  App, dispatch, is_homing, set_fault, begin_manual, stop_motion, position_mm,
}
use epi_pico2w_seringue.App.Execute.{execute}

abbrev pub is_push : State → Bool
is_push manual_push = true
is_push _ = false

abbrev pub is_pull : State → Bool
is_pull manual_pull = true
is_pull _ = false

abbrev pub is_dosing : State → Bool
is_dosing dosing = true
is_dosing _ = false

abbrev pub is_retracting : State → Bool
is_retracting retracting = true
is_retracting _ = false

abbrev pub is_stopping : State → Bool
is_stopping stopping = true
is_stopping _ = false

-- the command of the DOSE contact
unfoldable pub trigger : DeviceConfig → Command
trigger c = record {
  kind = CommandApi.CommandKind.dose;
  parameter = ConfigParam.none;
  distance_mm = c.trigger_dose_mm;
  speed_mm_s = c.dosing_speed_mm_s;
  retract_mm = c.retract_distance_mm;
  value = float 0;
}

-- the edges of the contacts
unfoldable pub on_buttons : Build → App → ButtonState → ButtonState → ℕ → M App
unfolding trigger
on_buttons build s old b now =
    if b.push && not old.push
    then (do (_, s') ← begin_manual s (pos 1) now; pure s')
    else if b.pull && not old.pull
    then (do (_, s') ← begin_manual s (negsuc 0) now; pure s')
    else if b.dose && not old.dose
    then execute build s (trigger s.config) now
    else if (is_push s.machine.state && old.push && not b.push)
        || (is_pull s.machine.state && old.pull && not b.pull)
    then stop_motion s
    else pure s

-- APP_STOPPING
unfoldable pub on_stopping : App → M App
on_stopping s =
    if is_stopping s.machine.state
    then (do still ← Motor.is_stopped; pure (if still then dispatch s AppState.stopped else s))
    else pure s

-- APP_DOSING
unfoldable pub on_dosing : App → ℕ → M App
on_dosing s now =
    let halted : App = record s { direction = pos 0 } in
    let retracting' : App = record (dispatch halted AppState.move_done) { phase_ms = now } in
    let finished = dispatch (dispatch halted AppState.move_done) AppState.move_done in
    if is_dosing s.machine.state
    then (do
      there ← Motor.target_reached
      pure (if there then (if ltf (float 0) s.retract_mm then retracting' else finished) else s))
    else pure s

-- APP_RETRACTING
unfoldable pub on_retracting : App → ℕ → M App
on_retracting s now =
    if is_retracting s.machine.state
      && not (ltb_ℤ s.direction (pos 0))
      && not (ltb_ℤ (pos 0) s.direction)
      && leb s.config.retract_delay_ms (sub32 now s.phase_ms)
    then (do
      ok ← Motor.move_relative s.driver_cfg (neg s.retract_mm) s.config.retract_speed_mm_s
      if ok then pure (record s { direction = negsuc 0 }) else set_fault s Safety.spi)
    else if is_retracting s.machine.state && ltb_ℤ s.direction (pos 0)
    then (do
      there ← Motor.target_reached
      pure (if there then dispatch (record s { direction = pos 0 }) AppState.move_done else s))
    else pure s

-- APP_HOMING: the end of an unload, as here and at a stall or at the limit
unfoldable pub on_homing : App → M App
on_homing s =
    let homed : App = record s { direction = pos 0; unload_result = "position_min" } in
    if is_homing s.machine.state
    then (do
      there ← Motor.target_reached
      if there
          then (do
            _ ← Motor.stop
            _ ← Motor.set_position_mm s.driver_cfg s.config.position_min_mm
            pure (dispatch homed AppState.move_done))
          else pure s)
    else pure s

abbrev pub is_stall : Fault → Bool
is_stall Safety.stall = true
is_stall _ = false

abbrev pub is_limit : Fault → Bool
is_limit Safety.limit = true
is_limit _ = false

-- what follows a call of `safety_check`
unfoldable pub on_verdict : App → Bool → Fault → M App
on_verdict s unloading Safety.ok = pure s
on_verdict s unloading f =
    let ended : App = record s {
      direction = pos 0;
      unload_result = if is_stall f then "stall" else "position_min";
      safety = Safety.init;
    } in
    if unloading && (is_stall f || is_limit f)
    then (do
      _ ← Motor.stop
      _ ← Motor.set_position_mm s.driver_cfg s.config.position_min_mm
      pure (dispatch ended AppState.move_done))
    else set_fault s f

-- a calibration in a manual motion takes the sample
unfoldable pub sample_load : App → ℕ → App
sample_load s ds =
    if s.sg_cal.active && (is_push s.machine.state || is_pull s.machine.state)
    then record s { sg_cal = Calibration.add s.sg_cal (sg_result ds) }
    else s

-- `safety_cfg`: a calibration runs with stall detection off
unfoldable pub safety_config : App → DeviceConfig
safety_config s = if s.sg_cal.active then record s.config { stallguard_enabled = 0 } else s.config

-- the arguments of the call of `safety_check`
unfoldable pub safety_inputs : App → ℕ → ℕ → Bool → Float → Inputs
safety_inputs s now ds spi at =
    let state = s.machine.state in
    let timed = is_push state || is_pull state || is_homing state in
    record {
      conflict = false;
      timed_motion = timed;
      stallguard_motion = timed || is_dosing state || is_retracting state;
      now = now;
      drv_status = ds;
      spi_ok = spi;
      position_mm = at;
      direction = s.direction;
    }

-- the call of `safety_check`, and what follows it
unfoldable pub judge : App → Inputs → M App
unfolding on_verdict
judge s x =
    let (safety, verdict) = Safety.check s.safety (safety_config s) x in
    on_verdict (record s { safety = safety }) (is_homing s.machine.state) verdict

-- the driver's status, the calibration sample and the safety check
unfoldable pub supervise : App → ℕ → M App
unfolding sample_load safety_config safety_inputs judge
supervise s now = do
  (ds, spi) ← Motor.driver_status
  at ← position_mm s
  judge (sample_load s ds) (safety_inputs s now ds spi at)

-- the branch with no conflict of the contacts
unfoldable pub run_machine : Build → App → ButtonState → ButtonState → ℕ → M App
unfolding on_buttons on_stopping on_dosing on_retracting on_homing supervise
run_machine build s old b now = if is_fault s.machine.state then pure s else do
  s1 ← on_buttons build s old b now
  s2 ← on_stopping s1
  s3 ← on_dosing s2 now
  s4 ← on_retracting s3 now
  s5 ← on_homing s4
  supervise s5 now
