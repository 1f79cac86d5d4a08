-- ===== src/App/Execute.antt =====
-- `execute` of src/app_tasks.c: what each command does.
use epi_pico2w_seringue.Prelude.{ℕ, true, false, not, ◌&&◌, Option, none, some, if◌then◌else◌, ◌==◌}
use epi_pico2w_seringue.Prelude.Int.{pos, negsuc}
use epi_pico2w_seringue.Float.{Float, binary32, ltf, lef, sub}
use epi_pico2w_seringue.AppState
use epi_pico2w_seringue.AppState.{is_fault}
use epi_pico2w_seringue.Board.{
  task_delay, stdio_flush, watchdog_reboot, reset_usb_boot, M, ◌>>=◌, ◌>>◌, pure, perform, and_then,
}
use epi_pico2w_seringue.Calibration
use epi_pico2w_seringue.Calibration.{Thresholds}
use epi_pico2w_seringue.CommandApi.{Command, CommandKind, ConfigParam}
use epi_pico2w_seringue.ConfigStore
use epi_pico2w_seringue.DeviceConfig.{float}
use epi_pico2w_seringue.Flash.{Build}
use epi_pico2w_seringue.Motor
use epi_pico2w_seringue.Safety
use epi_pico2w_seringue.Statistics
use epi_pico2w_seringue.App.{App, dispatch, is_ready, begin_manual, stop_motion, position_mm}
use epi_pico2w_seringue.App.Settings.{apply_config_value}

-- `x>0?x:y`
abbrev pub positive_or : Float → Float → Float
positive_or x y = if ltf (float 0) x then x else y

-- CMD_SG_CAL_CANCEL and CMD_SG_CAL_START
unfoldable pub cal_cancel : App → M App
cal_cancel s = do
  _ ←
      Motor.configure_stallguard (not (s.config.stallguard_enabled == 0))
        s.config.stallguard_threshold
  pure (record s { sg_cal = record s.sg_cal { active = false } })

unfoldable pub cal_start : App → M App
cal_start s = do
  _ ← Motor.configure_stallguard true s.config.stallguard_threshold
  pure (record s { sg_cal = Calibration.start })

-- CMD_SG_CAL_FINISH, at the result of `sg_calibration_finish`; the result of the save is ignored
unfoldable pub cal_store : Build → App → Option Thresholds → M App
cal_store build s none = pure s
cal_store build s (some t) = do
  let calibrated = record s.config {
    stallguard_baseline = t.baseline;
    stallguard_warning_level = t.warning;
    stallguard_critical_level = t.critical;
    stallguard_calibration_speed_mm_s = s.config.manual_speed_mm_s;
    stallguard_enabled = 1;
  }
  (_, stored) ← ConfigStore.save build calibrated
  _ ← Motor.configure_stallguard true stored.stallguard_threshold
  pure (record s { config = stored })

unfoldable pub cal_finish : Build → App → M App
unfolding cal_store
cal_finish build s =
    let (cal, result) = Calibration.finish s.sg_cal in
    cal_store build (record s { sg_cal = cal }) result

-- CMD_UNLOAD_SYRINGE in the ready state
unfoldable pub unload : App → Command → ℕ → M App
unfolding position_mm dispatch
unload s c now = do
  at ← position_mm s
  let running : App = record s {
    direction = negsuc 0;
    retract_mm = float 0;
    unload_result = "running";
    safety = Safety.manual_started Safety.init now;
  }
  if lef at s.config.position_min_mm
      then (do
        _ ← Motor.set_position_mm s.driver_cfg s.config.position_min_mm
        pure (record s { unload_result = "position_min" }))
      else (do
        ok ←
            Motor.move_relative s.driver_cfg (sub binary32 s.config.position_min_mm at)
              (positive_or c.speed_mm_s s.config.manual_speed_mm_s)
        pure (if ok then dispatch running AppState.home else s))

-- CMD_MOVE_RELATIVE in the ready state
unfoldable pub move : App → Command → M App
unfolding dispatch
move s c = do
  let moved : App = record s {
    direction = if lef (float 0) c.distance_mm then pos 1 else negsuc 0;
    retract_mm = float 0;
    statistics =
        if ltf (float 0) c.distance_mm then Statistics.increment s.statistics else s.statistics;
  }
  ok ←
      Motor.move_relative s.driver_cfg c.distance_mm
        (positive_or c.speed_mm_s s.config.dosing_speed_mm_s)
  pure (if ok then dispatch moved AppState.dose else s)

-- CMD_DOSE in the ready state
unfoldable pub dose : App → Command → M App
unfolding position_mm dispatch
dose s c = do
  let distance = positive_or c.distance_mm s.config.trigger_dose_mm
  at ← position_mm s
  let dosed : App = record s {
    direction = pos 1;
    retract_mm = if lef (float 0) c.retract_mm then c.retract_mm else s.config.retract_distance_mm;
    statistics = Statistics.increment s.statistics;
  }
  ok ←
      and_then
        (pure (ltf (float 0) distance && lef distance (sub binary32 s.config.position_max_mm at)))
        (Motor.move_relative s.driver_cfg distance
          (positive_or c.speed_mm_s s.config.dosing_speed_mm_s))
  pure (if ok then dispatch dosed AppState.dose else s)

-- an operation that only the ready state allows
abbrev pub when_ready : App → M App → M App
when_ready s m = if is_ready s.machine.state then m else pure s

-- CMD_SET_TRIGGER_DOSE and CMD_SET_CONFIG, with the result ignored
unfoldable pub set_value : Build → App → ConfigParam → Float → M App
set_value build s p value = do (_, s') ← apply_config_value build s p value; pure s'

-- `execute`. The returns before the `switch` test the kind of the command one after the other, so a
-- clause for each kind gives what is done for it.
unfoldable pub execute_kind : Build → App → Command → ℕ → CommandKind → M App
unfolding perform cal_cancel cal_start cal_finish unload move dose set_value dispatch
execute_kind build s c now CommandKind.stop = stop_motion s
execute_kind build s c now CommandKind.push_stop = stop_motion s
execute_kind build s c now CommandKind.pull_stop = stop_motion s
execute_kind build s c now CommandKind.bootsel = do
  _ ← Motor.stop
  perform stdio_flush
  perform (task_delay 50)
  perform reset_usb_boot
  pure s
execute_kind build s c now CommandKind.reboot = do
  _ ← Motor.stop
  perform (watchdog_reboot 10)
  pure s
execute_kind build s c now CommandKind.reset =
    if is_fault s.machine.state
    then pure (dispatch (record s { safety = Safety.init }) AppState.reset)
    else pure s
execute_kind build s c now CommandKind.sg_cal_cancel = cal_cancel s
execute_kind build s c now CommandKind.sg_cal_start = when_ready s (cal_start s)
execute_kind build s c now CommandKind.sg_cal_finish = when_ready s (cal_finish build s)
execute_kind build s c now CommandKind.set_trigger_dose =
    if ltf (float 0) c.distance_mm && lef c.distance_mm (float 100)
    then set_value build s ConfigParam.trigger_dose_mm c.distance_mm
    else pure s
execute_kind build s c now CommandKind.set_config = set_value build s c.parameter c.value
execute_kind build s c now CommandKind.flush_statistics = when_ready s do
  (_, st) ← Statistics.persist build (Statistics.flush s.statistics)
  pure (record s { statistics = st })
execute_kind build s c now CommandKind.push_start =
    when_ready s do (_, s') ← begin_manual s (pos 1) now; pure s'
execute_kind build s c now CommandKind.pull_start =
    when_ready s do (_, s') ← begin_manual s (negsuc 0) now; pure s'
execute_kind build s c now CommandKind.unload_syringe = when_ready s (unload s c now)
execute_kind build s c now CommandKind.set_zero = when_ready s do _ ← Motor.set_zero; pure s
execute_kind build s c now CommandKind.move_relative = when_ready s (move s c)
execute_kind build s c now CommandKind.dose = when_ready s (dose s c)
execute_kind build s c now CommandKind.none = pure s

unfoldable pub execute : Build → App → Command → ℕ → M App
unfolding execute_kind
execute build s c now = execute_kind build s c now c.kind
