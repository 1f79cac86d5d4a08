-- ===== src/CommandApi.antt =====
-- include/command_api.h: the commands.
pub mod Names
pub mod Ascii
pub mod Json
use epi_pico2w_seringue.Prelude.{false}
use epi_pico2w_seringue.Float.{Float, fin}

-- `command_kind_t`
pub data CommandKind : Type 0 where
  none push_start push_stop pull_start pull_stop stop dose move_relative unload_syringe set_zero
        reset reboot bootsel sg_cal_start sg_cal_finish sg_cal_cancel set_trigger_dose set_config
        flush_statistics :
      CommandKind

-- `config_param_t`
pub data ConfigParam : Type 0 where
  none screw_pitch_mm motor_steps_per_rev microsteps run_current_ma hold_current_ma
        manual_speed_mm_s dosing_speed_mm_s trigger_dose_mm a1_mm_s2 amax_mm_s2 dmax_mm_s2 d1_mm_s2
        retract_distance_mm retract_speed_mm_s retract_delay_ms position_min_mm position_max_mm
        manual_timeout_ms stallguard_threshold stallguard_warning stallguard_critical
        stallguard_filter_count stallguard_enabled :
      ConfigParam

-- `machine_command_t`
pub record Command : Type 0 where
  pub kind : CommandKind
  pub parameter : ConfigParam
  pub distance_mm : Float
  pub speed_mm_s : Float
  pub retract_mm : Float
  pub value : Float

-- `(machine_command_t){0}`
abbrev pub no_command : Command
no_command = record {
  kind = CommandKind.none;
  parameter = ConfigParam.none;
  distance_mm = fin false 0;
  speed_mm_s = fin false 0;
  retract_mm = fin false 0;
  value = fin false 0;
}
