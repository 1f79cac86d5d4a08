-- ===== src/App/Quiet/Fault.antt =====
-- The fault state of src/app_tasks.c: the motor gets no order to move until the fault is reset.
use epi_pico2w_seringue.Prelude.{
  ℕ, ◌≡◌, refl, ◌≢◌, false, not, ◌&&◌, ◌||◌, Option, none, some, arith, Bool-cases, inl, inr,
}
use epi_pico2w_seringue.AppState
use epi_pico2w_seringue.AppState.{is_fault}
use epi_pico2w_seringue.Board.{Board, M, pure, perform}
use epi_pico2w_seringue.CommandApi.{Command, CommandKind, ConfigParam}
use epi_pico2w_seringue.DeviceConfig.{DeviceConfig, validate, float}
use epi_pico2w_seringue.Flash.{Build}
use epi_pico2w_seringue.Float.{Float, ltf, lef}
use epi_pico2w_seringue.Motor.{config_valid}
use epi_pico2w_seringue.Safety.{Fault}
use epi_pico2w_seringue.App.{App, set_fault, stop_motion, is_ready}
use epi_pico2w_seringue.App.Settings.{
  adopt, apply_config_value, with_value, refused as value_refused, motor_config_of,
}
use epi_pico2w_seringue.App.Execute.{cal_cancel, set_value, when_ready, execute_kind}
use epi_pico2w_seringue.App.Consistent.Commands.{apply_config_value-SameCore}
use epi_pico2w_seringue.App.Quiet.{more, Quiet, Quiet-pure, Quiet-if}
use epi_pico2w_seringue.App.Quiet.Driver.{Quiet-stop, Quiet-configure_stallguard, Quiet-save}

-- From every board the operation ends in the fault state, and drives nothing on the way.
pub record StaysFaulted (m : M App) : Type 0 where
  pub quiet : Quiet m
  pub faulted : (b : Board) → (m b).0.machine.state ≡ AppState.fault

pub stay : (s : App) → s.machine.state ≡ AppState.fault → StaysFaulted (pure s)
stay s h = record { quiet = Quiet-pure s; faulted = λ b. h }

pub set_fault-StaysFaulted : (s : App) (f : Fault) → StaysFaulted (set_fault s f)
unfolding set_fault AppState.dispatch
set_fault-StaysFaulted s f = record {
  quiet = record { at = λ b. Quiet-stop.at b };
  faulted = λ b. refl;
}

stop_motion-StaysFaulted :
    (s : App) → s.machine.state ≡ AppState.fault → StaysFaulted (stop_motion s)
unfolding stop_motion AppState.dispatch
stop_motion-StaysFaulted s h = record {
  quiet = record { at = λ b. Quiet-stop.at b };
  faulted = λ b. ground arith;
}

adopt-Quiet : (build : Build) (s : App) (o : Option DeviceConfig) → Quiet (adopt build s o)
unfolding adopt
adopt-Quiet build s none = Quiet-pure (false, s)
adopt-Quiet build s (some next) =
    Quiet-if (not (validate next) || not (config_valid (motor_config_of next))) (pure (false, s)) _
      (λ e. Quiet-pure (false, s)) (λ e. record { at = λ b. (Quiet-save build next).at b })

apply_config_value-Quiet :
    (build : Build) (s : App) (p : ConfigParam) (x : Float) → Quiet (apply_config_value build s p x)
unfolding apply_config_value
apply_config_value-Quiet build s p x =
    Quiet-if (value_refused p x) (pure (false, s)) (adopt build s (with_value p x s.config))
      (λ e. Quiet-pure (false, s)) (λ e. adopt-Quiet build s (with_value p x s.config))

set_value-StaysFaulted :
    (build : Build) (s : App) (p : ConfigParam) (x : Float)
    → s.machine.state ≡ AppState.fault
    → StaysFaulted (set_value build s p x)
unfolding set_value
set_value-StaysFaulted build s p x h = record {
  quiet = record { at = λ b. (apply_config_value-Quiet build s p x).at b };
  faulted = λ b. ground (arith, apply_config_value-SameCore build s p x b);
}

when_ready-StaysFaulted :
    (s : App) (m : M App) → s.machine.state ≡ AppState.fault → StaysFaulted (when_ready s m)
when_ready-StaysFaulted s m h =
    let e : is_ready s.machine.state ≡ false = ground arith in rw e (stay s h)

cal_cancel-StaysFaulted : (s : App) → s.machine.state ≡ AppState.fault → StaysFaulted (cal_cancel s)
unfolding cal_cancel
cal_cancel-StaysFaulted s h = record {
  quiet = record { at = λ b. (Quiet-configure_stallguard _ _).at b };
  faulted = λ b. h;
}

-- A command other than the fault reset leaves the fault state alone, and drives nothing.
pub execute-StaysFaulted :
    (build : Build) (s : App) (c : Command) (now : ℕ) (k : CommandKind)
    → k ≢ CommandKind.reset
    → s.machine.state ≡ AppState.fault
    → StaysFaulted (execute_kind build s c now k)
unfolding execute_kind perform
execute-StaysFaulted build s c now CommandKind.stop ne h = stop_motion-StaysFaulted s h
execute-StaysFaulted build s c now CommandKind.push_stop ne h = stop_motion-StaysFaulted s h
execute-StaysFaulted build s c now CommandKind.pull_stop ne h = stop_motion-StaysFaulted s h
execute-StaysFaulted build s c now CommandKind.bootsel ne h = record {
  quiet = record { at = λ b. more tt (more tt (more tt (Quiet-stop.at b))) };
  faulted = λ b. h;
}
execute-StaysFaulted build s c now CommandKind.reboot ne h = record {
  quiet = record { at = λ b. more tt (Quiet-stop.at b) };
  faulted = λ b. h;
}
execute-StaysFaulted build s c now CommandKind.reset ne h = absurd (ne refl)
execute-StaysFaulted build s c now CommandKind.sg_cal_cancel ne h = cal_cancel-StaysFaulted s h
execute-StaysFaulted build s c now CommandKind.set_trigger_dose ne h =
    elim (Bool-cases (ltf (float 0) c.distance_mm && lef c.distance_mm (float 100))) [
      | inl y ↦ rw y (set_value-StaysFaulted build s ConfigParam.trigger_dose_mm c.distance_mm h)
      | inr n ↦ rw n (stay s h)
    ]
execute-StaysFaulted build s c now CommandKind.set_config ne h =
    set_value-StaysFaulted build s c.parameter c.value h
execute-StaysFaulted build s c now CommandKind.none ne h = stay s h
execute-StaysFaulted build s c now _ ne h = when_ready-StaysFaulted s _ h
