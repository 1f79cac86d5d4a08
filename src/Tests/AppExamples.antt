-- ===== src/Tests/AppExamples.antt =====
-- The theorems on the motor task of src/app_tasks.c and on src/app_state.c at concrete inputs.
use epi_pico2w_seringue.Prelude.{◌≡◌, refl, inl, inr, ◌↔◌, true, [], ◌∷◌}
use epi_pico2w_seringue.AppState
use epi_pico2w_seringue.Buttons
use epi_pico2w_seringue.AppState.{Event, Machine}
use epi_pico2w_seringue.AppState.Graph.{Edge, dispatch-iff_Edge}
use epi_pico2w_seringue.App.Tick.{tick}
use epi_pico2w_seringue.App.Dose.{execute-refuses_dose}
use epi_pico2w_seringue.App.Execute.{execute}
use epi_pico2w_seringue.App.Start.{loaded}
use epi_pico2w_seringue.App.Settings.{motor_config_of}
use epi_pico2w_seringue.App.{App, position_mm}
use epi_pico2w_seringue.CommandApi.{Command, CommandKind}
use epi_pico2w_seringue.DeviceConfig.{defaults, float}
use epi_pico2w_seringue.Motor
use epi_pico2w_seringue.Float.{of_ℕ, of_ℤ, ltf, lef, sub, mul, div}
use epi_pico2w_seringue.Tmc5130
use epi_pico2w_seringue.App.Start.{start}
use epi_pico2w_seringue.App.Consistent.{IsConsistent}
use epi_pico2w_seringue.App.Consistent.Runs.{run, start-run-IsConsistent}
use epi_pico2w_seringue.App.Quiet.{Grows}
use epi_pico2w_seringue.App.Quiet.Periods.{tick-StaysFaulted, tick-conflict}
use epi_pico2w_seringue.Tests.Data.{
  pico2w, silent, idle, command, faulted, locals, busy_period, both_pressed, conflict_period,
}

tick-StaysFaulted_example :
    let ((s', v'), b') = tick pico2w faulted locals busy_period (silent 0) in
    (s'.machine.state ≡ AppState.fault) × Grows [] b'.log
tick-StaysFaulted_example =
    tick-StaysFaulted pico2w faulted locals busy_period (silent 0) refl ((λ e. cc), ((λ e. cc), tt))

tick-conflict_example :
    (tick pico2w both_pressed locals conflict_period (silent 0)).0.0.machine.state ≡ AppState.fault
unfolding Buttons.update
tick-conflict_example = tick-conflict pico2w both_pressed locals conflict_period (silent 0) refl

start-run_example : IsConsistent (
    run pico2w
      (start pico2w (silent 0)).0.0
      locals
      (busy_period ∷ conflict_period ∷ [])
      (start pico2w (silent 0)).1)
start-run_example =
    start-run-IsConsistent pico2w locals (busy_period ∷ conflict_period ∷ []) (silent 0)

abbrev homing_machine : Machine
homing_machine = record { state = AppState.homing; fault_code = 0 }

abbrev dosing_machine : Machine
dosing_machine = record { state = AppState.dosing; fault_code = 0 }

abbrev faulted_machine : Machine
faulted_machine = record { state = AppState.fault; fault_code = 4 }

dispatch-iff_Edge_example :
    (((AppState.dispatch homing_machine AppState.stop).1 ≡ true)
      × ((AppState.dispatch homing_machine AppState.stop).0.state ≡ AppState.stopping))
    ↔ Edge AppState.homing AppState.stop AppState.stopping
dispatch-iff_Edge_example = dispatch-iff_Edge homing_machine AppState.stop AppState.stopping

-- a dose of 200 mm, where 120 are the end of the travel
abbrev long_dose : Command
long_dose = record (command CommandKind.dose) { distance_mm = float 200 }

abbrev ready_app : App
ready_app = record idle { machine = record { state = AppState.ready; fault_code = 0 } }

execute-refuses_dose_example :
    let (s', b') = execute pico2w ready_app long_dose 7 (silent 0) in
    (s' ≡ ready_app) × Grows [] b'.log
unfolding loaded motor_config_of defaults float of_ℕ of_ℤ ltf lef sub mul div position_mm
    Motor.position_steps Motor.microsteps_to_mm Motor.microsteps_per_mm Motor.signed32 Tmc5130.read
execute-refuses_dose_example =
    execute-refuses_dose pico2w ready_app long_dose 7 (silent 0) refl (inr (inl (refl, refl)))
