-- ===== src/App/Consistent/Commands.antt =====
-- `execute` of src/app_tasks.c keeps the state of the motor task consistent, command by command.
use epi_pico2w_seringue.Prelude.{
  ℕ, ◌≡◌, true, Option, none, some, List, [], ◌∷◌, arith, Bool-cases, inl, inr,
}
use epi_pico2w_seringue.AppState
use epi_pico2w_seringue.Board.{Board, M}
use epi_pico2w_seringue.Calibration
use epi_pico2w_seringue.Calibration.{Thresholds}
use epi_pico2w_seringue.CommandApi.{Command, CommandKind, ConfigParam}
use epi_pico2w_seringue.DeviceConfig.{DeviceConfig}
use epi_pico2w_seringue.Flash.{Build}
use epi_pico2w_seringue.Float.{Float}
use epi_pico2w_seringue.Safety
use epi_pico2w_seringue.App.{App, is_ready}
use epi_pico2w_seringue.App.Settings.{adopt, apply_config_value, with_value}
use epi_pico2w_seringue.App.Execute.{
  cal_start, cal_store, cal_finish, unload, move, dose, set_value, execute, execute_kind,
  when_ready,
}
use epi_pico2w_seringue.App.Tick.{execute_all}
use epi_pico2w_seringue.App.Consistent.{
  IsConsistent, begin_manual_push, begin_manual_pull, stop_motion-IsConsistent,
}

-- the parts of the state that consistency is about are the same
pub record SameCore (s t : App) : Type 0 where
  pub machine : t.machine ≡ s.machine
  pub direction : t.direction ≡ s.direction
  pub safety : t.safety ≡ s.safety

pub SameCore-IsConsistent : (s t : App) → SameCore s t → IsConsistent s → IsConsistent t
SameCore-IsConsistent s t e h = rw (e.machine, e.direction, e.safety) h

adopt-SameCore :
    (build : Build) (s : App) (o : Option DeviceConfig) (b : Board)
    → SameCore s (adopt build s o b).0.1
unfolding adopt
adopt-SameCore build s none b = ground arith
adopt-SameCore build s (some next) b = ground arith

pub apply_config_value-SameCore :
    (build : Build) (s : App) (p : ConfigParam) (x : Float) (b : Board)
    → SameCore s (apply_config_value build s p x b).0.1
unfolding apply_config_value
apply_config_value-SameCore build s p x b =
    ground (arith, adopt-SameCore build s (with_value p x s.config) b)

set_value-IsConsistent :
    (build : Build) (s : App) (p : ConfigParam) (x : Float) (b : Board)
    → IsConsistent s
    → IsConsistent (set_value build s p x b).0
unfolding set_value
set_value-IsConsistent build s p x b h =
    SameCore-IsConsistent s (apply_config_value build s p x b).0.1
      (apply_config_value-SameCore build s p x b) h

cal_store-IsConsistent :
    (build : Build) (s : App) (o : Option Thresholds) (b : Board)
    → IsConsistent s
    → IsConsistent (cal_store build s o b).0
unfolding cal_store
cal_store-IsConsistent build s none b h = h
cal_store-IsConsistent build s (some t) b h = h

cal_finish-IsConsistent :
    (build : Build) (s : App) (b : Board) → IsConsistent s → IsConsistent (cal_finish build s b).0
unfolding cal_finish
cal_finish-IsConsistent build s b h =
    let (cal, result) = Calibration.finish s.sg_cal in
    cal_store-IsConsistent build (record s { sg_cal = cal }) result b h

unload-IsConsistent :
    (s : App) (c : Command) (now : ℕ) (b : Board)
    → s.machine.state ≡ AppState.ready
    → IsConsistent s
    → IsConsistent (unload s c now b).0
unfolding unload AppState.dispatch Safety.manual_started Safety.init
unload-IsConsistent s c now b r h = ground arith

move-IsConsistent :
    (s : App) (c : Command) (b : Board)
    → s.machine.state ≡ AppState.ready
    → IsConsistent s
    → IsConsistent (move s c b).0
unfolding move AppState.dispatch
move-IsConsistent s c b r h = ground arith

dose-IsConsistent :
    (s : App) (c : Command) (b : Board)
    → s.machine.state ≡ AppState.ready
    → IsConsistent s
    → IsConsistent (dose s c b).0
unfolding dose AppState.dispatch
dose-IsConsistent s c b r h = ground arith

is_ready_lem : (t : AppState.State) → is_ready t ≡ true → t ≡ AppState.ready
is_ready_lem t h = ground arith

-- an operation of the ready state keeps consistency if it does so there
when_ready-IsConsistent :
    (s : App) (m : M App) (b : Board)
    → (s.machine.state ≡ AppState.ready → IsConsistent (m b).0)
    → IsConsistent s
    → IsConsistent (when_ready s m b).0
when_ready-IsConsistent s m b h k = elim (Bool-cases (is_ready s.machine.state)) [
  | inl r ↦ rw r (h (is_ready_lem s.machine.state r))
  | inr n ↦ rw n k
]

pub execute_kind-IsConsistent :
    (build : Build) (s : App) (c : Command) (now : ℕ) (k : CommandKind) (b : Board)
    → IsConsistent s
    → IsConsistent (execute_kind build s c now k b).0
unfolding execute_kind AppState.dispatch Safety.init
execute_kind-IsConsistent build s c now CommandKind.stop b h = stop_motion-IsConsistent s b h
execute_kind-IsConsistent build s c now CommandKind.push_stop b h = stop_motion-IsConsistent s b h
execute_kind-IsConsistent build s c now CommandKind.pull_stop b h = stop_motion-IsConsistent s b h
execute_kind-IsConsistent build s c now CommandKind.bootsel b h = h
execute_kind-IsConsistent build s c now CommandKind.reboot b h = h
execute_kind-IsConsistent build s c now CommandKind.reset b h = ground arith
execute_kind-IsConsistent build s c now CommandKind.sg_cal_cancel b h = h
execute_kind-IsConsistent build s c now CommandKind.sg_cal_start b h =
    when_ready-IsConsistent s (cal_start s) b (λ r. h) h
execute_kind-IsConsistent build s c now CommandKind.sg_cal_finish b h =
    when_ready-IsConsistent s (cal_finish build s) b (λ r. cal_finish-IsConsistent build s b h) h
execute_kind-IsConsistent build s c now CommandKind.set_trigger_dose b h =
    ground (arith, set_value-IsConsistent build s ConfigParam.trigger_dose_mm c.distance_mm b)
execute_kind-IsConsistent build s c now CommandKind.set_config b h =
    set_value-IsConsistent build s c.parameter c.value b h
execute_kind-IsConsistent build s c now CommandKind.flush_statistics b h =
    when_ready-IsConsistent s _ b (λ r. h) h
execute_kind-IsConsistent build s c now CommandKind.push_start b h =
    when_ready-IsConsistent s _ b (λ r. begin_manual_push s now b h) h
execute_kind-IsConsistent build s c now CommandKind.pull_start b h =
    when_ready-IsConsistent s _ b (λ r. begin_manual_pull s now b h) h
execute_kind-IsConsistent build s c now CommandKind.unload_syringe b h =
    when_ready-IsConsistent s (unload s c now) b (λ r. unload-IsConsistent s c now b r h) h
execute_kind-IsConsistent build s c now CommandKind.set_zero b h =
    when_ready-IsConsistent s _ b (λ r. h) h
execute_kind-IsConsistent build s c now CommandKind.move_relative b h =
    when_ready-IsConsistent s (move s c) b (λ r. move-IsConsistent s c b r h) h
execute_kind-IsConsistent build s c now CommandKind.dose b h =
    when_ready-IsConsistent s (dose s c) b (λ r. dose-IsConsistent s c b r h) h
execute_kind-IsConsistent build s c now CommandKind.none b h = h

pub execute-IsConsistent :
    (build : Build) (s : App) (c : Command) (now : ℕ) (b : Board)
    → IsConsistent s
    → IsConsistent (execute build s c now b).0
unfolding execute
execute-IsConsistent build s c now b h = execute_kind-IsConsistent build s c now c.kind b h

-- Any number of commands keeps consistency.
pub execute_all-IsConsistent :
    (build : Build) (s : App) (now : ℕ) (cs : List Command) (b : Board)
    → IsConsistent s
    → IsConsistent (execute_all build s now cs b).0
unfolding execute_all
execute_all-IsConsistent build s now [] b h = h
execute_all-IsConsistent build s now (c ∷ cs) b h =
    let (s', b') = execute build s c now b in
    execute_all-IsConsistent build s' now cs b' (execute-IsConsistent build s c now b h)
