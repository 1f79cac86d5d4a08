-- ===== src/App/Quiet/Periods.antt =====
-- Control periods of src/app_tasks.c in the fault state, and with both contacts closed.
use epi_pico2w_seringue.Prelude.{
  ℕ, ◌≡◌, ◌≢◌, ◌⊎◌, true, false, List, [], ◌∷◌, arith, All, Bool-cases, inl, inr, if◌then◌else◌,
  leb, sub32, ◌==◌,
}
use epi_pico2w_seringue.AppState
use epi_pico2w_seringue.AppState.{is_fault}
use epi_pico2w_seringue.Board.{Board, perform}
use epi_pico2w_seringue.Buttons
use epi_pico2w_seringue.Buttons.{ButtonState}
use epi_pico2w_seringue.CommandApi.{Command, CommandKind}
use epi_pico2w_seringue.ConfigStore
use epi_pico2w_seringue.Flash.{Build}
use epi_pico2w_seringue.Motor
use epi_pico2w_seringue.Safety
use epi_pico2w_seringue.App.{App, set_fault, position_mm, update_telemetry, is_ready}
use epi_pico2w_seringue.App.Execute.{execute}
use epi_pico2w_seringue.App.Motion.{run_machine}
use epi_pico2w_seringue.App.Tick.{
  Locals, Period, execute_all, on_conflict, keep_statistics, finish_period, act, tick,
}
use epi_pico2w_seringue.App.Quiet.{Grows, same, more, Grows-trans}
use epi_pico2w_seringue.App.Quiet.Driver.{
  Quiet-stop, Quiet-position_steps, Quiet-factory_reset, Quiet-statistics_reset,
}
use epi_pico2w_seringue.App.Quiet.Fault.{
  StaysFaulted, stay, set_fault-StaysFaulted, execute-StaysFaulted,
}

-- no command of the period resets a fault
abbrev pub NoReset : List Command → Type 0
NoReset cs = All (λ (c : Command). c.kind ≢ CommandKind.reset) cs

execute_all-StaysFaulted :
    (build : Build) (s : App) (now : ℕ) (cs : List Command) (b : Board)
    → NoReset cs
    → s.machine.state ≡ AppState.fault
    → let (s', b') = execute_all build s now cs b in
      (s'.machine.state ≡ AppState.fault) × Grows b.log b'.log
unfolding execute_all execute
execute_all-StaysFaulted build s now [] b none h = (h, same)
execute_all-StaysFaulted build s now (c ∷ cs) b none h =
    let one : StaysFaulted (execute build s c now) =
      execute-StaysFaulted build s c now c.kind none.0 h in
    let (s', b') = execute build s c now b in
    let rest = execute_all-StaysFaulted build s' now cs b' none.1 (one.faulted b) in
    (rest.0, Grows-trans (one.quiet.at b) rest.1)

run_machine-StaysFaulted :
    (build : Build) (s : App) (old c : ButtonState) (now : ℕ)
    → s.machine.state ≡ AppState.fault
    → StaysFaulted (run_machine build s old c now)
unfolding run_machine
run_machine-StaysFaulted build s old c now h =
    let e : is_fault s.machine.state ≡ true = ground arith in rw e (stay s h)

on_conflict-StaysFaulted :
    (build : Build) (s : App) (since now : ℕ) → StaysFaulted (on_conflict build s since now)
unfolding on_conflict perform
on_conflict-StaysFaulted build s since now =
    let faulted : StaysFaulted (set_fault s Safety.button_conflict) =
      set_fault-StaysFaulted s Safety.button_conflict in
    elim (Bool-cases (leb 5000 (sub32 now since))) [
      | inl y ↦ rw y (record {
        quiet = record {
          at = λ b.
              let (s', b1) = set_fault s Safety.button_conflict b in
              let b2 = (Motor.stop b1).1 in
              let b3 = (ConfigStore.factory_reset build b2).1 in
              more tt (
                Grows-trans (faulted.quiet.at b) (
                  Grows-trans (Quiet-stop.at b1) (
                    Grows-trans ((Quiet-factory_reset build).at b2)
                      ((Quiet-statistics_reset build s'.statistics).at b3))));
        };
        faulted = λ b. faulted.faulted b;
      })
      | inr n ↦ rw n (record {
        quiet = record { at = λ b. faulted.quiet.at b };
        faulted = λ b. faulted.faulted b;
      })
    ]

act-StaysFaulted :
    (build : Build) (s : App) (v : Locals) (c : ButtonState) (since now : ℕ)
    → (s.machine.state ≡ AppState.fault) ⊎ (c.conflict ≡ true)
    → StaysFaulted (act build s v c since now)
unfolding act
act-StaysFaulted build s v c since now h = elim (Bool-cases c.conflict) [
  | inl y ↦ rw y (on_conflict-StaysFaulted build s since now)
  | inr n ↦ rw n (run_machine-StaysFaulted build s v.old c now (ground arith))
]

finish_period-StaysFaulted :
    (build : Build) (s : App) (last now : ℕ) (b : Board)
    → s.machine.state ≡ AppState.fault
    → let ((s', last'), b') = finish_period build s last now b in
      (s'.machine.state ≡ AppState.fault) × Grows b.log b'.log
unfolding finish_period keep_statistics update_telemetry position_mm
finish_period-StaysFaulted build s last now b h =
    let e : is_ready s.machine.state ≡ false = ground arith in
    elim (Bool-cases (leb 250 (sub32 now last))) [
      | inl y ↦ rw (e, y) (h, Quiet-position_steps.at b)
      | inr n ↦ rw (e, n) (h, same)
    ]

-- In the fault state, a control period with no fault reset among its commands ends in the fault state
-- and gives the driver no order to move: whatever the contacts, the other commands and the devices'
-- answers are, no datagram sets a mode or a position, or a speed other than 0.
pub tick-StaysFaulted :
    (build : Build) (s : App) (v : Locals) (x : Period) (b : Board)
    → s.machine.state ≡ AppState.fault
    → NoReset x.commands
    → let ((s', v'), b') = tick build s v x b in
      (s'.machine.state ≡ AppState.fault) × Grows b.log b'.log
unfolding tick
tick-StaysFaulted build s v x b h none =
    let (buttons, c) = Buttons.update s.buttons x.levels x.now in
    let s0 : App = record s { buttons = buttons } in
    let since = if v.conflict_since == 0 then x.now else v.conflict_since in
    let (s1, b1) = execute_all build s0 x.now x.commands b in
    let (s2, b2) = act build s1 v c since x.now b1 in
    let first = execute_all-StaysFaulted build s0 x.now x.commands b none h in
    let second : StaysFaulted (act build s1 v c since x.now) =
      act-StaysFaulted build s1 v c since x.now (inl first.0) in
    let third = finish_period-StaysFaulted build s2 v.last_status x.now b2 (second.faulted b1) in
    (third.0, Grows-trans first.1 (Grows-trans (second.quiet.at b1) third.1))

-- A control period that finds both contacts closed ends in the fault state.
pub tick-conflict :
    (build : Build) (s : App) (v : Locals) (x : Period) (b : Board)
    → (Buttons.update s.buttons x.levels x.now).1.conflict ≡ true
    → (tick build s v x b).0.0.machine.state ≡ AppState.fault
unfolding tick
tick-conflict build s v x b both =
    let (buttons, c) = Buttons.update s.buttons x.levels x.now in
    let s0 : App = record s { buttons = buttons } in
    let since = if v.conflict_since == 0 then x.now else v.conflict_since in
    let (s1, b1) = execute_all build s0 x.now x.commands b in
    let (s2, b2) = act build s1 v c since x.now b1 in
    let second : StaysFaulted (act build s1 v c since x.now) =
      act-StaysFaulted build s1 v c since x.now (inr both) in
    (finish_period-StaysFaulted build s2 v.last_status x.now b2 (second.faulted b1)).0
