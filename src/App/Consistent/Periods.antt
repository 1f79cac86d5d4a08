-- ===== src/App/Consistent/Periods.antt =====
-- The control periods of src/app_tasks.c keep the state of the motor task consistent.
use epi_pico2w_seringue.Prelude.{
  ℕ, ◌≡◌, inl, inr, arith, Bool-cases, if◌then◌else◌, ◌&&◌, ◌||◌, leb, sub32, ◌==◌,
}
use epi_pico2w_seringue.AppState
use epi_pico2w_seringue.AppState.{is_fault}
use epi_pico2w_seringue.Board.{Board}
use epi_pico2w_seringue.Buttons
use epi_pico2w_seringue.Buttons.{ButtonState}
use epi_pico2w_seringue.Flash.{Build}
use epi_pico2w_seringue.Motor
use epi_pico2w_seringue.Safety
use epi_pico2w_seringue.Safety.{Safety, Fault, Inputs}
use epi_pico2w_seringue.Safety.Latch.{check-fault}
use epi_pico2w_seringue.App.{
  App, dispatch, set_fault, update_telemetry, is_homing, is_ready, position_mm,
}
use epi_pico2w_seringue.App.Motion.{
  trigger, on_buttons, on_stopping, on_dosing, on_retracting, on_homing, on_verdict, supervise,
  sample_load, safety_config, safety_inputs, judge, run_machine, is_push, is_pull,
}
use epi_pico2w_seringue.App.Tick.{
  Locals, Period, execute_all, on_conflict, keep_statistics, finish_period, act, tick, is_moving,
}
use epi_pico2w_seringue.App.Consistent.{
  Agrees, IsConsistent, set_fault-IsConsistent, begin_manual_push, begin_manual_pull,
  stop_motion-IsConsistent,
}
use epi_pico2w_seringue.App.Consistent.Commands.{execute-IsConsistent, execute_all-IsConsistent}

on_buttons-IsConsistent :
    (build : Build) (s : App) (old c : ButtonState) (now : ℕ) (b : Board)
    → IsConsistent s
    → IsConsistent (on_buttons build s old c now b).0
unfolding on_buttons
on_buttons-IsConsistent build s old c now b h = ground (
  arith,
  begin_manual_push s now b,
  begin_manual_pull s now b,
  execute-IsConsistent build s (trigger s.config) now b,
  stop_motion-IsConsistent s b,
)

on_stopping-IsConsistent : (s : App) (b : Board) → IsConsistent s → IsConsistent (on_stopping s b).0
unfolding on_stopping dispatch AppState.dispatch
on_stopping-IsConsistent s b h = ground arith

on_dosing-IsConsistent :
    (s : App) (now : ℕ) (b : Board) → IsConsistent s → IsConsistent (on_dosing s now b).0
unfolding on_dosing dispatch AppState.dispatch
on_dosing-IsConsistent s now b h = ground arith

on_retracting-IsConsistent :
    (s : App) (now : ℕ) (b : Board) → IsConsistent s → IsConsistent (on_retracting s now b).0
unfolding on_retracting dispatch AppState.dispatch set_fault Safety.code
on_retracting-IsConsistent s now b h = ground arith

on_homing-IsConsistent : (s : App) (b : Board) → IsConsistent s → IsConsistent (on_homing s b).0
unfolding on_homing dispatch AppState.dispatch
on_homing-IsConsistent s b h = ground arith

-- consistent but for what the supervisor has just latched
abbrev AgreesButLatch : App → Type 0
AgreesButLatch s = Agrees s.machine.state s.direction s.machine.fault_code Safety.ok

on_verdict-IsConsistent :
    (s : App) (f : Fault) (b : Board)
    → AgreesButLatch s
    → s.safety.fault ≡ f
    → IsConsistent (on_verdict s (is_homing s.machine.state) f b).0
unfolding on_verdict dispatch AppState.dispatch set_fault Safety.code Safety.init
on_verdict-IsConsistent s Safety.ok b h e = ground arith
on_verdict-IsConsistent s _ b h e = ground arith

drop_latch : (s : App) → IsConsistent s → AgreesButLatch s
drop_latch s h = ground arith

judge-IsConsistent :
    (s : App) (x : Inputs) (b : Board) → IsConsistent s → IsConsistent (judge s x b).0
unfolding judge
judge-IsConsistent s x b h =
    let (safety, verdict) = Safety.check s.safety (safety_config s) x in
    on_verdict-IsConsistent (record s { safety = safety }) verdict b (drop_latch s h)
      (check-fault s.safety (safety_config s) x)

sample_load-IsConsistent : (s : App) (ds : ℕ) → IsConsistent s → IsConsistent (sample_load s ds)
unfolding sample_load
sample_load-IsConsistent s ds h =
    elim (Bool-cases (s.sg_cal.active && (is_push s.machine.state || is_pull s.machine.state))) [
      | inl y ↦ rw y h
      | inr n ↦ rw n h
    ]

supervise-IsConsistent :
    (s : App) (now : ℕ) (b : Board) → IsConsistent s → IsConsistent (supervise s now b).0
unfolding supervise
supervise-IsConsistent s now b h =
    let ((ds, spi), b1) = Motor.driver_status b in
    let (at, b2) = position_mm s b1 in
    judge-IsConsistent (sample_load s ds) (safety_inputs s now ds spi at) b2
      (sample_load-IsConsistent s ds h)

run_machine-IsConsistent :
    (build : Build) (s : App) (old c : ButtonState) (now : ℕ) (b : Board)
    → IsConsistent s
    → IsConsistent (run_machine build s old c now b).0
unfolding run_machine
run_machine-IsConsistent build s old c now b h =
    let (s1, b1) = on_buttons build s old c now b in
    let (s2, b2) = on_stopping s1 b1 in
    let (s3, b3) = on_dosing s2 now b2 in
    let (s4, b4) = on_retracting s3 now b3 in
    let (s5, b5) = on_homing s4 b4 in
    let h1 : IsConsistent s1 = on_buttons-IsConsistent build s old c now b h in
    let h2 : IsConsistent s2 = on_stopping-IsConsistent s1 b1 h1 in
    let h3 : IsConsistent s3 = on_dosing-IsConsistent s2 now b2 h2 in
    let h4 : IsConsistent s4 = on_retracting-IsConsistent s3 now b3 h3 in
    let h5 : IsConsistent s5 = on_homing-IsConsistent s4 b4 h4 in
    elim (Bool-cases (is_fault s.machine.state)) [
      | inl y ↦ rw y h
      | inr n ↦ rw n (supervise-IsConsistent s5 now b5 h5)
    ]

on_conflict-IsConsistent :
    (build : Build) (s : App) (since now : ℕ) (b : Board)
    → IsConsistent (on_conflict build s since now b).0
unfolding on_conflict
on_conflict-IsConsistent build s since now b =
    let h : IsConsistent (set_fault s Safety.button_conflict b).0 =
      set_fault-IsConsistent s Safety.button_conflict b (λ e. cc) in
    elim (Bool-cases (leb 5000 (sub32 now since))) [ inl y ↦ rw y h | inr n ↦ rw n h ]

update_telemetry-IsConsistent :
    (s : App) (b : Board) → IsConsistent s → IsConsistent (update_telemetry s b).0
unfolding update_telemetry
update_telemetry-IsConsistent s b h = h

keep_statistics-IsConsistent :
    (build : Build) (s : App) (b : Board)
    → IsConsistent s
    → IsConsistent (keep_statistics build s b).0
unfolding keep_statistics
keep_statistics-IsConsistent build s b h =
    elim (Bool-cases (is_ready s.machine.state && s.statistics.dirty)) [
      | inl y ↦ rw y h
      | inr n ↦ rw n h
    ]

finish_period-IsConsistent :
    (build : Build) (s : App) (last now : ℕ) (b : Board)
    → IsConsistent s
    → IsConsistent (finish_period build s last now b).0.0
unfolding finish_period
finish_period-IsConsistent build s last now b h =
    let flagged : App = record s { motor_moving = is_moving s.machine.state } in
    let (kept, b1) = keep_statistics build flagged b in
    let k : IsConsistent kept = keep_statistics-IsConsistent build flagged b h in
    elim (Bool-cases (leb 250 (sub32 now last))) [
      | inl y ↦ rw y (update_telemetry-IsConsistent kept b1 k)
      | inr n ↦ rw n k
    ]

act-IsConsistent :
    (build : Build) (s : App) (v : Locals) (c : ButtonState) (since now : ℕ) (b : Board)
    → IsConsistent s
    → IsConsistent (act build s v c since now b).0
unfolding act
act-IsConsistent build s v c since now b h = elim (Bool-cases c.conflict) [
  | inl y ↦ rw y (on_conflict-IsConsistent build s since now b)
  | inr n ↦ rw n (run_machine-IsConsistent build s v.old c now b h)
]

pub tick-IsConsistent :
    (build : Build) (s : App) (v : Locals) (x : Period) (b : Board)
    → IsConsistent s
    → IsConsistent (tick build s v x b).0.0
unfolding tick
tick-IsConsistent build s v x b h =
    let (buttons, c) = Buttons.update s.buttons x.levels x.now in
    let s0 : App = record s { buttons = buttons } in
    let since = if v.conflict_since == 0 then x.now else v.conflict_since in
    let (s1, b1) = execute_all build s0 x.now x.commands b in
    let (s2, b2) = act build s1 v c since x.now b1 in
    finish_period-IsConsistent build s2 v.last_status x.now b2 (
      act-IsConsistent build s1 v c since x.now b1
        (execute_all-IsConsistent build s0 x.now x.commands b h))
