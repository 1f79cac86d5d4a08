-- ===== src/App/Tick.antt =====
-- `motor_task` of src/app_tasks.c: one control period.
use epi_pico2w_seringue.Prelude.{
  ℕ, Bool, true, false, ◌&&◌, List, [], ◌∷◌, leb, ◌==◌, if◌then◌else◌, sub32,
}
use epi_pico2w_seringue.AppState.{
  State, manual_push, manual_pull, dosing, retracting, homing, stopping,
}
use epi_pico2w_seringue.Board.{watchdog_reboot, M, ◌>>=◌, ◌>>◌, pure, perform}
use epi_pico2w_seringue.Buttons
use epi_pico2w_seringue.Buttons.{ButtonState, Levels}
use epi_pico2w_seringue.CommandApi.{Command}
use epi_pico2w_seringue.ConfigStore
use epi_pico2w_seringue.Flash.{Build}
use epi_pico2w_seringue.Motor
use epi_pico2w_seringue.Safety
use epi_pico2w_seringue.Safety.{Fault, Inputs, sg_result}
use epi_pico2w_seringue.Statistics
use epi_pico2w_seringue.App.{App, is_ready, set_fault, update_telemetry}
use epi_pico2w_seringue.App.Execute.{execute}
use epi_pico2w_seringue.App.Motion.{run_machine}

-- the local variables of the task
pub record Locals : Type 0 where
  pub old : ButtonState
  pub conflict_since : ℕ
  pub last_status : ℕ

-- what a period reads: the clock, the contacts, and the commands that the queue holds
pub record Period : Type 0 where
  pub now : ℕ
  pub levels : Levels
  pub commands : List Command

-- the loop over the command queue
unfoldable pub execute_all : Build → App → ℕ → List Command → M App
execute_all build s now [] = pure s
execute_all build s now (c ∷ cs) = execute build s c now >>= λ s'. execute_all build s' now cs

-- the branch with a conflict; `since` is its first time
unfoldable pub on_conflict : Build → App → ℕ → ℕ → M App
unfolding perform
on_conflict build s since now = do
  s' ← set_fault s Safety.button_conflict
  if leb 5000 (sub32 now since)
      then (do
        _ ← Motor.stop
        _ ← ConfigStore.factory_reset build
        (_, st) ← Statistics.factory_reset build s'.statistics
        perform (watchdog_reboot 0)
        pure (record s' { statistics = st }))
      else pure s'

-- the states in which `motor_moving` is set
abbrev pub is_moving : State → Bool
is_moving manual_push = true
is_moving manual_pull = true
is_moving dosing = true
is_moving retracting = true
is_moving homing = true
is_moving stopping = true
is_moving _ = false

-- in the ready state the statistics are saved
unfoldable pub keep_statistics : Build → App → M App
keep_statistics build s =
    if is_ready s.machine.state && s.statistics.dirty
    then (do (_, st) ← Statistics.persist build s.statistics; pure (record s { statistics = st }))
    else pure s

-- the end of the loop's body: the state, and `last_status`
unfoldable pub finish_period : Build → App → ℕ → ℕ → M (App × ℕ)
unfolding keep_statistics
finish_period build s last_status now = do
  kept ← keep_statistics build (record s { motor_moving = is_moving s.machine.state })
  if leb 250 (sub32 now last_status)
      then (do s' ← update_telemetry kept; pure (s', now))
      else pure (kept, last_status)

-- the `if(b.conflict)` of the loop's body
unfoldable pub act : Build → App → Locals → ButtonState → ℕ → ℕ → M App
unfolding on_conflict run_machine
act build s v b since now =
    if b.conflict then on_conflict build s since now else run_machine build s v.old b now

-- the body of the loop of `motor_task`
unfoldable pub tick : Build → App → Locals → Period → M (App × Locals)
unfolding execute_all act finish_period
tick build s v x = do
  let (buttons, b) = Buttons.update s.buttons x.levels x.now
  let since = if v.conflict_since == 0 then x.now else v.conflict_since
  s1 ← execute_all build (record s { buttons = buttons }) x.now x.commands
  s2 ← act build s1 v b since x.now
  (s3, last) ← finish_period build s2 v.last_status x.now
  pure
      (s3, record { old = b; conflict_since = if b.conflict then since else 0; last_status = last })
