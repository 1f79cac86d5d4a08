-- ===== src/App/Consistent/Runs.antt =====
-- The motor task of src/app_tasks.c from the start of the firmware on.
use epi_pico2w_seringue.Prelude.{◌≡◌, refl, Bool, true, false, not, List, [], ◌∷◌, arith, ◌==◌}
use epi_pico2w_seringue.AppState
use epi_pico2w_seringue.Board.{Board, and_then, pure}
use epi_pico2w_seringue.Buttons
use epi_pico2w_seringue.ConfigStore
use epi_pico2w_seringue.Flash.{Build}
use epi_pico2w_seringue.Motor
use epi_pico2w_seringue.Safety
use epi_pico2w_seringue.Statistics
use epi_pico2w_seringue.StatusLed
use epi_pico2w_seringue.App.{App, dispatch}
use epi_pico2w_seringue.App.Start.{start, enter, bring_up, loaded}
use epi_pico2w_seringue.App.Tick.{Locals, Period, tick}
use epi_pico2w_seringue.App.Consistent.{IsConsistent, set_fault-IsConsistent}
use epi_pico2w_seringue.App.Consistent.Periods.{tick-IsConsistent}

-- the state after a number of control periods
unfoldable pub run : Build → App → Locals → List Period → Board → App
run build s v [] b = s
run build s v (x ∷ xs) b = let ((s', v'), b') = tick build s v x b in run build s' v' xs b'

enter-IsConsistent :
    (s : App) (ok : Bool) (b : Board)
    → s.machine.state ≡ AppState.boot
    → IsConsistent s
    → IsConsistent (enter s ok b).0
unfolding enter dispatch AppState.dispatch
enter-IsConsistent s true b boot h = ground arith
enter-IsConsistent s false b boot h = set_fault-IsConsistent s Safety.spi b (λ e. cc)

bring_up-IsConsistent :
    (build : Build) (s : App) (b : Board)
    → s.machine.state ≡ AppState.boot
    → IsConsistent s
    → IsConsistent (bring_up build s b).0.0
unfolding bring_up
bring_up-IsConsistent build s b boot h =
    let ((motor_ok, driver_cfg), b1) = Motor.init s.driver_cfg s.motor_cfg b in
    let (led, b2) = StatusLed.init build.has_radio StatusLed.at_start (not build.has_radio) b1 in
    let (ok, b3) =
      and_then (pure motor_ok)
        (Motor.configure_stallguard (not (s.config.stallguard_enabled == 0))
          s.config.stallguard_threshold)
        b2 in
    enter-IsConsistent (record s { driver_cfg = driver_cfg }) ok b3 boot h

start-IsConsistent : (build : Build) (b : Board) → IsConsistent (start build b).0.0
unfolding start AppState.init Safety.init
start-IsConsistent build b =
    let b' = (Buttons.init b).1 in
    bring_up-IsConsistent build
      (loaded build (ConfigStore.load build (b'.flash b'.log)).1
        (Statistics.init build (b'.flash b'.log)))
      b' refl (refl, (refl, refl))

run-IsConsistent :
    (build : Build) (s : App) (v : Locals) (xs : List Period) (b : Board)
    → IsConsistent s
    → IsConsistent (run build s v xs b)
unfolding run
run-IsConsistent build s v [] b h = h
run-IsConsistent build s v (x ∷ xs) b h =
    let ((s', v'), b') = tick build s v x b in
    run-IsConsistent build s' v' xs b' (tick-IsConsistent build s v x b h)

-- From the start of the firmware, whatever the devices answer and whatever the clock, the contacts and
-- the commands are, after every number of control periods the direction agrees with the state of the
-- machine, a fault code is shown exactly in the fault state, and the supervisor has latched no fault
-- outside of it.
pub start-run-IsConsistent :
    (build : Build) (v : Locals) (xs : List Period) (b : Board)
    → IsConsistent (run build (start build b).0.0 v xs (start build b).1)
start-run-IsConsistent build v xs b =
    run-IsConsistent build (start build b).0.0 v xs (start build b).1 (start-IsConsistent build b)
