-- ===== src/App/Consistent.antt =====
-- What the motor task of src/app_tasks.c keeps between any two of its steps: the direction, the fault
-- code and the supervisor's latch agree with the state of the machine.
pub mod Commands
pub mod Periods
pub mod Runs
use epi_pico2w_seringue.Prelude.{ℕ, ◌≡◌, refl, ◌≢◌, ◌⊎◌, inl, inr, Bool, true, false, arith}
use epi_pico2w_seringue.Prelude.Int.{ℤ, pos, negsuc}
use epi_pico2w_seringue.AppState
use epi_pico2w_seringue.AppState.{
  State, boot, ready, manual_push, manual_pull, dosing, retracting, homing, stopping, fault,
}
use epi_pico2w_seringue.Board.{Board}
use epi_pico2w_seringue.Safety
use epi_pico2w_seringue.Safety.{Fault, ok}
use epi_pico2w_seringue.App.{App, dispatch, set_fault, begin_manual, stop_motion}

-- no fault is shown, and none is latched
abbrev pub Sound : ℕ → Fault → Type 0
Sound code latch = (code ≡ 0) × (latch ≡ ok)

-- The direction is 0 at rest, 1 in a push, -1 in a pull or an unload, either in a dose, and 0 or -1 in
-- a retraction. A fault code is shown exactly in the fault state, and the supervisor has latched
-- nothing outside of it.
abbrev pub Agrees : State → ℤ → ℕ → Fault → Type 0
Agrees boot d code latch = (d ≡ pos 0) × Sound code latch
Agrees ready d code latch = (d ≡ pos 0) × Sound code latch
Agrees stopping d code latch = (d ≡ pos 0) × Sound code latch
Agrees manual_push d code latch = (d ≡ pos 1) × Sound code latch
Agrees manual_pull d code latch = (d ≡ negsuc 0) × Sound code latch
Agrees homing d code latch = (d ≡ negsuc 0) × Sound code latch
Agrees dosing d code latch = ((d ≡ pos 1) ⊎ (d ≡ negsuc 0)) × Sound code latch
Agrees retracting d code latch = ((d ≡ pos 0) ⊎ (d ≡ negsuc 0)) × Sound code latch
Agrees fault d code latch = (d ≡ pos 0) × (code ≢ 0)

abbrev pub IsConsistent : App → Type 0
IsConsistent s = Agrees s.machine.state s.direction s.machine.fault_code s.safety.fault

pub set_fault-IsConsistent :
    (s : App) (f : Fault) (b : Board) → f ≢ ok → IsConsistent (set_fault s f b).0
unfolding set_fault AppState.dispatch Safety.code
set_fault-IsConsistent s f b h = ground arith

pub begin_manual_push :
    (s : App) (now : ℕ) (b : Board)
    → IsConsistent s
    → IsConsistent (begin_manual s (pos 1) now b).0.1
unfolding begin_manual AppState.dispatch Safety.manual_started
begin_manual_push s now b h = ground arith

pub begin_manual_pull :
    (s : App) (now : ℕ) (b : Board)
    → IsConsistent s
    → IsConsistent (begin_manual s (negsuc 0) now b).0.1
unfolding begin_manual AppState.dispatch Safety.manual_started
begin_manual_pull s now b h = ground arith

pub stop_motion-IsConsistent :
    (s : App) (b : Board) → IsConsistent s → IsConsistent (stop_motion s b).0
unfolding stop_motion AppState.dispatch
stop_motion-IsConsistent s b h = ground arith
