-- ===== src/App/Dose.antt =====
-- The refusal of a dose that exceeds the remaining travel, in `execute` of src/app_tasks.c.
use epi_pico2w_seringue.Prelude.{
  ℕ, ◌≡◌, refl, ap, ◌⊎◌, Bool, xor, true, false, ◌&&◌, inl, inr, if◌then◌else◌, arith,
}
use epi_pico2w_seringue.Board.{Board, M, pure}
use epi_pico2w_seringue.CommandApi.{Command, CommandKind}
use epi_pico2w_seringue.DeviceConfig.{float}
use epi_pico2w_seringue.Flash.{Build}
use epi_pico2w_seringue.Float.{Float, nan, inf, fin, binary32, ltf, lef, eqf, sub}
use epi_pico2w_seringue.Motor
use epi_pico2w_seringue.App.{App, is_ready, position_mm}
use epi_pico2w_seringue.App.Execute.{execute, execute_kind, dose}
use epi_pico2w_seringue.App.Quiet.Driver.{Quiet-position_steps}
use epi_pico2w_seringue.App.Quiet.{Grows, same, Quiet, Quiet-pure, Quiet-bind}

-- a distance exceeds the travel that is left from where the driver says that the axis is
abbrev pub IsTooFar : App → Board → Float → Type 0
IsTooFar s b d = ltf (sub binary32 s.config.position_max_mm (position_mm s b).0) d ≡ true

-- the dose exceeds it: that of the command if it is positive, and the stored one if not
abbrev pub DoseIsTooFar : App → Command → Board → Type 0
DoseIsTooFar s c b =
    ((ltf (float 0) c.distance_mm ≡ true) × IsTooFar s b c.distance_mm)
    ⊎ ((ltf (float 0) c.distance_mm ≡ false) × IsTooFar s b s.config.trigger_dose_mm)

lef-ltf : (x y : Float) → ltf y x ≡ true → lef x y ≡ false
unfolding ltf eqf lef xor
lef-ltf nan y h = ground arith
lef-ltf (inf s) y h = ground arith
lef-ltf (fin true a) y h = ground arith
lef-ltf (fin false a) y h = ground arith

and-false : (x : Bool) → (x && false) ≡ false
and-false true = refl
and-false false = refl

dose-refused :
    (s : App) (c : Command) (b : Board) → DoseIsTooFar s c b → dose s c b ≡ (s, (position_mm s b).1)
unfolding dose
dose-refused s c b (inl (asked, far)) =
    rw (asked, lef-ltf c.distance_mm _ far, and-false (ltf (float 0) c.distance_mm)) refl
dose-refused s c b (inr (stored, far)) =
    rw
      (
        stored,
        lef-ltf s.config.trigger_dose_mm _ far,
        and-false (ltf (float 0) s.config.trigger_dose_mm),
      )
      refl

Quiet-position_mm : (s : App) → Quiet (position_mm s)
unfolding position_mm
Quiet-position_mm s =
    Quiet-bind Motor.position_steps _ Quiet-position_steps
      (λ steps. Quiet-pure (Motor.microsteps_to_mm s.motor_cfg steps))

if-refused :
    (t : Bool) (s : App) (m : M App) (b b' : Board)
    → m b ≡ (s, b')
    → Grows b.log b'.log
    → let (s', b'') = (if t then m else pure s) b in (s' ≡ s) × Grows b.log b''.log
if-refused true s m b b' e g = rw e (refl, g)
if-refused false s m b b' e g = (refl, same)

when_ready-dose :
    (build : Build) (s : App) (c : Command) (now : ℕ) (b : Board)
    → (is_ready s.machine.state ≡ false) ⊎ DoseIsTooFar s c b
    → let (s', b') = execute_kind build s c now CommandKind.dose b in (s' ≡ s) × Grows b.log b'.log
unfolding execute_kind
when_ready-dose build s c now b (inl busy) = rw busy (refl, same)
when_ready-dose build s c now b (inr refused) =
    if-refused (is_ready s.machine.state) s (dose s c) b (position_mm s b).1
      (dose-refused s c b refused) ((Quiet-position_mm s).at b)

-- A dose is refused outside the ready state, and if its distance, or the stored dose where the command
-- brings no positive distance, exceeds the travel that is left: then the state of the firmware stays as
-- it is, the count of activations with it, and the driver gets no datagram that sets a mode, a position
-- or a speed other than 0.
pub execute-refuses_dose :
    (build : Build) (s : App) (c : Command) (now : ℕ) (b : Board)
    → c.kind ≡ CommandKind.dose
    → (is_ready s.machine.state ≡ false) ⊎ DoseIsTooFar s c b
    → let (s', b') = execute build s c now b in (s' ≡ s) × Grows b.log b'.log
unfolding execute
execute-refuses_dose build s c now b kind refused =
    rw (ap (λ k. execute_kind build s c now k b) kind) (when_ready-dose build s c now b refused)
