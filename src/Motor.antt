-- ===== src/Motor.antt =====
-- src/motor_control.c and include/motor_control.h: the axis in millimetres on top of the driver.
pub mod Moves
use epi_pico2w_seringue.Prelude.{
  ℕ, ◌-◌, ◌^◌, Bool, true, false, not, ◌&&◌, ◌||◌, ltb, leb, ◌==◌, if◌then◌else◌, bit_and,
}
use epi_pico2w_seringue.Prelude.Int.{ℤ, pos, negsuc, ◌+ℤ◌}
use epi_pico2w_seringue.Float.{
  Float, binary32, binary64, of_ℕ, of_ℤ, decimal, abs, lef, add, sub, mul, div, widen, to_u32,
  to_i32,
}
use epi_pico2w_seringue.Board.{M, ◌>>=◌, ◌>>◌, pure, and_then}
use epi_pico2w_seringue.Tmc5130
use epi_pico2w_seringue.Tmc5130.Reg

-- `motor_config_t`
pub record MotorConfig : Type 0 where
  pub motor_steps_per_rev : ℕ
  pub microsteps : ℕ
  pub motor_run_current_ma : ℕ
  pub motor_hold_current_ma : ℕ
  pub screw_pitch_mm : Float
  pub manual_speed_mm_s : Float
  pub a1_mm_s2 : Float
  pub amax_mm_s2 : Float
  pub dmax_mm_s2 : Float
  pub d1_mm_s2 : Float

-- `motor_microsteps_per_mm`
unfoldable pub microsteps_per_mm : MotorConfig → Float
unfolding of_ℕ mul div
microsteps_per_mm c =
    div binary32 (mul binary32 (of_ℕ binary32 c.motor_steps_per_rev) (of_ℕ binary32 c.microsteps))
      c.screw_pitch_mm

-- `motor_mm_to_microsteps`
unfoldable pub mm_to_microsteps : MotorConfig → Float → ℤ
unfolding microsteps_per_mm decimal lef add sub to_i32
mm_to_microsteps c mm =
    let n = mul binary32 mm (microsteps_per_mm c) in
    let half = decimal binary32 1 2 in
    to_i32 binary32 (if lef (of_ℕ binary32 0) n then add binary32 n half else sub binary32 n half)

-- `motor_microsteps_to_mm`
unfoldable pub microsteps_to_mm : MotorConfig → ℤ → Float
unfolding microsteps_per_mm of_ℤ
microsteps_to_mm c s = div binary32 (of_ℤ binary32 s) (microsteps_per_mm c)

-- `motor_acceleration_to_tmc` at a pointer that is not null; 2199023255552 is 2^41
unfoldable pub acceleration_to_tmc : MotorConfig → Float → ℕ
unfolding microsteps_per_mm lef add widen decimal to_u32
acceleration_to_tmc c mm_s2 =
    let steps_s2 = mul binary64 (widen mm_s2) (widen (microsteps_per_mm c)) in
    let clock = of_ℕ binary64 12000000 in
    let reg =
      div binary64 (mul binary64 steps_s2 (of_ℕ binary64 2199023255552))
        (mul binary64 clock clock) in
    if lef mm_s2 (of_ℕ binary32 0)
    then 0
    else if lef (of_ℕ binary64 4294967295) reg
    then 4294967295
    else to_u32 binary64 (add binary64 reg (decimal binary64 1 2))

-- `microsteps>256||!microsteps||(microsteps&(microsteps-1))`
unfoldable pub bad_microsteps : ℕ → Bool
bad_microsteps m = ltb 256 m || m == 0 || not (bit_and m (m - 1) == 0)

-- the first condition of `motor_config_valid`
unfoldable pub bad_settings : MotorConfig → Bool
unfolding of_ℕ lef
bad_settings c =
    let zero_mm = of_ℕ binary32 0 in
    c.motor_steps_per_rev == 0
    || c.motor_run_current_ma == 0
    || c.motor_hold_current_ma == 0
    || ltb c.motor_run_current_ma c.motor_hold_current_ma
    || lef c.screw_pitch_mm zero_mm
    || lef c.manual_speed_mm_s zero_mm
    || lef c.a1_mm_s2 zero_mm
    || lef c.amax_mm_s2 zero_mm
    || lef c.dmax_mm_s2 zero_mm
    || lef c.d1_mm_s2 zero_mm

-- `motor_config_valid` at a pointer that is not null
unfoldable pub config_valid : MotorConfig → Bool
unfolding bad_settings bad_microsteps acceleration_to_tmc
config_valid c =
    if bad_settings c
    then false
    else if bad_microsteps c.microsteps
    then false
    else leb (acceleration_to_tmc c c.a1_mm_s2) 65535
      && leb (acceleration_to_tmc c c.amax_mm_s2) 65535
      && leb (acceleration_to_tmc c c.dmax_mm_s2) 65535
      && leb (acceleration_to_tmc c c.d1_mm_s2) 65535

-- `vel`, at the file's own copy of the settings
unfoldable pub vel : MotorConfig → Float → ℕ
unfolding abs microsteps_per_mm to_u32
vel cfg mm_s =
    let steps_s = mul binary32 (abs mm_s) (microsteps_per_mm cfg) in
    to_u32 binary32
      (div binary32 (mul binary32 steps_s (of_ℕ binary32 16777216)) (of_ℕ binary32 12000000))

-- `motor_init`: the result, and the file's copy of the settings afterwards
unfoldable pub init : MotorConfig → MotorConfig → M (Bool × MotorConfig)
unfolding config_valid vel
init cfg c = if not (config_valid c) then pure (false, cfg) else do
  up ←
      and_then Tmc5130.init
        (Tmc5130.configure c.microsteps c.motor_run_current_ma c.motor_hold_current_ma)
  if not up then pure (false, c) else do
    Tmc5130.enable true
    ok ←
        Tmc5130.set_ramp (vel c c.manual_speed_mm_s) (acceleration_to_tmc c c.a1_mm_s2)
          (acceleration_to_tmc c c.amax_mm_s2) (acceleration_to_tmc c c.dmax_mm_s2)
          (acceleration_to_tmc c c.d1_mm_s2)
    pure (ok, c)

-- `motor_manual`
unfoldable pub manual : MotorConfig → ℤ → M Bool
unfolding vel
manual cfg d = Tmc5130.velocity d (vel cfg cfg.manual_speed_mm_s)

-- `(int32_t)value` of a `uint32_t`
unfoldable pub signed32 : ℕ → ℤ
signed32 w = if ltb w (2 ^ 31) then pos w else negsuc (2 ^ 32 - w - 1)

-- `motor_move_relative`. C leaves an overflow of the signed sum undefined; the target register gets
-- the low 32 bits of the true sum.
unfoldable pub move_relative : MotorConfig → Float → Float → M Bool
unfolding vel mm_to_microsteps signed32
move_relative cfg mm speed = do
  p ← Tmc5130.read Reg.xactual
  and_then (pure p.ok) (
      and_then (Tmc5130.write Reg.vmax (vel cfg speed))
        (Tmc5130.position (signed32 p.value +ℤ mm_to_microsteps cfg mm)))

-- `motor_stop`
unfoldable pub stop : M Bool
stop = Tmc5130.stop

-- `motor_is_stopped`: the reply's validity is not looked at
unfoldable pub is_stopped : M Bool
is_stopped = do r ← Tmc5130.read Reg.vactual; pure (r.value == 0)

-- `motor_position_steps`
unfoldable pub position_steps : M ℤ
unfolding signed32
position_steps = do r ← Tmc5130.read Reg.xactual; pure (signed32 r.value)

-- `motor_target_reached`
unfoldable pub target_reached : M Bool
unfolding is_stopped
target_reached = do
  a ← Tmc5130.read Reg.xactual
  t ← Tmc5130.read Reg.xtarget
  and_then (pure (a.ok && t.ok && a.value == t.value)) is_stopped

-- `motor_driver_status`: the word and the validity
unfoldable pub driver_status : M (ℕ × Bool)
driver_status = do r ← Tmc5130.read Reg.drv_status; pure (r.value, r.ok)

-- `motor_set_zero`
unfoldable pub set_zero : M Bool
set_zero = and_then (Tmc5130.write Reg.xactual 0) (Tmc5130.write Reg.xtarget 0)

-- `motor_set_position_mm`
unfoldable pub set_position_mm : MotorConfig → Float → M Bool
unfolding mm_to_microsteps
set_position_mm cfg mm =
    let p = Tmc5130.word_of (mm_to_microsteps cfg mm) in
    and_then (Tmc5130.write Reg.xactual p) (Tmc5130.write Reg.xtarget p)

-- `motor_configure_stallguard`
unfoldable pub configure_stallguard : Bool → ℤ → M Bool
configure_stallguard = Tmc5130.configure_stallguard
