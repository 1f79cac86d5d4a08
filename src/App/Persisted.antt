-- ===== src/App/Persisted.antt =====
-- A setting that `apply_config_value` of src/app_tasks.c accepts is there after a restart.
use epi_pico2w_seringue.Prelude.{
  ℕ, zero, suc, Bool, ◌*◌, ◌/◌, ◌^◌, ◌<◌, ◌≤◌, ◌≡◌, refl, true, false, not, ◌||◌, Option, none,
  some, arith, Bool-cases, inl, inr, min, if◌then◌else◌,
}
use epi_pico2w_seringue.Prelude.Int.{pos, negsuc, ◌≤ℤ◌}
use epi_pico2w_seringue.Board.{Board}
use epi_pico2w_seringue.CommandApi.{ConfigParam}
use epi_pico2w_seringue.ConfigStore
use epi_pico2w_seringue.ConfigStore.Page.{IsTyped}
use epi_pico2w_seringue.ConfigStore.RoundTrip.{load-save}
use epi_pico2w_seringue.DeviceConfig.{DeviceConfig, validate, float}
use epi_pico2w_seringue.Flash.{Build}
use epi_pico2w_seringue.Flash.Writes.{IsFlash, IsNor}
use epi_pico2w_seringue.Float.{
  Float, nan, inf, fin, binary32, of_ℕ, ltf, neg, eqf, to_u32, to_i32, negated, is_finite,
}
use epi_pico2w_seringue.Float.Bits.RoundTrip.{IsSingle}
use epi_pico2w_seringue.Motor.{config_valid}
use epi_pico2w_seringue.App.{App}
use epi_pico2w_seringue.App.Settings.{
  motor_config_of, refused, with_value, adopt, apply_config_value, as_u16, as_u32,
}

as_u32-lt : (x : Float) → as_u32 x < 4294967296
unfolding to_u32
as_u32-lt x = ground arith

float-64 : float 64 ≡ fin false (64 * 2 ^ 149)
unfolding float of_ℕ
float-64 = refl

float-63 : float 63 ≡ fin false (63 * 2 ^ 149)
unfolding float of_ℕ
float-63 = refl

negated-ge : (n : ℕ) → n ≤ 128 → (negsuc 127 ≤ℤ negated n) × (negated n ≤ℤ pos 127)
unfolding negated
negated-ge zero h = omega arith
negated-ge (suc n) h = omega arith

-- a threshold from -64 to 63 fits its `int8_t`
to_i32_fits :
    (x : Float)
    → is_finite x ≡ true
    → ltf x (fin true (64 * 2 ^ 149)) ≡ false
    → ltf (fin false (63 * 2 ^ 149)) x ≡ false
    → (negsuc 127 ≤ℤ to_i32 binary32 x) × (to_i32 binary32 x ≤ℤ pos 127)
unfolding is_finite ltf to_i32
to_i32_fits nan finite low high = cc
to_i32_fits (inf s) finite low high = cc
to_i32_fits (fin false a) finite low high = ground arith
to_i32_fits (fin true a) finite low high = negated-ge (min (a / 2 ^ 149) 2147483648) (ground arith)

threshold_fits :
    (x : Float)
    → refused ConfigParam.stallguard_threshold x ≡ false
    → (negsuc 127 ≤ℤ to_i32 binary32 x) × (to_i32 binary32 x ≤ℤ pos 127)
unfolding refused neg
threshold_fits x h =
    let low : ltf x (neg (float 64)) ≡ false = ground arith in
    let high : ltf (float 63) x ≡ false = ground arith in
    to_i32_fits x (ground arith) (rw float-64 at low) (rw float-63 at high)

as_u16-lt : (x : Float) → as_u16 x < 65536
as_u16-lt x = omega arith

flag-lt : (b : Bool) → (if b then 0 else 1) < 256
flag-lt true = omega arith
flag-lt false = omega arith

abbrev pub TypedIfAny : Option DeviceConfig → Type 0
TypedIfAny none = Unit
TypedIfAny (some c) = IsTyped c

-- A value that is not refused has the C type of its parameter.
pub with_value-IsTyped :
    (p : ConfigParam) (x : Float) (c : DeviceConfig)
    → IsTyped c
    → IsSingle x
    → refused p x ≡ false
    → TypedIfAny (with_value p x c)
unfolding with_value
with_value-IsTyped ConfigParam.none x c h hx fine = tt
with_value-IsTyped ConfigParam.screw_pitch_mm x c h hx fine = assumption
with_value-IsTyped ConfigParam.motor_steps_per_rev x c h hx fine = assumption (as_u16-lt x)
with_value-IsTyped ConfigParam.microsteps x c h hx fine = assumption (as_u16-lt x)
with_value-IsTyped ConfigParam.run_current_ma x c h hx fine = assumption (as_u16-lt x)
with_value-IsTyped ConfigParam.hold_current_ma x c h hx fine = assumption (as_u16-lt x)
with_value-IsTyped ConfigParam.manual_speed_mm_s x c h hx fine = assumption
with_value-IsTyped ConfigParam.dosing_speed_mm_s x c h hx fine = assumption
with_value-IsTyped ConfigParam.trigger_dose_mm x c h hx fine = assumption
with_value-IsTyped ConfigParam.a1_mm_s2 x c h hx fine = assumption
with_value-IsTyped ConfigParam.amax_mm_s2 x c h hx fine = assumption
with_value-IsTyped ConfigParam.dmax_mm_s2 x c h hx fine = assumption
with_value-IsTyped ConfigParam.d1_mm_s2 x c h hx fine = assumption
with_value-IsTyped ConfigParam.retract_distance_mm x c h hx fine = assumption
with_value-IsTyped ConfigParam.retract_speed_mm_s x c h hx fine = assumption
with_value-IsTyped ConfigParam.retract_delay_ms x c h hx fine = assumption (as_u32-lt x)
with_value-IsTyped ConfigParam.position_min_mm x c h hx fine = assumption
with_value-IsTyped ConfigParam.position_max_mm x c h hx fine = assumption
with_value-IsTyped ConfigParam.manual_timeout_ms x c h hx fine = assumption (as_u32-lt x)
with_value-IsTyped ConfigParam.stallguard_threshold x c h hx fine =
    assumption (threshold_fits x fine)
with_value-IsTyped ConfigParam.stallguard_warning x c h hx fine = assumption (as_u16-lt x)
with_value-IsTyped ConfigParam.stallguard_critical x c h hx fine = assumption (as_u16-lt x)
with_value-IsTyped ConfigParam.stallguard_filter_count x c h hx fine = assumption (as_u16-lt x)
with_value-IsTyped ConfigParam.stallguard_enabled x c h hx fine =
    assumption (flag-lt (eqf x (float 0)))

not_ok : ◌≡◌ {A = Bool} false true → ⊥
not_ok h = cc

adopt-load :
    (build : Build) (s : App) (o : Option DeviceConfig) (b : Board)
    → IsFlash b
    → IsNor b
    → TypedIfAny o
    → (ConfigStore.load build (b.flash b.log)).1.sequence < 4294967295
    → (adopt build s o b).0.0 ≡ true
    → let ((ok, t), b') = adopt build s o b in
      ConfigStore.load build (b'.flash b'.log) ≡ (true, t.config)
unfolding adopt
adopt-load build s none b flash nor typed room ok = cc
adopt-load build s (some next) b flash nor typed room ok =
    elim (Bool-cases (not (validate next) || not (config_valid (motor_config_of next)))) [
      | inl bad ↦ absurd (not_ok (rw bad at ok))
      | inr good ↦
          let v : validate next ≡ true = ground arith in
          let saved : (ConfigStore.save build next b).0.0 ≡ true = rw good at ok in
          rw (good, saved) (load-save build next b flash nor typed v room saved).0
    ]

-- A setting that is accepted is there after a restart: what is loaded from the flash is exactly the
-- settings in use. The settings before have values of their C types, the value is one of binary32, the
-- flash does what its data sheet says, and the 32-bit sequence number does not wrap.
pub apply_config_value-load :
    (build : Build) (s : App) (p : ConfigParam) (x : Float) (b : Board)
    → IsFlash b
    → IsNor b
    → IsTyped s.config
    → IsSingle x
    → (ConfigStore.load build (b.flash b.log)).1.sequence < 4294967295
    → (apply_config_value build s p x b).0.0 ≡ true
    → let ((ok, t), b') = apply_config_value build s p x b in
      ConfigStore.load build (b'.flash b'.log) ≡ (true, t.config)
unfolding apply_config_value
apply_config_value-load build s p x b flash nor typed hx room ok = elim (Bool-cases (refused p x)) [
  | inl out ↦ absurd (not_ok (rw out at ok))
  | inr inside ↦
      let accepted : (adopt build s (with_value p x s.config) b).0.0 ≡ true = rw inside at ok in
      rw inside (
        adopt-load build s (with_value p x s.config) b flash nor
          (with_value-IsTyped p x s.config typed hx inside) room accepted)
]
