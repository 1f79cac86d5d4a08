-- ===== src/App/Typed.antt =====
-- Every setting in use in the motor task of src/app_tasks.c has a value of its C type.
pub mod Runs
use epi_pico2w_seringue.Prelude.{
  ℕ, ◌<◌, ◌≡◌, refl, sym, ap, ◌∙◌, Bool, true, false, not, ◌&&◌, ◌||◌, Option, none, some, List, [],
  ◌∷◌, All, arith, Bool-cases, inl, inr, subst, if_either, ltb, ◌/◌, ◌%◌,
}
use epi_pico2w_seringue.Prelude.Int.{ℤ, pos, negsuc}
use epi_pico2w_seringue.Board.{Board, M}
use epi_pico2w_seringue.Calibration
use epi_pico2w_seringue.Calibration.{Calibration, Thresholds}
use epi_pico2w_seringue.CommandApi.{Command, CommandKind, ConfigParam}
use epi_pico2w_seringue.ConfigStore
use epi_pico2w_seringue.ConfigStore.Page.{IsTyped}
use epi_pico2w_seringue.ConfigStore.Typed.{save-IsTyped}
use epi_pico2w_seringue.DeviceConfig.{DeviceConfig, validate, float}
use epi_pico2w_seringue.Flash.{Build}
use epi_pico2w_seringue.Float.{Float, ltf, lef}
use epi_pico2w_seringue.Float.Bits.RoundTrip.{IsSingle}
use epi_pico2w_seringue.Motor.{config_valid}
use epi_pico2w_seringue.App.{App, dispatch, set_fault, begin_manual, stop_motion, is_ready}
use epi_pico2w_seringue.App.Persisted.{TypedIfAny, with_value-IsTyped}
use epi_pico2w_seringue.App.Settings.{
  motor_config_of, refused, with_value, adopt, apply_config_value,
}
use epi_pico2w_seringue.App.Execute.{
  cal_start, cal_cancel, cal_store, cal_finish, unload, move, dose, set_value, execute,
  execute_kind, when_ready,
}
use epi_pico2w_seringue.App.Tick.{execute_all}

abbrev pub HasTyped : App → Type 0
HasTyped s = IsTyped s.config

-- the values that a command brings, as far as they reach the settings
abbrev pub IsTypedCommand : Command → Type 0
IsTypedCommand c = IsSingle c.distance_mm × IsSingle c.value

-- the settings are the same
pub same : {c d : DeviceConfig} → d ≡ c → IsTyped c → IsTyped d
same e h = subst IsTyped (sym e) h

adopt-HasTyped :
    (build : Build) (s : App) (o : Option DeviceConfig) (b : Board)
    → TypedIfAny o
    → HasTyped s
    → HasTyped (adopt build s o b).0.1
unfolding adopt
adopt-HasTyped build s none b ho h = h
adopt-HasTyped build s (some next) b ho h =
    elim (Bool-cases (not (validate next) || not (config_valid (motor_config_of next)))) [
      | inl bad ↦ rw bad h
      | inr good ↦ elim (Bool-cases (ConfigStore.save build next b).0.0) [
        | inl yes' ↦ rw (good, yes') (save-IsTyped build next b ho)
        | inr no' ↦ rw (good, no') h
      ]
    ]

set_value-HasTyped :
    (build : Build) (s : App) (p : ConfigParam) (x : Float) (b : Board)
    → IsSingle x
    → HasTyped s
    → HasTyped (set_value build s p x b).0
unfolding set_value apply_config_value
set_value-HasTyped build s p x b hx h = elim (Bool-cases (refused p x)) [
  | inl out ↦ rw out h
  | inr inside ↦ rw inside (
      adopt-HasTyped build s (with_value p x s.config) b
        (with_value-IsTyped p x s.config h hx inside) h)
]

abbrev TypedThresholds : Option Thresholds → Type 0
TypedThresholds none = Unit
TypedThresholds (some t) = (t.baseline < 65536) × (t.warning < 65536) × (t.critical < 65536)

finish-TypedThresholds : (c : Calibration) → TypedThresholds (Calibration.finish c).1
unfolding Calibration.finish
finish-TypedThresholds c =
    let P = λ (r : Calibration × Option Thresholds). TypedThresholds r.1 in
    if_either P (not c.active || ltb c.samples 100) tt
      (if_either P (ltb (c.sum / c.samples % 65536) 40) tt (omega arith))

flag_fits : 1 < 256
flag_fits = omega arith

cal_store-HasTyped :
    (build : Build) (s : App) (o : Option Thresholds) (b : Board)
    → TypedThresholds o
    → HasTyped s
    → HasTyped (cal_store build s o b).0
unfolding cal_store
cal_store-HasTyped build s none b ho h = h
cal_store-HasTyped build s (some t) b ho h = save-IsTyped build _ b (assumption flag_fits)

cal_finish-HasTyped :
    (build : Build) (s : App) (b : Board) → HasTyped s → HasTyped (cal_finish build s b).0
unfolding cal_finish
cal_finish-HasTyped build s b h =
    let (cal, result) = Calibration.finish s.sg_cal in
    cal_store-HasTyped build (record s { sg_cal = cal }) result b (finish-TypedThresholds s.sg_cal)
      h

stop_motion-config : (s : App) (b : Board) → (stop_motion s b).0.config ≡ s.config
unfolding stop_motion dispatch
stop_motion-config s b = ground arith

begin_manual-config :
    (s : App) (d : ℤ) (now : ℕ) (b : Board) → (begin_manual s d now b).0.1.config ≡ s.config
unfolding begin_manual dispatch
begin_manual-config s d now b = ground arith

unload-config :
    (s : App) (c : Command) (now : ℕ) (b : Board) → (unload s c now b).0.config ≡ s.config
unfolding unload dispatch
unload-config s c now b = ground arith

move-config : (s : App) (c : Command) (b : Board) → (move s c b).0.config ≡ s.config
unfolding move dispatch
move-config s c b = ground arith

dose-config : (s : App) (c : Command) (b : Board) → (dose s c b).0.config ≡ s.config
unfolding dose dispatch
dose-config s c b = ground arith

when_ready-HasTyped :
    (s : App) (m : M App) (b : Board)
    → HasTyped (m b).0
    → HasTyped s
    → HasTyped (when_ready s m b).0
when_ready-HasTyped s m b hm h = elim (Bool-cases (is_ready s.machine.state)) [
  | inl y ↦ rw y hm
  | inr n ↦ rw n h
]

reset-config :
    (build : Build) (s : App) (c : Command) (now : ℕ) (b : Board)
    → (execute_kind build s c now CommandKind.reset b).0.config ≡ s.config
unfolding execute_kind dispatch
reset-config build s c now b = ground arith

pub execute_kind-HasTyped :
    (build : Build) (s : App) (c : Command) (now : ℕ) (k : CommandKind) (b : Board)
    → IsTypedCommand c
    → HasTyped s
    → HasTyped (execute_kind build s c now k b).0
unfolding execute_kind dispatch
execute_kind-HasTyped build s c now CommandKind.stop b hc h = same (stop_motion-config s b) h
execute_kind-HasTyped build s c now CommandKind.push_stop b hc h = same (stop_motion-config s b) h
execute_kind-HasTyped build s c now CommandKind.pull_stop b hc h = same (stop_motion-config s b) h
execute_kind-HasTyped build s c now CommandKind.bootsel b hc h = h
execute_kind-HasTyped build s c now CommandKind.reboot b hc h = h
execute_kind-HasTyped build s c now CommandKind.reset b hc h = same (reset-config build s c now b) h
execute_kind-HasTyped build s c now CommandKind.sg_cal_cancel b hc h = h
execute_kind-HasTyped build s c now CommandKind.sg_cal_start b hc h =
    when_ready-HasTyped s (cal_start s) b h h
execute_kind-HasTyped build s c now CommandKind.sg_cal_finish b hc h =
    when_ready-HasTyped s (cal_finish build s) b (cal_finish-HasTyped build s b h) h
execute_kind-HasTyped build s c now CommandKind.set_trigger_dose b hc h =
    elim (Bool-cases (ltf (float 0) c.distance_mm && lef c.distance_mm (float 100))) [
      | inl y ↦ rw y (set_value-HasTyped build s ConfigParam.trigger_dose_mm c.distance_mm b hc.0 h)
      | inr n ↦ rw n h
    ]
execute_kind-HasTyped build s c now CommandKind.set_config b hc h =
    set_value-HasTyped build s c.parameter c.value b hc.1 h
execute_kind-HasTyped build s c now CommandKind.flush_statistics b hc h =
    when_ready-HasTyped s _ b h h
execute_kind-HasTyped build s c now CommandKind.push_start b hc h =
    when_ready-HasTyped s _ b (same (begin_manual-config s (pos 1) now b) h) h
execute_kind-HasTyped build s c now CommandKind.pull_start b hc h =
    when_ready-HasTyped s _ b (same (begin_manual-config s (negsuc 0) now b) h) h
execute_kind-HasTyped build s c now CommandKind.unload_syringe b hc h =
    when_ready-HasTyped s (unload s c now) b (same (unload-config s c now b) h) h
execute_kind-HasTyped build s c now CommandKind.set_zero b hc h = when_ready-HasTyped s _ b h h
execute_kind-HasTyped build s c now CommandKind.move_relative b hc h =
    when_ready-HasTyped s (move s c) b (same (move-config s c b) h) h
execute_kind-HasTyped build s c now CommandKind.dose b hc h =
    when_ready-HasTyped s (dose s c) b (same (dose-config s c b) h) h
execute_kind-HasTyped build s c now CommandKind.none b hc h = h

-- Any number of commands keeps the settings typed.
pub execute_all-HasTyped :
    (build : Build) (s : App) (now : ℕ) (cs : List Command) (b : Board)
    → All IsTypedCommand cs
    → HasTyped s
    → HasTyped (execute_all build s now cs b).0
unfolding execute_all execute
execute_all-HasTyped build s now [] b hc h = h
execute_all-HasTyped build s now (c ∷ cs) b hc h =
    let (s', b') = execute build s c now b in
    execute_all-HasTyped build s' now cs b' hc.1
      (execute_kind-HasTyped build s c now c.kind b hc.0 h)
