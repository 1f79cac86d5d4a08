-- ===== src/ConfigStore/Typed.antt =====
-- The settings that src/config_store.c loads and saves have values of their C types.
use epi_pico2w_seringue.Prelude.{
  ℕ, zero, suc, ◌+◌, ◌-◌, ◌%◌, ◌/◌, ◌^◌, ◌<◌, ◌≡◌, refl, inl, inr, Bool, true, false, not, ◌&&◌,
  ◌||◌, arith, Bool-cases, ◌==◌, ltb, if◌then◌else◌, if_either,
}
use native.Mathlib.Nat.{pow-suc}
use epi_pico2w_seringue.Prelude.Int.{pos, negsuc, ◌≤ℤ◌}
use epi_pico2w_seringue.Board.{Board}
use epi_pico2w_seringue.DeviceConfig.{DeviceConfig, defaults, float, validate}
use epi_pico2w_seringue.Flash.{flash_sector_size, Build, number_at}
use epi_pico2w_seringue.Float.{of_ℕ, decimal}
use epi_pico2w_seringue.Float.Bits.{of_bits, of_fields}
use epi_pico2w_seringue.Float.Bits.RoundTrip.{IsSingle}
use epi_pico2w_seringue.ConfigStore.{
  store_offset, signed8, settings_at, config_at, legacy_at, valid_at, valid_v5_at, migrate_v5, load,
  save,
}
use epi_pico2w_seringue.ConfigStore.Page.{IsTyped}

pub defaults-IsTyped : IsTyped defaults
unfolding defaults float of_ℕ decimal
defaults-IsTyped = record {
  version = omega arith;
  screw_pitch_mm = inr (127, 0, omega arith, omega arith, refl);
  motor_steps_per_rev = omega arith;
  microsteps = omega arith;
  motor_run_current_ma = omega arith;
  motor_hold_current_ma = omega arith;
  manual_speed_mm_s = inr (128, 2097152, omega arith, omega arith, refl);
  dosing_speed_mm_s = inr (128, 2097152, omega arith, omega arith, refl);
  trigger_dose_mm = inr (125, 5033165, omega arith, omega arith, refl);
  a1_mm_s2 = inr (132, 4718592, omega arith, omega arith, refl);
  amax_mm_s2 = inr (132, 4718592, omega arith, omega arith, refl);
  dmax_mm_s2 = inr (132, 4718592, omega arith, omega arith, refl);
  d1_mm_s2 = inr (132, 4718592, omega arith, omega arith, refl);
  retract_distance_mm = inr (122, 5033165, omega arith, omega arith, refl);
  retract_speed_mm_s = inr (127, 4194304, omega arith, omega arith, refl);
  retract_delay_ms = omega arith;
  position_min_mm = inl (omega arith);
  position_max_mm = inr (132, 7340032, omega arith, omega arith, refl);
  manual_timeout_ms = omega arith;
  stallguard_threshold = (omega arith, omega arith);
  stallguard_warning_level = omega arith;
  stallguard_filter_count = omega arith;
  stallguard_critical_level = omega arith;
  stallguard_baseline = omega arith;
  stallguard_calibration_speed_mm_s = inl (omega arith);
  stallguard_enabled = omega arith;
}

number_at-lt :
    (flash : ℕ → ℕ) (at n : ℕ) → ((o : ℕ) → flash o < 256) → number_at flash at n < 256 ^ n
unfolding number_at
number_at-lt flash at zero h = omega arith
number_at-lt flash at (suc n) h =
    omega (arith, h at, number_at-lt flash (at + 1) n h, pow-suc 256 n)

of_fields-IsSingle : (s : Bool) (e m : ℕ) → e < 256 → m < 2 ^ 23 → IsSingle (of_fields s e m)
of_fields-IsSingle s zero m he hm = inl hm
of_fields-IsSingle s (suc e) m he hm = elim (Bool-cases (suc e == 255)) [
  | inl special ↦ rw special (if_either IsSingle (m == 0) tt tt)
  | inr normal ↦
      let less : suc e - 1 ≡ e = omega arith in
      let no_zero : (suc e == 0) ≡ false = ground arith in
      rw (normal, no_zero, less) (inr (e, m, ground arith, hm, refl))
]

of_bits-IsSingle : (bits : ℕ) → IsSingle (of_bits bits)
unfolding of_bits
of_bits-IsSingle bits =
    of_fields-IsSingle (bits / 2 ^ 31 % 2 == 1) (bits / 2 ^ 23 % 256) (bits % 2 ^ 23) (omega arith)
      (omega arith)

signed8_fits : (b : ℕ) → b < 256 → (negsuc 127 ≤ℤ signed8 b) × (signed8 b ≤ℤ pos 127)
signed8_fits b h = ground arith

settings_at-IsTyped :
    (flash : ℕ → ℕ) (at version sequence : ℕ)
    → ((o : ℕ) → flash o < 256)
    → version < 4294967296
    → IsTyped (settings_at flash at version sequence)
unfolding settings_at
settings_at-IsTyped flash at version sequence h hv = record {
  version = hv;
  screw_pitch_mm = of_bits-IsSingle (number_at flash at 4);
  motor_steps_per_rev = number_at-lt flash (at + 4) 2 h;
  microsteps = number_at-lt flash (at + 6) 2 h;
  motor_run_current_ma = number_at-lt flash (at + 8) 2 h;
  motor_hold_current_ma = number_at-lt flash (at + 10) 2 h;
  manual_speed_mm_s = of_bits-IsSingle (number_at flash (at + 12) 4);
  dosing_speed_mm_s = of_bits-IsSingle (number_at flash (at + 16) 4);
  trigger_dose_mm = of_bits-IsSingle (number_at flash (at + 20) 4);
  a1_mm_s2 = of_bits-IsSingle (number_at flash (at + 24) 4);
  amax_mm_s2 = of_bits-IsSingle (number_at flash (at + 28) 4);
  dmax_mm_s2 = of_bits-IsSingle (number_at flash (at + 32) 4);
  d1_mm_s2 = of_bits-IsSingle (number_at flash (at + 36) 4);
  retract_distance_mm = of_bits-IsSingle (number_at flash (at + 40) 4);
  retract_speed_mm_s = of_bits-IsSingle (number_at flash (at + 44) 4);
  retract_delay_ms = number_at-lt flash (at + 48) 4 h;
  position_min_mm = of_bits-IsSingle (number_at flash (at + 52) 4);
  position_max_mm = of_bits-IsSingle (number_at flash (at + 56) 4);
  manual_timeout_ms = number_at-lt flash (at + 60) 4 h;
  stallguard_threshold =
      signed8_fits (number_at flash (at + 64) 1) (number_at-lt flash (at + 64) 1 h);
  stallguard_warning_level = number_at-lt flash (at + 66) 2 h;
  stallguard_filter_count = number_at-lt flash (at + 68) 2 h;
  stallguard_critical_level = number_at-lt flash (at + 70) 2 h;
  stallguard_baseline = number_at-lt flash (at + 72) 2 h;
  stallguard_calibration_speed_mm_s = of_bits-IsSingle (number_at flash (at + 76) 4);
  stallguard_enabled = number_at-lt flash (at + 80) 1 h;
}

version-lt : 6 < 4294967296
version-lt = omega arith

migrate_v5-IsTyped : (c : DeviceConfig) → IsTyped c → IsTyped (migrate_v5 c)
unfolding migrate_v5 defaults
migrate_v5-IsTyped c h = assumption version-lt

config_at-IsTyped :
    (flash : ℕ → ℕ) (at : ℕ) → ((o : ℕ) → flash o < 256) → IsTyped (config_at flash at)
unfolding config_at
config_at-IsTyped flash at h =
    settings_at-IsTyped flash (at + 8) (number_at flash at 4) (number_at flash (at + 4) 4) h
      (number_at-lt flash at 4 h)

legacy_at-IsTyped :
    (flash : ℕ → ℕ) (at : ℕ) → ((o : ℕ) → flash o < 256) → IsTyped (legacy_at flash at)
unfolding legacy_at
legacy_at-IsTyped flash at h =
    settings_at-IsTyped flash (at + 108) (number_at flash at 4) (number_at flash (at + 4) 4) h
      (number_at-lt flash at 4 h)

-- What is loaded from a flash of bytes has values of its C types.
pub load-IsTyped :
    (build : Build) (flash : ℕ → ℕ) → ((o : ℕ) → flash o < 256) → IsTyped (load build flash).1
unfolding load
load-IsTyped build flash h =
    let pa = store_offset build in
    let pb = store_offset build + flash_sector_size in
    let va = valid_at flash pa in
    let vb = valid_at flash pb in
    let va5 = valid_v5_at flash pa in
    let vb5 = valid_v5_at flash pb in
    let second =
      vb && (not va || ltb (config_at flash pa).sequence (config_at flash pb).sequence) in
    let second_v5 =
      vb5 && (not va5 || ltb (legacy_at flash pa).sequence (legacy_at flash pb).sequence) in
    let newest : DeviceConfig = if second then config_at flash pb else config_at flash pa in
    let old : DeviceConfig = if second_v5 then legacy_at flash pb else legacy_at flash pa in
    let newest_typed : IsTyped newest =
      if_either IsTyped second (config_at-IsTyped flash pb h) (config_at-IsTyped flash pa h) in
    let old_typed : IsTyped old =
      if_either IsTyped second_v5 (legacy_at-IsTyped flash pb h) (legacy_at-IsTyped flash pa h) in
    let P = λ (r : Bool × DeviceConfig). IsTyped r.1 in
    if_either P (va || vb) {x = (true, newest)} newest_typed (
      if_either P (va5 || vb5) {x = (true, migrate_v5 old)} {y = (false, defaults)}
        (migrate_v5-IsTyped old old_typed) defaults-IsTyped)

pub save-IsTyped :
    (build : Build) (c : DeviceConfig) (b : Board) → IsTyped c → IsTyped (save build c b).0.1
unfolding save
save-IsTyped build c b h = elim (Bool-cases (validate c)) [
  | inl good ↦ rw good (assumption)
  | inr bad ↦ rw bad h
]
