-- ===== src/ConfigStore/Bytes.antt =====
-- The settings that `config_store_load` of src/config_store.c finds at a place of the flash depend on
-- the bytes there alone.
use epi_pico2w_seringue.Prelude.{
  ℕ, ◌+◌, ◌≤◌, ◌≡◌, refl, ap, Bool-cases, inl, inr, leb, leb→le, if◌then◌else◌, arith,
}
use mathlib.Core.Path.{fun_ext}
use epi_pico2w_seringue.DeviceConfig.{DeviceConfig}
use epi_pico2w_seringue.Flash.{bytes_at, number_at}
use epi_pico2w_seringue.Flash.Bytes.{Agree, Agree-from, number_at-Agree, bytes_at-Agree}
use epi_pico2w_seringue.Float.Bits.{of_bits}
use epi_pico2w_seringue.ConfigStore.{signed8, settings_at, config_at, valid_at}

-- the numbers that lie in the 88 bytes from an offset on, by their place and size
abbrev reader : (ℕ → ℕ) → ℕ → ℕ → ℕ → ℕ
reader flash at i n = if leb (i + n) 88 then number_at flash (at + i) n else 0

-- `settings_at` reads through such numbers only.
abbrev settings_from : (ℕ → ℕ → ℕ) → ℕ → ℕ → DeviceConfig
settings_from read version sequence = record {
  version = version;
  sequence = sequence;
  screw_pitch_mm = of_bits (read 0 4);
  motor_steps_per_rev = read 4 2;
  microsteps = read 6 2;
  motor_run_current_ma = read 8 2;
  motor_hold_current_ma = read 10 2;
  manual_speed_mm_s = of_bits (read 12 4);
  dosing_speed_mm_s = of_bits (read 16 4);
  trigger_dose_mm = of_bits (read 20 4);
  a1_mm_s2 = of_bits (read 24 4);
  amax_mm_s2 = of_bits (read 28 4);
  dmax_mm_s2 = of_bits (read 32 4);
  d1_mm_s2 = of_bits (read 36 4);
  retract_distance_mm = of_bits (read 40 4);
  retract_speed_mm_s = of_bits (read 44 4);
  retract_delay_ms = read 48 4;
  position_min_mm = of_bits (read 52 4);
  position_max_mm = of_bits (read 56 4);
  manual_timeout_ms = read 60 4;
  stallguard_threshold = signed8 (read 64 1);
  stallguard_warning_level = read 66 2;
  stallguard_filter_count = read 68 2;
  stallguard_critical_level = read 70 2;
  stallguard_baseline = read 72 2;
  stallguard_calibration_speed_mm_s = of_bits (read 76 4);
  stallguard_enabled = read 80 1;
  crc = read 84 4;
}

settings_at_lem :
    (flash : ℕ → ℕ) (at version sequence : ℕ)
    → settings_at flash at version sequence ≡ settings_from (reader flash at) version sequence
unfolding settings_at
settings_at_lem flash at version sequence = let first : at + 0 ≡ at = omega arith in rw first refl

reader-Agree :
    (f : ℕ → ℕ) (o : ℕ) (g : ℕ → ℕ) (p i n : ℕ) → Agree f o g p 88 → reader f o i n ≡ reader g p i n
reader-Agree f o g p i n h = elim (Bool-cases (leb (i + n) 88)) [
  | inl inside ↦
      let fits : i + n ≤ 88 = leb→le (i + n) 88 inside in
      rw inside
        (number_at-Agree f (o + i) g (p + i) n (Agree-from f o g p i n (λ k lt. h k (omega arith))))
  | inr outside ↦ rw outside
]

settings_at-Agree :
    (f : ℕ → ℕ) (o : ℕ) (g : ℕ → ℕ) (p version sequence : ℕ)
    → Agree f o g p 88
    → settings_at f o version sequence ≡ settings_at g p version sequence
settings_at-Agree f o g p version sequence h =
    let same : reader f o ≡ reader g p = fun_ext (λ i. fun_ext (λ n. reader-Agree f o g p i n h)) in
    rw (settings_at_lem f o version sequence, settings_at_lem g p version sequence)
      (ap (λ read. settings_from read version sequence) same)

pub config_at-Agree :
    (f : ℕ → ℕ) (o : ℕ) (g : ℕ → ℕ) (p : ℕ) → Agree f o g p 96 → config_at f o ≡ config_at g p
unfolding config_at
config_at-Agree f o g p h =
    let version : number_at f o 4 ≡ number_at g p 4 =
      number_at-Agree f o g p 4 (λ i lt. h i (omega arith)) in
    let sequence : number_at f (o + 4) 4 ≡ number_at g (p + 4) 4 =
      number_at-Agree f (o + 4) g (p + 4) 4 (Agree-from f o g p 4 4 (λ i lt. h i (omega arith))) in
    rw (version, sequence)
      (settings_at-Agree f (o + 8) g (p + 8) _ _
        (Agree-from f o g p 8 88 (λ i lt. h i (omega arith))))

pub valid_at-Agree :
    (f : ℕ → ℕ) (o : ℕ) (g : ℕ → ℕ) (p : ℕ) → Agree f o g p 96 → valid_at f o ≡ valid_at g p
unfolding valid_at
valid_at-Agree f o g p h =
    let sum : number_at f (o + 92) 4 ≡ number_at g (p + 92) 4 =
      number_at-Agree f (o + 92) g (p + 92) 4 (Agree-from f o g p 92 4 h) in
    let head : bytes_at f o 92 ≡ bytes_at g p 92 =
      bytes_at-Agree f o g p 92 (λ i lt. h i (omega arith)) in
    rw (config_at-Agree f o g p h, sum, head)
