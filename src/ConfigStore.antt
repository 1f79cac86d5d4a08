-- ===== src/ConfigStore.antt =====
-- src/config_store.c and include/config_store.h: the settings in two flash sectors that are written
-- in turn, and the migration of the layout before.
pub mod Bytes
pub mod Newest
pub mod Page
pub mod Reset
pub mod RoundTrip
pub mod Typed
use epi_pico2w_seringue.Prelude.{
  ℕ, zero, suc, ◌+◌, ◌-◌, ◌*◌, ◌%◌, Bool, true, false, not, ◌&&◌, ◌||◌, List, [], ◌∷◌, ◌++◌, ltb,
  ◌==◌, if◌then◌else◌, u32,
}
use epi_pico2w_seringue.Prelude.Int.{ℤ, pos, negsuc}
use epi_pico2w_seringue.Float.Bits.{bits_of, of_bits}
use epi_pico2w_seringue.Board.{
  flash_range_erase, flash_range_program, M, ◌>>◌, perform, flash_safe_execute,
}
use epi_pico2w_seringue.Crc.{crc32}
use epi_pico2w_seringue.DeviceConfig.{DeviceConfig, defaults, validate}
use epi_pico2w_seringue.Flash.{flash_sector_size, Build, btstack_offset, bytes_at, number_at, image}
use epi_pico2w_seringue.Tmc5130.{byte_of}

-- `STORE_OFFSET`
abbrev pub store_offset : Build → ℕ
store_offset build = btstack_offset build - 2 * flash_sector_size

-- `(int8_t)b`
abbrev pub signed8 : ℕ → ℤ
signed8 b = if ltb b 128 then pos b else negsuc (255 - b)

-- The part that the two layouts share, from `screw_pitch_mm` to `stallguard_enabled`, as it lies in
-- memory from an offset on; the words before it are given.
unfoldable pub settings_at : (ℕ → ℕ) → ℕ → ℕ → ℕ → DeviceConfig
settings_at flash at version sequence = record {
  version = version;
  sequence = sequence;
  screw_pitch_mm = of_bits (number_at flash at 4);
  motor_steps_per_rev = number_at flash (at + 4) 2;
  microsteps = number_at flash (at + 6) 2;
  motor_run_current_ma = number_at flash (at + 8) 2;
  motor_hold_current_ma = number_at flash (at + 10) 2;
  manual_speed_mm_s = of_bits (number_at flash (at + 12) 4);
  dosing_speed_mm_s = of_bits (number_at flash (at + 16) 4);
  trigger_dose_mm = of_bits (number_at flash (at + 20) 4);
  a1_mm_s2 = of_bits (number_at flash (at + 24) 4);
  amax_mm_s2 = of_bits (number_at flash (at + 28) 4);
  dmax_mm_s2 = of_bits (number_at flash (at + 32) 4);
  d1_mm_s2 = of_bits (number_at flash (at + 36) 4);
  retract_distance_mm = of_bits (number_at flash (at + 40) 4);
  retract_speed_mm_s = of_bits (number_at flash (at + 44) 4);
  retract_delay_ms = number_at flash (at + 48) 4;
  position_min_mm = of_bits (number_at flash (at + 52) 4);
  position_max_mm = of_bits (number_at flash (at + 56) 4);
  manual_timeout_ms = number_at flash (at + 60) 4;
  stallguard_threshold = signed8 (number_at flash (at + 64) 1);
  stallguard_warning_level = number_at flash (at + 66) 2;
  stallguard_filter_count = number_at flash (at + 68) 2;
  stallguard_critical_level = number_at flash (at + 70) 2;
  stallguard_baseline = number_at flash (at + 72) 2;
  stallguard_calibration_speed_mm_s = of_bits (number_at flash (at + 76) 4);
  stallguard_enabled = number_at flash (at + 80) 1;
  crc = number_at flash (at + 84) 4;
}

-- a `device_config_t` in flash: 96 bytes, the checksum at 92
unfoldable pub config_at : (ℕ → ℕ) → ℕ → DeviceConfig
config_at flash at = settings_at flash (at + 8) (number_at flash at 4) (number_at flash (at + 4) 4)

-- a `config_v5_legacy_t` in flash: 196 bytes, the shared part at 108, the checksum at 192
unfoldable pub legacy_at : (ℕ → ℕ) → ℕ → DeviceConfig
legacy_at flash at =
    settings_at flash (at + 108) (number_at flash at 4) (number_at flash (at + 4) 4)

-- the first 92 bytes of a `device_config_t`; the padding is 0, as the `memset` of the defaults leaves it
unfoldable pub config_head : DeviceConfig → List ℕ
config_head c = image (
    (4, c.version)
    ∷ (4, c.sequence)
    ∷ (4, bits_of c.screw_pitch_mm)
    ∷ (2, c.motor_steps_per_rev)
    ∷ (2, c.microsteps)
    ∷ (2, c.motor_run_current_ma)
    ∷ (2, c.motor_hold_current_ma)
    ∷ (4, bits_of c.manual_speed_mm_s)
    ∷ (4, bits_of c.dosing_speed_mm_s)
    ∷ (4, bits_of c.trigger_dose_mm)
    ∷ (4, bits_of c.a1_mm_s2)
    ∷ (4, bits_of c.amax_mm_s2)
    ∷ (4, bits_of c.dmax_mm_s2)
    ∷ (4, bits_of c.d1_mm_s2)
    ∷ (4, bits_of c.retract_distance_mm)
    ∷ (4, bits_of c.retract_speed_mm_s)
    ∷ (4, c.retract_delay_ms)
    ∷ (4, bits_of c.position_min_mm)
    ∷ (4, bits_of c.position_max_mm)
    ∷ (4, c.manual_timeout_ms)
    ∷ (1, byte_of c.stallguard_threshold)
    ∷ (1, 0)
    ∷ (2, c.stallguard_warning_level)
    ∷ (2, c.stallguard_filter_count)
    ∷ (2, c.stallguard_critical_level)
    ∷ (2, c.stallguard_baseline)
    ∷ (2, 0)
    ∷ (4, bits_of c.stallguard_calibration_speed_mm_s)
    ∷ (1, c.stallguard_enabled)
    ∷ (3, 0)
    ∷ [])

-- `valid`
unfoldable pub valid_at : (ℕ → ℕ) → ℕ → Bool
valid_at flash at =
    validate (config_at flash at) && number_at flash (at + 92) 4 == crc32 (bytes_at flash at 92)

-- `valid_v5`
unfoldable pub valid_v5_at : (ℕ → ℕ) → ℕ → Bool
valid_v5_at flash at =
    number_at flash at 4 == 5 && number_at flash (at + 192) 4 == crc32 (bytes_at flash at 192)

-- `migrate_v5`: the defaults give the version and the checksum
unfoldable pub migrate_v5 : DeviceConfig → DeviceConfig
migrate_v5 old = record old { version = defaults.version; crc = defaults.crc }

-- `config_store_load`: the result, and what it writes through its pointer
unfoldable pub load : Build → (ℕ → ℕ) → Bool × DeviceConfig
load build flash =
    let pa = store_offset build in
    let pb = store_offset build + flash_sector_size in
    let a = config_at flash pa in
    let b = config_at flash pb in
    let va = valid_at flash pa in
    let vb = valid_at flash pb in
    let a5 = legacy_at flash pa in
    let b5 = legacy_at flash pb in
    let va5 = valid_v5_at flash pa in
    let vb5 = valid_v5_at flash pb in
    if va || vb
    then (true, (if vb && (not va || ltb a.sequence b.sequence) then b else a))
    else if va5 || vb5
    then (true, migrate_v5 (if vb5 && (not va5 || ltb a5.sequence b5.sequence) then b5 else a5))
    else (false, defaults)

-- the end of the page buffer, which its initialiser zeroes
unfoldable pub zeros : ℕ → List ℕ
zeros zero = []
zeros (suc n) = 0 ∷ zeros n

-- `do_write`
unfoldable pub do_write : ℕ → List ℕ → M (Unit {0})
unfolding perform
do_write offset page = do
  perform (flash_range_erase offset flash_sector_size)
  perform (flash_range_program offset page)

-- `config_store_save`: the result, and the settings with the sequence and the checksum it gives them
unfoldable pub save : Build → DeviceConfig → M (Bool × DeviceConfig)
unfolding flash_safe_execute do_write zeros
save build c b =
    let old = (load build (b.flash b.log)).1 in
    let numbered = record c { sequence = u32 (old.sequence + 1) } in
    let head = config_head numbered in
    let sum = crc32 head in
    let offset = store_offset build + numbered.sequence % 2 * flash_sector_size in
    let page = head ++ image ((4, sum) ∷ []) ++ zeros 160 in
    if not (validate c)
    then ((false, c), b)
    else let (ok, b') = flash_safe_execute (do_write offset page) b in
      ((ok, record numbered { crc = sum }), b')

-- `config_store_factory_reset`, with its `do_erase`
unfoldable pub factory_reset : Build → M Bool
unfolding flash_safe_execute perform
factory_reset build =
    flash_safe_execute (perform (flash_range_erase (store_offset build) (2 * flash_sector_size)))
