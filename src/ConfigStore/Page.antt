-- ===== src/ConfigStore/Page.antt =====
-- The page that `config_store_save` of src/config_store.c writes, read as settings.
use epi_pico2w_seringue.Prelude.{
  ℕ, ◌+◌, ◌*◌, ◌/◌, ◌%◌, ◌<◌, ◌≡◌, refl, ap, ◌∙◌, true, List, [], ◌∷◌, ◌++◌, arith, ==_iff,
}
use epi_pico2w_seringue.Prelude.Int.{ℤ, pos, negsuc, ◌≤ℤ◌}
use epi_pico2w_seringue.Crc.{crc32}
use epi_pico2w_seringue.Crc.Width.{crc32-lt}
use epi_pico2w_seringue.DeviceConfig.{
  DeviceConfig, validate, bad_mechanics, bad_stallguard, currents_ok, motion_ok, travel_ok,
}
use epi_pico2w_seringue.Flash.{image, bytes_of, number_at, bytes_at}
use epi_pico2w_seringue.Flash.Bytes.{byte_in, image-AreBytes, four_bytes, two_bytes, one_byte}
use epi_pico2w_seringue.Float.{Float}
use epi_pico2w_seringue.Float.Bits.{bits_of, of_bits}
use epi_pico2w_seringue.Float.Bits.RoundTrip.{IsSingle, of_bits-bits_of, bits_of-lt}
use epi_pico2w_seringue.Tmc5130.{byte_of}
use epi_pico2w_seringue.ConfigStore.{signed8, settings_at, config_at, valid_at, config_head, zeros}

-- every field has a value of its C type
pub record IsTyped (c : DeviceConfig) : Type 0 where
  pub version : c.version < 4294967296
  pub screw_pitch_mm : IsSingle c.screw_pitch_mm
  pub motor_steps_per_rev : c.motor_steps_per_rev < 65536
  pub microsteps : c.microsteps < 65536
  pub motor_run_current_ma : c.motor_run_current_ma < 65536
  pub motor_hold_current_ma : c.motor_hold_current_ma < 65536
  pub manual_speed_mm_s : IsSingle c.manual_speed_mm_s
  pub dosing_speed_mm_s : IsSingle c.dosing_speed_mm_s
  pub trigger_dose_mm : IsSingle c.trigger_dose_mm
  pub a1_mm_s2 : IsSingle c.a1_mm_s2
  pub amax_mm_s2 : IsSingle c.amax_mm_s2
  pub dmax_mm_s2 : IsSingle c.dmax_mm_s2
  pub d1_mm_s2 : IsSingle c.d1_mm_s2
  pub retract_distance_mm : IsSingle c.retract_distance_mm
  pub retract_speed_mm_s : IsSingle c.retract_speed_mm_s
  pub retract_delay_ms : c.retract_delay_ms < 4294967296
  pub position_min_mm : IsSingle c.position_min_mm
  pub position_max_mm : IsSingle c.position_max_mm
  pub manual_timeout_ms : c.manual_timeout_ms < 4294967296
  pub stallguard_threshold :
      (negsuc 127 ≤ℤ c.stallguard_threshold) × (c.stallguard_threshold ≤ℤ pos 127)
  pub stallguard_warning_level : c.stallguard_warning_level < 65536
  pub stallguard_filter_count : c.stallguard_filter_count < 65536
  pub stallguard_critical_level : c.stallguard_critical_level < 65536
  pub stallguard_baseline : c.stallguard_baseline < 65536
  pub stallguard_calibration_speed_mm_s : IsSingle c.stallguard_calibration_speed_mm_s
  pub stallguard_enabled : c.stallguard_enabled < 256

-- the page that is written, with this checksum
abbrev pub page_of : DeviceConfig → ℕ → List ℕ
page_of c sum = config_head c ++ image ((4, sum) ∷ []) ++ zeros 160

byte_of-lt : (t : ℤ) → byte_of t < 256
unfolding byte_of
byte_of-lt t = ground arith

signed8-byte_of : (t : ℤ) → negsuc 127 ≤ℤ t → t ≤ℤ pos 127 → signed8 (byte_of t) ≡ t
unfolding byte_of
signed8-byte_of t low high = ground arith

float_bytes :
    (x : Float)
    → IsSingle x
    → let v = bits_of x in
      of_bits (
        v % 256
        + 256
          * (v / 256 % 256
              + 256 * (v / 256 / 256 % 256 + 256 * (v / 256 / 256 / 256 % 256 + 256 * 0))))
      ≡ x
float_bytes x h = ap of_bits (four_bytes (bits_of x) (bits_of-lt x h)) ∙ of_bits-bits_of x h

threshold_byte : (t : ℤ) → negsuc 127 ≤ℤ t → t ≤ℤ pos 127 → signed8 (byte_of t % 256 + 256 * 0) ≡ t
threshold_byte t low high =
    ap signed8 (one_byte (byte_of t) (byte_of-lt t)) ∙ signed8-byte_of t low high

-- The page holds the settings, with the checksum.
pub config_at-page :
    (c : DeviceConfig) (sum : ℕ)
    → IsTyped c
    → c.sequence < 4294967296
    → sum < 4294967296
    → config_at (byte_in (page_of c sum)) 0 ≡ record c { crc = sum }
unfolding config_at settings_at number_at config_head image bytes_of zeros
config_at-page c sum h hs hsum = λ i. record {
  version = four_bytes c.version h.version i;
  sequence = four_bytes c.sequence hs i;
  screw_pitch_mm = float_bytes c.screw_pitch_mm h.screw_pitch_mm i;
  motor_steps_per_rev = two_bytes c.motor_steps_per_rev h.motor_steps_per_rev i;
  microsteps = two_bytes c.microsteps h.microsteps i;
  motor_run_current_ma = two_bytes c.motor_run_current_ma h.motor_run_current_ma i;
  motor_hold_current_ma = two_bytes c.motor_hold_current_ma h.motor_hold_current_ma i;
  manual_speed_mm_s = float_bytes c.manual_speed_mm_s h.manual_speed_mm_s i;
  dosing_speed_mm_s = float_bytes c.dosing_speed_mm_s h.dosing_speed_mm_s i;
  trigger_dose_mm = float_bytes c.trigger_dose_mm h.trigger_dose_mm i;
  a1_mm_s2 = float_bytes c.a1_mm_s2 h.a1_mm_s2 i;
  amax_mm_s2 = float_bytes c.amax_mm_s2 h.amax_mm_s2 i;
  dmax_mm_s2 = float_bytes c.dmax_mm_s2 h.dmax_mm_s2 i;
  d1_mm_s2 = float_bytes c.d1_mm_s2 h.d1_mm_s2 i;
  retract_distance_mm = float_bytes c.retract_distance_mm h.retract_distance_mm i;
  retract_speed_mm_s = float_bytes c.retract_speed_mm_s h.retract_speed_mm_s i;
  retract_delay_ms = four_bytes c.retract_delay_ms h.retract_delay_ms i;
  position_min_mm = float_bytes c.position_min_mm h.position_min_mm i;
  position_max_mm = float_bytes c.position_max_mm h.position_max_mm i;
  manual_timeout_ms = four_bytes c.manual_timeout_ms h.manual_timeout_ms i;
  stallguard_threshold =
      threshold_byte c.stallguard_threshold h.stallguard_threshold.0 h.stallguard_threshold.1 i;
  stallguard_warning_level = two_bytes c.stallguard_warning_level h.stallguard_warning_level i;
  stallguard_filter_count = two_bytes c.stallguard_filter_count h.stallguard_filter_count i;
  stallguard_critical_level = two_bytes c.stallguard_critical_level h.stallguard_critical_level i;
  stallguard_baseline = two_bytes c.stallguard_baseline h.stallguard_baseline i;
  stallguard_calibration_speed_mm_s =
      float_bytes c.stallguard_calibration_speed_mm_s h.stallguard_calibration_speed_mm_s i;
  stallguard_enabled = one_byte c.stallguard_enabled h.stallguard_enabled i;
  crc = four_bytes sum hsum i;
}

page-head : (c : DeviceConfig) (sum : ℕ) → bytes_at (byte_in (page_of c sum)) 0 92 ≡ config_head c
unfolding bytes_at config_head image bytes_of zeros
page-head c sum = refl

page-crc :
    (c : DeviceConfig) (sum : ℕ) → sum < 4294967296 → number_at (byte_in (page_of c sum)) 92 4 ≡ sum
unfolding number_at config_head image bytes_of zeros
page-crc c sum h = four_bytes sum h

pub config_head-crc : (c : DeviceConfig) → crc32 (config_head c) < 4294967296
unfolding config_head
config_head-crc c = crc32-lt (config_head c) (image-AreBytes _)

-- the validation looks neither at the sequence number nor at the checksum
pub validate-numbered :
    (c : DeviceConfig) (n sum : ℕ) → validate (record c { sequence = n; crc = sum }) ≡ validate c
unfolding validate bad_mechanics bad_stallguard currents_ok motion_ok travel_ok
validate-numbered c n sum = refl

pub valid_at-page :
    (c : DeviceConfig)
    → IsTyped c
    → c.sequence < 4294967296
    → validate c ≡ true
    → valid_at (byte_in (page_of c (crc32 (config_head c)))) 0 ≡ true
unfolding valid_at
valid_at-page c h hs good =
    let sum = crc32 (config_head c) in
    let fits : sum < 4294967296 = config_head-crc c in
    rw
      (
        config_at-page c sum h hs fits,
        validate-numbered c c.sequence sum,
        good,
        page-crc c sum fits,
        page-head c sum,
      )
      ((==_iff sum sum).1 refl)
