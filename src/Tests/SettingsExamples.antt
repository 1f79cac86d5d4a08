-- ===== src/Tests/SettingsExamples.antt =====
-- The theorems on the settings and the stores at concrete inputs.
use epi_pico2w_seringue.Prelude.{◌%◌, ◌==◌, ◌+◌, ◌<◌, ◌≡◌, refl, ◌↔◌, ◌⊎◌, true, false, [], arith}
use epi_pico2w_seringue.ConfigStore.{load, save, config_at, settings_at, config_head, valid_at}
use epi_pico2w_seringue.Crc.{crc32, crc_from, shifts, shift}
use epi_pico2w_seringue.Flash.{bytes_at, number_at, image, bytes_of}
use epi_pico2w_seringue.Float.{of_ℕ, decimal}
use epi_pico2w_seringue.Float.Bits.{bits_of, of_bits, magnitude_bits}
use epi_pico2w_seringue.Tmc5130.{byte_of}
use epi_pico2w_seringue.ConfigStore.Newest.{slot, IsNewest, save-keeps_newest}
use epi_pico2w_seringue.Flash.Writes.{IsFlash}
use epi_pico2w_seringue.App.{App}
use epi_pico2w_seringue.Calibration.{finish}
use epi_pico2w_seringue.Calibration.Average.{thresholds}
use epi_pico2w_seringue.App.Calibrated.{cal_finish-validate}
use epi_pico2w_seringue.App.Execute.{cal_finish}
use epi_pico2w_seringue.App.Accepted.{IsAccepted, apply_config_value-IsAccepted}
use epi_pico2w_seringue.App.Settings.{apply_config_value}
use epi_pico2w_seringue.CommandApi.{ConfigParam}
use epi_pico2w_seringue.Statistics.{Statistics, page_at, persist}
use epi_pico2w_seringue.Statistics.Newest.{IsPlaced, persist-keeps_current}
use epi_pico2w_seringue.Tests.Host.{defaults_valid}
use epi_pico2w_seringue.Tests.Data.{pico2w, with_settings, byte_of_list, idle}
use epi_pico2w_seringue.DeviceConfig.{
  DeviceConfig, defaults, validate, float, bad_mechanics, bad_stallguard, currents_ok, motion_ok,
  travel_ok,
}
use epi_pico2w_seringue.DeviceConfig.Valid.{IsValid, validate_iff}

validate_iff_example : (validate defaults ≡ true) ↔ IsValid defaults
validate_iff_example = validate_iff defaults

with_settings-IsFlash : IsFlash with_settings
with_settings-IsFlash = record { keeps = λ a log at h. refl }

-- the defaults with their checksum
abbrev stamped : DeviceConfig
stamped = record defaults { crc = 3079466411 }

first_read : config_at (with_settings.flash []) 4177920 ≡ stamped
unfolding config_at settings_at number_at byte_of_list config_head image bytes_of bits_of of_bits
    magnitude_bits defaults float of_ℕ decimal byte_of crc32 crc_from shifts shift
first_read = refl

first_checksum :
    (number_at (with_settings.flash []) 4178012 4
      == crc32 (bytes_at (with_settings.flash []) 4177920 92))
    ≡ true
unfolding number_at bytes_at byte_of_list config_head image bytes_of bits_of magnitude_bits defaults
    float of_ℕ decimal byte_of crc32 crc_from shifts shift
first_checksum = refl

first_valid : valid_at (with_settings.flash []) 4177920 ≡ true
unfolding valid_at validate bad_mechanics bad_stallguard currents_ok motion_ok travel_ok
first_valid = rw (first_read, first_checksum) (rw defaults_valid refl)

second_invalid : valid_at (with_settings.flash []) 4182016 ≡ false
unfolding valid_at validate bad_mechanics config_at settings_at number_at byte_of_list config_head
    image bytes_of
second_invalid = refl

first_parity : stamped.sequence % 2 ≡ 0
unfolding defaults
first_parity = refl

with_settings-IsNewest : IsNewest pico2w with_settings 0
unfolding load
with_settings-IsNewest = record {
  loaded = rw (first_valid, second_invalid) refl;
  parity = rw first_read first_parity;
}

save-keeps_newest_example :
    let b' = (save pico2w defaults with_settings).1 in
    b'.flash b'.log (slot pico2w 0 + 7) ≡ with_settings.flash [] (slot pico2w 0 + 7)
save-keeps_newest_example =
    save-keeps_newest pico2w defaults with_settings 0 7 with_settings-IsFlash with_settings-IsNewest
      (omega arith)

-- the flash has counted 5 activations in the last page of the first sector
abbrev full_sector : Statistics
full_sector = record {
  count = 5;
  sequence = 16;
  current_sector = 0;
  current_page = 15;
  dirty = true;
}

full_sector-IsPlaced : IsPlaced full_sector
full_sector-IsPlaced = record { sector = omega arith; page = omega arith }

persist-keeps_current_example :
    let b' = (persist pico2w full_sector with_settings).1 in
    b'.flash b'.log (page_at pico2w 0 15 + 3) ≡ with_settings.flash [] (page_at pico2w 0 15 + 3)
persist-keeps_current_example =
    persist-keeps_current pico2w full_sector with_settings 3 with_settings-IsFlash (1018, refl)
      full_sector-IsPlaced (omega arith)

apply_config_value_example :
    let ((ok, t), b') =
      apply_config_value pico2w idle ConfigParam.manual_timeout_ms (float 9000) with_settings in
    ((ok ≡ true) × IsAccepted ConfigParam.manual_timeout_ms (float 9000) idle t)
    ⊎ ((ok ≡ false) × (t ≡ idle))
apply_config_value_example =
    apply_config_value-IsAccepted pico2w idle ConfigParam.manual_timeout_ms (float 9000)
      with_settings

-- the end of a calibration with a hundred samples of 60
abbrev calibrating : App
calibrating = record idle {
  config = defaults;
  sg_cal = record { active = true; samples = 100; sum = 6000; minimum = 60; maximum = 60 };
}

cal_finish-validate_example :
    (validate (cal_finish pico2w calibrating with_settings).0.config ≡ true)
    ↔ (0 < defaults.stallguard_filter_count)
unfolding finish
cal_finish-validate_example =
    cal_finish-validate pico2w calibrating with_settings {t = thresholds 60} defaults_valid refl
