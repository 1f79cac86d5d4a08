-- ===== src/App/Calibrated.antt =====
-- The end of a calibration in `execute` of src/app_tasks.c: which settings it leaves.
use epi_pico2w_seringue.Prelude.{
  ◌<◌, ◌≡◌, refl, sym, ap, ◌∙◌, ◌↔◌, true, false, some, arith, Bool-cases, inl, inr,
}
use epi_pico2w_seringue.Board.{Board}
use epi_pico2w_seringue.Calibration
use epi_pico2w_seringue.Calibration.{Thresholds}
use epi_pico2w_seringue.Calibration.Average.{finish-ordered}
use epi_pico2w_seringue.ConfigStore
use epi_pico2w_seringue.DeviceConfig.{
  DeviceConfig, validate, bad_mechanics, bad_stallguard, currents_ok, motion_ok, travel_ok,
}
use epi_pico2w_seringue.Flash.{Build}
use epi_pico2w_seringue.App.{App}
use epi_pico2w_seringue.App.Accepted.{save-restamped, validate-restamped}
use epi_pico2w_seringue.App.Execute.{cal_finish}

-- the settings with the thresholds of a calibration
abbrev calibrated : DeviceConfig → Thresholds → DeviceConfig
calibrated c t = record c {
  stallguard_baseline = t.baseline;
  stallguard_warning_level = t.warning;
  stallguard_critical_level = t.critical;
  stallguard_calibration_speed_mm_s = c.manual_speed_mm_s;
  stallguard_enabled = 1;
}

save-refused :
    (build : Build) (c : DeviceConfig) (b : Board)
    → validate c ≡ false
    → (ConfigStore.save build c b).0.1 ≡ c
unfolding ConfigStore.save
save-refused build c b h = rw h refl

-- the sequence number and the checksum, which saving changes, do not matter to the validation
save-validate :
    (build : Build) (c : DeviceConfig) (b : Board)
    → validate (ConfigStore.save build c b).0.1 ≡ validate c
save-validate build c b = elim (Bool-cases (validate c)) [
  | inl good ↦
      let stored = (ConfigStore.save build c b).0.1 in
      ap validate (save-restamped build c b good) ∙ validate-restamped stored c good ∙ sym good
  | inr bad ↦ ap validate (save-refused build c b bad)
]

calibrated-validate :
    (c : DeviceConfig) (t : Thresholds)
    → validate c ≡ true
    → (0 < t.critical) × (t.critical < t.warning) × (t.warning < t.baseline)
    → (validate (calibrated c t) ≡ true) ↔ (0 < c.stallguard_filter_count)
unfolding validate bad_mechanics bad_stallguard currents_ok motion_ok travel_ok
calibrated-validate c t h order = ((λ e. ground arith), (λ e. ground arith))

-- A calibration that succeeds on valid settings leaves valid settings exactly if the length of the
-- filter is not 0, whatever the store says.
pub cal_finish-validate :
    (build : Build) (s : App) (b : Board) {t : Thresholds}
    → validate s.config ≡ true
    → (Calibration.finish s.sg_cal).1 ≡ some t
    → (validate (cal_finish build s b).0.config ≡ true) ↔ (0 < s.config.stallguard_filter_count)
unfolding cal_finish
cal_finish-validate build s b {t} h done =
    let order = finish-ordered s.sg_cal done in
    rw (done, save-validate build (calibrated s.config t) b)
      (calibrated-validate s.config t h (order.0, order.1, order.2))
