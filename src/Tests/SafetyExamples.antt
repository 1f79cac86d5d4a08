-- ===== src/Tests/SafetyExamples.antt =====
-- The theorems on src/safety.c, src/stallguard_calibration.c and src/buttons.c at concrete inputs.
use epi_pico2w_seringue.Prelude.{
  ℕ, suc, zero, ◌/◌, ◌<◌, ◌≡◌, refl, ◌↔◌, true, false, List, [], ◌∷◌, arith, some, none, ltb,
  if◌then◌else◌,
}
use epi_pico2w_seringue.Prelude.Int.{pos}
use epi_pico2w_seringue.Float.{lef}
use epi_pico2w_seringue.Buttons
use epi_pico2w_seringue.Buttons.{Debounced, debounce}
use epi_pico2w_seringue.Buttons.Debounce
use epi_pico2w_seringue.Buttons.Debounce.{Call, run-glitch, run-held, duration}
use epi_pico2w_seringue.Calibration
use epi_pico2w_seringue.Calibration.{Thresholds, start, finish}
use epi_pico2w_seringue.Calibration.Average.{add_all, count, total, thresholds, finish-add_all}
use epi_pico2w_seringue.DeviceConfig.{DeviceConfig, defaults, float}
use epi_pico2w_seringue.Safety
use epi_pico2w_seringue.Safety.{Safety, Inputs, check, manual_started, stall, ok, timeout}
use epi_pico2w_seringue.Safety.Latch
use epi_pico2w_seringue.Safety.Latch.{IsClear, run-latched, check-ok-IsClear}
use epi_pico2w_seringue.Safety.Run.{IsValid, check-IsValid}
use epi_pico2w_seringue.Safety.Stall
use epi_pico2w_seringue.Safety.Stall.{IsCritical, check-stall_at_filter_count, check-timeout_iff}
use epi_pico2w_seringue.Tests.Data.{pressed}

-- stall detection on, with a filter of two samples
abbrev guarded : DeviceConfig
guarded = record defaults {
  stallguard_enabled = 1;
  stallguard_baseline = 300;
  stallguard_warning_level = 200;
  stallguard_critical_level = 100;
  stallguard_filter_count = 2;
}

-- a dose in the middle of the travel with the load value `sg`
abbrev dosing_at : ℕ → Inputs
dosing_at sg = record {
  conflict = false;
  timed_motion = false;
  stallguard_motion = true;
  now = 5000;
  drv_status = sg;
  spi_ok = true;
  position_mm = float 10;
  direction = pos 1;
}

-- a manual push at the time `now`
abbrev pushing_at : ℕ → Inputs
pushing_at now = record (dosing_at 500) { timed_motion = true; now = now }

abbrev watching : Safety
watching = Safety.init

dosing-IsCritical : IsCritical 0 guarded (dosing_at 40)
unfolding Safety.beyond lef defaults
dosing-IsCritical = record {
  no_conflict = refl;
  spi_answers = refl;
  cool = refl;
  in_time = refl;
  in_travel = refl;
  moving = refl;
  low = omega arith;
}

stall_at_filter_count_example :
    (check
      (Safety.Stall.run guarded (record watching { sg_filtered = 60 }) (dosing_at 40 ∷ []))
      guarded
      (dosing_at 40)).1
    ≡ stall
unfolding Safety.init
stall_at_filter_count_example =
    check-stall_at_filter_count 0 guarded (λ e. omega arith) (omega arith) (omega arith)
      (record watching { sg_filtered = 60 }) (dosing_at 40 ∷ []) (dosing_at 40) (omega arith)
      (record { not_faulted = refl; average = omega arith; count = refl; start = refl })
      (dosing-IsCritical, tt) dosing-IsCritical

-- across the turn of the clock
check-timeout_iff_example :
    ((check (manual_started watching 4294967000) defaults (pushing_at 30000)).1 ≡ timeout)
    ↔ (30000 < 30296)
unfolding Safety.init defaults
check-timeout_iff_example =
    check-timeout_iff watching defaults (pushing_at 30000) 4294967000 30296 (omega arith) refl refl
      refl refl refl refl

-- a conflict is reported, and then every check reports it
abbrev conflicting : Inputs
conflicting = record (dosing_at 900) { conflict = true }

run-latched_example :
    let (t, f) = check watching guarded conflicting in
    (check (Safety.Latch.run t ((guarded, dosing_at 900) ∷ [])) guarded (dosing_at 900) ≡ (t, f))
unfolding check Safety.init
run-latched_example =
    run-latched watching guarded conflicting ((guarded, dosing_at 900) ∷ []) guarded (dosing_at 900)
      (λ e. cc)

check-IsValid_example : IsValid 2 (check watching guarded (dosing_at 40)).0
unfolding Safety.init
check-IsValid_example =
    check-IsValid watching guarded (dosing_at 40) (omega arith) (omega arith) (record {
      average = omega arith;
      below = λ e. omega arith;
      counted = omega arith;
      error_faulted = λ e. cc;
      stall_shown = λ e. cc;
    })

-- `n` samples of 60
abbrev sixties : ℕ → List ℕ
sixties zero = []
sixties (suc n) = 60 ∷ sixties n

finish-add_all_example : (finish (add_all start (sixties 3))).1 ≡ (
    if ltb (count (sixties 3)) 100
    then none
    else if ltb (total (sixties 3) / count (sixties 3)) 40
    then none
    else some (thresholds (total (sixties 3) / count (sixties 3))))
finish-add_all_example = finish-add_all (sixties 3) (omega arith)

abbrev hundred : Calibration.Calibration
hundred = record { active = true; samples = 100; sum = 6000; minimum = 60; maximum = 60 }

run-glitch_example :
    (Buttons.Debounce.run pressed 1000 ((false, 5) ∷ (true, 5) ∷ (false, 15) ∷ [])).stable ≡ true
unfolding duration
run-glitch_example =
    run-glitch pressed 1000 ((false, 5) ∷ (true, 5) ∷ (false, 15) ∷ []) refl (omega arith)

run-held_example :
    (Buttons.Debounce.run
      (debounce pressed false 1000)
      1000
      ((false, 5) ∷ (false, 5) ∷ (false, 25) ∷ [])).stable
    ≡ false
unfolding duration
run-held_example =
    run-held false pressed 1000 ((false, 5) ∷ (false, 5) ∷ (false, 25) ∷ []) (λ e. cc)
      (refl, (refl, (refl, tt))) (omega arith) (omega arith)
