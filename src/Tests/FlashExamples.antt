-- ===== src/Tests/FlashExamples.antt =====
-- The theorems on what is read back from the flash, and on the LED, at concrete inputs.
use epi_pico2w_seringue.Prelude.{
  ℕ, ◌+◌, ◌-◌, ◌<◌, ◌≡◌, refl, inr, true, false, List, [], ◌∷◌, length, ◌&&◌, leb, ltb,
  if◌then◌else◌, arith,
}
use epi_pico2w_seringue.Board.{Act, Board, flash_range_erase, flash_range_program}
use epi_pico2w_seringue.ConfigStore.{load, save, factory_reset}
use epi_pico2w_seringue.ConfigStore.Page.{IsTyped}
use epi_pico2w_seringue.ConfigStore.Typed.{defaults-IsTyped}
use epi_pico2w_seringue.ConfigStore.Reset.{load-blank, load-factory_reset}
use epi_pico2w_seringue.ConfigStore.RoundTrip.{load-save}
use epi_pico2w_seringue.DeviceConfig.{
  defaults, float, validate, bad_mechanics, bad_microsteps, bad_threshold, in_range, bad_stallguard,
  currents_ok, motion_ok, travel_ok,
}
use epi_pico2w_seringue.CommandApi.{CommandKind, ConfigParam}
use epi_pico2w_seringue.App.Settings.{apply_config_value, refused, with_value, motor_config_of}
use epi_pico2w_seringue.App.Consistent.Runs.{run as start_run}
use epi_pico2w_seringue.App.Start.{loaded}
use epi_pico2w_seringue.App.Tick.{Period}
use epi_pico2w_seringue.App.Persisted.{apply_config_value-load}
use epi_pico2w_seringue.Float.Bits.RoundTrip.{IsSingle}
use epi_pico2w_seringue.Motor.{config_valid}
use epi_pico2w_seringue.Flash.Bytes.{byte_in}
use epi_pico2w_seringue.Flash.Writes.{touches, IsFlash, IsNor}
use epi_pico2w_seringue.Float.{of_ℕ, decimal, to_u32, trunc, eqf, ltf, lef, is_finite}
use epi_pico2w_seringue.Statistics.{cleared, increment, persist, init}
use epi_pico2w_seringue.Statistics.Restart.{IsWorking, Remembers, blank-Remembers, init-run}
use epi_pico2w_seringue.Statistics.Runs.{Operation, run}
use epi_pico2w_seringue.StatusLed.{Led, led_task}
use epi_pico2w_seringue.StatusLed.Blink.{at_rest, shown, led_task-blinks}
use epi_pico2w_seringue.Tests.Host.{defaults_valid}
use epi_pico2w_seringue.Tests.Data.{pico2w, silent, idle, busy_period, command}

-- the flash after a log, from a flash that is erased
abbrev nor_flash : List Act → ℕ → ℕ
nor_flash [] at = 255
nor_flash (flash_range_erase o n ∷ log) at =
    if leb o at && ltb at (o + n) then 255 else nor_flash log at
nor_flash (flash_range_program o page ∷ log) at =
    if leb o at && ltb at (o + length page) then byte_in page (at - o) else nor_flash log at
nor_flash (_ ∷ log) at = nor_flash log at

abbrev erased_board : Board
erased_board = record (silent 0) { flash = nor_flash }

nor_flash-keeps :
    (a : Act) (log : List Act) (at : ℕ)
    → touches a at ≡ false
    → nor_flash (a ∷ log) at ≡ nor_flash log at
unfolding touches
nor_flash-keeps (flash_range_erase o n) log at h = rw h
nor_flash-keeps (flash_range_program o page) log at h = rw h
nor_flash-keeps a log at h = refl

erased_board-IsFlash : IsFlash erased_board
erased_board-IsFlash = record { keeps = nor_flash-keeps }

nor_flash-programs :
    (o : ℕ) (page : List ℕ) (log : List Act) (i : ℕ)
    → i < length page
    → nor_flash (flash_range_program o page ∷ log) (o + i) ≡ byte_in page i
nor_flash-programs o page log i h =
    let place : o + i - o ≡ i = omega arith in
    let inside : (leb o (o + i) && ltb (o + i) (o + length page)) ≡ true = ground arith in
    rw (inside, place)

erased_board-IsNor : IsNor erased_board
unfolding touches
erased_board-IsNor = record {
  erases = λ o n log at h. rw h;
  programs = λ o page log i h old. nor_flash-programs o page log i h;
}

blank_load : load pico2w (erased_board.flash []) ≡ (false, defaults)
blank_load = load-blank pico2w (nor_flash []) (λ i lt. refl) (λ i lt. refl)

blank_room : (load pico2w (erased_board.flash [])).1.sequence < 4294967295
unfolding defaults
blank_room = rw blank_load (omega arith)

defaults_saved : (save pico2w defaults erased_board).0.0 ≡ true
unfolding save
defaults_saved = rw defaults_valid refl

load-save_example :
    let ((ok, saved), b') = save pico2w defaults erased_board in
    (load pico2w (b'.flash b'.log) ≡ (true, saved))
    × (saved ≡ record defaults {
      sequence = (load pico2w (erased_board.flash [])).1.sequence + 1;
      crc = saved.crc;
    })
load-save_example =
    load-save pico2w defaults erased_board erased_board-IsFlash erased_board-IsNor defaults-IsTyped
      defaults_valid blank_room defaults_saved

load-factory_reset_example :
    let b' = (factory_reset pico2w erased_board).1 in
    load pico2w (b'.flash b'.log) ≡ (false, defaults)
unfolding factory_reset
load-factory_reset_example = load-factory_reset pico2w erased_board erased_board-IsNor refl

erased_board-IsWorking : IsWorking erased_board
erased_board-IsWorking = record {
  flash = erased_board-IsFlash;
  nor = erased_board-IsNor;
  grants = λ log. refl;
}

erased_board-Remembers : Remembers pico2w erased_board cleared
erased_board-Remembers = blank-Remembers pico2w erased_board (λ at low high. refl)

-- one activation, written
abbrev counted_once : List Operation
counted_once = Operation.counted ∷ Operation.persisted ∷ []

counted_once-clean : (run pico2w cleared counted_once erased_board).0.dirty ≡ false
unfolding run persist increment
counted_once-clean = refl

init-run_example :
    let (st', b') = run pico2w cleared counted_once erased_board in
    init pico2w (b'.flash b'.log) ≡ st'
init-run_example =
    init-run pico2w counted_once cleared erased_board erased_board-IsWorking (1018, refl)
      erased_board-Remembers (omega arith) counted_once-clean

set_timeout_ok :
    (apply_config_value pico2w idle ConfigParam.manual_timeout_ms (float 9000) erased_board).0.0
    ≡ true
unfolding apply_config_value refused with_value validate bad_mechanics bad_microsteps bad_threshold
    bad_stallguard currents_ok motion_ok in_range travel_ok config_valid motor_config_of save loaded
    defaults float of_ℕ decimal to_u32 trunc eqf ltf lef is_finite
set_timeout_ok = refl

idle-IsTyped : IsTyped idle.config
unfolding loaded
idle-IsTyped = defaults-IsTyped

nine_seconds-IsSingle : IsSingle (float 9000)
unfolding float of_ℕ
nine_seconds-IsSingle = inr (139, 827392, omega arith, omega arith, refl)

apply_config_value-load_example :
    let ((ok, t), b') =
      apply_config_value pico2w idle ConfigParam.manual_timeout_ms (float 9000) erased_board in
    load pico2w (b'.flash b'.log) ≡ (true, t.config)
apply_config_value-load_example =
    apply_config_value-load pico2w idle ConfigParam.manual_timeout_ms (float 9000) erased_board
      erased_board-IsFlash erased_board-IsNor idle-IsTyped nine_seconds-IsSingle blank_room
      set_timeout_ok

-- a command that sets the timeout, in one control period
abbrev setting_period : Period
setting_period = record busy_period {
  commands =
      record (command CommandKind.set_config) {
        parameter = ConfigParam.manual_timeout_ms;
        value = float 9000;
      }
      ∷ [];
}

-- an LED that changes just before the clock wraps
abbrev lit : Led
lit = record { available = true; level = false; changed_ms = 4294967000 }

-- thirteen rounds: three changes, and one round more
led_task-blinks_example :
    let (l', b') = led_task lit 4294967025 (at_rest true 13) (silent 0) in
    (l' ≡ record { available = true; level = true; changed_ms = 4 }) × (shown b'.log ≡ true)
led_task-blinks_example =
    led_task-blinks true 3 1 lit (silent 0) (omega arith) refl (omega arith) refl
