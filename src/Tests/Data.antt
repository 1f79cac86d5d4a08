-- ===== src/Tests/Data.antt =====
-- Concrete boards, states and settings for the witnesses.
use epi_pico2w_seringue.Prelude.{
  ℕ, zero, suc, ◌-◌, true, false, List, [], ◌∷◌, ◌++◌, leb, if◌then◌else◌,
}
use epi_pico2w_seringue.AppState
use epi_pico2w_seringue.AppState.{Machine}
use epi_pico2w_seringue.Board.{Board, granted}
use epi_pico2w_seringue.Buttons
use epi_pico2w_seringue.Buttons.{Buttons, Debounced}
use epi_pico2w_seringue.CommandApi.{Command, CommandKind, ConfigParam}
use epi_pico2w_seringue.DeviceConfig.{defaults, float}
use epi_pico2w_seringue.ConfigStore.{config_head, store_offset}
use epi_pico2w_seringue.Crc.{crc32}
use epi_pico2w_seringue.Flash.{Build, image}
use epi_pico2w_seringue.Statistics
use epi_pico2w_seringue.App.{App}
use epi_pico2w_seringue.App.Start.{loaded}
use epi_pico2w_seringue.App.Tick.{Locals, Period}

-- a Pico 2 W with 4 MB of flash
abbrev pub pico2w : Build
pico2w = record { flash_size = 4194304; a2_supported = false; has_radio = true }

-- every SPI byte reads as `x`, and the flash as zero
abbrev pub silent : ℕ → Board
silent x = record {
  log = [];
  answer = λ log. record { b0 = x; b1 = x; b2 = x; b3 = x; b4 = x };
  grant = λ log. granted;
  flash = λ log at. 0;
}

-- the state with the default settings
abbrev pub idle : App
idle = loaded pico2w defaults Statistics.cleared

abbrev pub faulted : App
faulted = record idle { machine = record { state = AppState.fault; fault_code = 2 } }

abbrev pub locals : Locals
locals = record {
  old = record { push = false; pull = false; dose = false; conflict = false };
  conflict_since = 0;
  last_status = 0;
}

abbrev pub command : CommandKind → Command
command k = record {
  kind = k;
  parameter = ConfigParam.none;
  distance_mm = float 1;
  speed_mm_s = float 1;
  retract_mm = float 0;
  value = float 0;
}

-- a period with the PUSH contact closed and two commands waiting
abbrev pub busy_period : Period
busy_period = record {
  now = 1000;
  levels = record { push_level = false; pull_level = true; dose_level = true };
  commands = command CommandKind.push_start ∷ command CommandKind.sg_cal_cancel ∷ [];
}

abbrev pub pressed : Debounced
pressed = record { stable = true; sample = true; changed = 0 }

-- PUSH and PULL closed for long
abbrev pub both_pressed : App
both_pressed = record idle {
  buttons = record Buttons.at_start { push_button = pressed; pull_button = pressed };
}

-- a period with PUSH and PULL closed and no command
abbrev pub conflict_period : Period
conflict_period = record {
  now = 1000;
  levels = record { push_level = false; pull_level = false; dose_level = true };
  commands = [];
}

-- the byte of a list, and 0 beyond it
unfoldable pub byte_of_list : List ℕ → ℕ → ℕ
byte_of_list [] i = 0
byte_of_list (x ∷ xs) zero = x
byte_of_list (x ∷ xs) (suc i) = byte_of_list xs i

-- the default settings as they are saved
abbrev pub saved_defaults : List ℕ
saved_defaults = config_head defaults ++ image ((4, crc32 (config_head defaults)) ∷ [])

-- a flash that holds them in the first sector of the store, and zero elsewhere
abbrev pub with_settings : Board
with_settings = record (silent 0) {
  flash = λ log at.
      if leb (store_offset pico2w) at
      then byte_of_list saved_defaults (at - store_offset pico2w)
      else 0;
}
