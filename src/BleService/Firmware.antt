-- ===== src/BleService/Firmware.antt =====
-- What src/ble_service.c calls in the firmware: `app_tasks_format_query` with its buffer, and
-- `command_parse_ascii`.
use epi_pico2w_seringue.Prelude.{ℕ, List}
use epi_pico2w_seringue.Float.{Float}
use epi_pico2w_seringue.CommandApi.Ascii.{parse_ascii}
use epi_pico2w_seringue.Query.{Facts, format_query}
use epi_pico2w_seringue.Query.Answers.{format_query-fits}
use epi_pico2w_seringue.BleService.{Client, tx_size}
use epi_pico2w_seringue.BleService.Run.{IsFitting}

abbrev pub client : (List ℕ → Float) → (Float → List ℕ) → Facts → Client
client strtof three_decimals facts = record {
  answer = format_query three_decimals facts tx_size;
  parse = parse_ascii strtof;
}

-- the answers fit in the buffer of the service
pub client-IsFitting :
    (strtof : List ℕ → Float) (three_decimals : Float → List ℕ) (facts : Facts)
    → IsFitting (client strtof three_decimals facts)
client-IsFitting strtof three_decimals facts q t h =
    format_query-fits three_decimals facts tx_size q t h
