-- ===== src/Tests/TelemetryExamples.antt =====
-- The theorems on the telemetry text of src/app_tasks.c at concrete inputs.
use epi_pico2w_seringue.Prelude.{true, false}
use epi_pico2w_seringue.Telemetry.{Radio}

abbrev radio : Radio
radio = record { ready = true; operational = false; advertising_status = 0 }
