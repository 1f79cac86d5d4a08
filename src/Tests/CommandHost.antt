-- ===== src/Tests/CommandHost.antt =====
-- The assertions of tests/test_main.c on the parsers of src/command_api.c, with whole numbers.
use epi_pico2w_seringue.Prelude.{◌≡◌, refl, some}
use epi_pico2w_seringue.CString.{bytes, strchr}
use epi_pico2w_seringue.CommandApi.{CommandKind, ConfigParam, no_command}
use epi_pico2w_seringue.CommandApi.Names.{same_name}
use epi_pico2w_seringue.CommandApi.Ascii.{plain, parse_ascii, zero_f, minus_one}
use epi_pico2w_seringue.CommandApi.Ascii.Grammar.{dose_command, set_command}
use epi_pico2w_seringue.CommandApi.Json.{parse_json}
use epi_pico2w_seringue.DeviceConfig.{float}
use epi_pico2w_seringue.Tests.Lines.{whole}

dose_json :
    parse_json whole (bytes "{\"command\":\"dose\",\"distance_mm\":8,\"speed_mm_s\":5}")
    ≡ some (dose_command (float 8) (float 5) zero_f)
unfolding parse_json bytes whole float strchr
dose_json = refl

trigger_json :
    parse_json whole (bytes "{\"command\":\"set_trigger_dose\",\"distance_mm\":1}")
    ≡ some (record no_command { kind = CommandKind.set_trigger_dose; distance_mm = float 1 })
unfolding parse_json bytes whole float strchr
trigger_json = refl

flush_json :
    parse_json whole (bytes "{\"command\":\"flush_statistics\"}")
    ≡ some (plain CommandKind.flush_statistics)
unfolding parse_json bytes whole
flush_json = refl

-- the end of the parameter's name is taken for the key of the speed, which set_config does not use
set_json :
    parse_json whole
      (bytes "{\"command\":\"set_config\",\"parameter\":\"dosing_speed_mm_s\",\"value\":4}")
    ≡ some (record (set_command ConfigParam.dosing_speed_mm_s (float 4)) { speed_mm_s = float 4 })
unfolding parse_json bytes whole float strchr same_name
set_json = refl

dose_line :
    parse_ascii whole (bytes "DOSE 8 4 1") ≡ some (dose_command (float 8) (float 4) (float 1))
unfolding parse_ascii bytes whole float
dose_line = refl

default_dose_line : parse_ascii whole (bytes "DOSE") ≡ some (dose_command zero_f zero_f minus_one)
unfolding parse_ascii bytes
default_dose_line = refl

set_line :
    parse_ascii whole (bytes "set motor_run_current_mA 900")
    ≡ some (set_command ConfigParam.run_current_ma (float 900))
unfolding parse_ascii bytes whole float same_name
set_line = refl

amax_line :
    parse_ascii whole (bytes "SET AMAX_MM_S2 250")
    ≡ some (set_command ConfigParam.amax_mm_s2 (float 250))
unfolding parse_ascii bytes whole float same_name
amax_line = refl

reset_line : parse_ascii whole (bytes "RESET") ≡ some (plain CommandKind.reboot)
unfolding parse_ascii bytes
reset_line = refl

bootsel_line : parse_ascii whole (bytes "BOOTSEL") ≡ some (plain CommandKind.bootsel)
unfolding parse_ascii bytes
bootsel_line = refl
