-- ===== src/Query.antt =====
-- `app_tasks_format_query` of src/app_tasks.c, for VERSION, STATUS, CONFIG and HELP. `three_decimals` is
-- what the C library prints for "%.3f".
pub mod Answers
pub mod Status
use Prim.Native.String.{String}
use epi_pico2w_seringue.Prelude.{
  ℕ, suc, ◌-◌, Bool, true, false, Option, none, some, List, [], ◌∷◌, ◌++◌, map, length, take, ltb,
  if◌then◌else◌,
}
use epi_pico2w_seringue.Prelude.Int.{ℤ, pos, negsuc}
use epi_pico2w_seringue.CString.{bytes, lower, same}
use epi_pico2w_seringue.Float.{Float, widen}
use epi_pico2w_seringue.Flash.{Build}
use epi_pico2w_seringue.DeviceConfig.{DeviceConfig}
use epi_pico2w_seringue.App.{TelemetrySnapshot}
use epi_pico2w_seringue.Telemetry.{Radio, digits, downwards, format_telemetry}

-- `!strcasecmp(a,b)`
unfoldable pub same_letters : List ℕ → List ℕ → Bool
unfolding same lower
same_letters a b = same (map lower a) (map lower b)

-- "%u" and "%lu" at a number of 32 bits, "%d" at one of 8 bits
unfoldable unsigned : ℕ → List ℕ
unfolding digits downwards
unsigned v = downwards (digits 10 v)

unfoldable signed : ℤ → List ℕ
unfolding unsigned bytes
signed (pos n) = unsigned n
signed (negsuc n) = bytes "-" ++ unsigned (suc n)

-- `snprintf(response,capacity,...)` at the whole text
abbrev pub cut : ℕ → List ℕ → List ℕ
unfolding take
cut capacity text = take (capacity - 1) text

abbrev pub version_text : List ℕ
unfolding bytes
version_text = bytes "PasteDispenser 1.6.0\nOK\n"

abbrev pub help_text : List ℕ
unfolding bytes
help_text =
    bytes "PasteDispenser 1.6.0\nHELP | VERSION | STATUS | CONFIG\n"
    ++ bytes "PUSH | PULL | STOP | DOSE [mm] [mm/s] [retract_mm]\n"
    ++ bytes "MOVE <mm> [mm/s] | UNLOAD [mm/s] | ZERO | FAULTRESET | RESET\n"
    ++ bytes "SET <parameter> <value> | SGCAL START|FINISH|CANCEL | FLUSH\nOK\n"

-- a name, an equals sign and a value
entry : String → List ℕ → List ℕ
unfolding bytes
entry name value = bytes " " ++ bytes name ++ bytes "=" ++ value

unfoldable pub config_text : (Float → List ℕ) → DeviceConfig → List ℕ
unfolding entry unsigned signed bytes widen
config_text three_decimals c =
    let fixed : Float → List ℕ = λ x. three_decimals (widen x) in
    bytes "CONFIG"
    ++ entry "version" (unsigned c.version)
    ++ entry "screw_pitch_mm" (fixed c.screw_pitch_mm)
    ++ entry "motor_steps_per_rev" (unsigned c.motor_steps_per_rev)
    ++ entry "microsteps" (unsigned c.microsteps)
    ++ entry "motor_run_current_mA" (unsigned c.motor_run_current_ma)
    ++ entry "motor_hold_current_mA" (unsigned c.motor_hold_current_ma)
    ++ entry "manual_speed_mm_s" (fixed c.manual_speed_mm_s)
    ++ entry "dosing_speed_mm_s" (fixed c.dosing_speed_mm_s)
    ++ entry "trigger_dose_mm" (fixed c.trigger_dose_mm)
    ++ entry "a1_mm_s2" (fixed c.a1_mm_s2)
    ++ entry "amax_mm_s2" (fixed c.amax_mm_s2)
    ++ entry "dmax_mm_s2" (fixed c.dmax_mm_s2)
    ++ entry "d1_mm_s2" (fixed c.d1_mm_s2)
    ++ entry "retract_distance_mm" (fixed c.retract_distance_mm)
    ++ entry "retract_speed_mm_s" (fixed c.retract_speed_mm_s)
    ++ entry "retract_delay_ms" (unsigned c.retract_delay_ms)
    ++ entry "position_min_mm" (fixed c.position_min_mm)
    ++ entry "position_max_mm" (fixed c.position_max_mm)
    ++ entry "manual_timeout_ms" (unsigned c.manual_timeout_ms)
    ++ entry "stallguard_threshold" (signed c.stallguard_threshold)
    ++ entry "stallguard_warning_level" (unsigned c.stallguard_warning_level)
    ++ entry "stallguard_critical_level" (unsigned c.stallguard_critical_level)
    ++ entry "stallguard_filter_count" (unsigned c.stallguard_filter_count)
    ++ entry "stallguard_enabled" (unsigned c.stallguard_enabled)
    ++ bytes "\nOK\n"

-- what the answers are made of: the snapshot, the radio, and the settings
pub record Facts : Type 0 where
  pub build : Build
  pub radio : Radio
  pub snapshot : TelemetrySnapshot
  pub config : DeviceConfig

-- STATUS: the telemetry, and "OK" where there is room for it
unfoldable pub status_text : Facts → ℕ → List ℕ
unfolding format_telemetry take bytes
status_text f capacity =
    let response = (format_telemetry f.build f.radio capacity f.snapshot).text in
    response ++ cut (capacity - length response) (bytes "\nOK\n")

-- `app_tasks_format_query`: none for false
unfoldable pub format_query : (Float → List ℕ) → Facts → ℕ → List ℕ → Option (List ℕ)
unfolding same_letters config_text status_text take bytes
format_query three_decimals f capacity command =
    if ltb capacity 2
    then none
    else if same_letters command (bytes "VERSION")
    then some (cut capacity version_text)
    else if same_letters command (bytes "STATUS")
    then some (status_text f capacity)
    else if same_letters command (bytes "CONFIG")
    then some (cut capacity (config_text three_decimals f.config))
    else if same_letters command (bytes "HELP")
    then some (cut capacity help_text)
    else none
