-- ===== src/Telemetry.antt =====
-- The telemetry text of src/app_tasks.c: `append_text`, `append_uint`, `append_fixed3` and
-- `format_telemetry`. A text is the list of its bytes, without the closing zero.
pub mod Text
pub mod Format
pub mod Room
use epi_pico2w_seringue.Prelude.{
  ℕ, zero, suc, ◌+◌, ◌-◌, ◌/◌, ◌%◌, Bool, true, false, List, [], ◌∷◌, ◌++◌, ltb, ◌==◌,
  if◌then◌else◌,
}
use epi_pico2w_seringue.CString.{bytes}
use epi_pico2w_seringue.Float.{Float, binary32, of_ℕ, decimal, neg, ltf, add, mul, to_u32}
use epi_pico2w_seringue.AppState
use epi_pico2w_seringue.Flash.{Build}
use epi_pico2w_seringue.Safety.{Load, load_normal, load_high, stall_warning, stall_error}
use epi_pico2w_seringue.App.{TelemetrySnapshot}

-- the buffer: the bytes before `*out`, and `left`
pub record Buffer : Type 0 where
  pub text : List ℕ
  pub left : ℕ

-- `append_text`; the zero that it writes at the end lies in the bytes that are left
unfoldable pub append_text : List ℕ → Buffer → Buffer
append_text [] o = o
append_text (c ∷ cs) o =
    let rest = append_text cs (record { text = o.text ++ c ∷ []; left = o.left - 1 }) in
    if ltb 1 o.left then rest else o

-- the digits of a number, lowest first, as the first loop of `append_uint` leaves them in its array
unfoldable pub digits : ℕ → ℕ → List ℕ
digits zero v = []
digits (suc n) v =
    let rest = digits n (v / 10) in (48 + v % 10) ∷ (if v / 10 == 0 then [] else rest)

-- the array read from the top down
unfoldable pub downwards : List ℕ → List ℕ
downwards [] = []
downwards (d ∷ ds) = downwards ds ++ d ∷ []

-- `append_uint`, with its array of ten
unfoldable pub append_uint : ℕ → Buffer → Buffer
unfolding append_text digits downwards
append_uint v o = append_text (downwards (digits 10 v)) o

-- `(uint32_t)(value*1000.0f+0.5f)` at the value without its sign
unfoldable pub scaled : Float → ℕ
unfolding of_ℕ decimal neg ltf add mul to_u32
scaled x =
    let magnitude = if ltf x (of_ℕ binary32 0) then neg x else x in
    to_u32 binary32
      (add binary32 (mul binary32 magnitude (of_ℕ binary32 1000)) (decimal binary32 1 2))

-- `append_fixed3`
unfoldable pub append_fixed3 : Float → Buffer → Buffer
unfolding scaled bytes append_uint
append_fixed3 x o =
    let f = scaled x % 1000 in
    let signed = if ltf x (of_ℕ binary32 0) then append_text (bytes "-") o else o in
    let pointed = append_text (bytes ".") (append_uint (scaled x / 1000) signed) in
    let hundreds = if ltb f 100 then append_text (bytes "0") pointed else pointed in
    let tens = if ltb f 10 then append_text (bytes "0") hundreds else hundreds in append_uint f tens

-- the enumerators of `load_state_t`
unfoldable pub load_code : Load → ℕ
load_code load_normal = 0
load_code load_high = 1
load_code stall_warning = 2
load_code stall_error = 3

-- `x?"true":"false"`
unfoldable pub truth : Bool → List ℕ
unfolding bytes
truth x = if x then bytes "true" else bytes "false"

-- what the radio adds: `radio_ready`, and the results of the two calls of ble_service.c
pub record Radio : Type 0 where
  pub ready : Bool
  pub operational : Bool
  pub advertising_status : ℕ

infixl 4 ◌▷◌
abbrev pub ◌▷◌ : Buffer → (Buffer → Buffer) → Buffer
o ▷ f = f o

-- the lines between `#if DISPENSER_HAS_RADIO` and `#endif`
unfoldable pub append_radio : Radio → Buffer → Buffer
unfolding append_text append_uint truth bytes
append_radio r o =
    o
    ▷ append_text (bytes ",\"radio_ready\":")
    ▷ append_text (truth r.ready)
    ▷ append_text (bytes ",\"ble_operational\":")
    ▷ append_text (truth r.operational)
    ▷ append_text (bytes ",\"ble_adv_status\":")
    ▷ append_uint r.advertising_status

-- `format_telemetry`
unfoldable pub format_telemetry : Build → Radio → ℕ → TelemetrySnapshot → Buffer
unfolding append_fixed3 append_radio load_code AppState.name
format_telemetry build r capacity s =
    let o : Buffer = record { text = []; left = capacity } in
    o
    ▷ append_text (bytes "{\"state\":\"")
    ▷ append_text (bytes (AppState.name s.state))
    ▷ append_text (bytes "\",\"position_mm\":")
    ▷ append_fixed3 s.position_mm
    ▷ append_text (bytes ",\"remaining_course_mm\":")
    ▷ append_fixed3 s.remaining_mm
    ▷ append_text (bytes ",\"used_course_mm\":")
    ▷ append_fixed3 s.used_mm
    ▷ append_text (bytes ",\"activation_count\":")
    ▷ append_uint s.activation_count
    ▷ append_text (bytes ",\"unload_result\":\"")
    ▷ append_text (bytes s.unload_result)
    ▷ append_text (bytes "\",\"sg_result\":")
    ▷ append_uint s.sg_result
    ▷ append_text (bytes ",\"load\":")
    ▷ append_uint (load_code s.load)
    ▷ append_text (bytes ",\"sg_calibrating\":")
    ▷ append_text (truth s.sg_calibrating)
    ▷ append_text (bytes ",\"sg_samples\":")
    ▷ append_uint s.sg_samples
    ▷ append_text (bytes ",\"trigger_dose_mm\":")
    ▷ append_fixed3 s.trigger_dose_mm
    ▷ append_text (bytes ",\"radio_available\":")
    ▷ append_text (truth build.has_radio)
    ▷ (λ o. if build.has_radio then append_radio r o else o)
    ▷ append_text (bytes ",\"fault\":")
    ▷ append_uint s.fault
    ▷ append_text (bytes "}")

-- `TELEMETRY_SIZE`
abbrev pub telemetry_size : ℕ
telemetry_size = 448

-- what a round of `telemetry_task` prints, with the end of the line that `puts` adds
unfoldable pub telemetry_line : Build → Radio → TelemetrySnapshot → List ℕ
unfolding format_telemetry
telemetry_line build r s = (format_telemetry build r telemetry_size s).text ++ b'\n' ∷ []
