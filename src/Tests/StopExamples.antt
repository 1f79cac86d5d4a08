-- ===== src/Tests/StopExamples.antt =====
-- The theorems on the command queue, on the lines over USB, on a stop, and on the telemetry and its query at
-- concrete inputs.
use epi_pico2w_seringue.Prelude.{◌≡◌, refl, true, some, List, [], ◌∷◌, ◌++◌, arith}
use epi_pico2w_seringue.CString.{bytes, c_string, upper}
use epi_pico2w_seringue.CString.Words.{words}
use epi_pico2w_seringue.CommandApi.{Command, CommandKind}
use epi_pico2w_seringue.CommandApi.Ascii.{plain}
use epi_pico2w_seringue.BleService.{
  initial, disconnection_complete, packet_handler, connection_complete,
}
use epi_pico2w_seringue.BleService.Run.{event, run}
use epi_pico2w_seringue.CommandQueue.{submit_command, communicate}
use epi_pico2w_seringue.CommandQueue.Submitted.{submitted, submit_command_lem}
use epi_pico2w_seringue.UsbReader.{Reader, feeds}
use epi_pico2w_seringue.EmergencyStop.{IsHalted, firmware, disconnected-IsHalted, typed-IsHalted}
use epi_pico2w_seringue.App.Start.{loaded}
use epi_pico2w_seringue.App.Tick.{execute_all}
use epi_pico2w_seringue.Telemetry.{telemetry_line}
use epi_pico2w_seringue.Telemetry.Format.{telemetry, text_of}
use epi_pico2w_seringue.Telemetry.Room.{telemetry_line-whole}
use epi_pico2w_seringue.Tests.Data.{pico2w, idle, silent}
use epi_pico2w_seringue.Tests.Lines.{whole, zero_text, facts, list_queue, list_queue-IsQueue}

abbrev one_push : List Command
one_push = plain CommandKind.push_start ∷ []

submit_command_lem_example :
    submit_command list_queue (plain CommandKind.dose) one_push
    ≡ submitted (plain CommandKind.dose) one_push
submit_command_lem_example =
    submit_command_lem list_queue list_queue-IsQueue (plain CommandKind.dose) one_push

-- between two lines, with a push in the queue
abbrev reader : Reader (List Command)
reader = record { line = []; queue = one_push; printed = [] }

typed-IsHalted_example :
    ((feeds list_queue (firmware whole zero_text facts) (bytes "stop" ++ b'\n' ∷ []) reader).queue
      ≡ plain CommandKind.stop ∷ [])
    × IsHalted (
        execute_all pico2w idle 1000
          (feeds list_queue
            (firmware whole zero_text facts)
            (bytes "stop" ++ b'\n' ∷ [])
            reader).queue
          (silent 0))
unfolding bytes words c_string upper
typed-IsHalted_example =
    typed-IsHalted list_queue list_queue-IsQueue whole zero_text facts reader (bytes "stop") []
      pico2w idle 1000 (silent 0) refl (ground arith) (omega arith) (omega arith) refl

disconnected-IsHalted_example : IsHalted (
    execute_all pico2w idle 1000
      (communicate list_queue true
        (run
          (event (connection_complete (some 64)) ∷ [])
          (packet_handler disconnection_complete initial))
        one_push).1
      (silent 0))
disconnected-IsHalted_example =
    disconnected-IsHalted list_queue list_queue-IsQueue (event (connection_complete (some 64)) ∷ [])
      initial one_push pico2w idle 1000 (silent 0) (tt, tt)

telemetry_line-whole_example :
    telemetry_line pico2w facts.radio idle.telemetry_snapshot
    ≡ text_of (telemetry pico2w facts.radio idle.telemetry_snapshot) ++ b'\n' ∷ []
unfolding bytes loaded
telemetry_line-whole_example =
    telemetry_line-whole pico2w facts.radio idle.telemetry_snapshot (omega arith)
