-- ===== src/Tests/BleExamples.antt =====
-- The theorems on src/ble_service.c at concrete inputs.
use epi_pico2w_seringue.Prelude.{ℕ, ◌≡◌, refl, true, false, some, List, [], ◌∷◌, ◌++◌, drop, arith}
use epi_pico2w_seringue.CString.{bytes}
use epi_pico2w_seringue.CommandApi.{CommandKind}
use epi_pico2w_seringue.CommandApi.Ascii.{plain}
use epi_pico2w_seringue.BleService.{
  Service, initial, ends_line, write_cb, connection_complete, can_send_now, disconnection_complete,
}
use epi_pico2w_seringue.BleService.Run.{Input, write, event, fetch, run}
use epi_pico2w_seringue.BleService.Bounds.{IsBounded, run-IsBounded}
use epi_pico2w_seringue.BleService.Lines.{Same, write_parts, joined, write_parts_lem}
use epi_pico2w_seringue.BleService.Sent.{sent, can_sends, can_sends_lem}
use epi_pico2w_seringue.BleService.Firmware.{client, client-IsFitting}
use epi_pico2w_seringue.Tests.Lines.{whole, zero_text, facts}

-- a connection, a query, two reports that BTstack can send, and the end of the connection
session : List Input
session =
    event (connection_complete (some 64))
    ∷ write (client whole zero_text facts) true 0 (bytes "help\n")
    ∷ event (can_send_now 23)
    ∷ event (can_send_now 200)
    ∷ event disconnection_complete
    ∷ fetch
    ∷ []

run-IsBounded_example : IsBounded (run session initial)
unfolding session
run-IsBounded_example =
    run-IsBounded session (tt, (client-IsFitting whole zero_text facts, (tt, (tt, (tt, (tt, tt))))))

-- a service in a connection
abbrev linked : Service
linked = record initial { connection = some 64 }

abbrev halves : List (List ℕ)
unfolding bytes
halves = bytes "ST" ∷ bytes "O" ∷ []

write_parts_lem_example :
    Same
      (write_cb
        (client whole zero_text facts)
        true
        0
        (bytes "P\r\n")
        (write_parts (client whole zero_text facts) halves linked))
      (write_cb (client whole zero_text facts) true 0 (joined halves ++ bytes "P\r\n") linked)
unfolding halves bytes joined ends_line
write_parts_lem_example =
    write_parts_lem (client whole zero_text facts) halves (bytes "P\r\n") linked
      (((λ e. ground arith), refl), (((λ e. ground arith), refl), tt)) (λ e. ground arith) refl
      (omega arith)

-- an answer of ten bytes on its way
abbrev answering : Service
unfolding bytes
answering = record linked { uart_tx = bytes "OK QUEUED\n"; notify_pending = true }

can_sends_lem_example :
    ((can_sends (7 ∷ 7 ∷ 3 ∷ 7 ∷ 7 ∷ 7 ∷ 7 ∷ 7 ∷ 7 ∷ 7 ∷ []) answering).notify_pending ≡ false)
    × (sent (can_sends (7 ∷ 7 ∷ 3 ∷ 7 ∷ 7 ∷ 7 ∷ 7 ∷ 7 ∷ 7 ∷ 7 ∷ []) answering).calls
        ≡ sent answering.calls ++ drop answering.uart_tx_offset answering.uart_tx)
unfolding answering bytes
can_sends_lem_example =
    can_sends_lem (7 ∷ 7 ∷ 3 ∷ 7 ∷ 7 ∷ 7 ∷ 7 ∷ 7 ∷ 7 ∷ 7 ∷ []) answering 64 refl refl (omega arith)
      (omega arith) (omega arith) (omega arith)

-- a dose waits
abbrev loaded : Service
loaded = record linked { pending = plain CommandKind.dose; has_command = true }
