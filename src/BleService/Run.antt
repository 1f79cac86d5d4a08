-- ===== src/BleService/Run.antt =====
-- Sequences of what happens to src/ble_service.c: callbacks of BTstack, and calls of the other tasks.
use epi_pico2w_seringue.Prelude.{
  ℕ, ◌≡◌, ◌<◌, Bool, false, Option, none, some, if◌then◌else◌, List, [], ◌∷◌, length,
}
use epi_pico2w_seringue.CommandApi.{Command}
use epi_pico2w_seringue.BleService.{
  Client, Service, Event, tx_size, write_cb, packet_handler, idle_timeout, take_command,
}

pub data Input : Type 0 where
  -- with what the other files answer at that moment
  write : Client → Bool → ℕ → List ℕ → Input
  event : Event → Input
  timeout fetch : Input

unfoldable pub step : Input → Service → Service
unfolding write_cb packet_handler idle_timeout take_command
step (write client is_rx offset buffer) s = (write_cb client is_rx offset buffer s).1
step (event e) s = packet_handler e s
step timeout s = idle_timeout s
step fetch s = (take_command s).1

unfoldable pub run : List Input → Service → Service
unfolding step
run [] s = s
run (i ∷ is) s = run is (step i s)

-- every answer to a query fits in the buffer with its closing zero
abbrev pub IsFitting : Client → Type 0
IsFitting client = (q t : List ℕ) → client.answer q ≡ some t → length t < tx_size

abbrev pub HasFitting : Input → Type 0
HasFitting (write client is_rx offset buffer) = IsFitting client
HasFitting _ = Unit

-- `ble_service_take_command` with what the interrupts of BTstack do between the copy of the command
-- and the statement behind it
unfoldable pub take_around : List Input → Service → Option Command × Service
unfolding run
take_around between s =
    if s.has_command
    then (some s.pending, record (run between s) { has_command = false })
    else (none, s)
