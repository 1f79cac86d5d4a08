-- ===== src/BleService.antt =====
-- src/ble_service.c: the commands and answers of the Nordic UART service. The functions of BTstack are
-- calls of the log; what BTstack reports is in the arguments. `read_cb`, which answers a constant and
-- changes nothing, is in BleService/Advertise. Every callback runs to its end before the next one, and so
-- does `ble_service_take_command` but for `take_around` of BleService/Run.
pub mod Run
pub mod Receive
pub mod Transmit
pub mod Sent
pub mod Bounds
pub mod Lines
pub mod Stop
pub mod Firmware
pub mod Advertise
use epi_pico2w_seringue.Prelude.{
  ℕ, zero, suc, ◌+◌, ◌-◌, ◌%◌, Bool, true, false, not, ◌&&◌, ◌||◌, Option, none, some, List, [],
  ◌∷◌, ◌++◌, length, take, drop, ltb, leb, ◌==◌, bit_or, bit_xor, if◌then◌else◌,
}
use epi_pico2w_seringue.CString.{bytes, c_string}
use epi_pico2w_seringue.CommandApi.{Command, CommandKind, no_command}

-- what the service calls in the other files: `app_tasks_format_query` with a buffer of 768 bytes, and
-- `command_parse_ascii`
pub record Client : Type 0 where
  pub answer : List ℕ → Option (List ℕ)
  pub parse : List ℕ → Option Command

-- the functions of BTstack that it calls; `advertise` is `gap_advertisements_enable(1)`, `set_up` the
-- three calls before it, `start_stack` the calls of `ble_service_init` from `l2cap_init` on
pub data Call : Type 0 where
  request_can_send_now : ℕ → Call
  notify : ℕ → List ℕ → Call
  timer_remove timer_restart set_up advertise : Call
  disconnect : ℕ → Call
  start_stack : List ℕ → Call

-- The static variables; `connection` is none for HCI_CON_HANDLE_INVALID, `uart_rx` holds the first
-- `uart_rx_len` bytes of its array, `uart_tx` the first `uart_tx_len`. `calls` is the log.
pub record Service : Type 0 where
  pub connection : Option ℕ
  pub operational : Bool
  pub adv_params_status : ℕ
  pub adv_enable_status : ℕ
  pub pending : Command
  pub has_command : Bool
  pub uart_rx : List ℕ
  pub uart_tx : List ℕ
  pub uart_tx_offset : ℕ
  pub notify_pending : Bool
  pub calls : List Call

abbrev pub rx_size : ℕ
rx_size = 112

abbrev pub tx_size : ℕ
tx_size = 768

abbrev pub initial : Service
initial = record {
  connection = none;
  operational = false;
  adv_params_status = 255;
  adv_enable_status = 255;
  pending = no_command;
  has_command = false;
  uart_rx = [];
  uart_tx = [];
  uart_tx_offset = 0;
  notify_pending = false;
  calls = [];
}

abbrev pub call : Call → Service → Service
call c s = record s { calls = s.calls ++ c ∷ [] }

-- `if(connection!=HCI_CON_HANDLE_INVALID)att_server_request_can_send_now_event(connection)`
abbrev pub request_for : Option ℕ → Service → Service
request_for none s = s
request_for (some c) s = call (request_can_send_now c) s

abbrev pub request : Service → Service
request s = request_for s.connection s

-- an answer of this text: the lines that follow the copy into `uart_tx`
abbrev pub send : List ℕ → Service → Service
send t s = request (record s { uart_tx = t; uart_tx_offset = 0; notify_pending = true })

-- `uart_reply`
unfoldable pub uart_reply : List ℕ → Service → Service
unfolding take
uart_reply text s =
    let n = if leb tx_size (length text) then tx_size - 1 else length text in send (take n text) s

-- what a write returns to BTstack: 0 or one of the ATT errors
pub data AttResult : Type 0 where
  ok invalid_offset invalid_length value_not_allowed write_rejected : AttResult

abbrev pub is_end : ℕ → Bool
is_end c = c == b'\r' || c == b'\n'

abbrev is_empty : List ℕ → Bool
is_empty [] = true
is_empty (_ ∷ _) = false

-- `while(length&&(text[length-1]=='\r'||text[length-1]=='\n'))length--`
unfoldable pub strip : List ℕ → List ℕ
strip [] = []
strip (c ∷ cs) = let rest = strip cs in if is_empty rest && is_end c then [] else c ∷ rest

abbrev pub is_stop : CommandKind → Bool
is_stop CommandKind.stop = true
is_stop _ = false

-- the command, after the parser
unfoldable pub queue_command : Option Command → Service → AttResult × Service
unfolding uart_reply bytes
queue_command none s = (value_not_allowed, uart_reply (bytes "ERR COMMAND\n") s)
queue_command (some c) s =
    if s.has_command && not (is_stop c.kind)
    then (write_rejected, uart_reply (bytes "ERR BUSY\n") s)
    else (ok, uart_reply (bytes "OK QUEUED\n") (record s { pending = c; has_command = true }))

-- the query, if the text fits in its array
unfoldable pub ask : Client → List ℕ → Option (List ℕ)
unfolding c_string
ask client text = if ltb (length text) 112 then client.answer (c_string text) else none

unfoldable pub answer_or_queue : Client → List ℕ → Option (List ℕ) → Service → AttResult × Service
unfolding queue_command
answer_or_queue client text (some t) s = (ok, send t s)
answer_or_queue client text none s = queue_command (client.parse text) s

-- `uart_command`
unfoldable pub uart_command : Client → List ℕ → Service → AttResult × Service
unfolding strip ask answer_or_queue
uart_command client text s = answer_or_queue client (strip text) (ask client (strip text)) s

-- the last byte ends a line
unfoldable pub ends_line : List ℕ → Bool
ends_line [] = false
ends_line (c ∷ []) = is_end c
ends_line (c ∷ d ∷ cs) = ends_line (d ∷ cs)

-- the branch of the RX characteristic in `write_cb`
unfoldable pub receive : Client → List ℕ → Service → AttResult × Service
unfolding uart_reply uart_command ends_line bytes
receive client buffer s =
    let s = call timer_restart s in
    if length buffer == 0 || leb rx_size (length s.uart_rx + length buffer)
    then (invalid_length, uart_reply (bytes "ERR TOO_LONG\n") (record s { uart_rx = [] }))
    else (let s = record s { uart_rx = s.uart_rx ++ buffer } in
        let (result, after) = uart_command client s.uart_rx s in
        if ends_line s.uart_rx then (result, record after { uart_rx = [] }) else (ok, s))

-- `write_cb`; `is_rx`: the handle is that of the RX characteristic
unfoldable pub write_cb : Client → Bool → ℕ → List ℕ → Service → AttResult × Service
unfolding receive
write_cb client is_rx offset buffer s =
    if not (offset == 0)
    then (invalid_offset, s)
    else if is_rx
    then receive client buffer s
    else (ok, s)

-- the opcodes of the two commands whose status is kept, and every other one
pub data Opcode : Type 0 where
  set_advertising_parameters set_advertise_enable other_opcode : Opcode

-- what `packet_handler` is called with
pub data Event : Type 0 where
  -- BTSTACK_EVENT_STATE; true for HCI_STATE_WORKING
  state : Bool → Event
  command_complete : Opcode → ℕ → Event
  -- the subevent GAP_SUBEVENT_LE_CONNECTION_COMPLETE with its handle
  connection_complete : Option ℕ → Event
  -- ATT_EVENT_CAN_SEND_NOW, with what `att_server_get_mtu` returns
  can_send_now : ℕ → Event
  disconnection_complete : Event
  -- other types, events and subevents
  other : Event

-- the next part of an answer: `chunk`
abbrev pub chunk_size : ℕ → Service → ℕ
chunk_size mtu s =
    let left = (length s.uart_tx + 65536 - s.uart_tx_offset) % 65536 in
    let chunk = if ltb 3 mtu then mtu - 3 else 20 in if ltb left chunk then left else chunk

-- the next part is given to BTstack
unfoldable pub advance : ℕ → ℕ → Service → Service
unfolding take drop
advance c mtu s =
    let chunk = chunk_size mtu s in
    let s = call timer_restart (call (notify c (take chunk (drop s.uart_tx_offset s.uart_tx))) s) in
    let offset = (s.uart_tx_offset + chunk) % 65536 in
    record s { uart_tx_offset = offset; notify_pending = ltb offset (length s.uart_tx) }

-- ATT_EVENT_CAN_SEND_NOW in a connection with an answer on its way
unfoldable pub send_chunk : ℕ → ℕ → Service → Service
unfolding advance
send_chunk c mtu s = let s = advance c mtu s in if s.notify_pending then request s else s

unfoldable pub can_send : Option ℕ → ℕ → Service → Service
unfolding send_chunk
can_send none mtu s = s
can_send (some c) mtu s = let sent = send_chunk c mtu s in if s.notify_pending then sent else s

-- `packet_handler`
unfoldable pub packet_handler : Event → Service → Service
unfolding can_send
packet_handler (state true) s = record (call advertise (call set_up s)) { operational = true }
packet_handler (state false) s = s
packet_handler (command_complete set_advertising_parameters status) s = record s {
  adv_params_status = status;
}
packet_handler (command_complete set_advertise_enable status) s = record s {
  adv_enable_status = status;
}
packet_handler (command_complete other_opcode status) s = s
packet_handler (connection_complete c) s = call timer_restart (record s { connection = c })
packet_handler (can_send_now mtu) s = can_send s.connection mtu s
packet_handler disconnection_complete s = call advertise (record (call timer_remove s) {
  connection = none;
  uart_rx = [];
  notify_pending = false;
  pending = record no_command { kind = CommandKind.stop };
  has_command = true;
})
packet_handler other s = s

-- `idle_timeout`
abbrev pub disconnect_from : Option ℕ → Service → Service
disconnect_from none s = s
disconnect_from (some c) s = call (disconnect c) s

unfoldable pub idle_timeout : Service → Service
idle_timeout s = disconnect_from s.connection s

-- the static random address from the eight bytes of the board's number
unfoldable pub random_address : List ℕ → List ℕ
random_address (_ ∷ _ ∷ a ∷ b ∷ c ∷ d ∷ e ∷ f ∷ []) =
    bit_or a 192 ∷ b ∷ c ∷ d ∷ e ∷ bit_xor f 1 ∷ []
random_address _ = []

-- `ble_service_init`, at the result of `cyw43_arch_init` and the board's number
unfoldable pub init : ℕ → List ℕ → Service → Bool × Service
unfolding random_address
init failed id s =
    if not (failed == 0) then (false, s) else (true, call (start_stack (random_address id)) s)

-- `ble_service_take_command`
unfoldable pub take_command : Service → Option Command × Service
take_command s =
    if s.has_command then (some s.pending, record s { has_command = false }) else (none, s)

-- `ble_service_connected` and `ble_service_advertising_status`
unfoldable pub connected : Service → Bool
connected s = elim s.connection [ none ↦ false | some _ ↦ true ]

unfoldable pub advertising_status : Service → ℕ
advertising_status s = if s.adv_params_status == 0 then s.adv_enable_status else s.adv_params_status
