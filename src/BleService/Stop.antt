-- ===== src/BleService/Stop.antt =====
-- A stop that src/ble_service.c has accepted is not lost.
use epi_pico2w_seringue.Prelude.{
  ℕ, ◌≡◌, refl, true, false, not, ◌&&◌, Option, none, some, List, [], ◌∷◌, ◌++◌, All, ◌==◌,
  if_either, Bool-cases, inl, inr, arith,
}
use epi_pico2w_seringue.CommandApi.{Command, CommandKind}
use epi_pico2w_seringue.BleService.{
  Client, call, timer_restart, AttResult, Service, request_for, uart_reply, is_stop, queue_command,
  answer_or_queue, strip, ask, uart_command, receive, write_cb, state, command_complete,
  connection_complete, can_send_now, disconnection_complete, other, set_advertising_parameters,
  set_advertise_enable, other_opcode, send_chunk, advance, can_send, packet_handler,
  disconnect_from, idle_timeout, take_command,
}
use epi_pico2w_seringue.CString.{bytes}
use epi_pico2w_seringue.BleService.Receive.{with_part, receive_either}
use epi_pico2w_seringue.BleService.Run.{Input, write, event, timeout, fetch, step, run, take_around}

-- a stop is the command that waits
abbrev pub HasStop : Service → Type 0
HasStop s = (s.has_command ≡ true) × (s.pending.kind ≡ CommandKind.stop)

request_for-HasStop : (o : Option ℕ) (s : Service) → HasStop s → HasStop (request_for o s)
request_for-HasStop none s h = h
request_for-HasStop (some c) s h = h

uart_reply-HasStop : (t : List ℕ) (s : Service) → HasStop s → HasStop (uart_reply t s)
unfolding uart_reply
uart_reply-HasStop t s h = request_for-HasStop s.connection _ h

only_stop : (k : CommandKind) → is_stop k ≡ true → k ≡ CommandKind.stop
only_stop k h = ground arith

queue_command-HasStop :
    (o : Option Command) (s : Service) → HasStop s → HasStop (queue_command o s).1
unfolding queue_command
queue_command-HasStop none s h = uart_reply-HasStop (bytes "ERR COMMAND\n") s h
queue_command-HasStop (some c) s h = elim (Bool-cases (is_stop c.kind)) [
  | inl stop ↦
      let passes : (s.has_command && not (is_stop c.kind)) ≡ false = ground arith in
      rw passes (
        uart_reply-HasStop (bytes "OK QUEUED\n") (record s { pending = c; has_command = true })
          (refl, only_stop c.kind stop))
  | inr no_stop ↦
      let busy : (s.has_command && not (is_stop c.kind)) ≡ true = ground arith in
      rw busy (uart_reply-HasStop (bytes "ERR BUSY\n") s h)
]

answer_or_queue-HasStop :
    (client : Client) (text : List ℕ) (o : Option (List ℕ)) (s : Service)
    → HasStop s
    → HasStop (answer_or_queue client text o s).1
unfolding answer_or_queue
answer_or_queue-HasStop client text none s h = queue_command-HasStop (client.parse text) s h
answer_or_queue-HasStop client text (some t) s h = request_for-HasStop s.connection _ h

receive-HasStop :
    (client : Client) (buffer : List ℕ) (s : Service)
    → HasStop s
    → HasStop (receive client buffer s).1
unfolding uart_command
receive-HasStop client buffer s h =
    let line = s.uart_rx ++ buffer in
    let part = with_part buffer s in
    receive_either HasStop client buffer s
      (uart_reply-HasStop (bytes "ERR TOO_LONG\n") (record (call timer_restart s) { uart_rx = [] })
        h)
      (answer_or_queue-HasStop client (strip line) (ask client (strip line)) part h) h

can_send-HasStop : (o : Option ℕ) (mtu : ℕ) (s : Service) → HasStop s → HasStop (can_send o mtu s)
unfolding can_send send_chunk advance
can_send-HasStop none mtu s h = h
can_send-HasStop (some c) mtu s h =
    if_either HasStop s.notify_pending
      (if_either HasStop (advance c mtu s).notify_pending
        (request_for-HasStop (advance c mtu s).connection (advance c mtu s) h) h)
      h

disconnect_from-HasStop : (o : Option ℕ) (s : Service) → HasStop s → HasStop (disconnect_from o s)
disconnect_from-HasStop none s h = h
disconnect_from-HasStop (some c) s h = h

-- not the call that takes the command
abbrev pub IsOther : Input → Type 0
IsOther fetch = ⊥
IsOther _ = Unit

step-HasStop : (i : Input) (s : Service) → IsOther i → HasStop s → HasStop (step i s)
unfolding step write_cb packet_handler idle_timeout
step-HasStop (write client is_rx offset buffer) s o h =
    if_either (λ (r : AttResult × Service). HasStop r.1) (not (offset == 0)) h
      (if_either (λ (r : AttResult × Service). HasStop r.1) is_rx
        (receive-HasStop client buffer s h) h)
step-HasStop (event (state true)) s o h = h
step-HasStop (event (state false)) s o h = h
step-HasStop (event (command_complete set_advertising_parameters v)) s o h = h
step-HasStop (event (command_complete set_advertise_enable v)) s o h = h
step-HasStop (event (command_complete other_opcode v)) s o h = h
step-HasStop (event (connection_complete c)) s o h = h
step-HasStop (event (can_send_now mtu)) s o h = can_send-HasStop s.connection mtu s h
step-HasStop (event disconnection_complete) s o h = (refl, refl)
step-HasStop (event other) s o h = h
step-HasStop timeout s o h = disconnect_from-HasStop s.connection s h
step-HasStop fetch s o h = absurd o

pub run-HasStop : (is : List Input) (s : Service) → All IsOther is → HasStop s → HasStop (run is s)
unfolding run
run-HasStop [] s o h = h
run-HasStop (i ∷ is) s (o, os) h = run-HasStop is (step i s) os (step-HasStop i s o h)

take-HasStop :
    (s : Service)
    → HasStop s
    → (c : Command) × ((take_command s).0 ≡ some c) × (c.kind ≡ CommandKind.stop)
unfolding take_command
take-HasStop s (waits, stop) = rw waits (s.pending, refl, stop)

-- The end of a connection leaves a stop: whatever callbacks follow, with whatever lines, the next take
-- that runs undisturbed returns a stop.
pub take-disconnected :
    (is : List Input) (s : Service)
    → All IsOther is
    → (c : Command) × ((take_command (run is (packet_handler disconnection_complete s))).0 ≡ some c)
      × (c.kind ≡ CommandKind.stop)
unfolding packet_handler
take-disconnected is s others =
    take-HasStop (run is (packet_handler disconnection_complete s))
      (run-HasStop is (packet_handler disconnection_complete s) others (refl, refl))

-- `ble_service_take_command` is not protected from the interrupts of BTstack. If the end of the
-- connection comes between its two statements while a command waits, it returns that command, and the
-- stop that the end of the connection left is lost: no command waits, although the last one written is
-- the stop.
pub take_around-loses_stop :
    (s : Service)
    → s.has_command ≡ true
    → let (taken, after) = take_around (event disconnection_complete ∷ []) s in
      (taken ≡ some s.pending)
      × (after.has_command ≡ false)
      × (after.pending.kind ≡ CommandKind.stop)
unfolding take_around run step packet_handler
take_around-loses_stop s waits = rw waits (refl, refl, refl)
